-- ===== src/Security/Capabilities.antt =====
-- The capability options of src/security.rs. A `BTreeSet` is its elements in ascending order.
use zerun.Prelude.{
  ℕ, zero, suc, ◌+◌, ◌-◌, ◌^◌, Bool, true, false, ◌&&◌, ◌||◌, not, Option, none, some, List, [],
  ◌∷◌, ◌++◌, Text, Result, ok, err, ◌>>=◌, ◌>>◌, require, codes, text_eq, if◌then◌else◌, ltb, leb,
  ◌==◌, any, retain, map, split, trim, is_empty, is_lower, strip_prefix, parse_uint, parse_digits,
}
use zerun.Prelude.Int.{ℤ, pos, negsuc, parse_i32}
use zerun.Prelude.Decimal.{decimal}
pub mod Resolve
pub mod Names
mod Examples

-- `CAPABILITY_NAMES`
abbrev pub capability_names : List Text
capability_names =
    codes "CHOWN"
    ∷ codes "DAC_OVERRIDE"
    ∷ codes "DAC_READ_SEARCH"
    ∷ codes "FOWNER"
    ∷ codes "FSETID"
    ∷ codes "KILL"
    ∷ codes "SETGID"
    ∷ codes "SETUID"
    ∷ codes "SETPCAP"
    ∷ codes "LINUX_IMMUTABLE"
    ∷ codes "NET_BIND_SERVICE"
    ∷ codes "NET_BROADCAST"
    ∷ codes "NET_ADMIN"
    ∷ codes "NET_RAW"
    ∷ codes "IPC_LOCK"
    ∷ codes "IPC_OWNER"
    ∷ codes "SYS_MODULE"
    ∷ codes "SYS_RAWIO"
    ∷ codes "SYS_CHROOT"
    ∷ codes "SYS_PTRACE"
    ∷ codes "SYS_PACCT"
    ∷ codes "SYS_ADMIN"
    ∷ codes "SYS_BOOT"
    ∷ codes "SYS_NICE"
    ∷ codes "SYS_RESOURCE"
    ∷ codes "SYS_TIME"
    ∷ codes "SYS_TTY_CONFIG"
    ∷ codes "MKNOD"
    ∷ codes "LEASE"
    ∷ codes "AUDIT_WRITE"
    ∷ codes "AUDIT_CONTROL"
    ∷ codes "SETFCAP"
    ∷ codes "MAC_OVERRIDE"
    ∷ codes "MAC_ADMIN"
    ∷ codes "SYSLOG"
    ∷ codes "WAKE_ALARM"
    ∷ codes "BLOCK_SUSPEND"
    ∷ codes "AUDIT_READ"
    ∷ codes "PERFMON"
    ∷ codes "BPF"
    ∷ codes "CHECKPOINT_RESTORE"
    ∷ []

-- `DEFAULT_CAPS` as a set
abbrev pub default_caps : List ℕ
default_caps = 0 ∷ 1 ∷ 3 ∷ 4 ∷ 5 ∷ 6 ∷ 7 ∷ 8 ∷ 10 ∷ 18 ∷ 27 ∷ 29 ∷ 31 ∷ []

pub data CapabilityRequest : Type 0 where
  all_caps : CapabilityRequest
  named : ℕ → CapabilityRequest

pub data CapError : Type 0 where
  invalid_list : Text → CapError
  invalid_capability : Text → CapError
  outside_range : Text → CapError
  unknown_capability : Text → CapError
  not_supported : ℕ → CapError
  all_in_exact_set : CapError

abbrev pub to_upper : ℕ → ℕ
to_upper c = if is_lower c then c - 32 else c

-- `iter().position(p)`
abbrev pub next_index : Option ℕ → Option ℕ
next_index none = none
next_index (some i) = some (suc i)

pub position : Text → List Text → Option ℕ
position name [] = none
position name (x ∷ xs) =
    let later = next_index (position name xs) in if text_eq x name then some 0 else later

-- The capability behind a prefix, by number or by name.
pub request_named : Text → Text → Result CapError CapabilityRequest
request_named raw name = elim (parse_i32 name) [
  | some (pos n) ↦ if leb n 63 then ok (named n) else err (outside_range raw)
  | some (negsuc n) ↦ err (outside_range raw)
  | none ↦ elim (position name capability_names) [
    | none ↦ err (unknown_capability raw)
    | some n ↦ ok (named n)
  ]
]

abbrev pub without_prefix : Text → Text
without_prefix value = elim (strip_prefix (codes "CAP_") value) [ none ↦ value | some name ↦ name ]

pub parse_request : Text → Result CapError CapabilityRequest
parse_request raw =
    let value = map to_upper (trim raw) in
    let name = without_prefix value in
    if text_eq value (codes "ALL")
    then ok all_caps
    else if is_empty name
    then err (invalid_capability raw)
    else request_named raw name

-- The derived order: `All` before every `Named`.
pub insert_request : CapabilityRequest → List CapabilityRequest → List CapabilityRequest
insert_request r [] = r ∷ []
insert_request all_caps (all_caps ∷ rs) = all_caps ∷ rs
insert_request all_caps (named d ∷ rs) = all_caps ∷ named d ∷ rs
insert_request (named c) (all_caps ∷ rs) = all_caps ∷ insert_request (named c) rs
insert_request (named c) (named d ∷ rs) =
    let later = insert_request (named c) rs in
    if ltb c d then named c ∷ named d ∷ rs else if c == d then named d ∷ rs else named d ∷ later

pub collect_requests : List Text → Result CapError (List CapabilityRequest)
collect_requests [] = ok []
collect_requests (v ∷ vs) = do
  r ← parse_request v
  rest ← collect_requests vs
  ok (insert_request r rest)

pub parse_requests : Text → Result CapError (List CapabilityRequest)
parse_requests raw =
    let values = split b',' raw in
    if any (λ v. is_empty (trim v)) values then err (invalid_list raw) else collect_requests values

abbrev pub extend_requests :
    List CapabilityRequest → List CapabilityRequest → List CapabilityRequest
extend_requests [] set = set
extend_requests (r ∷ rs) set = insert_request r (extend_requests rs set)

pub parse_requests_many : List Text → Result CapError (List CapabilityRequest)
parse_requests_many [] = ok []
parse_requests_many (v ∷ vs) = do
  requests ← parse_requests v
  rest ← parse_requests_many vs
  ok (extend_requests requests rest)

-- `CAPABILITY_NAMES.get(cap)`
pub get_name : ℕ → List Text → Option Text
get_name n [] = none
get_name zero (x ∷ xs) = some x
get_name (suc n) (x ∷ xs) = get_name n xs

pub capability_name : ℕ → Text
capability_name cap = elim (get_name cap capability_names) [
  | none ↦ codes "CAP_" ++ decimal cap
  | some name ↦ codes "CAP_" ++ name
]

abbrev pub request_name : CapabilityRequest → Text
request_name all_caps = codes "ALL"
request_name (named cap) = capability_name cap

pub parse_capability_list : Text → Result CapError (List Text)
parse_capability_list raw = do requests ← parse_requests raw; ok (map request_name requests)

abbrev pub ensure_supported : ℕ → ℕ → Result CapError (Unit {0})
ensure_supported cap last = require (not (ltb last cap)) (not_supported cap)

-- `BTreeSet<i32>`
abbrev pub contains : ℕ → List ℕ → Bool
contains c caps = any (λ d. d == c) caps

pub insert_cap : ℕ → List ℕ → List ℕ
insert_cap c [] = c ∷ []
insert_cap c (d ∷ ds) =
    let later = insert_cap c ds in
    if ltb c d then c ∷ d ∷ ds else if c == d then d ∷ ds else d ∷ later

pub remove_cap : ℕ → List ℕ → List ℕ
remove_cap c caps = retain (λ d. not (d == c)) caps

-- `extend(0..=last)`, from the last to the first
pub insert_up_to : ℕ → List ℕ → List ℕ
insert_up_to zero caps = insert_cap 0 caps
insert_up_to (suc n) caps = insert_up_to n (insert_cap (suc n) caps)

pub apply_drops : ℕ → List CapabilityRequest → List ℕ → Result CapError (List ℕ)
apply_drops last [] caps = ok caps
apply_drops last (all_caps ∷ rs) caps = apply_drops last rs []
apply_drops last (named c ∷ rs) caps =
    ensure_supported c last >> apply_drops last rs (remove_cap c caps)

pub apply_adds : ℕ → List CapabilityRequest → List ℕ → Result CapError (List ℕ)
apply_adds last [] caps = ok caps
apply_adds last (all_caps ∷ rs) caps = apply_adds last rs (insert_up_to last caps)
apply_adds last (named c ∷ rs) caps =
    ensure_supported c last >> apply_adds last rs (insert_cap c caps)

-- `cap_last_cap().min(63)`
abbrev pub last_of : ℕ → ℕ
last_of kernel_last = if ltb kernel_last 63 then kernel_last else 63

-- `CapabilitySet::resolve`; `kernel_last` is what the kernel reports.
pub resolve : ℕ → List Text → List Text → Result CapError (List ℕ)
resolve kernel_last add_values drop_values = do
  adds ← parse_requests_many add_values
  drops ← parse_requests_many drop_values
  dropped ← apply_drops (last_of kernel_last) drops default_caps
  apply_adds (last_of kernel_last) adds dropped

pub insert_exact : ℕ → List CapabilityRequest → List ℕ → Result CapError (List ℕ)
insert_exact last [] caps = ok caps
insert_exact last (all_caps ∷ rs) caps = err all_in_exact_set
insert_exact last (named c ∷ rs) caps =
    ensure_supported c last >> insert_exact last rs (insert_cap c caps)

-- `CapabilitySet::from_names`
pub from_names : ℕ → List Text → Result CapError (List ℕ)
from_names kernel_last values = do
  requests ← parse_requests_many values
  insert_exact (last_of kernel_last) requests []

-- `CapabilitySet::names`
pub names : List ℕ → List Text
names caps = map capability_name caps
