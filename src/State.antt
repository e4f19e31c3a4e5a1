-- ===== src/State.antt =====
-- src/state.rs: the records of containers, one `state.json` per id, and their lookup.
use zerun.Prelude.{
  ℕ, zero, suc, Bool, true, false, ◌&&◌, ◌||◌, not, Option, none, some, List, [], ◌∷◌, ◌++◌, Text,
  Result, ok, err, codes, text_eq, text_lt, if◌then◌else◌, ltb, leb, ◌==◌, all, find, retain,
  length, starts_with, byte_len, is_alphanumeric, is_hexdigit, between,
}
use zerun.Prelude.Int.{ℤ, pos, negsuc}
use zerun.Prelude.Dict.{Dict}
use zerun.Prelude.Decimal.{decimal}
pub mod Records
pub mod Lookup
mod Examples

pub data Status : Type 0 where
  created running exited : Status

pub record ContainerMetrics : Type 0 where
  pub memory_bytes : Option ℕ
  pub memory_peak_bytes : Option ℕ
  pub cpu_usage_usec : Option ℕ
  pub pids : Option ℕ
  pub io_read_bytes : Option ℕ
  pub io_write_bytes : Option ℕ

-- A cgroup is the components of its path. The fields that the modelled code reads or writes; `rest` stands for the others, which it copies.
pub record ContainerState (Rest : Type 0) : Type 0 where
  pub id : Text
  pub name : Option Text
  pub image : Text
  pub pid : Option ℤ
  pub pid_start_time : Option ℕ
  pub status : Status
  pub paused : Bool
  pub exit_code : Option ℤ
  pub created : Text
  pub started : Option Text
  pub finished : Option Text
  pub net : Text
  pub log : Text
  pub labels : Dict Text
  pub table : Option Text
  pub veth : Option Text
  pub cgroup : Option (List Text)
  pub metrics : Option ContainerMetrics
  pub rest : Rest

-- A character outside ASCII is refused here as its bytes are.
unfoldable pub valid_name : Text → Bool
valid_name [] = false
valid_name (c ∷ s) =
    leb (byte_len (c ∷ s)) 128
    && (is_alphanumeric c
        && all (λ d. is_alphanumeric d || (d == b'_' || (d == b'.' || d == b'-'))) s)

unfoldable pub valid_id : Text → Bool
valid_id id = between 1 64 (byte_len id) && all is_hexdigit id

abbrev pub integer : ℤ → Text
integer (pos n) = decimal n
integer (negsuc n) = b'-' ∷ decimal (suc n)

unfoldable pub status_label : {Rest : Type 0} → ContainerState Rest → Text
status_label s = elim s.status [
  | running ↦ if s.paused then codes "Up (Paused)" else codes "Up"
  | exited ↦ codes "Exited (" ++ (integer (exit_of s.exit_code) ++ codes ")")
  | created ↦ codes "Created"
]
  where
    exit_of : Option ℤ → ℤ
    exit_of none = negsuc 0
    exit_of (some code) = code

-- `exists` is `kill(pid, 0)`, and `start_time` reads `/proc/<pid>/stat`.
unfoldable pub pid_alive :
    {Rest : Type 0} → (ℤ → Bool) → (ℤ → Option ℕ) → ContainerState Rest → Bool
pid_alive exists start_time s = alive s.pid
  where
    same_start : Option ℕ → Option ℕ → Bool
    same_start none found = true
    same_start (some expected) none = false
    same_start (some expected) (some found) = found == expected

    alive : Option ℤ → Bool
    alive none = false
    alive (some (negsuc n)) = false
    alive (some (pos zero)) = false
    alive (some (pos (suc n))) =
        exists (pos (suc n)) && same_start s.pid_start_time (start_time (pos (suc n)))

pub data StateError : Type 0 where
  invalid_id : Text → StateError
  write_failed : StateError

-- The `state.json` of each directory under `containers`, where it exists and can be read.
abbrev pub StateFiles : Type 0 → Type 0
StateFiles Bytes = Text → Option Bytes

abbrev pub with_log : {Rest : Type 0} → Text → ContainerState Rest → ContainerState Rest
with_log path s = record s { log = path }

-- `encode` and `decode` are serde_json's; `log_path` is the canonical path of the console log.
module _ {Rest Bytes : Type 0} (encode : ContainerState Rest → Bytes)
    (decode : Bytes → Option (ContainerState Rest)) (log_path : Text → Text) where
  abbrev pub accept : Text → Option (ContainerState Rest) → Option (ContainerState Rest)
  accept id none = none
  accept id (some s) =
      if not (text_eq s.id id) || not (valid_id s.id) then none else some (with_log (log_path id) s)

  abbrev pub parse_file : Text → Option Bytes → Option (ContainerState Rest)
  parse_file id none = none
  parse_file id (some bytes) = accept id (decode bytes)

  -- `ContainerState::load`
  unfoldable pub load : StateFiles Bytes → Text → Option (ContainerState Rest)
  load files id = if valid_id id then parse_file id (files id) else none

  -- `ContainerState::save`; `writable` says whether the atomic replacement succeeds.
  unfoldable pub save :
      Bool
      → StateFiles Bytes
      → ContainerState Rest
      → Result StateError (Unit {0}) × StateFiles Bytes
  save writable files s =
      let written : StateFiles Bytes =
        λ id. if text_eq s.id id then some (encode (with_log (log_path s.id) s)) else files id in
      if not (valid_id s.id)
      then (err (invalid_id s.id), files)
      else if writable
      then (ok tt, written)
      else (err write_failed, files)

  -- The stable sort by the time of creation, newest first.
  unfoldable pub insert_newest :
      ContainerState Rest → List (ContainerState Rest) → List (ContainerState Rest)
  insert_newest s [] = s ∷ []
  insert_newest s (x ∷ xs) =
      let later = insert_newest s xs in
      if text_lt s.created x.created then x ∷ later else s ∷ x ∷ xs

  abbrev pub add_listed :
      Option (ContainerState Rest) → List (ContainerState Rest) → List (ContainerState Rest)
  add_listed none states = states
  add_listed (some s) states = insert_newest s states

  -- `list`, over the names of the directories under `containers`.
  unfoldable pub list : StateFiles Bytes → List Text → List (ContainerState Rest)
  list files [] = []
  list files (d ∷ ds) = add_listed (load files d) (list files ds)

  abbrev pub has_name : Text → ContainerState Rest → Bool
  has_name arg s = elim s.name [ none ↦ false | some name ↦ text_eq name arg ]

  pub data ResolveError : Type 0 where
    no_such_container : Text → ResolveError
    ambiguous : Text → ℕ → ResolveError

  abbrev pub only : Text → List (ContainerState Rest) → Result ResolveError (ContainerState Rest)
  only arg [] = err (no_such_container arg)
  only arg (s ∷ []) = ok s
  only arg (s ∷ t ∷ ts) = err (ambiguous arg (length (s ∷ t ∷ ts)))

  abbrev pub by_prefix :
      Text → List (ContainerState Rest) → Result ResolveError (ContainerState Rest)
  by_prefix arg states = only arg (retain (λ s. starts_with arg s.id) states)

  -- `resolve`
  unfoldable pub resolve :
      StateFiles Bytes → List Text → Text → Result ResolveError (ContainerState Rest)
  resolve files dirs arg = elim (load files arg) [
    | some s ↦ ok s
    | none ↦ elim (find (has_name arg) (list files dirs)) [
      | some s ↦ ok s
      | none ↦ by_prefix arg (list files dirs)
    ]
  ]
