-- ===== src/Network/Ipam.antt =====
-- The file-based address management of src/network.rs: `container_ip`, `validate_ipam`,
-- `allocate_ip` and `release_ip`, over `<run>/net/ipam.json`.
use Prim.Native.Nat.{bit_and, bit_xor}
use mathlib.Core.List.{foldl}
use zerun.Prelude.{
  ℕ, zero, suc, ◌+◌, ◌*◌, ◌%◌, ◌^◌, Bool, true, false, ◌&&◌, not, Option, none, some, List, [], ◌∷◌,
  Text, Result, ok, err, ◌>>=◌, ◌>>◌, require, ◌==◌, between, if◌then◌else◌, all, find, byte_len,
  bytes, is_hexdigit,
}
use zerun.Prelude.Dict
use zerun.Prelude.Dict.{Dict, values}
pub mod Valid
pub mod Allocate
mod Examples

pub data Ipv4Addr : Type 0 where
  ipv4 : ℕ → ℕ → ℕ → ℕ → Ipv4Addr

abbrev pub ip_eq : Ipv4Addr → Ipv4Addr → Bool
ip_eq (ipv4 a b c d) (ipv4 a' b' c' d') = a == a' && (b == b' && (c == c' && d == d'))

-- `taken.contains(&ip)` and `addresses.insert(ip)`
abbrev pub contains_ip : Ipv4Addr → List Ipv4Addr → Bool
contains_ip ip [] = false
contains_ip ip (x ∷ xs) = if ip_eq x ip then true else contains_ip ip xs

pub data IpamError : Type 0 where
  invalid_id : Text → IpamError
  outside_subnet : Ipv4Addr → Text → IpamError
  duplicate_address : Ipv4Addr → IpamError
  lock_failed read_failed parse_failed write_failed exhausted : IpamError

-- FNV-1a over the bytes of the id, in `u32`.
fnv_step : ℕ → ℕ → ℕ
fnv_step hash b = bit_xor hash b * 0x01000193 % 2 ^ 32

pub container_ip : Text → Ipv4Addr
unfolding fnv_step
container_ip id =
    let hash = foldl fnv_step 0x811c9dc5 (bytes id) in
    ipv4 10 88 0 ((2 + bit_and hash 0x00ffffff % 253) % 256)

unfoldable pub validate_ipam_id : Text → Result IpamError (Unit {0})
validate_ipam_id id = require (between 1 64 (byte_len id) && all is_hexdigit id) (invalid_id id)

abbrev pub in_subnet : Ipv4Addr → Bool
in_subnet (ipv4 a b c d) = (a == 10 && (b == 88 && c == 0)) && between 2 254 d

pub validate_entries : List Ipv4Addr → Dict Ipv4Addr → Result IpamError (Unit {0})
validate_entries addresses [] = ok tt
validate_entries addresses ((id, ip) ∷ m) = do
  validate_ipam_id id
  require (in_subnet ip) (outside_subnet ip id)
  require (not (contains_ip ip addresses)) (duplicate_address ip)
  validate_entries (ip ∷ addresses) m

pub validate_ipam : Dict Ipv4Addr → Result IpamError (Unit {0})
validate_ipam m = validate_entries [] m

-- `(2u16..=254).map(..).find(..)`
abbrev pub host_ip : ℕ → Ipv4Addr
host_ip h = ipv4 10 88 0 (h % 256)

abbrev pub count_up : ℕ → ℕ → List ℕ
count_up zero h = []
count_up (suc n) h = h ∷ count_up n (h + 1)

pub first_free : List Ipv4Addr → List ℕ → Option Ipv4Addr
first_free taken [] = none
first_free taken (h ∷ hs) =
    let rest = first_free taken hs in
    if contains_ip (host_ip h) taken then rest else some (host_ip h)

abbrev pub host_range : List ℕ
host_range = count_up 253 2

pub choose_ip : Text → List Ipv4Addr → Result IpamError Ipv4Addr
choose_ip id taken =
    let preferred = container_ip id in
    if contains_ip preferred taken
    then elim (first_free taken host_range) [ none ↦ err exhausted | some ip ↦ ok ip ]
    else ok preferred

-- What the file system does during one call: whether the lock is granted, whether an existing file
-- can be read, and whether the atomic replacement succeeds.
pub record Env : Type 0 where
  pub lock : Bool
  pub readable : Bool
  pub writable : Bool

-- The file is missing or holds bytes; `encode` and `decode` are serde_json's.
pub read_ipam :
    {Bytes : Type 0}
    → (Bytes → Option (Dict Ipv4Addr))
    → Env
    → Option Bytes
    → Result IpamError (Dict Ipv4Addr)
read_ipam decode env none = ok []
read_ipam decode env (some file) =
    if env.readable
    then elim (decode file) [ none ↦ err parse_failed | some m ↦ (validate_ipam m >>= λ _. ok m) ]
    else err read_failed

-- The reply, and the file after the call.
pub write_ipam :
    {Bytes A : Type 0}
    → (Dict Ipv4Addr → Bytes)
    → Env
    → Option Bytes
    → Dict Ipv4Addr
    → A
    → Result IpamError A × Option Bytes
write_ipam encode env file m reply =
    if env.writable then (ok reply, some (encode m)) else (err write_failed, file)

module _ {Bytes : Type 0} (encode : Dict Ipv4Addr → Bytes)
    (decode : Bytes → Option (Dict Ipv4Addr)) where
  pub allocate_in :
      Env → Option Bytes → Text → Dict Ipv4Addr → Result IpamError Ipv4Addr × Option Bytes
  allocate_in env file id m = elim (Dict.get id m) [
    | some ip ↦ (ok ip, file)
    | none ↦ elim (choose_ip id (values m)) [
      | err e ↦ (err e, file)
      | ok ip ↦ write_ipam encode env file (Dict.insert id ip m) ip
    ]
  ]

  pub allocate_ip : Env → Option Bytes → Text → Result IpamError Ipv4Addr × Option Bytes
  allocate_ip env file id = elim (validate_ipam_id id) [
    | err e ↦ (err e, file)
    | ok _ ↦
        if env.lock
        then elim (read_ipam decode env file) [
          | err e ↦ (err e, file)
          | ok m ↦ allocate_in env file id m
        ]
        else (err lock_failed, file)
  ]

  -- Failures are only warned about, so the file is the whole result.
  pub release_ip : Env → Option Bytes → Text → Option Bytes
  release_ip env file id =
      if env.lock
      then elim (read_ipam decode env file) [
        | err e ↦ file
        | ok m ↦ elim (Dict.get id m) [
          | none ↦ file
          | some ip ↦ (write_ipam encode env file (Dict.remove id m) tt).1
        ]
      ]
      else file
