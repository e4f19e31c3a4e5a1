-- ===== src/Network/Ipam/Allocate.antt =====
-- What `allocate_ip` and `release_ip` of src/network.rs promise of the address file.
use zerun.Prelude.{
  ℕ, ◌≤◌, true, Option, none, some, List, [], ◌∷◌, Text, ◌⊎◌, ok, inl, inr, err, ◌≡◌, ◌≢◌, refl,
  arith, if◌then◌else◌, Option-cases, text_eq, text_eq_refl, text_eq_iff,
}
use zerun.Prelude.Dict
use zerun.Prelude.Dict.{Dict, values, get-insert, get-remove}
use zerun.Network.Ipam.{
  Ipv4Addr, contains_ip, IpamError, exhausted, validate_ipam_id, validate_ipam, host_ip, choose_ip,
  validate_entries, Env, read_ipam, write_ipam, allocate_in, allocate_ip, release_ip,
}
use zerun.Network.Ipam.Valid.{
  validate-insert, owner_unique, choose_ip_sound, first_free-none, validate-remove,
}

-- The map that a file stands for.
abbrev pub stored :
    {Bytes : Type 0} → (Bytes → Option (Dict Ipv4Addr)) → Option Bytes → Option (Dict Ipv4Addr)
stored decode none = some []
stored decode (some file) = decode file

-- What holds of a map `after` once `id` owns `ip` in it, against the map `m` before.
pub record Allocated (m after : Dict Ipv4Addr) (id : Text) (ip : Ipv4Addr) : Type 0 where
  pub is_valid : validate_ipam after ≡ ok tt
  pub owned : Dict.get id after ≡ some ip
  pub sole_owner : (j : Text) → Dict.get j after ≡ some ip → j ≡ id
  pub owners : (j : Text) → Dict.get j after ≡ (if text_eq id j then some ip else Dict.get j m)

-- A map that was read is the stored one, and valid.
read_stored :
    {Bytes : Type 0} (decode : Bytes → Option (Dict Ipv4Addr)) (env : Env) (file : Option Bytes)
    (m : Dict Ipv4Addr)
    → read_ipam decode env file ≡ ok m
    → (stored decode file ≡ some m) × (validate_ipam m ≡ ok tt)
unfolding read_ipam validate_ipam validate_entries
read_stored decode env none m h = ground arith
read_stored decode env (some file) m h = ground arith

-- A valid stored map is read, if the file can be.
read_back :
    {Bytes : Type 0} (decode : Bytes → Option (Dict Ipv4Addr)) (env : Env) (file : Option Bytes)
    (m : Dict Ipv4Addr)
    → env.readable ≡ true
    → stored decode file ≡ some m
    → validate_ipam m ≡ ok tt
    → read_ipam decode env file ≡ ok m
unfolding read_ipam
read_back decode env none m r h v = ground arith
read_back decode env (some file) m r h v = ground arith

-- The checks of a map never report that the subnet is full.
validate-ne-exhausted :
    (s : List Ipv4Addr) (m : Dict Ipv4Addr) → validate_entries s m ≢ err exhausted
unfolding validate_entries validate_ipam_id
validate-ne-exhausted s [] = cc
validate-ne-exhausted s ((j, w) ∷ m) = ground (arith, validate-ne-exhausted (w ∷ s) m)

read-ne-exhausted :
    {Bytes : Type 0} (decode : Bytes → Option (Dict Ipv4Addr)) (env : Env) (file : Option Bytes)
    → read_ipam decode env file ≢ err exhausted
unfolding read_ipam validate_ipam
read-ne-exhausted decode env none = cc
read-ne-exhausted decode env (some file) = elim (Option-cases (decode file)) [
  | inl bad ↦ ground arith
  | inr (m, good) ↦ ground (arith, validate-ne-exhausted [] m)
]

-- The choice fails only when the whole range is taken.
choose_ip-err :
    (id : Text) (taken : List Ipv4Addr) (e : IpamError)
    → choose_ip id taken ≡ err e
    → (k : ℕ) → 2 ≤ k
    → k ≤ 254
    → contains_ip (host_ip k) taken ≡ true
unfolding choose_ip
choose_ip-err id taken e h k lo hi = first_free-none taken 253 2 k (ground arith) lo (omega arith)

-- The new entry of an allocation, and the entry that was there before.
fresh_Allocated :
    (m : Dict Ipv4Addr) (id : Text) (ip : Ipv4Addr)
    → validate_ipam_id id ≡ ok tt
    → validate_ipam m ≡ ok tt
    → Dict.get id m ≡ none
    → choose_ip id (values m) ≡ ok ip
    → Allocated m (Dict.insert id ip m) id ip
unfolding validate_ipam
fresh_Allocated m id ip vid valid fresh chosen =
    let (free, sub) = choose_ip_sound id (values m) ip chosen in
    let valid' = validate-insert id ip [] m vid sub fresh free refl valid in
    let owned' : Dict.get id (Dict.insert id ip m) ≡ some ip =
      ground (arith, get-insert id id ip m, text_eq_refl id) in
    record {
      is_valid = valid';
      owned = owned';
      sole_owner = λ j h. owner_unique j id ip [] _ valid' h owned';
      owners = λ j. get-insert id j ip m;
    }

old_Allocated :
    (m : Dict Ipv4Addr) (id : Text) (ip : Ipv4Addr)
    → validate_ipam m ≡ ok tt
    → Dict.get id m ≡ some ip
    → Allocated m m id ip
unfolding validate_ipam
old_Allocated m id ip valid found = record {
  is_valid = valid;
  owned = found;
  sole_owner = λ j h. owner_unique j id ip [] m valid h found;
  owners = λ j. ground (arith, found, text_eq_iff id j);
}

module _ {Bytes : Type 0} (encode : Dict Ipv4Addr → Bytes) (decode : Bytes → Option (Dict Ipv4Addr))
    (round_trip : (m : Dict Ipv4Addr) → decode (encode m) ≡ some m) where
  -- A successful reply comes from the old map, or from a map with one entry more.
  allocate_in-cases :
      (env : Env) (file file' : Option Bytes) (id : Text) (ip : Ipv4Addr) (m : Dict Ipv4Addr)
      → allocate_in encode decode env file id m ≡ (ok ip, file')
      → ((Dict.get id m ≡ some ip) × (file' ≡ file))
        ⊎ ((Dict.get id m ≡ none)
            × (choose_ip id (values m) ≡ ok ip)
            × (stored decode file' ≡ some (Dict.insert id ip m)))
  unfolding allocate_in write_ipam
  allocate_in-cases env file file' id ip m h = ground (arith, round_trip (Dict.insert id ip m))

  allocate_ip-inv :
      (env : Env) (file file' : Option Bytes) (id : Text) (ip : Ipv4Addr)
      → allocate_ip encode decode env file id ≡ (ok ip, file')
      → (m : Dict Ipv4Addr) × (validate_ipam_id id ≡ ok tt)
        × (read_ipam decode env file ≡ ok m)
        × (allocate_in encode decode env file id m ≡ (ok ip, file'))
  unfolding allocate_ip
  allocate_ip-inv env file file' id ip h = ground arith

  -- After a successful allocation, from whatever file and environment, the file stores a valid map
  -- in which the id owns the returned address and no other id does, and every other id owns what it
  -- owned before. serde_json is assumed to read back what it wrote.
  pub allocate_ip-Allocated :
      (env : Env) (file file' : Option Bytes) (id : Text) (ip : Ipv4Addr)
      → allocate_ip encode decode env file id ≡ (ok ip, file')
      → (m after : Dict Ipv4Addr) × (stored decode file ≡ some m)
        × (stored decode file' ≡ some after)
        × Allocated m after id ip
  allocate_ip-Allocated env file file' id ip h =
      let (m, vid, readm, run) = allocate_ip-inv env file file' id ip h in
      let (st, valid) = read_stored decode env file m readm in
      elim (allocate_in-cases env file file' id ip m run) [
        | inl (found, same) ↦ (m, m, st, cc, old_Allocated m id ip valid found)
        | inr (fresh, chosen, st') ↦
            (m, Dict.insert id ip m, st, st', fresh_Allocated m id ip vid valid fresh chosen)
      ]

  -- Allocation is idempotent: a second call for the same id, with the lock granted and the file
  -- readable, returns the same address and leaves the file as it is, writable or not.
  pub allocate_ip_idem :
      (env env' : Env) (file file' : Option Bytes) (id : Text) (ip : Ipv4Addr)
      → allocate_ip encode decode env file id ≡ (ok ip, file')
      → env'.lock ≡ true
      → env'.readable ≡ true
      → allocate_ip encode decode env' file' id ≡ (ok ip, file')
  unfolding allocate_ip allocate_in
  allocate_ip_idem env env' file file' id ip h locked readable =
      let (m, after, st, st', done) = allocate_ip-Allocated env file file' id ip h in
      let vid = (allocate_ip-inv env file file' id ip h).1 in
      let again = read_back decode env' file' after readable st' done.is_valid in
      ground (arith, vid, again, done.owned)

  exhausted_inv :
      (env : Env) (file file' : Option Bytes) (id : Text)
      → allocate_ip encode decode env file id ≡ (err exhausted, file')
      → (m : Dict Ipv4Addr) × (read_ipam decode env file ≡ ok m)
        × (file' ≡ file)
        × ((choose_ip id (values m)) ≡ err exhausted)
  unfolding allocate_ip allocate_in write_ipam validate_ipam_id
  exhausted_inv env file file' id h = ground (arith, read-ne-exhausted decode env file)

  -- The search gives up only when all 253 host addresses are owned, and then the file is untouched.
  pub allocate_ip_exhausted :
      (env : Env) (file file' : Option Bytes) (id : Text)
      → allocate_ip encode decode env file id ≡ (err exhausted, file')
      → (m : Dict Ipv4Addr) × (stored decode file ≡ some m)
        × (file' ≡ file)
        × ((k : ℕ) → 2 ≤ k → k ≤ 254 → contains_ip (host_ip k) (values m) ≡ true)
  allocate_ip_exhausted env file file' id h =
      let (m, readm, same, full) = exhausted_inv env file file' id h in
      (m, (read_stored decode env file m readm).0, same, choose_ip-err id (values m) exhausted full)

  -- A failed allocation leaves the file as it was, whatever failed.
  pub allocate_ip-err :
      (env : Env) (file file' : Option Bytes) (id : Text) (e : IpamError)
      → allocate_ip encode decode env file id ≡ (err e, file')
      → file' ≡ file
  unfolding allocate_ip allocate_in write_ipam
  allocate_ip-err env file file' id e h = ground arith

  -- With the lock granted and the file readable and writable, releasing an id from a valid file
  -- leaves a valid map without that id in which every other id owns what it owned.
  pub release_ip_lem :
      (env : Env) (file : Option Bytes) (id : Text) (m : Dict Ipv4Addr)
      → env.lock ≡ true
      → env.readable ≡ true
      → env.writable ≡ true
      → stored decode file ≡ some m
      → validate_ipam m ≡ ok tt
      → (after : Dict Ipv4Addr) × (stored decode (release_ip encode decode env file id)
          ≡ some after)
        × (validate_ipam after ≡ ok tt)
        × ((j : Text) → Dict.get j after ≡ (if text_eq id j then none else Dict.get j m))
  unfolding release_ip write_ipam validate_ipam
  release_ip_lem env file id m l r w st valid = elim (Option-cases (Dict.get id m)) [
    | inl absent ↦ (
      m,
      ground (arith, read_back decode env file m r st valid),
      valid,
      λ j. ground (arith, text_eq_iff id j),
    )
    | inr (ip, found) ↦ (
      Dict.remove id m,
      ground (arith, read_back decode env file m r st valid, round_trip (Dict.remove id m)),
      validate-remove id [] m valid,
      λ j. get-remove id j m,
    )
  ]
