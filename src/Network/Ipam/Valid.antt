-- ===== src/Network/Ipam/Valid.antt =====
-- The validity of an address map: which changes keep it, and what it says of the owners.
use zerun.Prelude.{
  ℕ, zero, suc, ◌+◌, ◌≤◌, ◌<◌, true, false, none, some, List, [], ◌∷◌, Text, inl, inr, ok, ◌≡◌,
  refl, arith, ◌==◌, Bool-cases, text_eq_iff,
}
use zerun.Prelude.Dict
use zerun.Prelude.Dict.{Dict, values, get-insert, get-remove}
use zerun.Network.Ipam.{
  Ipv4Addr, ipv4, ip_eq, contains_ip, container_ip, validate_ipam_id, in_subnet, validate_entries,
  host_ip, count_up, first_free, choose_ip,
}

pub ip_eq_iff : (a b : Ipv4Addr) → ip_eq a b ≡ true → a ≡ b
ip_eq_iff (ipv4 a b c d) (ipv4 a' b' c' d') h = ground arith

pub ip_eq_refl : (a : Ipv4Addr) → ip_eq a a ≡ true
ip_eq_refl (ipv4 a b c d) = ground arith

-- The checks read the addresses seen so far only through membership.
validate_ext :
    (s t : List Ipv4Addr) (m : Dict Ipv4Addr)
    → ((a : Ipv4Addr) → contains_ip a s ≡ contains_ip a t)
    → validate_entries s m ≡ validate_entries t m
unfolding validate_entries
validate_ext s t [] h = refl
validate_ext s t ((id, ip) ∷ m) h =
    rw (h ip) (ground (arith, validate_ext (ip ∷ s) (ip ∷ t) m (λ a. ground (arith, h a))))

-- An address that no entry holds may be among those seen.
validate_more :
    (ip : Ipv4Addr) (s : List Ipv4Addr) (m : Dict Ipv4Addr)
    → contains_ip ip (values m) ≡ false
    → validate_entries s m ≡ ok tt
    → validate_entries (ip ∷ s) m ≡ ok tt
unfolding validate_entries
validate_more ip s [] free h = refl
validate_more ip s ((j, w) ∷ m) free h =
    let swap = validate_ext (w ∷ ip ∷ s) (ip ∷ w ∷ s) m (λ a. ground arith) in
    ground (arith, ip_eq_iff ip w, ip_eq_refl w, swap, validate_more ip (w ∷ s) m)

-- A free address in the subnet, under a fresh valid id, keeps the map valid.
pub validate-insert :
    (id : Text) (ip : Ipv4Addr) (s : List Ipv4Addr) (m : Dict Ipv4Addr)
    → validate_ipam_id id ≡ ok tt
    → in_subnet ip ≡ true
    → Dict.get id m ≡ none
    → contains_ip ip (values m) ≡ false
    → contains_ip ip s ≡ false
    → validate_entries s m ≡ ok tt
    → validate_entries s (Dict.insert id ip m) ≡ ok tt
unfolding validate_entries Dict.get Dict.insert
validate-insert id ip s [] vid sub fresh free new h = ground arith
validate-insert id ip s ((j, w) ∷ m) vid sub fresh free new h = ground (
  arith,
  ip_eq_iff w ip,
  ip_eq_refl w,
  validate_more ip s ((j, w) ∷ m),
  validate-insert id ip (w ∷ s) m,
)

-- No two entries of a valid map hold one address, so an address determines its owner.
pub contains-get :
    (j : Text) (ip : Ipv4Addr) (m : Dict Ipv4Addr)
    → Dict.get j m ≡ some ip
    → contains_ip ip (values m) ≡ true
unfolding Dict.get
contains-get j ip [] h = cc
contains-get j ip ((i, w) ∷ m) h = ground (arith, ip_eq_refl ip, contains-get j ip m)

validate_seen :
    (ip : Ipv4Addr) (s : List Ipv4Addr) (m : Dict Ipv4Addr)
    → contains_ip ip s ≡ true
    → validate_entries s m ≡ ok tt
    → contains_ip ip (values m) ≡ false
unfolding validate_entries
validate_seen ip s [] seen h = refl
validate_seen ip s ((j, w) ∷ m) seen h = ground (arith, ip_eq_iff w ip, validate_seen ip (w ∷ s) m)

pub owner_unique :
    (i j : Text) (ip : Ipv4Addr) (s : List Ipv4Addr) (m : Dict Ipv4Addr)
    → validate_entries s m ≡ ok tt
    → Dict.get i m ≡ some ip
    → Dict.get j m ≡ some ip
    → i ≡ j
unfolding validate_entries Dict.get
owner_unique i j ip s [] h gi gj = cc
owner_unique i j ip s ((k, w) ∷ m) h gi gj = ground (
  arith,
  text_eq_iff k i,
  text_eq_iff k j,
  ip_eq_refl w,
  validate_seen w (w ∷ s) m,
  contains-get i ip m,
  contains-get j ip m,
  owner_unique i j ip (w ∷ s) m,
)

pub host_ip-in_subnet : (h : ℕ) → 2 ≤ h → h ≤ 254 → in_subnet (host_ip h) ≡ true
host_ip-in_subnet h lo hi = ground arith

pub first_free_sound :
    (taken : List Ipv4Addr) (n h : ℕ) (ip : Ipv4Addr)
    → 2 ≤ h
    → h + n ≤ 255
    → first_free taken (count_up n h) ≡ some ip
    → (contains_ip ip taken ≡ false) × (in_subnet ip ≡ true)
unfolding first_free
first_free_sound taken zero h ip lo hi e = cc
first_free_sound taken (suc n) h ip lo hi e = elim (Bool-cases (contains_ip (host_ip h) taken)) [
  | inl used ↦ first_free_sound taken n (h + 1) ip (omega arith) (omega arith) (ground arith)
  | inr free ↦ ground (arith, host_ip-in_subnet h)
]

-- The search fails only when every address of the range is taken.
pub first_free-none :
    (taken : List Ipv4Addr) (n h k : ℕ)
    → first_free taken (count_up n h) ≡ none
    → h ≤ k
    → k < h + n
    → contains_ip (host_ip k) taken ≡ true
unfolding first_free
first_free-none taken zero h k e lo hi = absurd (omega arith)
first_free-none taken (suc n) h k e lo hi = elim (Bool-cases (contains_ip (host_ip h) taken)) [
  | inl used ↦ elim (Bool-cases (h == k)) [
    | inl same ↦ let eq : h ≡ k = ground arith in rw (← eq) used
    | inr other ↦ first_free-none taken n (h + 1) k (ground arith) (ground arith) (omega arith)
  ]
  | inr free ↦ ground arith
]

-- The preferred address, from the hash of the id, lies in the range too.
pub container_ip-in_subnet : (id : Text) → in_subnet (container_ip id) ≡ true
unfolding container_ip
container_ip-in_subnet id = ground arith

pub choose_ip_sound :
    (id : Text) (taken : List Ipv4Addr) (ip : Ipv4Addr)
    → choose_ip id taken ≡ ok ip
    → (contains_ip ip taken ≡ false) × (in_subnet ip ≡ true)
unfolding choose_ip
choose_ip_sound id taken ip e = elim (Bool-cases (contains_ip (container_ip id) taken)) [
  | inl used ↦ first_free_sound taken 253 2 ip (omega arith) (omega arith) (ground arith)
  | inr free ↦ ground (arith, container_ip-in_subnet id)
]

validate_less :
    (ip : Ipv4Addr) (s : List Ipv4Addr) (m : Dict Ipv4Addr)
    → validate_entries (ip ∷ s) m ≡ ok tt
    → validate_entries s m ≡ ok tt
unfolding validate_entries
validate_less ip s [] h = refl
validate_less ip s ((j, w) ∷ m) h =
    let swap = validate_ext (w ∷ ip ∷ s) (ip ∷ w ∷ s) m (λ a. ground arith) in
    ground (arith, swap, validate_less ip (w ∷ s) m)

-- Removing an entry keeps the map valid.
pub validate-remove :
    (id : Text) (s : List Ipv4Addr) (m : Dict Ipv4Addr)
    → validate_entries s m ≡ ok tt
    → validate_entries s (Dict.remove id m) ≡ ok tt
unfolding validate_entries Dict.remove
validate-remove id s [] h = refl
validate-remove id s ((j, w) ∷ m) h =
    ground (arith, validate-remove id (w ∷ s) m, validate_less w s (Dict.remove id m))
