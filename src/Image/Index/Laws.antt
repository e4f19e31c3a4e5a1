-- ===== src/Image/Index/Laws.antt =====
-- The record list of src/image/store.rs as a map from name and tag to the record that it finds.
use mathlib.Core.Path.{subst}
use zerun.Prelude.{
  Bool, true, false, not, Option, none, some, List, [], ◌∷◌, ◌++◌, Text, ◌≡◌, refl, arith,
  if◌then◌else◌, text_eq_refl, text_eq_iff, find, retain, Bool-cases, inl, inr, sym,
}
use zerun.Image.Index.{ImageRecord, option_eq, has_key, upsert_record, keep_first, take_first}

option_eq_refl : (a : Option Text) → option_eq a a ≡ true
option_eq_refl none = refl
option_eq_refl (some a) = text_eq_refl a

pub option_eq_sound : (a b : Option Text) → option_eq a b ≡ true → a ≡ b
option_eq_sound none none h = refl
option_eq_sound none (some b) h = cc
option_eq_sound (some a) none h = cc
option_eq_sound (some a) (some b) h = ground (arith, text_eq_iff a b)

pub has_key_self : (r : ImageRecord) → has_key r.name r.tag r ≡ true
has_key_self r = ground (arith, text_eq_refl r.name, option_eq_refl r.tag)

-- One record has one key.
pub has_key_unique :
    (n n' : Text) (t t' : Option Text) (x : ImageRecord)
    → has_key n t x ≡ true
    → has_key n' t' x ≡ true
    → (n ≡ n') × (t ≡ t')
has_key_unique n n' t t' x h h' = ground (
  arith,
  text_eq_iff x.name n,
  text_eq_iff x.name n',
  option_eq_sound x.tag t,
  option_eq_sound x.tag t',
)

-- A search over a list without what fails another test, and with one more element at the end.
find-upsert :
    (p q : ImageRecord → Bool) (r : ImageRecord) (xs : List ImageRecord)
    → ((x : ImageRecord) → p x ≡ true → q x ≡ false)
    → find p (retain (λ x. not (q x)) xs ++ r ∷ [])
      ≡ elim (find p xs) [ none ↦ (if p r then some r else none) | some y ↦ some y ]
find-upsert p q r [] h = ground arith
find-upsert p q r (x ∷ xs) h = ground (arith, h x, find-upsert p q r xs h)

find-none_retain :
    (p : ImageRecord → Bool) (r : ImageRecord) (xs : List ImageRecord)
    → p r ≡ true
    → find p (retain (λ x. not (p x)) xs ++ r ∷ []) ≡ some r
find-none_retain p r [] h = ground arith
find-none_retain p r (x ∷ xs) h = ground (arith, find-none_retain p r xs h)

-- The new record is found under its own name and tag.
pub find-upsert_self :
    (records : List ImageRecord) (r : ImageRecord)
    → find (has_key r.name r.tag) (upsert_record records r) ≡ some r
unfolding upsert_record
find-upsert_self records r = find-none_retain (has_key r.name r.tag) r records (has_key_self r)

keys_disjoint :
    (n : Text) (t : Option Text) (r x : ImageRecord)
    → has_key n t r ≡ false
    → has_key n t x ≡ true
    → has_key r.name r.tag x ≡ false
keys_disjoint n t r x other h = ground (
  arith,
  text_eq_iff x.name n,
  text_eq_iff x.name r.name,
  text_eq_iff r.name n,
  option_eq_sound x.tag t,
  option_eq_sound x.tag r.tag,
  option_eq_refl t,
)

-- Nothing changes under another name or tag.
pub find-upsert_ne :
    (records : List ImageRecord) (r : ImageRecord) (n : Text) (t : Option Text)
    → has_key n t r ≡ false
    → find (has_key n t) (upsert_record records r) ≡ find (has_key n t) records
unfolding upsert_record
find-upsert_ne records r n t other = ground (
  arith,
  find-upsert (has_key n t) (has_key r.name r.tag) r records
      (λ (x : ImageRecord) (h : has_key n t x ≡ true). keys_disjoint n t r x other h),
)

-- No two records of the list have the same name and tag.
abbrev pub Unique : List ImageRecord → Type 0
Unique [] = Unit
Unique (x ∷ xs) = (find (has_key x.name x.tag) xs ≡ none) × Unique xs

find-retain :
    (p q : ImageRecord → Bool) (xs : List ImageRecord)
    → find p xs ≡ none
    → find p (retain q xs) ≡ none
find-retain p q [] h = refl
find-retain p q (x ∷ xs) h = ground (arith, find-retain p q xs)

find-append_one :
    (p : ImageRecord → Bool) (r : ImageRecord) (xs : List ImageRecord)
    → find p xs ≡ none
    → p r ≡ false
    → find p (xs ++ r ∷ []) ≡ none
find-append_one p r [] h hr = ground arith
find-append_one p r (x ∷ xs) h hr = ground (arith, find-append_one p r xs)

key_swap : (x r : ImageRecord) → has_key r.name r.tag x ≡ false → has_key x.name x.tag r ≡ false
key_swap x r h = ground (
  arith,
  text_eq_iff r.name x.name,
  text_eq_iff x.name r.name,
  option_eq_sound r.tag x.tag,
  option_eq_refl r.tag,
)

upsert_rest-Unique :
    (r : ImageRecord) (xs : List ImageRecord)
    → Unique xs
    → Unique (retain (λ x. not (has_key r.name r.tag x)) xs ++ r ∷ [])
upsert_rest-Unique r [] u = (refl, tt)
upsert_rest-Unique r (x ∷ xs) u = elim (Bool-cases (has_key r.name r.tag x)) [
  | inl same ↦ rw same (upsert_rest-Unique r xs u.1)
  | inr other ↦ rw other (
    find-append_one (has_key x.name x.tag) r _
        (find-retain (has_key x.name x.tag) (λ y. not (has_key r.name r.tag y)) xs u.0)
        (key_swap x r other),
    upsert_rest-Unique r xs u.1,
  )
]

-- Adding a record keeps the names and tags unique.
pub upsert-Unique :
    (records : List ImageRecord) (r : ImageRecord)
    → Unique records
    → Unique (upsert_record records r)
unfolding upsert_record
upsert-Unique records r u = upsert_rest-Unique r records u

-- The record that is taken is the one that is found.
pub take_first-find :
    (p : ImageRecord → Bool) (xs : List ImageRecord)
    → elim (take_first p xs) [ none ↦ none | some (r, rest) ↦ some r ] ≡ find p xs
unfolding take_first
take_first-find p [] = refl
take_first-find p (x ∷ xs) = ground (arith, take_first-find p xs)

keep_first-inv :
    (x r : ImageRecord) (o : Option (ImageRecord × List ImageRecord)) (rest : List ImageRecord)
    → keep_first x o ≡ some (r, rest)
    → (others : List ImageRecord) × (rest ≡ x ∷ others) × (o ≡ some (r, others))
keep_first-inv x r none rest h = cc
keep_first-inv x r (some (r', others)) rest h = (others, ground arith, ground arith)

-- A search that the taken record fails sees no difference.
pub find-take_first :
    (p q : ImageRecord → Bool) (xs rest : List ImageRecord) (r : ImageRecord)
    → take_first p xs ≡ some (r, rest)
    → q r ≡ false
    → find q rest ≡ find q xs
unfolding take_first
find-take_first p q [] rest r e h = cc
find-take_first p q (x ∷ xs) rest r e h = elim (Bool-cases (p x)) [
  | inl here ↦ ground arith
  | inr there ↦
      let (others, same, later) = keep_first-inv x r (take_first p xs) rest (ground arith) in
      ground (arith, find-take_first p q xs others r later h)
]

find-none-take_first :
    (p q : ImageRecord → Bool) (xs rest : List ImageRecord) (r : ImageRecord)
    → take_first p xs ≡ some (r, rest)
    → find q xs ≡ none
    → find q rest ≡ none
unfolding take_first
find-none-take_first p q [] rest r e h = cc
find-none-take_first p q (x ∷ xs) rest r e h = elim (Bool-cases (p x)) [
  | inl here ↦ ground arith
  | inr there ↦
      let (others, same, later) = keep_first-inv x r (take_first p xs) rest (ground arith) in
      ground (arith, find-none-take_first p q xs others r later)
]

-- Removing a record keeps the names and tags unique, and its key finds nothing any more.
pub take_first-Unique :
    (p : ImageRecord → Bool) (xs rest : List ImageRecord) (r : ImageRecord)
    → Unique xs
    → take_first p xs ≡ some (r, rest)
    → Unique rest
unfolding take_first
take_first-Unique p [] rest r u e = cc
take_first-Unique p (x ∷ xs) rest r u e = elim (Bool-cases (p x)) [
  | inl here ↦ let same : xs ≡ rest = ground arith in subst Unique same u.1
  | inr there ↦
      let (others, same, later) = keep_first-inv x r (take_first p xs) rest (ground arith) in
      subst Unique (sym same) (
        find-none-take_first p (has_key x.name x.tag) xs others r later u.0,
        take_first-Unique p xs others r u.1 later,
      )
]

pub take_first-gone :
    (n : Text) (t : Option Text) (xs rest : List ImageRecord) (r : ImageRecord)
    → Unique xs
    → take_first (has_key n t) xs ≡ some (r, rest)
    → find (has_key n t) rest ≡ none
unfolding take_first
take_first-gone n t [] rest r u e = cc
take_first-gone n t (x ∷ xs) rest r u e = elim (Bool-cases (has_key n t x)) [
  | inl here ↦
      let (en, et) = has_key_unique n x.name t x.tag x here (has_key_self x) in
      let u0 : find (has_key n t) xs ≡ none = rw (en, et) u.0 in ground arith
  | inr there ↦
      let (others, same, later) =
        keep_first-inv x r (take_first (has_key n t) xs) rest (ground arith) in
      ground (arith, take_first-gone n t xs others r u.1 later)
]
