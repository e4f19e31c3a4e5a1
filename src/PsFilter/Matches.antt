-- ===== src/PsFilter/Matches.antt =====
-- What a selector of src/psfilter.rs adds to a filter.
use mathlib.Core.Path.{subst}
use zerun.Prelude.{
  Bool, true, false, ◌&&◌, Option, none, some, [], ◌∷◌, ◌++◌, Text, ok, err, ◌≡◌, refl, arith,
  text_eq, if◌then◌else◌, all, all-append, starts_with, is_empty, Option-cases, inl, inr, ◌≢◌,
}
use zerun.Prelude.Int.{parse_i32}
use zerun.State.{ContainerState}
use zerun.PsFilter.{
  PsFilter, FilterKey, status_key, name_key, id_key, image_key, net_key, exit_code_key, label_key,
  key_of, status_of, label_of, set_key, set, status_eq, integer_eq, bool_eq, is_none_or,
  is_some_and, label_matches, matches, invalid_label, fields_match,
}

-- What the README says that a selector asks of a record.
abbrev pub selects : {Rest : Type 0} → FilterKey → Text → ContainerState Rest → Bool
selects status_key value s = elim (status_of value) [
  | none ↦ false
  | some (status, paused) ↦ status_eq s.status status && is_none_or paused (bool_eq s.paused)
]
selects name_key value s = is_some_and s.name (λ name. text_eq name value)
selects id_key value s = starts_with value s.id
selects image_key value s = text_eq s.image value
selects net_key value s = text_eq s.net value
selects exit_code_key value s = elim (parse_i32 value) [
  | none ↦ false
  | some code ↦ is_some_and s.exit_code (integer_eq code)
]
selects label_key value s = label_matches s.labels (label_of value)

-- Whether a filter has a selector of a key already; labels add up.
abbrev pub Unset : FilterKey → PsFilter → Type 0
Unset status_key f = (f.status ≡ none) × (f.paused ≡ none)
Unset name_key f = f.name ≡ none
Unset id_key f = f.id ≡ none
Unset image_key f = f.image ≡ none
Unset net_key f = f.net ≡ none
Unset exit_code_key f = f.exit_code ≡ none
Unset label_key f = Unit

and_last : (a b c : Bool) → (a && (b && (c && true))) ≡ ((a && b) && c)
and_last a b c = ground arith

added :
    (f f' : PsFilter) (l : Text × Option Text)
    → (if is_empty l.0 then err invalid_label else ok (record f { labels = f.labels ++ l ∷ [] }))
      ≡ ok f'
    → record f { labels = f.labels ++ l ∷ [] } ≡ f'
added f f' l h = ground arith

module _ {Rest : Type 0} (f f' : PsFilter) (s : ContainerState Rest) where
  set_key-matches :
      (key : FilterKey) (value : Text)
      → Unset key f
      → set_key key value f ≡ ok f'
      → matches f' s ≡ (matches f s && selects key value s)
  unfolding set_key matches
  set_key-matches status_key value u h = elim (Option-cases (status_of value)) [
    | inl e ↦ ground (arith, e)
    | inr ((status, paused), e) ↦ ground (arith, e)
  ]
  set_key-matches name_key value u h = ground arith
  set_key-matches id_key value u h = ground arith
  set_key-matches image_key value u h = ground arith
  set_key-matches net_key value u h = ground arith
  set_key-matches exit_code_key value u h = elim (Option-cases (parse_i32 value)) [
    | inl e ↦ ground (arith, e)
    | inr (code, e) ↦ ground (arith, e)
  ]
  set_key-matches label_key value u h =
      let same : record f { labels = f.labels ++ label_of value ∷ [] } ≡ f' =
        added f f' (label_of value) h in
      let split : all (label_matches s.labels) (f.labels ++ label_of value ∷ []) ≡ (
          all (label_matches s.labels) f.labels
          && (label_matches s.labels (label_of value) && true)) =
        all-append (label_matches s.labels) f.labels (label_of value ∷ []) in
      let narrowed : matches (record f { labels = f.labels ++ label_of value ∷ [] }) s
          ≡ (matches f s && label_matches s.labels (label_of value)) =
        rw split (
          and_last (fields_match f s) (all (label_matches s.labels) f.labels)
            (label_matches s.labels (label_of value))) in
      subst (λ g. matches g s ≡ (matches f s && label_matches s.labels (label_of value))) same
        narrowed

  -- A selector that is accepted, of a key that has none yet, narrows the filter by what it asks for:
  -- labels add up, and so do selectors of different keys.
  pub set-matches :
      (key : FilterKey) (name value : Text)
      → key_of name ≡ some key
      → Unset key f
      → set name value f ≡ ok f'
      → matches f' s ≡ (matches f s && selects key value s)
  unfolding set
  set-matches key name value k u h = set_key-matches key value u (ground (arith, k))

set_key-replaces :
    (f first : PsFilter) (key : FilterKey) (old new : Text)
    → key ≢ label_key
    → set_key key old f ≡ ok first
    → set_key key new first ≡ set_key key new f
unfolding set_key
set_key-replaces f first status_key old new other h = elim (Option-cases (status_of old)) [
  | inl e ↦ ground (arith, e)
  | inr (p, e) ↦ ground (arith, e)
]
set_key-replaces f first name_key old new other h = ground arith
set_key-replaces f first id_key old new other h = ground arith
set_key-replaces f first image_key old new other h = ground arith
set_key-replaces f first net_key old new other h = ground arith
set_key-replaces f first exit_code_key old new other h = elim (Option-cases (parse_i32 old)) [
  | inl e ↦ ground (arith, e)
  | inr (p, e) ↦ ground (arith, e)
]
set_key-replaces f first label_key old new other h = absurd (other refl)

-- A second selector of a key takes the place of the first, unless the key is `label`: the filter is
-- as if only the second had been given.
pub set-replaces :
    (f first : PsFilter) (key old new : Text)
    → key_of key ≢ some label_key
    → set key old f ≡ ok first
    → set key new first ≡ set key new f
unfolding set
set-replaces f first key old new other h = elim (Option-cases (key_of key)) [
  | inl e ↦ ground (arith, e)
  | inr (k, e) ↦ ground (
    arith,
    e,
    set_key-replaces f first k old new (λ same. other (rw same at e)) (ground (arith, e)),
  )
]
