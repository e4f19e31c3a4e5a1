-- ===== src/State/Lookup.antt =====
-- Which record `resolve` of src/state.rs finds for a command-line argument.
use mathlib.Core.Path.{subst}
use zerun.Prelude.{
  Bool, true, false, Option, none, some, List, [], ◌∷◌, Text, ok, text_eq_iff, text_lt, ◌≡◌, refl,
  sym, arith, find, find_sound, find-none, retain, All, starts_with, Option-cases, Bool-cases, inl,
  inr, ◌⊎◌,
}
use zerun.State.{
  ContainerState, StateFiles, load, insert_newest, list, has_name, only, by_prefix, resolve,
  add_listed,
}
use zerun.State.Records.{load-Identity}

module _ {Rest Bytes : Type 0} (encode : ContainerState Rest → Bytes)
    (decode : Bytes → Option (ContainerState Rest)) (log_path : Text → Text) where
  -- A record that its own id loads.
  abbrev pub Stored : StateFiles Bytes → ContainerState Rest → Type 0
  Stored files s = load encode decode log_path files s.id ≡ some s

  load-Stored :
      (files : StateFiles Bytes) (id : Text) (s : ContainerState Rest)
      → load encode decode log_path files id ≡ some s
      → Stored files s
  load-Stored files id s h =
      subst (λ i. load encode decode log_path files i ≡ some s)
        (sym (load-Identity encode decode log_path files id s h).0) h

  insert_newest-All :
      (P : ContainerState Rest → Type 0) (s : ContainerState Rest) (l : List (ContainerState Rest))
      → P s
      → All P l
      → All P (insert_newest encode decode log_path s l)
  unfolding insert_newest
  insert_newest-All P s [] p h = (p, tt)
  insert_newest-All P s (x ∷ xs) p h = elim (Bool-cases (text_lt s.created x.created)) [
    | inl older ↦ rw older (h.0, insert_newest-All P s xs p h.1)
    | inr newer ↦ rw newer (p, h)
  ]

  add_listed-All :
      (P : ContainerState Rest → Type 0) (o : Option (ContainerState Rest))
      (l : List (ContainerState Rest))
      → ((s : ContainerState Rest) → o ≡ some s → P s)
      → All P l
      → All P (add_listed encode decode log_path o l)
  add_listed-All P none l p h = h
  add_listed-All P (some s) l p h = insert_newest-All P s l (p s refl) h

  -- Every listed record is the one that its own id loads.
  list-Stored :
      (files : StateFiles Bytes) (dirs : List Text)
      → All (Stored files) (list encode decode log_path files dirs)
  unfolding list
  list-Stored files [] = tt
  list-Stored files (d ∷ ds) =
      add_listed-All (Stored files) (load encode decode log_path files d)
        (list encode decode log_path files ds) (load-Stored files d) (list-Stored files ds)

  find-All :
      (P : ContainerState Rest → Type 0) (p : ContainerState Rest → Bool)
      (l : List (ContainerState Rest)) (s : ContainerState Rest)
      → All P l
      → find p l ≡ some s
      → P s
  find-All P p [] s h e = cc
  find-All P p (x ∷ xs) s h e = elim (Bool-cases (p x)) [
    | inl found ↦ let same : x ≡ s = ground (arith, found) in subst P same h.0
    | inr other ↦ find-All P p xs s h.1 (ground (arith, other))
  ]

  retain-first :
      (P : ContainerState Rest → Type 0) (p : ContainerState Rest → Bool)
      (l rest : List (ContainerState Rest)) (s : ContainerState Rest)
      → All P l
      → retain p l ≡ s ∷ rest
      → P s × (p s ≡ true)
  retain-first P p [] rest s h e = cc
  retain-first P p (x ∷ xs) rest s h e = elim (Bool-cases (p x)) [
    | inl found ↦
        let same : x ≡ s = ground (arith, found) in
        subst (λ y. P y × (p y ≡ true)) same (h.0, found)
    | inr other ↦ retain-first P p xs rest s h.1 (ground (arith, other))
  ]

  -- How a record answers to an argument: as the one that the argument loads as an id; or, where that loads
  -- none, by its name, or, where no record has that name, as the only one whose id begins with it.
  abbrev pub Answers : StateFiles Bytes → List Text → Text → ContainerState Rest → Type 0
  Answers files dirs arg s =
      let all_states = list encode decode log_path files dirs in
      (load encode decode log_path files arg ≡ some s)
      ⊎ ((load encode decode log_path files arg ≡ none)
          × ((s.name ≡ some arg)
              ⊎ (All (λ x. has_name encode decode log_path arg x ≡ false) all_states
                  × (starts_with arg s.id ≡ true)
                  × (retain (λ x. starts_with arg x.id) all_states ≡ s ∷ []))))

  name_of :
      (arg : Text) (s : ContainerState Rest)
      → has_name encode decode log_path arg s ≡ true
      → s.name ≡ some arg
  name_of arg s h = elim (Option-cases s.name) [
    | inl e ↦ ground (arith, e)
    | inr (n, e) ↦ ground (arith, e, text_eq_iff n arg)
  ]

  only-ok :
      (arg : Text) (l : List (ContainerState Rest)) (s : ContainerState Rest)
      → only encode decode log_path arg l ≡ ok s
      → l ≡ s ∷ []
  only-ok arg [] s h = cc
  only-ok arg (x ∷ []) s h = ground arith
  only-ok arg (x ∷ y ∷ l) s h = cc

  -- A record that an argument resolves to is the one that its own id loads, and it answers to the
  -- argument: it is what the argument loads as an id; only where that loads nothing it has the argument for a
  -- name; and only where no record has that name either it is the only one whose id begins with it.
  pub resolve-Answers :
      (files : StateFiles Bytes) (dirs : List Text) (arg : Text) (s : ContainerState Rest)
      → resolve encode decode log_path files dirs arg ≡ ok s
      → Stored files s × Answers files dirs arg s
  unfolding resolve
  resolve-Answers files dirs arg s h =
      let all_states = list encode decode log_path files dirs in
      let stored = list-Stored files dirs in
      elim (Option-cases (load encode decode log_path files arg)) [
        | inr (t, e) ↦
            let same : t ≡ s = ground (arith, e) in
            subst (λ x. Stored files x × Answers files dirs arg x) same
              (load-Stored files arg t e, inl e)
        | inl no_id ↦ elim (Option-cases (find (has_name encode decode log_path arg) all_states)) [
          | inr (t, e) ↦
              let same : t ≡ s = ground (arith, no_id, e) in
              subst (λ x. Stored files x × Answers files dirs arg x) same
                (
                  find-All (Stored files) (has_name encode decode log_path arg) all_states t stored
                      e,
                  inr (
                    no_id,
                    inl (
                        name_of arg t
                          (find_sound (has_name encode decode log_path arg) all_states t e)),
                  ),
                )
          | inl no_name ↦
              let by_id : by_prefix encode decode log_path arg all_states ≡ ok s =
                ground (arith, no_id, no_name) in
              let one = only-ok arg (retain (λ x. starts_with arg x.id) all_states) s by_id in
              let (kept, begins) =
                retain-first (Stored files) (λ x. starts_with arg x.id) all_states [] s stored
                  one in
              (
                kept,
                inr (
                  no_id,
                  inr (
                    find-none (has_name encode decode log_path arg) all_states no_name,
                    begins,
                    one,
                  ),
                ),
              )
        ]
      ]
