-- ===== src/Events/History.antt =====
-- The events of one container between two snapshots, as src/events.rs derives them.
use mathlib.Core.Path.{subst}
use zerun.Prelude.{
  Bool, true, false, Option, none, some, List, [], ◌∷◌, ◌++◌, Text, text_eq, text_eq_refl,
  text_eq_sound, if◌then◌else◌, retain, ◌≡◌, refl, ◌∙◌, ap, arith, Bool-cases, inl, inr, All,
  append-nil,
}
use zerun.State.{ContainerState, Status, created, running, exited}
use zerun.Events.{
  Event, changes, replay, status_events, same_name, same_flag, by_id, or_first, has_id, all_changes,
  destroys, unsorted, destroy_event,
}

-- The events of one container
abbrev pub of_id : Text → Event → Bool
of_id id e = text_eq e.id id

retain_same : (id : Text) (es : List Event) → All (λ e. e.id ≡ id) es → retain (of_id id) es ≡ es
retain_same id [] h = refl
retain_same id (e ∷ es) (same, h) =
    let here : of_id id e ≡ true = rw same (text_eq_refl id) in rw (here, retain_same id es h) refl

retain_other :
    (id j : Text) (es : List Event)
    → text_eq j id ≡ false
    → All (λ e. e.id ≡ j) es
    → retain (of_id id) es ≡ []
retain_other id j [] k h = refl
retain_other id j (e ∷ es) k (same, h) =
    let other : of_id id e ≡ false = rw same k in rw (other, retain_other id j es k h) refl

retain_append :
    (p : Event → Bool) (xs ys : List Event) → retain p (xs ++ ys) ≡ retain p xs ++ retain p ys
retain_append p [] ys = refl
retain_append p (x ∷ xs) ys = elim (Bool-cases (p x)) [
  | inl e ↦ rw (e, retain_append p xs ys) refl
  | inr e ↦ rw (e, retain_append p xs ys) refl
]

module _ {Rest : Type 0} where
  -- No two records have the same id.
  abbrev pub DistinctIds : List (ContainerState Rest) → Type 0
  DistinctIds [] = Unit
  DistinctIds (s ∷ states) = (has_id s.id states ≡ false) × DistinctIds states

  abbrev pub on_some :
      Option (ContainerState Rest) → (ContainerState Rest → List Event) → List Event
  on_some none f = []
  on_some (some s) f = f s

  by_id-fresh :
      (id : Text) (states : List (ContainerState Rest))
      → has_id id states ≡ false
      → by_id id states ≡ none
  by_id-fresh id [] h = refl
  by_id-fresh id (s ∷ states) h =
      let here : text_eq s.id id ≡ false = ground arith in
      rw (by_id-fresh id states (ground arith), here) refl

  or_first-false :
      (o : Option (ContainerState Rest)) (s : ContainerState Rest) → or_first o false s ≡ o
  or_first-false none s = refl
  or_first-false (some t) s = refl

module _ {Rest : Type 0} (now : Text) where
  abbrev IsOf : ContainerState Rest → Event → Type 0
  IsOf s e = e.id ≡ s.id

  replay-IsOf : (status : Status) (s : ContainerState Rest) → All (IsOf s) (replay now status s)
  replay-IsOf created s = (refl, tt)
  replay-IsOf running s = elim (Bool-cases s.paused) [
    | inl p ↦ (refl, (refl, rw p (refl, tt)))
    | inr p ↦ (refl, (refl, rw p tt))
  ]
  replay-IsOf exited s = (refl, (refl, (refl, tt)))

  status_events-IsOf :
      (before after : Status) (old s : ContainerState Rest)
      → All (IsOf s) (status_events now before after old s)
  status_events-IsOf running running old s = elim (Bool-cases (same_flag old.paused s.paused)) [
    | inl p ↦ rw p tt
    | inr p ↦ rw p (refl, tt)
  ]
  status_events-IsOf created running old s = (refl, tt)
  status_events-IsOf exited running old s = (refl, tt)
  status_events-IsOf exited exited old s = tt
  status_events-IsOf created exited old s = (refl, tt)
  status_events-IsOf running exited old s = (refl, tt)
  status_events-IsOf created created old s = tt
  status_events-IsOf running created old s = tt
  status_events-IsOf exited created old s = tt

  changes-IsOf :
      (old : Option (ContainerState Rest)) (s : ContainerState Rest)
      → All (IsOf s) (changes now old s)
  changes-IsOf none s = replay-IsOf s.status s
  changes-IsOf (some old) s =
      let later = status_events-IsOf old.status s.status old s in
      elim (Bool-cases (same_name old.name s.name)) [
        | inl same ↦ rw same later
        | inr renamed ↦ rw renamed (refl, later)
      ]

  all_changes-of_id :
      (id : Text) (previous current : List (ContainerState Rest))
      → DistinctIds current
      → retain (of_id id) (all_changes now previous current)
        ≡ on_some (by_id id current) (changes now (by_id id previous))
  all_changes-of_id id previous [] h = refl
  all_changes-of_id id previous (s ∷ current) (fresh, h) = elim (Bool-cases (text_eq s.id id)) [
    | inl same ↦
        subst
          (λ i.
            retain (of_id i) (all_changes now previous (s ∷ current))
            ≡ on_some (by_id i (s ∷ current)) (changes now (by_id i previous)))
          (text_eq_sound s.id id same)
          (rw
            (
              retain_append (of_id s.id) (changes now (by_id s.id previous) s)
                  (all_changes now previous current),
              retain_same s.id (changes now (by_id s.id previous) s)
                  (changes-IsOf (by_id s.id previous) s),
              all_changes-of_id s.id previous current h,
              by_id-fresh s.id current fresh,
              text_eq_refl s.id,
              append-nil (changes now (by_id s.id previous) s),
            )
            refl)
    | inr other ↦
        rw
          (
            retain_append (of_id id) (changes now (by_id s.id previous) s)
                (all_changes now previous current),
            retain_other id s.id _ other (changes-IsOf (by_id s.id previous) s),
            other,
            or_first-false (by_id id current) s,
          )
          (all_changes-of_id id previous current h)
  ]

  -- What a record that is gone adds
  abbrev pub gone : List (ContainerState Rest) → Text → Option (ContainerState Rest) → List Event
  gone current id none = []
  gone current id (some old) = if has_id id current then [] else destroy_event now old ∷ []

  destroys-other :
      (id : Text) (b : Bool) (old : ContainerState Rest) (es : List Event)
      → text_eq old.id id ≡ false
      → retain (of_id id) (if b then es else destroy_event now old ∷ es) ≡ retain (of_id id) es
  destroys-other id true old es h = refl
  destroys-other id false old es h = rw h refl

  destroys-of_id :
      (id : Text) (previous current : List (ContainerState Rest))
      → DistinctIds previous
      → retain (of_id id) (destroys now current previous) ≡ gone current id (by_id id previous)
  destroys-of_id id [] current h = refl
  destroys-of_id id (old ∷ previous) current (fresh, h) = elim (Bool-cases (text_eq old.id id)) [
    | inl same ↦
        let no_other : retain (of_id old.id) (destroys now current previous) ≡ [] =
          destroys-of_id old.id previous current h
          ∙ ap (gone current old.id) (by_id-fresh old.id previous fresh) in
        subst
          (λ i.
            retain (of_id i) (destroys now current (old ∷ previous))
            ≡ gone current i (by_id i (old ∷ previous)))
          (text_eq_sound old.id id same)
          (elim (Bool-cases (has_id old.id current)) [
            | inl there ↦
                rw (by_id-fresh old.id previous fresh, text_eq_refl old.id, there) no_other
            | inr lost ↦
                rw (by_id-fresh old.id previous fresh, lost, text_eq_refl old.id, lost, no_other)
                  refl
          ])
    | inr other ↦
        rw (other, or_first-false (by_id id previous) old)
          (destroys-other id (has_id old.id current) old (destroys now current previous) other
            ∙ destroys-of_id id previous current h)
  ]

  -- Where no two records of a snapshot share an id, the events of an id are, in this order: what its
  -- record now has changed since its record before, or the whole history where there was none, and
  -- a destroy where there is no record any more.
  pub unsorted-of_id :
      (id : Text) (previous current : List (ContainerState Rest))
      → DistinctIds previous
      → DistinctIds current
      → retain (of_id id) (unsorted now previous current)
        ≡ on_some (by_id id current) (changes now (by_id id previous))
          ++ gone current id (by_id id previous)
  unsorted-of_id id previous current hp hc =
      rw
        (
          retain_append (of_id id) (all_changes now previous current)
              (destroys now current previous),
          all_changes-of_id id previous current hc,
          destroys-of_id id previous current hp,
        )
        refl
