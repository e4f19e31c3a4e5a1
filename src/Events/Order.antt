-- ===== src/Events/Order.antt =====
-- The order in which src/events.rs emits the events.
use zerun.Prelude.{
  ℕ, Bool, true, false, ◌&&◌, List, [], ◌∷◌, Text, text_eq, text_lt, retain, length, ◌≡◌, refl, ◌∙◌,
  arith, Bool-cases, inl, inr, &&_true, ||_false, All,
}
use zerun.State.{ContainerState}
use zerun.Events.{Event, event_lt, insert_event, sort_events, unsorted, diff_events}

text_lt_asym : (s t : Text) → text_lt s t ≡ true → text_lt t s ≡ false
unfolding text_lt
text_lt_asym [] [] h = cc
text_lt_asym (c ∷ s) [] h = cc
text_lt_asym [] (d ∷ t) h = refl
text_lt_asym (c ∷ s) (d ∷ t) h = ground (arith, text_lt_asym s t)

text_lt-text_eq : (s t : Text) → text_lt s t ≡ true → text_eq t s ≡ false
unfolding text_lt text_eq
text_lt-text_eq [] [] h = cc
text_lt-text_eq (c ∷ s) [] h = cc
text_lt-text_eq [] (d ∷ t) h = refl
text_lt-text_eq (c ∷ s) (d ∷ t) h = ground (arith, text_lt-text_eq s t)

text_eq-text_lt : (s t : Text) → text_eq s t ≡ true → text_lt t s ≡ false
unfolding text_lt text_eq
text_eq-text_lt [] [] h = refl
text_eq-text_lt (c ∷ s) [] h = cc
text_eq-text_lt [] (d ∷ t) h = cc
text_eq-text_lt (c ∷ s) (d ∷ t) h = ground (arith, text_eq-text_lt s t)

event_lt_asym : (a b : Event) → event_lt a b ≡ true → event_lt b a ≡ false
event_lt_asym a b h = elim (Bool-cases (text_lt a.at b.at)) [
  | inl earlier ↦ rw (text_lt_asym a.at b.at earlier, text_lt-text_eq a.at b.at earlier) refl
  | inr other ↦
      let (same, before) = &&_true (text_eq a.at b.at) (text_lt a.id b.id) (rw other at h) in
      let later = text_lt_asym a.id b.id before in
      rw (text_eq-text_lt a.at b.at same, later) (and_false (text_eq b.at a.at))
]
  where
    and_false : (x : Bool) → (x && false) ≡ false
    and_false true = refl
    and_false false = refl

-- No event has an earlier time than the one that stands before it, nor the same time and a smaller id.
abbrev pub NoEarlier : List Event → Event → Type 0
NoEarlier [] e = Unit
NoEarlier (d ∷ events) e =
    (text_lt d.at e.at ≡ false) × ((text_eq d.at e.at && text_lt d.id e.id) ≡ false)

unfoldable pub IsOrdered : List Event → Type 0
IsOrdered [] = Unit
IsOrdered (e ∷ events) = NoEarlier events e × IsOrdered events

insert_event-IsOrdered :
    (e : Event) (events : List Event) → IsOrdered events → IsOrdered (insert_event e events)
unfolding IsOrdered
insert_event-IsOrdered e [] h = (tt, tt)
insert_event-IsOrdered e (d ∷ events) (first, h) = elim (Bool-cases (event_lt d e)) [
  | inl before ↦
      rw before (inserted_after d e events before first, insert_event-IsOrdered e events h)
  | inr here ↦ rw here (||_false _ _ here, (first, h))
]
  where
    inserted_after :
        (d e : Event) (events : List Event)
        → event_lt d e ≡ true
        → NoEarlier events d
        → NoEarlier (insert_event e events) d
    inserted_after d e [] before first = ||_false _ _ (event_lt_asym d e before)
    inserted_after d e (c ∷ events) before first = elim (Bool-cases (event_lt c e)) [
      | inl again ↦ rw again first
      | inr here ↦ rw here (||_false _ _ (event_lt_asym d e before))
    ]

sort_events-IsOrdered : (events : List Event) → IsOrdered (sort_events events)
sort_events-IsOrdered [] = unfold IsOrdered in tt
sort_events-IsOrdered (e ∷ events) =
    insert_event-IsOrdered e (sort_events events) (sort_events-IsOrdered events)

-- How many events pass a test
abbrev pub count : (Event → Bool) → List Event → ℕ
count p events = length (retain p events)

count-insert_event :
    (p : Event → Bool) (e : Event) (events : List Event)
    → count p (insert_event e events) ≡ count p (e ∷ events)
count-insert_event p e [] = refl
count-insert_event p e (d ∷ events) = elim (Bool-cases (event_lt d e)) [
  | inl before ↦ rw before (ground (arith, count-insert_event p e events))
  | inr here ↦ rw here refl
]

pub count-sort_events :
    (p : Event → Bool) (events : List Event) → count p (sort_events events) ≡ count p events
count-sort_events p [] = refl
count-sort_events p (e ∷ events) =
    count-insert_event p e (sort_events events) ∙ ground (arith, count-sort_events p events)

-- No event that passes the test belongs before an earlier one of the list that passes it.
abbrev pub Chained : (Event → Bool) → List Event → Type 0
Chained p [] = Unit
Chained p (e ∷ events) = All (λ d. (p d && p e && event_lt d e) ≡ false) events × Chained p events

All-insert_event :
    (P : Event → Type 0) (e : Event) (events : List Event)
    → P e
    → All P events
    → All P (insert_event e events)
All-insert_event P e [] here h = (here, tt)
All-insert_event P e (d ∷ events) here (first, h) = elim (Bool-cases (event_lt d e)) [
  | inl before ↦ rw before (first, All-insert_event P e events here h)
  | inr after ↦ rw after (here, (first, h))
]

All-sort_events :
    (P : Event → Type 0) (events : List Event) → All P events → All P (sort_events events)
All-sort_events P [] h = tt
All-sort_events P (e ∷ events) (here, h) =
    All-insert_event P e (sort_events events) here (All-sort_events P events h)

retain-insert_event :
    (p : Event → Bool) (e : Event) (events : List Event)
    → All (λ d. (p d && p e && event_lt d e) ≡ false) events
    → retain p (insert_event e events) ≡ retain p (e ∷ events)
retain-insert_event p e [] h = refl
retain-insert_event p e (d ∷ events) (first, h) = elim (Bool-cases (event_lt d e)) [
  | inl before ↦ rw before (ground (arith, before, first, retain-insert_event p e events h))
  | inr here ↦ rw here refl
]

-- Sorting leaves the events that pass the test in their order, where that is in order.
pub retain-sort_events :
    (p : Event → Bool) (events : List Event)
    → Chained p events
    → retain p (sort_events events) ≡ retain p events
retain-sort_events p [] h = refl
retain-sort_events p (e ∷ events) (first, h) =
    retain-insert_event p e (sort_events events)
      (All-sort_events (λ d. (p d && p e && event_lt d e) ≡ false) events first)
    ∙ ground (arith, retain-sort_events p events h)

module _ {Rest : Type 0} (now : Text) where
  -- The emitted events come in order of their time and then of their id, and of every test as many pass
  -- as of the events that were found.
  pub diff_events-IsOrdered :
      (previous current : List (ContainerState Rest))
      → IsOrdered (diff_events now previous current)
        × ((p : Event → Bool)
            → count p (diff_events now previous current) ≡ count p (unsorted now previous current))
  unfolding diff_events
  diff_events-IsOrdered previous current = (
    sort_events-IsOrdered (unsorted now previous current),
    λ p. count-sort_events p (unsorted now previous current),
  )
