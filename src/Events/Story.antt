-- ===== src/Events/Story.antt =====
-- What happened to one container between two snapshots, and that src/events.rs tells it.
use mathlib.Core.Path.{subst}
use zerun.Prelude.{
  Bool, true, false, ◌&&◌, ◌||◌, not, Option, none, some, List, [], ◌∷◌, ◌++◌, Text, codes, text_eq,
  text_eq_sound, text_lt, retain, length, ◌≡◌, refl, ◌∙◌, ap, sym, arith, Bool-cases, inl, inr, All,
  append-nil,
}
use zerun.State.{ContainerState, Status, created, running, exited, integer}
use zerun.Events.{
  Event, changes, replay, status_events, same_name, by_id, has_id, unsorted, diff_events, or_text,
  code_of, event_lt, rename_event, or_first,
}
use zerun.Events.History.{of_id, DistinctIds, on_some, gone, unsorted-of_id}
use zerun.Events.Order.{count, Chained, retain-sort_events, count-sort_events}

abbrev has_status : Status → Status → Bool
has_status created created = true
has_status running running = true
has_status exited exited = true
has_status a b = false

abbrev when : Bool → Event → List Event
when false e = []
when true e = e ∷ []

abbrev is_some : {A : Type 0} → Option A → Bool
is_some none = false
is_some (some a) = true

retain-retain :
    (p q : Event → Bool) (es : List Event) → retain (λ e. p e && q e) es ≡ retain q (retain p es)
retain-retain p q [] = refl
retain-retain p q (e ∷ es) = ground (arith, retain-retain p q es)

-- No event has an earlier time than one before it.
abbrev pub InTime : List Event → Type 0
InTime [] = Unit
InTime (e ∷ es) = All (λ d. text_lt d.at e.at ≡ false) es × InTime es

text_lt_irrefl : (t : Text) → text_lt t t ≡ false
unfolding text_lt
text_lt_irrefl [] = refl
text_lt_irrefl (c ∷ t) = ground (arith, text_lt_irrefl t)

same_id :
    (id : Text) (d e : Event)
    → of_id id d ≡ true
    → of_id id e ≡ true
    → text_lt d.at e.at ≡ false
    → event_lt d e ≡ false
same_id id d e hd he late =
    let ids : d.id ≡ e.id = text_eq_sound d.id id hd ∙ sym (text_eq_sound e.id id he) in
    let not_less : text_lt d.id e.id ≡ false = rw ids (text_lt_irrefl e.id) in
    ground (arith, late, not_less)

All-retained :
    (id : Text) (e : Event) (es : List Event)
    → of_id id e ≡ true
    → All (λ d. text_lt d.at e.at ≡ false) (retain (of_id id) es)
    → All (λ d. (of_id id d && of_id id e && event_lt d e) ≡ false) es
All-retained id e [] he h = tt
All-retained id e (d ∷ es) he h = elim (Bool-cases (of_id id d)) [
  | inl hd ↦
      let (late, rest) : (text_lt d.at e.at ≡ false)
          × All (λ x. text_lt x.at e.at ≡ false) (retain (of_id id) es) =
        rw hd at h in
      (rw (hd, he) (same_id id d e hd he late), All-retained id e es he rest)
  | inr other ↦ (rw other refl, All-retained id e es he (rw other at h))
]

All-other :
    (id : Text) (e : Event) (es : List Event)
    → of_id id e ≡ false
    → All (λ d. (of_id id d && of_id id e && event_lt d e) ≡ false) es
All-other id e [] he = tt
All-other id e (d ∷ es) he = (ground (arith, he), All-other id e es he)

Chained-InTime :
    (id : Text) (es : List Event) → InTime (retain (of_id id) es) → Chained (of_id id) es
Chained-InTime id [] h = tt
Chained-InTime id (e ∷ es) h = elim (Bool-cases (of_id id e)) [
  | inl he ↦
      let (later, rest) : All (λ d. text_lt d.at e.at ≡ false) (retain (of_id id) es)
          × InTime (retain (of_id id) es) =
        rw he at h in
      (All-retained id e es he later, Chained-InTime id es rest)
  | inr other ↦ (All-other id e es other, Chained-InTime id es (rw other at h))
]

module _ {Rest : Type 0} (now : Text) where
  abbrev happened : ContainerState Rest → Text → Text → Option Text → Event
  happened s action at detail = record {
    at = at;
    action = action;
    id = s.id;
    name = s.name;
    image = s.image;
    detail = detail;
  }

  -- A container that now runs has started, one that is now exited has died, and one that was running and
  -- still is may have been paused or resumed.
  abbrev moved : Status → Status → ContainerState Rest → ContainerState Rest → List Event
  moved before after old s =
      when (has_status running after && not (has_status running before))
        (happened s (codes "start") (or_text s.started now) none)
      ++ when (has_status exited after && not (has_status exited before)) (
          happened s (codes "die") (or_text s.finished now)
            (some (codes "exitCode=" ++ integer (code_of s.exit_code))))
      ++ when (has_status running after && has_status running before && not old.paused && s.paused)
          (happened s (codes "pause") now none)
      ++ when (has_status running after && has_status running before && old.paused && not s.paused)
          (happened s (codes "unpause") now none)

  abbrev first_seen : Status → ContainerState Rest → List Event
  first_seen status s =
      happened s (codes "create") s.created none
        ∷ when (not (has_status created status))
            (happened s (codes "start") (or_text s.started now) none)
      ++ when (has_status exited status) (
          happened s (codes "die") (or_text s.finished now)
            (some (codes "exitCode=" ++ integer (code_of s.exit_code))))
      ++ when (has_status running status && s.paused) (happened s (codes "pause") now none)

  -- The record before and the record now: a container that is seen first is created, has started unless
  -- it is still created, has died if it is exited, and is paused if it runs paused. Of one that was seen
  -- before, what changed: its name, that it now runs, that it is now exited, and that it was paused or
  -- resumed while it ran. One that is gone is destroyed.
  abbrev pub story : Option (ContainerState Rest) → Option (ContainerState Rest) → List Event
  story none none = []
  story (some old) none = happened old (codes "destroy") now none ∷ []
  story none (some s) = first_seen s.status s
  story (some old) (some s) =
      when (not (same_name old.name s.name)) (
        happened s (codes "rename") now
          (some (codes "from=" ++ or_text old.name s.id ++ codes " to=" ++ or_text s.name s.id)))
      ++ moved old.status s.status old s

  first_seen-replay :
      (status : Status) (s : ContainerState Rest) → replay now status s ≡ first_seen status s
  first_seen-replay created s = refl
  first_seen-replay exited s = refl
  first_seen-replay running s = elim (Bool-cases s.paused) [ inl p ↦ rw p refl | inr p ↦ rw p refl ]

  moved-running :
      (old s : ContainerState Rest)
      → status_events now running running old s ≡ moved running running old s
  moved-running old s = elim (Bool-cases old.paused) [
    | inl o ↦ elim (Bool-cases s.paused) [ inl p ↦ rw (o, p) refl | inr p ↦ rw (o, p) refl ]
    | inr o ↦ elim (Bool-cases s.paused) [ inl p ↦ rw (o, p) refl | inr p ↦ rw (o, p) refl ]
  ]

  moved-status_events :
      (before after : Status) (old s : ContainerState Rest)
      → status_events now before after old s ≡ moved before after old s
  moved-status_events running running old s = moved-running old s
  moved-status_events created running old s = refl
  moved-status_events exited running old s = refl
  moved-status_events exited exited old s = refl
  moved-status_events created exited old s = refl
  moved-status_events running exited old s = refl
  moved-status_events created created old s = refl
  moved-status_events running created old s = refl
  moved-status_events exited created old s = refl

  story-changes :
      (old : Option (ContainerState Rest)) (s : ContainerState Rest)
      → changes now old s ≡ story old (some s)
  story-changes none s = first_seen-replay s.status s
  story-changes (some old) s =
      let after = moved-status_events old.status s.status old s in
      elim (Bool-cases (same_name old.name s.name)) [
        | inl same ↦ rw same after
        | inr renamed ↦ rw renamed (ap (λ es. rename_event now old s ∷ es) after)
      ]

  has_id-by_id :
      (id : Text) (states : List (ContainerState Rest)) {o : Option (ContainerState Rest)}
      → by_id id states ≡ o
      → has_id id states ≡ is_some o
  has_id-by_id id [] e = rw (sym e) refl
  has_id-by_id id (s ∷ states) e = rw (sym e) (
      has_first (by_id id states) (text_eq s.id id) s (has_id id states)
        (has_id-by_id id states refl))
    where
      has_first :
          (later : Option (ContainerState Rest)) (here : Bool) (s : ContainerState Rest) (b : Bool)
          → b ≡ is_some later
          → (here || b) ≡ is_some (or_first later here s)
      has_first (some t) true s b h = refl
      has_first (some t) false s b h = h
      has_first none true s b h = refl
      has_first none false s b h = h

  on_some-story :
      (id : Text) (current : List (ContainerState Rest)) (old new : Option (ContainerState Rest))
      → has_id id current ≡ is_some new
      → on_some new (changes now old) ++ gone now current id old ≡ story old new
  on_some-story id current none none there = refl
  on_some-story id current none (some s) there =
      append-nil (changes now none s) ∙ story-changes none s
  on_some-story id current (some old) none there = rw there refl
  on_some-story id current (some old) (some s) there =
      rw there (append-nil (changes now (some old) s) ∙ story-changes (some old) s)

  unsorted-story :
      (id : Text) (previous current : List (ContainerState Rest))
      → DistinctIds previous
      → DistinctIds current
      → retain (of_id id) (unsorted now previous current)
        ≡ story (by_id id previous) (by_id id current)
  unsorted-story id previous current hp hc =
      unsorted-of_id now id previous current hp hc
      ∙ on_some-story id current (by_id id previous) (by_id id current)
          (has_id-by_id id current refl)

  -- Where no two records of a snapshot share an id, the emitted events of an id are its story, up to
  -- their order: every test is passed by as many of them as events of the story.
  pub diff_events-story :
      (id : Text) (previous current : List (ContainerState Rest))
      → DistinctIds previous
      → DistinctIds current
      → (p : Event → Bool)
      → count (λ e. of_id id e && p e) (diff_events now previous current)
        ≡ count p (story (by_id id previous) (by_id id current))
  unfolding diff_events
  diff_events-story id previous current hp hc p =
      count-sort_events (λ e. of_id id e && p e) (unsorted now previous current)
      ∙ ap length (retain-retain (of_id id) p (unsorted now previous current))
      ∙ ap (count p) (unsorted-story id previous current hp hc)

  -- Where, besides, no event of its story has an earlier time than one before it, the emitted events of
  -- an id are its story, in that order.
  pub diff_events-InTime :
      (id : Text) (previous current : List (ContainerState Rest))
      → DistinctIds previous
      → DistinctIds current
      → InTime (story (by_id id previous) (by_id id current))
      → retain (of_id id) (diff_events now previous current)
        ≡ story (by_id id previous) (by_id id current)
  unfolding diff_events
  diff_events-InTime id previous current hp hc in_time =
      let told = unsorted-story id previous current hp hc in
      retain-sort_events (of_id id) (unsorted now previous current)
        (Chained-InTime id (unsorted now previous current) (subst InTime (sym told) in_time))
      ∙ told
