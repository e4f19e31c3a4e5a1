-- ===== src/Events.antt =====
-- The lifecycle events that src/events.rs reads off two snapshots of the records, and their filters.
use zerun.Prelude.{
  ℕ, Bool, true, false, ◌&&◌, ◌||◌, not, Option, none, some, List, [], ◌∷◌, ◌++◌, Text, Result, ok,
  err, codes, text_eq, text_lt, ◌==◌, if◌then◌else◌, any, all, retain, starts_with, strip_prefix,
  is_empty, ◌~>◌,
}
use zerun.Prelude.Int.{ℤ, pos, negsuc, parse_i32}
use zerun.State.{ContainerState, Status, created, running, exited, integer}
use zerun.Logs.Select.{LogTimeFilter, contains_rfc3339}
pub mod History
pub mod Order
pub mod Story
mod Examples

pub record Event : Type 0 where
  pub at : Text
  pub action : Text
  pub id : Text
  pub name : Option Text
  pub image : Text
  pub detail : Option Text

pub record EventFilter : Type 0 where
  pub action : Option Text
  pub container : Option Text
  pub name : Option Text
  pub image : Option Text
  pub exit_code : Option ℤ

pub data EventError : Type 0 where
  invalid_container invalid_name invalid_image invalid_exit_code unknown_filter : EventError

abbrev exit_filter : EventFilter → Option ℤ → Result EventError EventFilter
exit_filter f none = err invalid_exit_code
exit_filter f (some code) = ok (record f { exit_code = some code })

unfoldable pub set_filter : Text → Text → EventFilter → Result EventError EventFilter
set_filter key value f =
    if text_eq key (codes "action") || text_eq key (codes "event")
    then ok (record f { action = some value })
    else if text_eq key (codes "container")
    then (if is_empty value
        then err invalid_container
        else ok (record f { container = some value }))
    else if text_eq key (codes "name")
    then (if is_empty value then err invalid_name else ok (record f { name = some value }))
    else if text_eq key (codes "image")
    then (if is_empty value then err invalid_image else ok (record f { image = some value }))
    else if text_eq key (codes "exitCode")
    then exit_filter f (parse_i32 value)
    else err unknown_filter

abbrev wants : Option Text → Text → Bool
wants none found = true
wants (some want) found = text_eq found want

abbrev names : Option Text → Text → Bool
names none want = false
names (some name) want = text_eq name want

abbrev wants_container : Option Text → Event → Bool
wants_container none e = true
wants_container (some want) e = text_eq e.id want || starts_with want e.id || names e.name want

abbrev wants_name : Option Text → Option Text → Bool
wants_name none name = true
wants_name (some want) name = names name want

abbrev same_integer : ℤ → ℤ → Bool
same_integer (pos a) (pos b) = a == b
same_integer (pos a) (negsuc b) = false
same_integer (negsuc a) (pos b) = false
same_integer (negsuc a) (negsuc b) = a == b

abbrev is_code : Option ℤ → ℤ → Bool
is_code none want = false
is_code (some code) want = same_integer code want

abbrev wants_exit : Option ℤ → Option Text → Bool
wants_exit none detail = true
wants_exit (some want) detail =
    is_code (detail ~> λ d. strip_prefix (codes "exitCode=") d ~> parse_i32) want

unfoldable pub filter_matches : EventFilter → Event → Bool
filter_matches f e =
    wants f.action e.action
    && wants_container f.container e
    && wants_name f.name e.name
    && wants f.image e.image
    && wants_exit f.exit_code e.detail

unfoldable pub select_events_with_time_filter :
    List Event → List EventFilter → LogTimeFilter → List Event
unfolding filter_matches
select_events_with_time_filter events filters range =
    retain (λ e. contains_rfc3339 range e.at && all (λ f. filter_matches f e) filters) events

abbrev name_part : Option Text → Text
name_part none = []
name_part (some name) = codes ", name=" ++ name

abbrev detail_part : Option Text → Text
detail_part none = []
detail_part (some detail) = codes ", " ++ detail

unfoldable pub format_event : Event → Text
format_event e =
    e.at
    ++ codes " container "
    ++ e.action
    ++ codes " (id="
    ++ e.id
    ++ codes ", image="
    ++ e.image
    ++ name_part e.name
    ++ detail_part e.detail
    ++ codes ")"

abbrev pub or_text : Option Text → Text → Text
or_text none default = default
or_text (some t) default = t

abbrev pub code_of : Option ℤ → ℤ
code_of none = negsuc 0
code_of (some code) = code

abbrev pub same_name : Option Text → Option Text → Bool
same_name none none = true
same_name none (some b) = false
same_name (some a) none = false
same_name (some a) (some b) = text_eq a b

abbrev pub same_flag : Bool → Bool → Bool
same_flag true b = b
same_flag false b = not b

module _ {Rest : Type 0} where
  -- `prev.get(id)`: of records with one id the map holds the last.
  abbrev pub or_first :
      Option (ContainerState Rest) → Bool → ContainerState Rest → Option (ContainerState Rest)
  or_first (some later) here s = some later
  or_first none true s = some s
  or_first none false s = none

  abbrev pub by_id : Text → List (ContainerState Rest) → Option (ContainerState Rest)
  by_id id [] = none
  by_id id (s ∷ states) = or_first (by_id id states) (text_eq s.id id) s

  abbrev pub has_id : Text → List (ContainerState Rest) → Bool
  has_id id states = any (λ s. text_eq s.id id) states

module _ {Rest : Type 0} (now : Text) where
  abbrev pub event : ContainerState Rest → Text → Text → Option Text → Event
  event s action at detail = record {
    at = at;
    action = action;
    id = s.id;
    name = s.name;
    image = s.image;
    detail = detail;
  }

  abbrev pub create_event : ContainerState Rest → Event
  create_event s = event s (codes "create") s.created none

  abbrev pub start_event : ContainerState Rest → Event
  start_event s = event s (codes "start") (or_text s.started now) none

  abbrev pub die_event : ContainerState Rest → Event
  die_event s =
      event s (codes "die") (or_text s.finished now)
        (some (codes "exitCode=" ++ integer (code_of s.exit_code)))

  abbrev pub pause_event : ContainerState Rest → Event
  pause_event s = event s (if s.paused then codes "pause" else codes "unpause") now none

  abbrev pub destroy_event : ContainerState Rest → Event
  destroy_event s = event s (codes "destroy") now none

  abbrev pub rename_event : ContainerState Rest → ContainerState Rest → Event
  rename_event old s =
      event s (codes "rename") now
        (some (codes "from=" ++ or_text old.name s.id ++ codes " to=" ++ or_text s.name s.id))

  -- The history of a record that is seen first
  abbrev pub replay : Status → ContainerState Rest → List Event
  replay created s = create_event s ∷ []
  replay running s = create_event s ∷ start_event s ∷ (if s.paused then pause_event s ∷ [] else [])
  replay exited s = create_event s ∷ start_event s ∷ die_event s ∷ []

  -- What a change of the status adds, and of the freezer while it runs
  abbrev pub status_events :
      Status → Status → ContainerState Rest → ContainerState Rest → List Event
  status_events running running old s =
      if same_flag old.paused s.paused then [] else pause_event s ∷ []
  status_events old running before s = start_event s ∷ []
  status_events exited exited old s = []
  status_events old exited before s = die_event s ∷ []
  status_events old created before s = []

  abbrev pub changes : Option (ContainerState Rest) → ContainerState Rest → List Event
  changes none s = replay s.status s
  changes (some old) s =
      (if same_name old.name s.name then [] else rename_event old s ∷ [])
      ++ status_events old.status s.status old s

  abbrev pub all_changes : List (ContainerState Rest) → List (ContainerState Rest) → List Event
  all_changes previous [] = []
  all_changes previous (s ∷ current) =
      changes (by_id s.id previous) s ++ all_changes previous current

  abbrev pub destroys : List (ContainerState Rest) → List (ContainerState Rest) → List Event
  destroys current [] = []
  destroys current (old ∷ previous) =
      let rest = destroys current previous in
      if has_id old.id current then rest else destroy_event old ∷ rest

  -- Before they are sorted
  abbrev pub unsorted : List (ContainerState Rest) → List (ContainerState Rest) → List Event
  unsorted previous current = all_changes previous current ++ destroys current previous

-- `a.at.cmp(&b.at).then(a.id.cmp(&b.id))` is less
abbrev pub event_lt : Event → Event → Bool
event_lt a b = text_lt a.at b.at || (text_eq a.at b.at && text_lt a.id b.id)

abbrev pub insert_event : Event → List Event → List Event
insert_event e [] = e ∷ []
insert_event e (d ∷ events) =
    let rest = insert_event e events in if event_lt d e then d ∷ rest else e ∷ d ∷ events

-- The sort is stable.
abbrev pub sort_events : List Event → List Event
sort_events [] = []
sort_events (e ∷ events) = insert_event e (sort_events events)

unfoldable pub diff_events :
    {Rest : Type 0} → Text → List (ContainerState Rest) → List (ContainerState Rest) → List Event
diff_events now previous current = sort_events (unsorted now previous current)
