-- ===== src/Events/Examples.antt =====
-- Events of src/events.rs between two snapshots.
use zerun.Prelude.{
  Bool, true, false, ◌&&◌, none, some, List, [], ◌∷◌, Text, ok, err, codes, ◌≡◌, refl, text_eq,
  text_lt, map, retain, strip_prefix, parse_uint, parse_digits, bytes,
}
use zerun.Prelude.Decimal.{decimal, digits_from}
use zerun.Prelude.Int.{pos, parse_i32}
use zerun.State.{ContainerState, Status, running, exited}
use zerun.Logs.Select.{LogTimeFilter, contains_rfc3339}
use zerun.Logs.{epoch_nanos_from_rfc3339}
use zerun.Events.{
  Event, EventFilter, diff_events, unsorted, set_filter, filter_matches, format_event,
  select_events_with_time_filter, invalid_name, die_event,
}
use zerun.Events.History.{of_id}
use zerun.Events.Story.{story, diff_events-story, diff_events-InTime}
use zerun.Events.Order.{IsOrdered, count, diff_events-IsOrdered}

abbrev now : Text
now = codes "2026-01-03"

abbrev state : Text → Status → ContainerState (Unit {0})
state id status = record {
  id = id;
  name = some id;
  image = codes "alpine";
  pid = none;
  pid_start_time = none;
  status = status;
  paused = false;
  exit_code = some (pos 3);
  created = codes "2026-01-01";
  started = some (codes "2026-01-02");
  finished = none;
  net = codes "none";
  log = codes "log";
  labels = [];
  table = none;
  veth = none;
  cgroup = none;
  metrics = none;
  rest = tt;
}

abbrev before : List (ContainerState (Unit {0}))
before = state (codes "a1") running ∷ state (codes "b2") exited ∷ []

abbrev after : List (ContainerState (Unit {0}))
after = state (codes "a1") exited ∷ state (codes "c3") running ∷ []

abbrev action_of : Event → Text × Text
action_of e = (e.action, e.id)

emitted :
    map action_of (diff_events now before after)
    ≡ (codes "create", codes "c3")
      ∷ (codes "start", codes "c3")
      ∷ (codes "die", codes "a1")
      ∷ (codes "destroy", codes "b2")
      ∷ []
unfolding diff_events text_eq text_lt decimal digits_from
emitted = refl

-- What became of `a1`: it died.
a1_story :
    story now (some (state (codes "a1") running)) (some (state (codes "a1") exited))
    ≡ die_event now (state (codes "a1") exited) ∷ []
unfolding text_eq
a1_story = refl

diff_events-story_example :
    count
      (λ e. of_id (codes "a1") e && text_eq e.action (codes "die"))
      (diff_events now before after)
    ≡ count
        (λ e. text_eq e.action (codes "die"))
        (story now (some (state (codes "a1") running)) (some (state (codes "a1") exited)))
unfolding text_eq
diff_events-story_example =
    diff_events-story now (codes "a1") before after (refl, (refl, tt)) (refl, (refl, tt))
      (λ e. text_eq e.action (codes "die"))

-- `c3` was created and has started.
diff_events-InTime_example :
    retain (of_id (codes "c3")) (diff_events now before after)
    ≡ story now none (some (state (codes "c3") running))
unfolding text_eq text_lt
diff_events-InTime_example =
    diff_events-InTime now (codes "c3") before after (refl, (refl, tt)) (refl, (refl, tt))
      ((refl, tt), (tt, tt))

diff_events-IsOrdered_example :
    IsOrdered (diff_events now before after)
    × ((p : Event → Bool)
        → count p (diff_events now before after) ≡ count p (unsorted now before after))
diff_events-IsOrdered_example = diff_events-IsOrdered now before after

abbrev no_filter : EventFilter
no_filter = record { action = none; container = none; name = none; image = none; exit_code = none }

abbrev death : Event
death = die_event now (state (codes "a1") exited)

filters :
    (set_filter (codes "name") [] no_filter ≡ err invalid_name)
    × (set_filter (codes "exitCode") (codes "3") no_filter
        ≡ ok (record no_filter { exit_code = some (pos 3) }))
    × (filter_matches
          (record no_filter { exit_code = some (pos 3); container = some (codes "a") })
          death
        ≡ true)
    × (filter_matches (record no_filter { exit_code = some (pos 4) }) death ≡ false)
unfolding set_filter filter_matches text_eq strip_prefix parse_i32 parse_uint parse_digits decimal
    digits_from
filters = (refl, refl, refl, refl)

line :
    format_event death ≡ codes "2026-01-03 container die (id=a1, image=alpine, name=a1, exitCode=3)"
unfolding format_event decimal digits_from
line = refl

abbrev any_time : LogTimeFilter
any_time = record { since = none; until = none }

-- A time that is no timestamp is in no range.
no_time : select_events_with_time_filter (death ∷ []) [] any_time ≡ []
unfolding select_events_with_time_filter filter_matches contains_rfc3339 epoch_nanos_from_rfc3339
    bytes
no_time = refl
