-- ===== src/PsFilter/Examples.antt =====
-- Runs of src/psfilter.rs.
use zerun.Prelude.{
  true, false, ◌&&◌, none, some, [], ◌∷◌, Text, ok, err, ◌≡◌, ◌≢◌, refl, codes, text_eq, split_once,
  strip_prefix, parse_uint, parse_digits, arith,
}
use zerun.Prelude.Int.{pos, parse_i32}
use zerun.Prelude.Dict
use zerun.State.{ContainerState, running}
use zerun.PsFilter.{
  PsFilter, no_filter, name_key, label_key, key_of, status_of, set_key, set, matches, widens_status,
  unknown_filter, invalid_status,
}
use zerun.PsFilter.Matches.{selects, set-matches, set-replaces}

abbrev web : ContainerState (Unit {0})
web = record {
  id = codes "ab1";
  name = some (codes "web");
  image = codes "alpine";
  pid = none;
  pid_start_time = none;
  status = running;
  paused = false;
  exit_code = none;
  created = codes "2026-01-01";
  net = codes "none";
  log = codes "log";
  labels = (codes "tier", codes "prod") ∷ [];
  started = none;
  finished = none;
  table = none;
  veth = none;
  cgroup = none;
  metrics = none;
  rest = tt;
}

abbrev named : Text → PsFilter
named name = record no_filter { name = some name }

abbrev labelled : PsFilter
labelled = record (named (codes "web")) { labels = (codes "tier", some (codes "prod")) ∷ [] }

label_run : set (codes "label") (codes "tier=prod") (named (codes "web")) ≡ ok labelled
unfolding set set_key key_of text_eq split_once
label_run = refl

label_matches_run : matches labelled web ≡ true
unfolding matches text_eq strip_prefix Dict.get
label_matches_run = refl

code_run :
    set (codes "exitCode") (codes "3") no_filter
    ≡ ok (record no_filter { exit_code = some (pos 3) })
unfolding set set_key key_of text_eq parse_i32 parse_uint parse_digits
code_run = refl

bad_status : set (codes "status") (codes "dead") no_filter ≡ err invalid_status
unfolding set set_key key_of status_of text_eq
bad_status = refl

bad_key : set (codes "color") (codes "red") no_filter ≡ err unknown_filter
unfolding set key_of text_eq
bad_key = refl

exit_code_widens : widens_status (record no_filter { exit_code = some (pos 0) }) ≡ true
unfolding widens_status
exit_code_widens = refl

label_known : key_of (codes "label") ≡ some label_key
unfolding key_of text_eq
label_known = refl

name_known : key_of (codes "name") ≡ some name_key
unfolding key_of text_eq
name_known = refl

name_run : set (codes "name") (codes "web") no_filter ≡ ok (named (codes "web"))
unfolding set set_key key_of text_eq
name_run = refl

set-matches_example :
    matches labelled web
    ≡ (matches (named (codes "web")) web && selects label_key (codes "tier=prod") web)
set-matches_example =
    set-matches (named (codes "web")) labelled web label_key (codes "label") (codes "tier=prod")
      label_known tt label_run

name_no_label : key_of (codes "name") ≢ some label_key
name_no_label h = ground (arith, name_known)

-- After `name=web` and `name=db`, only `db` is asked for.
set-replaces_example :
    set (codes "name") (codes "db") (named (codes "web"))
    ≡ set (codes "name") (codes "db") no_filter
set-replaces_example =
    set-replaces no_filter (named (codes "web")) (codes "name") (codes "web") (codes "db")
      name_no_label name_run
