-- ===== src/State/Examples.antt =====
-- Runs of src/state.rs. A record is its own file.
use zerun.Prelude.{
  true, false, Option, none, some, List, [], ◌∷◌, Text, ok, err, ◌≡◌, refl, codes, text_eq, text_lt,
  if◌then◌else◌, strip_prefix, byte_len,
}
use zerun.Prelude.Int.{pos}
use zerun.Prelude.Decimal.{decimal}
use zerun.State.{
  ContainerState, exited, valid_id, valid_name, status_label, pid_alive, StateFiles, with_log, load,
  save, insert_newest, list, resolve, ambiguous,
}
use zerun.State.Records.{load-save}
use zerun.State.Lookup.{Stored, Answers, resolve-Answers}

abbrev container : Text → Option Text → Text → ContainerState (Unit {0})
container id name created = record {
  id = id;
  name = name;
  image = codes "alpine";
  pid = some (pos 7);
  pid_start_time = some 100;
  status = exited;
  paused = false;
  exit_code = none;
  created = created;
  net = codes "none";
  log = codes "log";
  labels = [];
  started = none;
  finished = none;
  table = none;
  veth = none;
  cgroup = none;
  metrics = none;
  rest = tt;
}

abbrev web : ContainerState (Unit {0})
web = container (codes "ab1") (some (codes "web")) (codes "2026-01-01")

abbrev db : ContainerState (Unit {0})
db = container (codes "ab2") none (codes "2026-02-01")

abbrev files : StateFiles (ContainerState (Unit {0}))
files id =
    if text_eq id (codes "ab1")
    then some web
    else if text_eq id (codes "ab2")
    then some db
    else none

abbrev dirs : List Text
dirs = codes "ab1" ∷ codes "ab2" ∷ codes "junk" ∷ []

abbrev log_at : Text → Text
log_at id = codes "log"

newest_first : list (λ s. s) some log_at files dirs ≡ db ∷ web ∷ []
unfolding list load insert_newest valid_id text_eq text_lt byte_len
newest_first = refl

by_name : resolve (λ s. s) some log_at files dirs (codes "web") ≡ ok web
unfolding resolve list load insert_newest valid_id text_eq text_lt byte_len
by_name = refl

two_match : resolve (λ s. s) some log_at files dirs (codes "ab") ≡ err (ambiguous (codes "ab") 2)
unfolding resolve list load insert_newest valid_id text_eq text_lt byte_len strip_prefix
two_match = refl

no_escape : load (λ s. s) some log_at files (codes "../ab1") ≡ none
unfolding load valid_id byte_len
no_escape = refl

label_run : status_label web ≡ codes "Exited (-1)"
unfolding status_label decimal
label_run = refl

reused_pid : pid_alive (λ p. true) (λ p. some 99) web ≡ false
unfolding pid_alive
reused_pid = refl

name_run : valid_name (codes "web-1.x") ≡ true
unfolding valid_name byte_len
name_run = refl

abbrev saved : StateFiles (ContainerState (Unit {0}))
saved id = if text_eq (codes "ab1") id then some (with_log (log_at (codes "ab1")) web) else files id

save_run : save (λ s. s) some log_at true files web ≡ (ok tt, saved)
unfolding save valid_id byte_len
save_run = refl

load-save_example : load (λ s. s) some log_at saved (codes "ab2") ≡ (
    if text_eq (codes "ab1") (codes "ab2")
    then some (with_log (log_at (codes "ab1")) web)
    else load (λ s. s) some log_at files (codes "ab2"))
load-save_example =
    load-save (λ s. s) some log_at (λ s. refl) true files saved web save_run (codes "ab2")

resolve-Answers_example :
    Stored (λ s. s) some log_at files web
    × Answers (λ s. s) some log_at files dirs (codes "web") web
resolve-Answers_example = resolve-Answers (λ s. s) some log_at files dirs (codes "web") web by_name
