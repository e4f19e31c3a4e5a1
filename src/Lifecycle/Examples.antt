-- ===== src/Lifecycle/Examples.antt =====
-- Reconciliations of src/lifecycle.rs on a record whose reaper was killed.
use zerun.Prelude.{
  Bool, true, false, Option, none, some, [], ◌∷◌, Text, ok, codes, ◌≡◌, refl, text_eq, All, ◌⊎◌,
  byte_len,
}
use zerun.Prelude.Int.{pos}
use zerun.State.{
  ContainerState, ContainerMetrics, running, exited, valid_id, pid_alive, StateFiles, load, save,
}
use zerun.Lifecycle.{
  Host, CgroupPath, teardown, remove_cgroup, remove_if_empty, is_stale, release_address,
  reconcile_stale, reclaim_resources, remove_for_container, is_container_path, container_path,
  reconcile_stale_and_save, settle_exit,
}
use zerun.Lifecycle.Reconciled.{IsOwn, reconcile_stale-IsOwn, reconcile_stale_and_save-Settled}

abbrev own_cgroup : CgroupPath
own_cgroup = codes "sys" ∷ codes "zerun" ∷ codes "ab12" ∷ []

abbrev empty_metrics : ContainerMetrics
empty_metrics = record {
  memory_bytes = some 7;
  memory_peak_bytes = none;
  cpu_usage_usec = none;
  pids = none;
  io_read_bytes = none;
  io_write_bytes = none;
}

abbrev host : Host
host = record {
  cgroup_root = some (codes "sys" ∷ []);
  exists = λ pid. false;
  start_time = λ pid. none;
  cgroup_exists = λ path. true;
  metrics_at = λ path. empty_metrics;
  removes = λ path. true;
  now = codes "2026-01-01T00:00:00Z";
}

abbrev stale : ContainerState (Unit {0})
stale = record {
  id = codes "ab12";
  name = none;
  image = codes "alpine";
  pid = some (pos 7);
  pid_start_time = some 100;
  status = running;
  paused = true;
  exit_code = none;
  created = codes "2025";
  started = some (codes "2025");
  finished = none;
  net = codes "bridge";
  log = codes "log";
  labels = [];
  table = some (codes "t");
  veth = some (codes "v");
  cgroup = some own_cgroup;
  metrics = none;
  rest = tt;
}

reclaimed :
    (reconcile_stale host stale).2
    ≡ teardown (codes "ab12") (codes "v") (some (codes "t"))
      ∷ remove_cgroup own_cgroup
      ∷ remove_if_empty (codes "sys" ∷ codes "zerun" ∷ [])
      ∷ release_address (codes "ab12")
      ∷ []
unfolding reconcile_stale remove_for_container is_container_path container_path pid_alive valid_id
    text_eq byte_len
reclaimed = refl

-- A path that was tampered with is left alone, and stays in the record.
abbrev foreign : ContainerState (Unit {0})
foreign = record stale { cgroup = some (codes "etc" ∷ []) }

refused :
    ((reconcile_stale host foreign).1.cgroup ≡ some (codes "etc" ∷ []))
    × (reclaim_resources host foreign
        ≡ teardown (codes "ab12") (codes "v") (some (codes "t"))
          ∷ release_address (codes "ab12")
          ∷ [])
unfolding reconcile_stale reclaim_resources remove_for_container is_container_path container_path
    pid_alive valid_id text_eq byte_len
refused = (refl, refl)

reconcile_stale-IsOwn_example :
    All (IsOwn host stale) (reconcile_stale host stale).2
    × ((is_stale host stale ≡ true) ⊎ ((reconcile_stale host stale).2 ≡ []))
reconcile_stale-IsOwn_example = reconcile_stale-IsOwn host stale

-- A codec that keeps the record itself
abbrev keep : ContainerState (Unit {0}) → ContainerState (Unit {0})
keep s = s

abbrev read : ContainerState (Unit {0}) → Option (ContainerState (Unit {0}))
read s = some s

abbrev log_path : Text → Text
log_path id = codes "logs"

abbrev no_files : StateFiles (ContainerState (Unit {0}))
no_files id = none

abbrev files_after : StateFiles (ContainerState (Unit {0}))
files_after = (reconcile_stale_and_save keep read log_path host true no_files stale).1

saved :
    reconcile_stale_and_save keep read log_path host true no_files stale ≡ (ok true, files_after)
unfolding reconcile_stale_and_save reconcile_stale remove_for_container is_container_path
    container_path pid_alive valid_id text_eq byte_len save
saved = refl

reconcile_stale_and_save-Settled_example :
    (t : ContainerState (Unit {0})) × (load keep read log_path files_after (codes "ab12") ≡ some t)
    × (t.status ≡ exited)
    × (t.paused ≡ false)
    × (t.table ≡ none)
    × (t.veth ≡ none)
    × (t.exit_code ≡ some (pos 137))
    × ((host' : Host) (w : Bool)
        → reconcile_stale_and_save keep read log_path host' w files_after t
          ≡ (ok false, files_after))
    × ((id : Text)
        → text_eq (codes "ab12") id ≡ false
        → load keep read log_path files_after id ≡ load keep read log_path no_files id)
reconcile_stale_and_save-Settled_example =
    reconcile_stale_and_save-Settled keep read log_path (λ s. refl) host true no_files files_after
      stale saved

-- The reaper writes the exit during the grace period.
settles :
    settle_exit keep read log_path host true no_files
      (some stale ∷ some (record stale { status = exited }) ∷ [])
      none
    ≡ (ok false, no_files)
unfolding settle_exit
settles = refl
