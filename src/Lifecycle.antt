-- ===== src/Lifecycle.antt =====
-- The reconciliation of records by src/lifecycle.rs, with the cgroup paths of src/cgroup.rs that it
-- trusts. A path is the list of its components, as `Path` compares them.
use zerun.Prelude.{
  ℕ, zero, suc, Bool, true, false, ◌&&◌, ◌||◌, not, Option, none, some, List, [], ◌∷◌, ◌++◌, Text,
  Result, ok, err, codes, text_eq, if◌then◌else◌, ◌~>◌, Option,
}
use zerun.Prelude.Int.{ℤ, pos, negsuc}
use zerun.State.{
  ContainerState, ContainerMetrics, Status, created, running, exited, valid_id, pid_alive,
  StateError, StateFiles, load, save,
}
pub mod Reconciled
mod Examples

abbrev pub CgroupPath : Type 0
CgroupPath = List Text

abbrev pub path_eq : CgroupPath → CgroupPath → Bool
path_eq [] [] = true
path_eq [] (q ∷ qs) = false
path_eq (p ∷ ps) [] = false
path_eq (p ∷ ps) (q ∷ qs) = text_eq p q && path_eq ps qs

-- `container_path`, where `root` is the mount of cgroup2 if there is one: an id is valid here
-- exactly when it is valid for the state.
unfoldable pub container_path : Option CgroupPath → Text → Option CgroupPath
container_path root id =
    if valid_id id then (root ~> λ r. some (r ++ codes "zerun" ∷ id ∷ [])) else none

abbrev pub equals_path : Option CgroupPath → CgroupPath → Bool
equals_path none path = false
equals_path (some expected) path = path_eq expected path

unfoldable pub is_container_path : Option CgroupPath → Text → CgroupPath → Bool
unfolding container_path
is_container_path root id path = equals_path (container_path root id) path

-- What the host answers during one reconciliation
pub record Host : Type 0 where
  pub cgroup_root : Option CgroupPath
  pub exists : ℤ → Bool
  pub start_time : ℤ → Option ℕ
  pub cgroup_exists : CgroupPath → Bool
  pub metrics_at : CgroupPath → ContainerMetrics
  -- whether a removal succeeds, or finds the directory gone
  pub removes : CgroupPath → Bool
  pub now : Text

-- What is done to the host
pub data Reclaim : Type 0 where
  teardown : Text → Text → Option Text → Reclaim
  remove_cgroup : CgroupPath → Reclaim
  -- `remove_dir`, whose failure is ignored: the kernel refuses it where a cgroup is left inside
  remove_if_empty : CgroupPath → Reclaim
  release_address : Text → Reclaim

-- `path.parent()`
abbrev pub parent : CgroupPath → Option CgroupPath
parent [] = none
parent (name ∷ []) = some []
parent (name ∷ next ∷ rest) = elim (parent (next ∷ rest)) [
  | none ↦ none
  | some above ↦ some (name ∷ above)
]

abbrev pub parent_actions : Option CgroupPath → List Reclaim
parent_actions none = []
parent_actions (some above) = remove_if_empty above ∷ []

-- `remove_for_container`: whether it succeeded, and what it did. The parent of the cgroup is shared.
unfoldable pub remove_for_container : Host → Text → CgroupPath → Bool × List Reclaim
unfolding is_container_path
remove_for_container host id path =
    if is_container_path host.cgroup_root id path
    then (if host.removes path
        then (true, remove_cgroup path ∷ parent_actions (parent path))
        else (false, remove_cgroup path ∷ []))
    else (false, [])

abbrev pub or_killed : Option ℤ → Option ℤ
or_killed none = some (pos 137)
or_killed (some code) = some code

abbrev pub is_running : Status → Bool
is_running created = false
is_running running = true
is_running exited = false

module _ {Rest : Type 0} where
  abbrev pub veth_actions : ContainerState Rest → Option Text → List Reclaim
  veth_actions s none = []
  veth_actions s (some veth) = teardown s.id veth s.table ∷ []

  -- The metrics, whether the cgroup was reclaimed, and what was done
  abbrev pub reclaim_cgroup :
      Host → ContainerState Rest → Option CgroupPath → Option ContainerMetrics × Bool × List Reclaim
  reclaim_cgroup host s none = (s.metrics, true, [])
  reclaim_cgroup host s (some path) =
      let (removed, actions) = remove_for_container host s.id path in
      if is_container_path host.cgroup_root s.id path
      then (
        (if host.cgroup_exists path then some (host.metrics_at path) else s.metrics),
        removed,
        actions,
      )
      else (s.metrics, false, [])

  abbrev pub address_actions : ContainerState Rest → List Reclaim
  address_actions s = if text_eq s.net (codes "bridge") then release_address s.id ∷ [] else []

  abbrev pub is_stale : Host → ContainerState Rest → Bool
  is_stale host s = is_running s.status && not (pid_alive host.exists host.start_time s)

  abbrev pub marked_exited :
      Host → ContainerState Rest → Option ContainerMetrics → Bool → ContainerState Rest
  marked_exited host s metrics reclaimed = record s {
    status = exited;
    paused = false;
    exit_code = or_killed s.exit_code;
    finished = some host.now;
    table = none;
    veth = none;
    cgroup = if reclaimed then none else s.cgroup;
    metrics = metrics;
  }

  -- Whether the record changed, the record, and what was done to the host
  unfoldable pub reconcile_stale :
      Host → ContainerState Rest → Bool × ContainerState Rest × List Reclaim
  unfolding remove_for_container
  reconcile_stale host s =
      let (metrics, reclaimed, actions) = reclaim_cgroup host s s.cgroup in
      if is_stale host s
      then (
        true,
        marked_exited host s metrics reclaimed,
        veth_actions s s.veth ++ actions ++ address_actions s,
      )
      else (false, s, [])

  -- `reclaim_resources` of `rm`
  abbrev removal_actions : Host → ContainerState Rest → Option CgroupPath → List Reclaim
  removal_actions host s none = []
  removal_actions host s (some path) = (remove_for_container host s.id path).1

  unfoldable pub reclaim_resources : Host → ContainerState Rest → List Reclaim
  reclaim_resources host s =
      veth_actions s s.veth ++ removal_actions host s s.cgroup ++ address_actions s

  module _ {Bytes : Type 0} (encode : ContainerState Rest → Bytes)
      (decode : Bytes → Option (ContainerState Rest)) (log_path : Text → Text) where
    abbrev pub Saved : Type 0
    Saved = Result StateError Bool × StateFiles Bytes

    abbrev pub when_saved : Result StateError (Unit {0}) × StateFiles Bytes → Saved
    when_saved (ok _, files) = (ok true, files)
    when_saved (err e, files) = (err e, files)

    unfoldable pub reconcile_stale_and_save :
        Host → Bool → StateFiles Bytes → ContainerState Rest → Saved
    unfolding reconcile_stale
    reconcile_stale_and_save host writable files s =
        let (changed, s', actions) = reconcile_stale host s in
        if changed
        then when_saved (save encode decode log_path writable files s')
        else (ok false, files)

    -- The record after each pause of `settle_exit`, `none` where there is none, and at last the one
    -- that is loaded when the time is over
    abbrev pub settled_last : Host → Bool → StateFiles Bytes → Option (ContainerState Rest) → Saved
    settled_last host writable files none = (ok false, files)
    settled_last host writable files (some s) =
        let saved = reconcile_stale_and_save host writable files s in
        if is_stale host s then saved else (ok false, files)

    unfoldable pub settle_exit :
        Host
        → Bool
        → StateFiles Bytes
        → List (Option (ContainerState Rest))
        → Option (ContainerState Rest)
        → Saved
    unfolding reconcile_stale_and_save
    settle_exit host writable files [] last = settled_last host writable files last
    settle_exit host writable files (none ∷ polls) last = (ok false, files)
    settle_exit host writable files (some s ∷ polls) last =
        let later = settle_exit host writable files polls last in
        if is_running s.status then later else (ok false, files)
