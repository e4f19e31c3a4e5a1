-- ===== src/Lifecycle/Reconciled.antt =====
-- What src/lifecycle.rs makes of a record whose process is gone.
use mathlib.Core.Path.{subst}
use zerun.Prelude.{
  [], ◌∷◌, &&_true, text_eq_sound, Option-cases, sym, Bool, true, false, Option, none, some, [],
  ◌++◌, Text, Result, ok, err, codes, text_eq, text_eq_refl, ◌≡◌, refl, ◌∙◌, ap, Bool-cases, inl,
  inr, All, ◌⊎◌, All-append,
}
use zerun.State.{valid_id, ContainerState, exited, StateError, StateFiles, load, save, with_log}
use zerun.State.Records.{load-save}
use zerun.Lifecycle.{
  path_eq, container_path, CgroupPath, Host, Reclaim, teardown, remove_cgroup, release_address,
  remove_if_empty, parent, parent_actions, reconcile_stale, is_stale, marked_exited, reclaim_cgroup,
  or_killed, remove_for_container, is_container_path, veth_actions, address_actions,
  reconcile_stale_and_save, when_saved,
}

path_eq_sound : (p q : CgroupPath) → path_eq p q ≡ true → p ≡ q
path_eq_sound [] [] h = refl
path_eq_sound [] (c ∷ q) h = cc
path_eq_sound (c ∷ p) [] h = cc
path_eq_sound (c ∷ p) (d ∷ q) h =
    let (first, rest) = &&_true (text_eq c d) (path_eq p q) h in
    rw (text_eq_sound c d first, path_eq_sound p q rest) refl

-- The directory that the cgroups of all containers share, and the cgroup of one
abbrev pub shared : CgroupPath → CgroupPath
shared root = root ++ codes "zerun" ∷ []

abbrev pub cgroup_of : CgroupPath → Text → CgroupPath
cgroup_of root id = root ++ codes "zerun" ∷ id ∷ []

parent-cgroup_of : (root : CgroupPath) (id : Text) → parent (cgroup_of root id) ≡ some (shared root)
parent-cgroup_of [] id = refl
parent-cgroup_of (c ∷ []) id = refl
parent-cgroup_of (c ∷ d ∷ root) id = rw (parent-cgroup_of (d ∷ root) id) refl

is_container_path-inv :
    (o : Option CgroupPath) (id : Text) (path : CgroupPath)
    → is_container_path o id path ≡ true
    → (root : CgroupPath) × (o ≡ some root) × (valid_id id ≡ true) × (path ≡ cgroup_of root id)
unfolding is_container_path container_path
is_container_path-inv o id path h = elim (Bool-cases (valid_id id)) [
  | inr bad ↦ absurd (refused (rw bad at h))
  | inl valid ↦ elim (Option-cases o) [
    | inl none_there ↦ absurd (refused (rw (valid, none_there) at h))
    | inr (root, e) ↦
        (root, e, valid, sym (path_eq_sound (cgroup_of root id) path (rw (valid, e) at h)))
  ]
]
  where
    refused : ◌≡◌ {A = Bool} false true → ⊥
    refused k = cc

-- What an action may be for a record: the interface and the table are the recorded ones; a cgroup is
-- the recorded one, and the one of the id below the mount; only the directory that the cgroups share
-- is removed besides, when it is empty and the cgroup is gone; and an address is released only on the
-- bridge.
unfoldable pub IsOwn : {Rest : Type 0} → Host → ContainerState Rest → Reclaim → Type 0
IsOwn host s (teardown id veth table) = (id ≡ s.id) × (s.veth ≡ some veth) × (table ≡ s.table)
IsOwn host s (remove_cgroup path) =
    (s.cgroup ≡ some path)
    × (root : CgroupPath) × (host.cgroup_root ≡ some root)
    × (valid_id s.id ≡ true)
    × (path ≡ cgroup_of root s.id)
IsOwn host s (remove_if_empty above) =
    (root : CgroupPath) × (host.cgroup_root ≡ some root)
    × (valid_id s.id ≡ true)
    × (s.cgroup ≡ some (cgroup_of root s.id))
    × (host.removes (cgroup_of root s.id) ≡ true)
    × (above ≡ shared root)
IsOwn host s (release_address id) = (id ≡ s.id) × (text_eq s.net (codes "bridge") ≡ true)

module _ {Rest : Type 0} where
  IsOwn-parent_actions :
      (host : Host) (s : ContainerState Rest) (root path : CgroupPath)
      → host.cgroup_root ≡ some root
      → valid_id s.id ≡ true
      → s.cgroup ≡ some path
      → path ≡ cgroup_of root s.id
      → host.removes path ≡ true
      → All (IsOwn host s) (parent_actions (parent path))
  unfolding IsOwn
  IsOwn-parent_actions host s root path at_root valid recorded own removed =
      subst
        (λ p.
          s.cgroup ≡ some p
          → host.removes p ≡ true
          → All (IsOwn host s) (parent_actions (parent p)))
        (sym own)
        (λ here gone.
          rw (parent-cgroup_of root s.id) ((root, at_root, valid, here, gone, refl), tt))
        recorded removed

  IsOwn-remove_for_container :
      (host : Host) (s : ContainerState Rest) (path : CgroupPath)
      → s.cgroup ≡ some path
      → All (IsOwn host s) (remove_for_container host s.id path).1
  unfolding remove_for_container IsOwn
  IsOwn-remove_for_container host s path recorded =
      elim (Bool-cases (is_container_path host.cgroup_root s.id path)) [
        | inl own ↦
            let (root, at_root, valid, same) =
              is_container_path-inv host.cgroup_root s.id path own in
            elim (Bool-cases (host.removes path)) [
              | inl removed ↦
                  rw (own, removed)
                    (
                      (recorded, root, at_root, valid, same),
                      IsOwn-parent_actions host s root path at_root valid recorded same removed,
                    )
              | inr failed ↦ rw (own, failed) ((recorded, root, at_root, valid, same), tt)
            ]
        | inr foreign ↦ rw foreign tt
      ]

  IsOwn-veth_actions :
      (host : Host) (s : ContainerState Rest) (veth : Option Text)
      → s.veth ≡ veth
      → All (IsOwn host s) (veth_actions s veth)
  unfolding IsOwn
  IsOwn-veth_actions host s none e = tt
  IsOwn-veth_actions host s (some veth) e = ((refl, e, refl), tt)

  IsOwn-address_actions :
      (host : Host) (s : ContainerState Rest) → All (IsOwn host s) (address_actions s)
  unfolding IsOwn
  IsOwn-address_actions host s = elim (Bool-cases (text_eq s.net (codes "bridge"))) [
    | inl bridge ↦ rw bridge ((refl, bridge), tt)
    | inr other ↦ rw other tt
  ]

  IsOwn-reclaim_cgroup :
      (host : Host) (s : ContainerState Rest) (cgroup : Option CgroupPath)
      → s.cgroup ≡ cgroup
      → All (IsOwn host s) (reclaim_cgroup host s cgroup).2
  IsOwn-reclaim_cgroup host s none e = tt
  IsOwn-reclaim_cgroup host s (some path) e =
      elim (Bool-cases (is_container_path host.cgroup_root s.id path)) [
        | inl own ↦ rw own (IsOwn-remove_for_container host s path e)
        | inr foreign ↦ rw foreign tt
      ]

  -- Whatever the record says, a reconciliation does nothing to the host unless the record is stale, and
  -- then only this: it tears down the interface and the table that are recorded, for the id; it removes
  -- the cgroup that is recorded, only if that is the directory of the id, which is valid, in the shared
  -- one below the mount; when that is gone it removes the shared one, if it is empty; and it releases the
  -- address of the id, if the network is the bridge.
  pub reconcile_stale-IsOwn :
      (host : Host) (s : ContainerState Rest)
      → All (IsOwn host s) (reconcile_stale host s).2
        × ((is_stale host s ≡ true) ⊎ ((reconcile_stale host s).2 ≡ []))
  unfolding reconcile_stale
  reconcile_stale-IsOwn host s = elim (Bool-cases (is_stale host s)) [
    | inl stale ↦ rw stale (
      All-append (IsOwn host s) (veth_actions s s.veth ++ (reclaim_cgroup host s s.cgroup).2)
          (address_actions s)
          (All-append (IsOwn host s) (veth_actions s s.veth) (reclaim_cgroup host s s.cgroup).2
            (IsOwn-veth_actions host s s.veth refl) (IsOwn-reclaim_cgroup host s s.cgroup refl))
          (IsOwn-address_actions host s),
      inl refl,
    )
    | inr live ↦ rw live (tt, inr refl)
  ]

  module _ {Bytes : Type 0} (encode : ContainerState Rest → Bytes)
      (decode : Bytes → Option (ContainerState Rest)) (log_path : Text → Text)
      (round_trip : (s : ContainerState Rest) → decode (encode s) ≡ some s) where
    when_saved-inv :
        (r : Result StateError (Unit {0}) × StateFiles Bytes) (files : StateFiles Bytes)
        → when_saved encode decode log_path r ≡ (ok true, files)
        → r ≡ (ok tt, files)
    when_saved-inv (ok _, f) files e = ap (λ p. (ok tt, p.1)) e
    when_saved-inv (err reason, f) files e = cc

    -- What holds once a stale record was reconciled and saved: its id loads a record that is exited, not
    -- paused, and without network names, which no later reconciliation changes, on whatever host;
    -- every other id loads what it loaded before. serde_json is assumed to read back what it wrote.
    pub reconcile_stale_and_save-Settled :
        (host : Host) (writable : Bool) (files files' : StateFiles Bytes) (s : ContainerState Rest)
        → reconcile_stale_and_save encode decode log_path host writable files s ≡ (ok true, files')
        → (t : ContainerState Rest) × (load encode decode log_path files' s.id ≡ some t)
          × (t.status ≡ exited)
          × (t.paused ≡ false)
          × (t.table ≡ none)
          × (t.veth ≡ none)
          × (t.exit_code ≡ or_killed s.exit_code)
          × ((host' : Host) (w : Bool)
              → reconcile_stale_and_save encode decode log_path host' w files' t
                ≡ (ok false, files'))
          × ((id : Text)
              → text_eq s.id id ≡ false
              → load encode decode log_path files' id ≡ load encode decode log_path files id)
    unfolding reconcile_stale_and_save reconcile_stale
    reconcile_stale_and_save-Settled host writable files files' s e =
        let (metrics, reclaimed, actions) = reclaim_cgroup host s s.cgroup in
        let s' = marked_exited host s metrics reclaimed in
        elim (Bool-cases (is_stale host s)) [
          | inl stale ↦
              let saved =
                when_saved-inv (save encode decode log_path writable files s') files'
                  (rw stale at e) in
              let loaded =
                load-save encode decode log_path round_trip writable files files' s' saved in
              (
                with_log (log_path s.id) s',
                loaded s.id ∙ rw (text_eq_refl s.id) refl,
                refl,
                refl,
                refl,
                refl,
                refl,
                λ host' w. refl,
                λ id other. loaded id ∙ rw other refl,
              )
          | inr live ↦ absurd (unchanged (rw live at e))
        ]
      where
        unchanged : ¬ (
            ◌≡◌ {A = Result StateError Bool × StateFiles Bytes} (ok false, files) (ok true, files'))
        unchanged k = cc
