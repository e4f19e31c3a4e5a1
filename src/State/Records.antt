-- ===== src/State/Records.antt =====
-- Saving and loading the records of src/state.rs.
use mathlib.Core.Path.{subst}
use zerun.Prelude.{
  Bool, true, Option, none, some, Text, ok, text_eq, text_eq_refl, text_eq_iff, if◌then◌else◌, ◌≡◌,
  arith, Option-cases, Bool-cases, inl, inr, ap,
}
use zerun.State.{ContainerState, valid_id, StateFiles, with_log, accept, load, save}

module _ {Rest Bytes : Type 0} (encode : ContainerState Rest → Bytes)
    (decode : Bytes → Option (ContainerState Rest)) (log_path : Text → Text) where
  accept-inv :
      (id : Text) (o : Option (ContainerState Rest)) (s : ContainerState Rest)
      → accept encode decode log_path id o ≡ some s
      → (s.id ≡ id) × (s.log ≡ log_path id)
  accept-inv id none s h = cc
  accept-inv id (some t) s h = (ground (arith, text_eq_iff t.id id), ground arith)

  -- A record that is loaded names the directory that it was loaded from, which is a valid id, and its
  -- console log is at the canonical path, whatever the file says.
  pub load-Identity :
      (files : StateFiles Bytes) (id : Text) (s : ContainerState Rest)
      → load encode decode log_path files id ≡ some s
      → (s.id ≡ id) × (s.log ≡ log_path id) × (valid_id id ≡ true)
  unfolding load
  load-Identity files id s h = elim (Option-cases (files id)) [
    | inl e ↦ ground (arith, e)
    | inr (bytes, e) ↦
        let (same, at_log) = accept-inv id (decode bytes) s (ground (arith, e)) in
        (same, at_log, ground (arith, e))
  ]

  module _ (round_trip : (s : ContainerState Rest) → decode (encode s) ≡ some s) where
    abbrev written : StateFiles Bytes → ContainerState Rest → StateFiles Bytes
    written files s id =
        if text_eq s.id id then some (encode (with_log (log_path s.id) s)) else files id

    save-inv :
        (writable : Bool) (files files' : StateFiles Bytes) (s : ContainerState Rest)
        → save encode decode log_path writable files s ≡ (ok tt, files')
        → (valid_id s.id ≡ true) × (written files s ≡ files')
    unfolding save
    save-inv writable files files' s h = elim (Bool-cases (valid_id s.id)) [
      | inl valid ↦ elim (Bool-cases writable) [
        | inl w ↦ (valid, ap (λ p. p.1) (rw (valid, w) at h))
        | inr w ↦ ground (arith, valid, w)
      ]
      | inr e ↦ ground (arith, e)
    ]

    load-written :
        (files : StateFiles Bytes) (s : ContainerState Rest) (id : Text)
        → valid_id s.id ≡ true
        → load encode decode log_path (written files s) id ≡ (
            if text_eq s.id id
            then some (with_log (log_path s.id) s)
            else load encode decode log_path files id)
    unfolding load
    load-written files s id valid = elim (Bool-cases (text_eq s.id id)) [
      | inl same ↦
          subst
            (λ i. load encode decode log_path (written files s) i ≡ (
              if text_eq s.id i
              then some (with_log (log_path s.id) s)
              else load encode decode log_path files i))
            ((text_eq_iff s.id id).0 same)
            (ground (arith, text_eq_refl s.id, valid, round_trip (with_log (log_path s.id) s)))
      | inr other ↦ ground (arith, other)
    ]

    -- After a record is saved, its id loads it with the canonical log path, and every other id loads
    -- what it loaded before. serde_json is assumed to read back what it wrote.
    pub load-save :
        (writable : Bool) (files files' : StateFiles Bytes) (s : ContainerState Rest)
        → save encode decode log_path writable files s ≡ (ok tt, files')
        → (id : Text)
        → load encode decode log_path files' id ≡ (
            if text_eq s.id id
            then some (with_log (log_path s.id) s)
            else load encode decode log_path files id)
    load-save writable files files' s h id =
        let (valid, same) = save-inv writable files files' s h in
        subst
          (λ f. load encode decode log_path f id ≡ (
            if text_eq s.id id
            then some (with_log (log_path s.id) s)
            else load encode decode log_path files id))
          same (load-written files s id valid)
