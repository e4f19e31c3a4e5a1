-- ===== src/Nftables/Install/Settled.antt =====
-- An installation by src/nfnetlink.rs that succeeds leaves one rule, with the marker.
use mathlib.Core.Path.{subst}
use zerun.Prelude.{
  ℕ, Bool, true, false, ◌&&◌, ◌||◌, not, Option, none, some, List, [], ◌∷◌, ◌++◌, Result, ok, err,
  ◌==◌, ◌≡◌, refl, sym, ◌∙◌, arith, has, retain, Bool-cases, inl, inr, ap, ◌<◌, all, length, bytes,
  find, find_sound, text_eq_refl,
}
use zerun.Nftables.Messages.{masquerade_rule}
use zerun.Nftables.Records.{RuleRecord}
use zerun.Nftables.Records.Names.{is_name_char}
use zerun.Nftables.Records.Message.{parse_rule_dump-msg_new_rule}
use zerun.Nftables.Install.{
  Plan, plan_rules, is_marked, sort_rules, Replies, Request, make_table, make_chain, list_rules,
  add_rule, remove_rules, install_nat, Installed, InstallError, carry_out, remove_stale,
  settle_rules, ensure_object, requesting, eexist, nat_rule_userdata, NatConfig, postrouting,
}
use zerun.Nftables.Install.Sorted.{has-sort_rules, Distinct-sort_rules}
use zerun.Nftables.Install.Canonical.{
  handles, handles_with, Distinct, survives, survives_as, effects, Leaves, plan_rules-Leaves,
  no_rules, NeverEmptied, new_rules, made_of, delete_handle-inv, plan_rules-deletes, Distinct-rest,
}

-- A plan deletes handles of the listed rules only.
plan_rules-listed :
    (x : ℕ) (rules : List RuleRecord) (seen kept : Bool) (deleted : List ℕ)
    → plan_rules seen rules ≡ ok (kept, deleted)
    → has x (handles rules) ≡ false
    → has x deleted ≡ false
plan_rules-listed x [] seen kept deleted e fresh = unfold plan_rules in cc
plan_rules-listed x (r ∷ rules) seen kept deleted e fresh =
    elim (Bool-cases (is_marked r && not seen)) [
      | inl first ↦
          plan_rules-listed x rules true kept deleted (unfold plan_rules in rw first at e)
            (skips r.handle (handles rules) fresh)
      | inr other ↦
          let (h, ds, here, later, all_of) =
            delete_handle-inv r.handle (plan_rules seen rules) kept deleted
              (sym (plan_rules-deletes seen r rules other) ∙ e) in
          let split : ((h == x) || has x (handles rules)) ≡ false = rw here at fresh in
          let below = plan_rules-listed x rules seen kept ds later (ground arith) in
          rw all_of (ground arith)
    ]
  where
    skips : (o : Option ℕ) (hs : List ℕ) → has x (handles_with o hs) ≡ false → has x hs ≡ false
    skips none hs f = f
    skips (some h) hs f = ground arith

retain_append :
    (p : RuleRecord → Bool) (xs ys : List RuleRecord)
    → retain p (xs ++ ys) ≡ retain p xs ++ retain p ys
retain_append p [] ys = refl
retain_append p (x ∷ xs) ys = elim (Bool-cases (p x)) [
  | inl e ↦ rw (e, retain_append p xs ys) refl
  | inr e ↦ rw (e, retain_append p xs ys) refl
]

survives_all : (rules : List RuleRecord) → retain (survives []) rules ≡ rules
survives_all [] = refl
survives_all (r ∷ rules) = rw (kept r.handle, survives_all rules) refl
  where
    kept : (o : Option ℕ) → survives_as [] o ≡ true
    kept none = refl
    kept (some h) = refl

ensure_object-inv :
    (refused : ℕ → InstallError) (r : Request) (reply : Result ℕ (Unit {0})) (next : Installed)
    (trace : List Request)
    → ensure_object refused r reply next ≡ (ok tt, trace)
    → (later : List Request) × (next ≡ (ok tt, later)) × (trace ≡ r ∷ later)
ensure_object-inv refused r (ok _) (outcome, later) trace e = (later, cc, cc)
ensure_object-inv refused r (err code) (outcome, later) trace e =
    elim (Bool-cases (code == eexist)) [
      | inl there ↦
          let e' : (outcome, r ∷ later) ≡ (ok tt, trace) = rw there at e in (later, cc, cc)
      | inr other ↦
          let e' : ◌≡◌ {A = Installed} (err (refused code), r ∷ []) (ok tt, trace) =
            rw other at e in
          cc
    ]

-- What a removal that the kernel grants leaves.
effects-remove_stale :
    (new : List RuleRecord) (deleted : List ℕ) (replies : Replies) (rules : List RuleRecord)
    (trace : List Request)
    → replies.removal ≡ ok tt
    → remove_stale deleted replies ≡ (ok tt, trace)
    → effects new trace rules ≡ retain (survives deleted) rules
effects-remove_stale new [] replies rules trace granted e =
    let none_made : [] ≡ trace = cc in rw (sym none_made) (sym (survives_all rules))
effects-remove_stale new (h ∷ hs) replies rules trace granted e =
    let made : remove_rules (h ∷ hs) ∷ [] ≡ trace = ap (λ p. p.1) (rw granted at e) in
    rw (sym made) refl

NeverEmptied-remove_stale :
    (was_empty : Bool) (new : List RuleRecord) (deleted : List ℕ) (replies : Replies)
    (rules : List RuleRecord) (trace : List Request)
    → replies.removal ≡ ok tt
    → remove_stale deleted replies ≡ (ok tt, trace)
    → (no_rules rules && not was_empty) ≡ false
    → (no_rules (retain (survives deleted) rules) && not was_empty) ≡ false
    → NeverEmptied was_empty new trace rules
NeverEmptied-remove_stale was_empty new [] replies rules trace granted e before after =
    let none_made : [] ≡ trace = cc in
    subst (λ t. NeverEmptied was_empty new t rules) none_made before
NeverEmptied-remove_stale was_empty new (h ∷ hs) replies rules trace granted e before after =
    let made : remove_rules (h ∷ hs) ∷ [] ≡ trace = ap (λ p. p.1) (rw granted at e) in
    subst (λ t. NeverEmptied was_empty new t rules) made (before, after)

survives-unlisted :
    (o : Option ℕ) (hs ds : List ℕ)
    → Distinct (handles_with o hs)
    → ((x : ℕ) → has x hs ≡ false → has x ds ≡ false)
    → survives_as ds o ≡ true
survives-unlisted none hs ds d sub = refl
survives-unlisted (some h) hs ds (fresh, d) sub = rw (sub h fresh) refl

-- The rule that stays: the first marked one of those that were there, or else the new one
abbrev pub kept_or : Option RuleRecord → RuleRecord → RuleRecord
kept_or none added = added
kept_or (some r) added = r

abbrev pub canonical_rule : ℕ → RuleRecord
canonical_rule handle = record { handle = some handle; userdata = some nat_rule_userdata }

-- What an installation leaves in the chain, and on the way to it
pub IsCanonical : RuleRecord → List RuleRecord → List RuleRecord → List Request → Type 0
IsCanonical added new rules trace =
    (effects new trace rules ≡ kept_or (find is_marked rules) added ∷ [])
    × (is_marked (kept_or (find is_marked rules) added) ≡ true)
    × NeverEmptied (no_rules rules) new trace rules

empty_or_not : (b : Bool) → (b && not b) ≡ false
empty_or_not true = refl
empty_or_not false = refl

no_rules-append :
    (rules more : List RuleRecord) (r : RuleRecord) → no_rules (rules ++ r ∷ more) ≡ false
no_rules-append [] more r = refl
no_rules-append (s ∷ rules) more r = refl

module _ (added : RuleRecord) (replies : Replies) (marked : is_marked added ≡ true)
    (rule_granted : replies.rule ≡ ok tt) (removal_granted : replies.removal ≡ ok tt) where
  abbrev new : List RuleRecord
  new = added ∷ []

  carry_out-IsCanonical :
      (p : Plan) (rules : List RuleRecord) (trace : List Request)
      → ((kept : Bool) (ds : List ℕ)
          → p ≡ ok (kept, ds)
          → Leaves rules kept (retain (survives ds) rules) × (survives ds added ≡ true))
      → carry_out p replies ≡ (ok tt, trace)
      → IsCanonical added new rules trace
  unfolding Leaves IsCanonical
  carry_out-IsCanonical (err reason) rules trace plan e =
      let e' : ◌≡◌ {A = Installed} (err reason, []) (ok tt, trace) = e in cc
  carry_out-IsCanonical (ok (true, ds)) rules trace plan e =
      let ((r, found, left), stays) = plan true ds refl in
      rw found (
        effects-remove_stale new ds replies rules trace removal_granted e ∙ left,
        find_sound is_marked rules r found,
        NeverEmptied-remove_stale (no_rules rules) new ds replies rules trace removal_granted e
            (empty_or_not (no_rules rules)) (rw left refl),
      )
  carry_out-IsCanonical (ok (false, ds)) rules trace plan e =
      let ((missing, left), stays) = plan false ds refl in
      let (later, removed, made) =
        ensure_object-inv _ add_rule replies.rule (remove_stale ds replies) trace e in
      let after : retain (survives ds) (rules ++ added ∷ []) ≡ added ∷ [] =
        retain_append (survives ds) rules (added ∷ []) ∙ rw (left, stays) refl in
      rw (made, missing)
        (
          effects-remove_stale new ds replies (rules ++ new) later removal_granted removed ∙ after,
          marked,
          (
            empty_or_not (no_rules rules),
            NeverEmptied-remove_stale (no_rules rules) new ds replies (rules ++ new) later
                removal_granted removed (rw (no_rules-append rules [] added) refl) (rw after refl),
          ),
        )

  settled :
      (rules : List RuleRecord) (trace : List Request)
      → replies.dump ≡ ok rules
      → Distinct (handles (added ∷ rules))
      → install_nat replies ≡ (ok tt, trace)
      → IsCanonical added new (sort_rules rules) trace
  unfolding install_nat IsCanonical
  settled rules trace dumped distinct e =
      let (after_table, e1, t1) = ensure_object-inv _ make_table replies.table _ trace e in
      let (after_chain, e2, t2) = ensure_object-inv _ make_chain replies.chain _ after_table e1 in
      let (after_dump, e3, t3) =
        requesting-inv (settle_rules replies.dump replies) after_chain e2 in
      let sorted = sort_rules rules in
      let (left, is_it, never) =
        carry_out-IsCanonical (plan_rules false sorted) sorted after_dump
          (λ kept ds planned. (
            plan_rules-Leaves sorted kept ds planned
                (Distinct-sort_rules rules (Distinct-rest added.handle (handles rules) distinct)),
            survives-unlisted added.handle (handles rules) ds distinct (λ x fresh.
                plan_rules-listed x sorted false kept ds planned (has-sort_rules x rules ∙ fresh)),
          ))
          (subst (λ d. settle_rules d replies ≡ (ok tt, after_dump)) dumped e3) in
      let before = empty_or_not (no_rules sorted) in
      rw (t1, t2, t3) (left, is_it, (before, (before, (before, never))))
    where
      requesting-inv :
          (next : Installed) (trace : List Request)
          → requesting list_rules next ≡ (ok tt, trace)
          → (later : List Request) × (next ≡ (ok tt, later)) × (trace ≡ list_rules ∷ later)
      requesting-inv (outcome, later) trace e = (later, cc, cc)

-- Read by the kernel, the message of `add_rule` is one rule with the marker.
new_rules-canonical_rule :
    (cfg : NatConfig) (handle : ℕ)
    → all is_name_char cfg.table ≡ true
    → length (bytes cfg.table) < 60000
    → length (masquerade_rule cfg.source_network cfg.prefix_len) < 60000
    → new_rules cfg handle ≡ canonical_rule handle ∷ []
unfolding bytes
new_rules-canonical_rule cfg handle name short small = ap (made_of handle) (
    parse_rule_dump-msg_new_rule cfg.table postrouting
      (masquerade_rule cfg.source_network cfg.prefix_len) nat_rule_userdata name refl short
      (omega arith) small (omega arith))

-- What holds of an installation that succeeds, where the kernel granted what it was asked to add and to
-- remove, reads the message of the new rule as it would be read in a dump, and gives every rule its own
-- handle: it leaves exactly one rule in the chain, and that has the marker. It is the first marked rule
-- by handle where there was one, and else the new one. A chain that had a rule has one between any two
-- requests too, so the new rule is added before the others are removed. The table's name has no NUL,
-- and the fields of the message fit 16 bits.
pub install_nat-IsCanonical :
    (cfg : NatConfig) (handle : ℕ) (replies : Replies) (rules : List RuleRecord)
    (trace : List Request)
    → all is_name_char cfg.table ≡ true
    → length (bytes cfg.table) < 60000
    → length (masquerade_rule cfg.source_network cfg.prefix_len) < 60000
    → replies.rule ≡ ok tt
    → replies.removal ≡ ok tt
    → replies.dump ≡ ok rules
    → Distinct (handle ∷ handles rules)
    → install_nat replies ≡ (ok tt, trace)
    → IsCanonical (canonical_rule handle) (new_rules cfg handle) (sort_rules rules) trace
install_nat-IsCanonical cfg handle replies rules trace name short small added removed dumped
      distinct e =
    subst (λ new. IsCanonical (canonical_rule handle) new (sort_rules rules) trace)
      (sym (new_rules-canonical_rule cfg handle name short small))
      (settled (canonical_rule handle) replies (text_eq_refl nat_rule_userdata) added removed rules
        trace dumped distinct e)
