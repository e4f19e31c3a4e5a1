-- ===== src/Nftables/Install/Canonical.antt =====
-- The rules that an installation by src/nfnetlink.rs leaves in the chain.
use mathlib.Core.Path.{subst}
use zerun.Prelude.{
  ℕ, Bool, true, false, ◌&&◌, not, Option, none, some, List, [], ◌∷◌, ◌++◌, Result, ok, err, find,
  ==_iff, ◌≡◌, refl, sym, ◌∙◌, arith, has, retain, Bool-cases, inl, inr,
}
use zerun.Nftables.{NetlinkError}
use zerun.Nftables.Records.{RuleRecord, parse_rule_dump}
use zerun.Nftables.Install.{
  Plan, plan_rules, delete_handle, is_marked, Request, make_table, make_chain, list_rules, add_rule,
  remove_rules, NatConfig, rule_message, postrouting,
}

abbrev pub handles_with : Option ℕ → List ℕ → List ℕ
handles_with none hs = hs
handles_with (some h) hs = h ∷ hs

abbrev pub handles : List RuleRecord → List ℕ
handles [] = []
handles (r ∷ rules) = handles_with r.handle (handles rules)

-- The kernel gives each rule its own handle.
abbrev pub Distinct : List ℕ → Type 0
Distinct [] = Unit
Distinct (h ∷ hs) = (has h hs ≡ false) × Distinct hs

abbrev pub survives_as : List ℕ → Option ℕ → Bool
survives_as deleted none = true
survives_as deleted (some h) = not (has h deleted)

abbrev pub survives : List ℕ → RuleRecord → Bool
survives deleted r = survives_as deleted r.handle

-- The rules that the kernel makes of a message, which it reads as a dump is read; they get a handle.
abbrev with_handle : ℕ → List RuleRecord → List RuleRecord
with_handle handle [] = []
with_handle handle (r ∷ rules) = record r { handle = some handle } ∷ with_handle handle rules

abbrev pub made_of : ℕ → Result NetlinkError (List RuleRecord × Bool) → List RuleRecord
made_of handle (err e) = []
made_of handle (ok (rules, done)) = with_handle handle rules

abbrev pub new_rules : NatConfig → ℕ → List RuleRecord
new_rules cfg handle = made_of handle (parse_rule_dump (rule_message cfg) cfg.table postrouting)

-- What the kernel makes of a request that it grants: a batch takes effect as a whole.
abbrev pub effect : List RuleRecord → Request → List RuleRecord → List RuleRecord
effect new make_table rules = rules
effect new make_chain rules = rules
effect new list_rules rules = rules
effect new add_rule rules = rules ++ new
effect new (remove_rules deleted) rules = retain (survives deleted) rules

abbrev pub effects : List RuleRecord → List Request → List RuleRecord → List RuleRecord
effects new [] rules = rules
effects new (r ∷ requests) rules = effects new requests (effect new r rules)

abbrev pub no_rules : List RuleRecord → Bool
no_rules [] = true
no_rules (r ∷ rules) = false

-- Before, between and after the requests the chain has a rule, if it has one at first.
abbrev pub NeverEmptied : Bool → List RuleRecord → List Request → List RuleRecord → Type 0
NeverEmptied was_empty new [] rules = (no_rules rules && not was_empty) ≡ false
NeverEmptied was_empty new (r ∷ requests) rules =
    ((no_rules rules && not was_empty) ≡ false)
    × NeverEmptied was_empty new requests (effect new r rules)

pub delete_handle-inv :
    (o : Option ℕ) (rest : Plan) (kept : Bool) (deleted : List ℕ)
    → delete_handle o rest ≡ ok (kept, deleted)
    → (h : ℕ) × (ds : List ℕ) × (o ≡ some h) × (rest ≡ ok (kept, ds)) × (deleted ≡ h ∷ ds)
delete_handle-inv none rest kept deleted e = cc
delete_handle-inv (some h) (err reason) kept deleted e = cc
delete_handle-inv (some h) (ok (k, ds)) kept deleted e = (h, ds, refl, cc, cc)

survives-fresh :
    (h : ℕ) (ds : List ℕ) (o : Option ℕ) (hs : List ℕ)
    → has h (handles_with o hs) ≡ false
    → (survives_as (h ∷ ds) o ≡ survives_as ds o) × (has h hs ≡ false)
survives-fresh h ds none hs e = (refl, e)
survives-fresh h ds (some j) hs e = (ground (arith, ==_iff h j, ==_iff j h), ground arith)

-- A handle that no rule has deletes none.
retain-fresh :
    (h : ℕ) (ds : List ℕ) (rules : List RuleRecord)
    → has h (handles rules) ≡ false
    → retain (survives (h ∷ ds)) rules ≡ retain (survives ds) rules
retain-fresh h ds [] e = refl
retain-fresh h ds (r ∷ rules) e =
    let (same, fresh) = survives-fresh h ds r.handle (handles rules) e in
    rw (same, retain-fresh h ds rules fresh) refl

-- A deleted rule is gone, and the others are as without its handle.
retain-deleted :
    (h : ℕ) (ds : List ℕ) (r : RuleRecord) (rules : List RuleRecord)
    → r.handle ≡ some h
    → Distinct (handles (r ∷ rules))
    → (retain (survives (h ∷ ds)) (r ∷ rules) ≡ retain (survives ds) rules)
      × Distinct (handles rules)
retain-deleted h ds r rules e distinct =
    let (fresh, rest) : (has h (handles rules) ≡ false) × Distinct (handles rules) =
      rw e at distinct in
    let gone : survives (h ∷ ds) r ≡ false = rw e (ground arith) in
    (rw (gone, retain-fresh h ds rules fresh) refl, rest)

pub plan_rules-deletes :
    (seen : Bool) (r : RuleRecord) (rules : List RuleRecord)
    → (is_marked r && not seen) ≡ false
    → plan_rules seen (r ∷ rules) ≡ delete_handle r.handle (plan_rules seen rules)
unfolding plan_rules
plan_rules-deletes seen r rules e = rw e refl

and_false : (b : Bool) → (b && false) ≡ false
and_false true = refl
and_false false = refl

-- Once a rule is kept, every other rule is deleted.
plan_rules-kept :
    (rules : List RuleRecord) (kept : Bool) (deleted : List ℕ)
    → plan_rules true rules ≡ ok (kept, deleted)
    → Distinct (handles rules)
    → (kept ≡ true) × (deleted ≡ handles rules) × (retain (survives deleted) rules ≡ [])
plan_rules-kept [] kept deleted e distinct = unfold plan_rules in (cc, cc, refl)
plan_rules-kept (r ∷ rules) kept deleted e distinct =
    let (h, ds, here, later, all_of) =
      delete_handle-inv r.handle (plan_rules true rules) kept deleted
        (sym (plan_rules-deletes true r rules (and_false (is_marked r))) ∙ e) in
    let (gone, fresh) = retain-deleted h ds r rules here distinct in
    let (is_kept, same, none_left) = plan_rules-kept rules kept ds later fresh in
    (
      is_kept,
      rw (all_of, here, same) refl,
      subst (λ d. retain (survives d) (r ∷ rules) ≡ []) (sym all_of) (gone ∙ none_left),
    )

-- What a plan leaves of the rules: the first that has the marker, or none, where none has it.
unfoldable pub Leaves : List RuleRecord → Bool → List RuleRecord → Type 0
Leaves rules true left = (r : RuleRecord) × (find is_marked rules ≡ some r) × (left ≡ r ∷ [])
Leaves rules false left = (find is_marked rules ≡ none) × (left ≡ [])

Leaves-cons :
    (r : RuleRecord) (rules : List RuleRecord) (kept : Bool) (left : List RuleRecord)
    → is_marked r ≡ false
    → Leaves rules kept left
    → Leaves (r ∷ rules) kept left
unfolding Leaves
Leaves-cons r rules true left plain (s, found, e) = (s, rw plain found, e)
Leaves-cons r rules false left plain (found, e) = (rw plain found, e)

survives-kept :
    (o : Option ℕ) (hs : List ℕ) → Distinct (handles_with o hs) → survives_as hs o ≡ true
survives-kept none hs distinct = refl
survives-kept (some h) hs (fresh, distinct) = rw fresh refl

pub Distinct-rest : (o : Option ℕ) (hs : List ℕ) → Distinct (handles_with o hs) → Distinct hs
Distinct-rest none hs distinct = distinct
Distinct-rest (some h) hs (fresh, distinct) = distinct

pub plan_rules-Leaves :
    (rules : List RuleRecord) (kept : Bool) (deleted : List ℕ)
    → plan_rules false rules ≡ ok (kept, deleted)
    → Distinct (handles rules)
    → Leaves rules kept (retain (survives deleted) rules)
unfolding plan_rules Leaves
plan_rules-Leaves [] true deleted e distinct = cc
plan_rules-Leaves [] false deleted e distinct = (refl, refl)
plan_rules-Leaves (r ∷ rules) kept deleted e distinct = elim (Bool-cases (is_marked r)) [
  | inl marked ↦
      let e' : plan_rules true rules ≡ ok (kept, deleted) = rw marked at e in
      let (is_kept, same, none_left) =
        plan_rules-kept rules kept deleted e' (Distinct-rest r.handle (handles rules) distinct) in
      let stays : survives deleted r ≡ true =
        rw same (survives-kept r.handle (handles rules) distinct) in
      subst (λ k. Leaves (r ∷ rules) k (retain (survives deleted) (r ∷ rules))) (sym is_kept)
        (r, rw marked refl, rw (stays, none_left) refl)
  | inr plain ↦
      let (h, ds, here, later, all_of) =
        delete_handle-inv r.handle (plan_rules false rules) kept deleted
          (sym (plan_rules-deletes false r rules (rw plain refl)) ∙ e) in
      let (gone, fresh) = retain-deleted h ds r rules here distinct in
      let left = plan_rules-Leaves rules kept ds later fresh in
      subst (λ d. Leaves (r ∷ rules) kept (retain (survives d) (r ∷ rules))) (sym all_of)
        (subst (λ l. Leaves (r ∷ rules) kept l) (sym gone) (Leaves-cons r rules kept _ plain left))
]
