-- ===== src/Nftables/Install/Sorted.antt =====
-- Sorting the rules by handle, as src/nfnetlink.rs does, keeps the handles.
use zerun.Prelude.{
  ℕ, Option, none, some, List, [], ◌∷◌, ◌≡◌, refl, ◌∙◌, arith, has, Bool-cases, inl, inr,
}
use zerun.Nftables.Records.{RuleRecord}
use zerun.Nftables.Install.{sort_rules, insert_rule, handle_lt}
use zerun.Nftables.Install.Canonical.{handles, handles_with, Distinct, Distinct-rest}

has-handles_with :
    (x : ℕ) (o : Option ℕ) (hs ks : List ℕ)
    → has x hs ≡ has x ks
    → has x (handles_with o hs) ≡ has x (handles_with o ks)
has-handles_with x none hs ks e = e
has-handles_with x (some h) hs ks e = rw e refl

handles_with-swap :
    (x : ℕ) (o p : Option ℕ) (hs : List ℕ)
    → has x (handles_with o (handles_with p hs)) ≡ has x (handles_with p (handles_with o hs))
handles_with-swap x none p hs = refl
handles_with-swap x (some h) none hs = refl
handles_with-swap x (some h) (some k) hs = ground arith

has-insert_rule :
    (x : ℕ) (r : RuleRecord) (rules : List RuleRecord)
    → has x (handles (insert_rule r rules)) ≡ has x (handles (r ∷ rules))
has-insert_rule x r [] = refl
has-insert_rule x r (s ∷ rules) = elim (Bool-cases (handle_lt s.handle r.handle)) [
  | inl later ↦ rw later (
      has-handles_with x s.handle (handles (insert_rule r rules)) (handles (r ∷ rules))
        (has-insert_rule x r rules)
      ∙ handles_with-swap x s.handle r.handle (handles rules))
  | inr here ↦ rw here refl
]

Distinct-handles_with :
    (o p : Option ℕ) (hs ks : List ℕ)
    → ((x : ℕ) → has x ks ≡ has x (handles_with p hs))
    → Distinct ks
    → Distinct (handles_with p (handles_with o hs))
    → Distinct (handles_with o ks)
Distinct-handles_with none p hs ks same dk d = dk
Distinct-handles_with (some h) none hs ks same dk (fresh, d) = (same h ∙ fresh, dk)
Distinct-handles_with (some h) (some k) hs ks same dk (other, (fresh, d)) =
    (same h ∙ ground arith, dk)

Distinct-skip :
    (o p : Option ℕ) (hs : List ℕ)
    → Distinct (handles_with o (handles_with p hs))
    → Distinct (handles_with o hs)
Distinct-skip none p hs d = Distinct-rest p hs d
Distinct-skip (some h) none hs d = d
Distinct-skip (some h) (some k) hs (other, (fresh, d)) = (ground arith, d)

Distinct-insert_rule :
    (r : RuleRecord) (rules : List RuleRecord)
    → Distinct (handles (r ∷ rules))
    → Distinct (handles (insert_rule r rules))
Distinct-insert_rule r [] d = d
Distinct-insert_rule r (s ∷ rules) d = elim (Bool-cases (handle_lt s.handle r.handle)) [
  | inl later ↦ rw later (
      Distinct-handles_with s.handle r.handle (handles rules) (handles (insert_rule r rules))
        (λ x. has-insert_rule x r rules)
        (Distinct-insert_rule r rules (Distinct-skip r.handle s.handle (handles rules) d)) d)
  | inr here ↦ rw here d
]

pub has-sort_rules :
    (x : ℕ) (rules : List RuleRecord) → has x (handles (sort_rules rules)) ≡ has x (handles rules)
unfolding sort_rules
has-sort_rules x [] = refl
has-sort_rules x (r ∷ rules) =
    has-insert_rule x r (sort_rules rules)
    ∙ has-handles_with x r.handle (handles (sort_rules rules)) (handles rules)
        (has-sort_rules x rules)

Distinct-cons :
    (o : Option ℕ) (hs ks : List ℕ)
    → ((x : ℕ) → has x ks ≡ has x hs)
    → Distinct ks
    → Distinct (handles_with o hs)
    → Distinct (handles_with o ks)
Distinct-cons none hs ks same dk d = dk
Distinct-cons (some h) hs ks same dk (fresh, d) = (same h ∙ fresh, dk)

pub Distinct-sort_rules :
    (rules : List RuleRecord) → Distinct (handles rules) → Distinct (handles (sort_rules rules))
unfolding sort_rules
Distinct-sort_rules [] d = d
Distinct-sort_rules (r ∷ rules) d = Distinct-insert_rule r (sort_rules rules) (
    Distinct-cons r.handle (handles rules) (handles (sort_rules rules))
      (λ x. has-sort_rules x rules)
      (Distinct-sort_rules rules (Distinct-rest r.handle (handles rules) d)) d)
