-- ===== src/Security/Capabilities/Resolve.antt =====
-- Which capabilities `resolve` and `from_names` of src/security.rs give.
use zerun.Prelude.{
  ℕ, zero, suc, Bool, true, false, ◌&&◌, ◌||◌, not, List, [], ◌∷◌, Text, ok, >>=-eq-ok, ◌≡◌, refl,
  arith, leb, ◌==◌, any,
}
use zerun.Security.Capabilities.{
  CapabilityRequest, all_caps, named, contains, insert_cap, remove_cap, insert_up_to, apply_drops,
  apply_adds, last_of, default_caps, parse_requests_many, resolve,
}

pub contains-insert_cap :
    (x c : ℕ) (ds : List ℕ) → contains x (insert_cap c ds) ≡ (c == x || contains x ds)
unfolding insert_cap
contains-insert_cap x c [] = refl
contains-insert_cap x c (d ∷ ds) = ground (arith, contains-insert_cap x c ds)

contains-remove_cap :
    (x c : ℕ) (ds : List ℕ) → contains x (remove_cap c ds) ≡ (not (c == x) && contains x ds)
unfolding remove_cap
contains-remove_cap x c [] = ground arith
contains-remove_cap x c (d ∷ ds) = ground (arith, contains-remove_cap x c ds)

contains-insert_up_to :
    (x n : ℕ) (ds : List ℕ) → contains x (insert_up_to n ds) ≡ (leb x n || contains x ds)
unfolding insert_up_to
contains-insert_up_to x zero ds = ground (arith, contains-insert_cap x 0 ds)
contains-insert_up_to x (suc n) ds =
    ground
      (arith, contains-insert_up_to x n (insert_cap (suc n) ds), contains-insert_cap x (suc n) ds)

abbrev pub is_all : CapabilityRequest → Bool
is_all all_caps = true
is_all (named c) = false

abbrev pub is_named : ℕ → CapabilityRequest → Bool
is_named x all_caps = false
is_named x (named c) = c == x

apply_drops-contains :
    (last x : ℕ) (rs : List CapabilityRequest) (caps after : List ℕ)
    → apply_drops last rs caps ≡ ok after
    → contains x after ≡ (contains x caps && not (any is_all rs || any (is_named x) rs))
unfolding apply_drops
apply_drops-contains last x [] caps after h = ground arith
apply_drops-contains last x (all_caps ∷ rs) caps after h =
    ground (arith, apply_drops-contains last x rs [] after h)
apply_drops-contains last x (named c ∷ rs) caps after h =
    ground (
      arith,
      apply_drops-contains last x rs (remove_cap c caps) after,
      contains-remove_cap x c caps,
    )

apply_adds-contains :
    (last x : ℕ) (rs : List CapabilityRequest) (caps after : List ℕ)
    → apply_adds last rs caps ≡ ok after
    → contains x after ≡ (contains x caps || (any (is_named x) rs || (any is_all rs && leb x last)))
unfolding apply_adds
apply_adds-contains last x [] caps after h = ground arith
apply_adds-contains last x (all_caps ∷ rs) caps after h = ground (
  arith,
  apply_adds-contains last x rs (insert_up_to last caps) after h,
  contains-insert_up_to x last caps,
)
apply_adds-contains last x (named c ∷ rs) caps after h =
    ground
      (arith, apply_adds-contains last x rs (insert_cap c caps) after, contains-insert_cap x c caps)

-- What a successful resolution stands for.
pub record Resolved (kernel_last : ℕ) (add_values drop_values : List Text) (caps : List ℕ)
    : Type 0 where
  pub adds : List CapabilityRequest
  pub drops : List CapabilityRequest
  pub adds_parsed : parse_requests_many add_values ≡ ok adds
  pub drops_parsed : parse_requests_many drop_values ≡ ok drops
  pub exact :
      (x : ℕ)
      → contains x caps ≡ (
          (contains x default_caps && not (any is_all drops || any (is_named x) drops))
          || (any (is_named x) adds || (any is_all adds && leb x (last_of kernel_last))))

-- A resolution keeps a capability exactly when it is a default one that is dropped neither by name
-- nor by ALL, or is added by name, or by ALL and known to the kernel: adding wins over dropping,
-- in whatever order the options are given.
pub resolve-Resolved :
    (kernel_last : ℕ) (add_values drop_values : List Text) (caps : List ℕ)
    → resolve kernel_last add_values drop_values ≡ ok caps
    → Resolved kernel_last add_values drop_values caps
unfolding resolve
resolve-Resolved kernel_last add_values drop_values caps h =
    let (adds, e1, h1) = >>=-eq-ok (parse_requests_many add_values) _ h in
    let (drops, e2, h2) = >>=-eq-ok (parse_requests_many drop_values) _ h1 in
    let (dropped, e3, h3) = >>=-eq-ok (apply_drops (last_of kernel_last) drops default_caps) _ h2 in
    record {
      adds = adds;
      drops = drops;
      adds_parsed = e1;
      drops_parsed = e2;
      exact = λ x. ground (
        arith,
        apply_drops-contains (last_of kernel_last) x drops default_caps dropped e3,
        apply_adds-contains (last_of kernel_last) x adds dropped caps h3,
      );
    }
