-- ===== src/Security/Capabilities/Names.antt =====
-- The names that src/security.rs writes to the state file are read back as the same set.
use zerun.Prelude.Int.{parse_i32}
use zerun.Prelude.{
  ℕ, zero, suc, ◌≤◌, ◌<◌, Bool, true, false, ◌&&◌, ◌||◌, List, [], ◌∷◌, Result, ok, err, ◌≡◌, refl,
  arith, leb, ◌==◌, any, all, ==_iff, text_eq, trim, is_whitespace, split, strip_prefix, parse_uint,
  parse_digits,
}
use zerun.Prelude.Decimal.{decimal}
use zerun.Security.Capabilities.{
  CapabilityRequest, all_caps, named, CapError, contains, insert_cap, insert_request, last_of,
  collect_requests, parse_request, request_named, position, get_name, parse_requests,
  parse_requests_many, capability_name, insert_exact, from_names, names,
}
use zerun.Security.Capabilities.Resolve.{is_all, is_named, contains-insert_cap}

abbrev is_single : ℕ → Result CapError (List CapabilityRequest) → Bool
is_single c (ok (named d ∷ [])) = d == c
is_single c (ok (named d ∷ r ∷ rs)) = false
is_single c (ok (all_caps ∷ rs)) = false
is_single c (ok []) = false
is_single c (err e) = false

is_single_sound :
    (c : ℕ) (r : Result CapError (List CapabilityRequest))
    → is_single c r ≡ true
    → r ≡ ok (named c ∷ [])
is_single_sound c (ok (named d ∷ [])) h = ground (arith, ==_iff d c)
is_single_sound c (ok (named d ∷ r ∷ rs)) h = cc
is_single_sound c (ok (all_caps ∷ rs)) h = cc
is_single_sound c (ok []) h = cc
is_single_sound c (err e) h = cc

abbrev holds_under : (ℕ → Bool) → ℕ → Bool
holds_under test zero = true
holds_under test (suc bound) = holds_under test bound && test bound

holds_under-lookup :
    (test : ℕ → Bool) (bound c : ℕ) → c < bound → holds_under test bound ≡ true → test c ≡ true
holds_under-lookup test zero c lt table = absurd (omega arith)
holds_under-lookup test (suc bound) c lt table = ground (arith, holds_under-lookup test bound c)

abbrev reads_back : ℕ → Bool
reads_back c = is_single c (parse_requests (capability_name c))

name_table : holds_under reads_back 64 ≡ true
unfolding parse_requests capability_name collect_requests parse_request request_named parse_i32
    position get_name insert_request text_eq trim is_whitespace split strip_prefix parse_uint
    parse_digits decimal
name_table = refl

-- Every capability number is read back from its name, known or not.
pub parse_requests-capability_name :
    (c : ℕ) → c ≤ 63 → parse_requests (capability_name c) ≡ ok (named c ∷ [])
parse_requests-capability_name c small =
    is_single_sound c _ (holds_under-lookup reads_back 64 c (omega arith) name_table)

insert_request-is_named :
    (x : ℕ) (r : CapabilityRequest) (rs : List CapabilityRequest)
    → any (is_named x) (insert_request r rs) ≡ (is_named x r || any (is_named x) rs)
unfolding insert_request
insert_request-is_named x r [] = refl
insert_request-is_named x all_caps (all_caps ∷ rs) = refl
insert_request-is_named x all_caps (named d ∷ rs) = refl
insert_request-is_named x (named c) (all_caps ∷ rs) = insert_request-is_named x (named c) rs
insert_request-is_named x (named c) (named d ∷ rs) =
    ground (arith, insert_request-is_named x (named c) rs)

insert_request-is_all :
    (c : ℕ) (rs : List CapabilityRequest)
    → any is_all rs ≡ false
    → any is_all (insert_request (named c) rs) ≡ false
unfolding insert_request
insert_request-is_all c [] h = refl
insert_request-is_all c (all_caps ∷ rs) h = cc
insert_request-is_all c (named d ∷ rs) h = ground (arith, insert_request-is_all c rs)

-- The requests behind the names of a set.
record NamedRequests (caps : List ℕ) : Type 0 where
  requests : List CapabilityRequest
  parsed : parse_requests_many (names caps) ≡ ok requests
  no_all : any is_all requests ≡ false
  same : (x : ℕ) → any (is_named x) requests ≡ contains x caps

named_requests : (caps : List ℕ) → all (λ c. leb c 63) caps ≡ true → NamedRequests caps
unfolding parse_requests_many names
named_requests [] h = record { requests = []; parsed = refl; no_all = refl; same = λ x. refl }
named_requests (c ∷ caps) h =
    let rest = named_requests caps (ground arith) in
    record {
      requests = insert_request (named c) rest.requests;
      parsed = ground (arith, parse_requests-capability_name c, rest.parsed);
      no_all = insert_request-is_all c rest.requests rest.no_all;
      same = λ x. ground (arith, insert_request-is_named x (named c) rest.requests, rest.same x);
    }

insert_exact-contains :
    (last : ℕ) (rs : List CapabilityRequest) (caps : List ℕ)
    → any is_all rs ≡ false
    → ((x : ℕ) → any (is_named x) rs ≡ true → x ≤ last)
    → (after : List ℕ) × (insert_exact last rs caps ≡ ok after)
      × ((x : ℕ) → contains x after ≡ (any (is_named x) rs || contains x caps))
unfolding insert_exact
insert_exact-contains last [] caps h fits = (caps, refl, λ x. refl)
insert_exact-contains last (all_caps ∷ rs) caps h fits = cc
insert_exact-contains last (named c ∷ rs) caps h fits =
    let small : c ≤ last = fits c (ground arith) in
    let (after, e, same) =
      insert_exact-contains last rs (insert_cap c caps) h (λ x m. fits x (ground arith)) in
    (after, ground arith, λ x. ground (arith, same x, contains-insert_cap x c caps))

contains-le :
    (x last : ℕ) (caps : List ℕ)
    → all (λ c. leb c last) caps ≡ true
    → contains x caps ≡ true
    → x ≤ last
contains-le x last [] h m = cc
contains-le x last (c ∷ caps) h m = ground (arith, contains-le x last caps)

-- A set of capabilities that the kernel knows is read back from the names that it is written as: the
-- result has the same members.
pub from_names-names :
    (kernel_last : ℕ) (caps : List ℕ)
    → all (λ c. leb c (last_of kernel_last)) caps ≡ true
    → (after : List ℕ) × (from_names kernel_last (names caps) ≡ ok after)
      × ((x : ℕ) → contains x after ≡ contains x caps)
unfolding from_names
from_names-names kernel_last caps h =
    let r = named_requests caps (all_63 (last_of kernel_last) caps (ground arith) h) in
    let (after, e, same) =
      insert_exact-contains (last_of kernel_last) r.requests [] r.no_all
        (λ x m. contains-le x (last_of kernel_last) caps h (ground (arith, r.same x))) in
    (after, ground (arith, r.parsed), λ x. ground (arith, same x, r.same x))
  where
    all_63 :
        (last : ℕ) (cs : List ℕ)
        → last ≤ 63
        → all (λ c. leb c last) cs ≡ true
        → all (λ c. leb c 63) cs ≡ true
    all_63 last [] b k = refl
    all_63 last (c ∷ cs) b k = ground (arith, all_63 last cs b)
