-- ===== src/Security/Capabilities/Examples.antt =====
-- Runs of the capability options of src/security.rs on a kernel whose last capability is 40.
use zerun.Prelude.Int.{parse_i32}
use zerun.Prelude.{
  ℕ, List, [], ◌∷◌, ok, err, ◌≡◌, refl, codes, text_eq, trim, is_whitespace, split, strip_prefix,
  parse_uint, parse_digits,
}
use zerun.Security.Capabilities.{
  insert_cap, remove_cap, insert_request, collect_requests, parse_request, request_named, position,
  get_name, parse_requests, parse_requests_many, parse_capability_list, capability_name,
  apply_drops, apply_adds, resolve, unknown_capability, outside_range,
}
use zerun.Security.Capabilities.Resolve.{Resolved, resolve-Resolved}

abbrev all_but_raw : List ℕ
all_but_raw = 12 ∷ 13 ∷ []

resolve_run :
    resolve 40 (codes "net_raw" ∷ codes "CAP_NET_ADMIN" ∷ []) (codes "ALL" ∷ []) ≡ ok all_but_raw
unfolding resolve parse_requests_many parse_requests collect_requests parse_request request_named
    parse_i32 position insert_request text_eq trim is_whitespace split strip_prefix parse_uint
    parse_digits apply_drops apply_adds insert_cap remove_cap
resolve_run = refl

unknown_run : parse_request (codes "cap_fly") ≡ err (unknown_capability (codes "cap_fly"))
unfolding parse_request request_named parse_i32 position text_eq trim is_whitespace strip_prefix
    parse_uint parse_digits
unknown_run = refl

outside_run : parse_request (codes "64") ≡ err (outside_range (codes "64"))
unfolding parse_request request_named parse_i32 text_eq trim is_whitespace strip_prefix parse_uint
    parse_digits
outside_run = refl

list_run :
    parse_capability_list (codes "kill,all,Chown")
    ≡ ok (codes "ALL" ∷ codes "CAP_CHOWN" ∷ codes "CAP_KILL" ∷ [])
unfolding parse_capability_list parse_requests collect_requests parse_request request_named
    parse_i32 position insert_request text_eq trim is_whitespace split strip_prefix parse_uint
    parse_digits capability_name get_name
list_run = refl

resolve-Resolved_example :
    Resolved 40 (codes "net_raw" ∷ codes "CAP_NET_ADMIN" ∷ []) (codes "ALL" ∷ []) all_but_raw
resolve-Resolved_example =
    resolve-Resolved 40 (codes "net_raw" ∷ codes "CAP_NET_ADMIN" ∷ []) (codes "ALL" ∷ [])
      all_but_raw resolve_run
