-- ===== src/Security/Users/Examples.antt =====
-- Runs of `--user` of src/security.rs.
use zerun.Prelude.{
  true, false, some, [], ◌∷◌, ok, err, ◌≡◌, refl, codes, text_eq, trim, is_whitespace, split,
  split_once, parse_uint, parse_digits,
}
use zerun.Security.Users.{
  parse_id, lines, lookup_user_uid_gid, lookup_group_gid, Files, resolve_user_spec,
  clear_supplementary_groups, set_gid, set_uid, run_calls, switch_user, unknown_user,
  rootless_identity,
}
use zerun.Security.Users.Switch.{InOrder, switch_user-InOrder}

abbrev files : Files
files = record {
  passwd = some (codes "root:x:0:0:root:/root:/bin/sh\r\nweb:x:33:34:web:/:/bin/false\n");
  group = some (codes "root:x:0:\nmail:x:8:web\n");
}

named_user : resolve_user_spec files (codes "web:mail") ≡ ok (33, 8)
unfolding resolve_user_spec parse_id lines lookup_user_uid_gid lookup_group_gid text_eq trim
    is_whitespace split split_once parse_uint parse_digits
named_user = refl

primary_group : resolve_user_spec files (codes "web") ≡ ok (33, 34)
unfolding resolve_user_spec parse_id lines lookup_user_uid_gid text_eq trim is_whitespace split
    split_once parse_uint parse_digits
primary_group = refl

nobody : resolve_user_spec files (codes "nobody") ≡ err unknown_user
unfolding resolve_user_spec parse_id lines lookup_user_uid_gid text_eq trim is_whitespace split
    split_once
nobody = refl

switched :
    switch_user (λ c. true) files (some (codes "33:8")) false
    ≡ (clear_supplementary_groups ∷ set_gid 8 ∷ set_uid 33 ∷ [], ok tt)
unfolding switch_user resolve_user_spec run_calls parse_id trim is_whitespace split_once parse_uint
    parse_digits
switched = refl

rootless_run : switch_user (λ c. true) files (some (codes "33")) true ≡ ([], err rootless_identity)
unfolding switch_user resolve_user_spec parse_id trim is_whitespace split_once parse_uint
    parse_digits
rootless_run = refl

switch_user-InOrder_example :
    InOrder (λ c. false) false (switch_user (λ c. false) files (some (codes "33:8")) false).0
switch_user-InOrder_example = switch_user-InOrder (λ c. false) files (some (codes "33:8")) false
