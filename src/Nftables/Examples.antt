-- ===== src/Nftables/Examples.antt =====
-- The packet filter messages on concrete input.
use zerun.Prelude.{
  ℕ, ◌+◌, drop, take, true, false, map, none, some, List, [], ◌∷◌, ◌++◌, Result, ok, err, ◌≡◌, refl,
  arith, length, ◌<◌, Text, text_eq, codes, bytes,
}
use zerun.Nftables.{Attr, NetlinkError, nla, nlmsg, parse_attrs, attrs_from, be32}
use zerun.Nftables.Messages.{
  prefix_to_mask, masquerade_rule, ip_saddr_match, oifname_neq, masq_expr, payload_expr,
  bitwise_and_expr, cmp_expr, meta_expr, expr, msg_del_rule, msg_new_table, msg_new_chain,
  msg_new_rule, msg_del_table, nft_msg, nfgenmsg, batch_bookend,
}
use zerun.Nftables.Records.{
  RuleRecord, parse_string, parse_rule_dump, parse_nlmsg_error, errors_from, utf8_from,
}
use zerun.Nftables.Records.Ends.{is_stuck, loops_end}
use zerun.Nftables.Records.Message.{parse_rule_dump-msg_new_rule}
use zerun.Nftables.Socket.{drain_errors, datagram, would_block, dump_rules, timed_out}
use zerun.Nftables.Install.{
  add_rule, Replies, Request, NatConfig, install_nat, plan_rules, sort_rules, nat_rule_userdata,
  remove_rules, make_table, make_chain, list_rules, batch_of, delete_table, remove_table_warns,
  enoent, no_handle,
}
use zerun.Nftables.Install.Settled.{install_nat-IsCanonical, IsCanonical, canonical_rule}
use zerun.Nftables.Install.Canonical.{new_rules}

abbrev two_attrs : List Attr
two_attrs = (1, codes "zerun-nat" ++ 0 ∷ []) ∷ (0x8004, 7 ∷ []) ∷ []

abbrev table : Text
table = codes "zerun-nat"

abbrev chain : Text
chain = codes "postrouting"

abbrev network : List ℕ
network = 172 ∷ 31 ∷ 0 ∷ 0 ∷ []

rule_short : length (masquerade_rule network 16) < 60000
unfolding masquerade_rule ip_saddr_match oifname_neq masq_expr payload_expr bitwise_and_expr
    cmp_expr meta_expr expr prefix_to_mask nla bytes be32
rule_short = omega arith

name_short : length (bytes chain) < 60000
unfolding bytes
name_short = omega arith

table_short : length (bytes table) < 60000
unfolding bytes
table_short = omega arith

parse_rule_dump-msg_new_rule_example :
    parse_rule_dump
      (msg_new_rule table chain (masquerade_rule network 16) (some nat_rule_userdata))
      table
      chain
    ≡ ok (record { handle = none; userdata = some nat_rule_userdata } ∷ [], false)
parse_rule_dump-msg_new_rule_example =
    parse_rule_dump-msg_new_rule table chain (masquerade_rule network 16) nat_rule_userdata refl
      refl table_short name_short rule_short (omega arith)

abbrev nat_config : NatConfig
nat_config = record { table = table; source_network = network; prefix_len = 16 }

masks :
    map prefix_to_mask (0 ∷ 16 ∷ 32 ∷ [])
    ≡ (0 ∷ 0 ∷ 0 ∷ 0 ∷ []) ∷ (255 ∷ 255 ∷ 0 ∷ 0 ∷ []) ∷ (255 ∷ 255 ∷ 255 ∷ 255 ∷ []) ∷ []
unfolding prefix_to_mask be32
masks = refl

string_stops : parse_string (110 ∷ 97 ∷ 116 ∷ 0 ∷ 120 ∷ []) ≡ some (codes "nat")
unfolding parse_string utf8_from
string_stops = refl

-- A rule without the marker stands before two that have it.
abbrev marked_rule : ℕ → RuleRecord
marked_rule h = record { handle = some h; userdata = some nat_rule_userdata }

abbrev legacy_rule : ℕ → RuleRecord
legacy_rule h = record { handle = some h; userdata = none }

abbrev three_rules : List RuleRecord
three_rules = marked_rule 9 ∷ legacy_rule 2 ∷ marked_rule 5 ∷ []

abbrev granted : Replies
granted = record {
  table = err 17;
  chain = ok tt;
  dump = ok three_rules;
  rule = ok tt;
  removal = ok tt;
  dump_again = ok [];
}

abbrev requests : List Request
requests = make_table ∷ make_chain ∷ list_rules ∷ remove_rules (2 ∷ 9 ∷ []) ∷ []

installed : install_nat granted ≡ (ok tt, requests)
unfolding install_nat plan_rules sort_rules text_eq
installed = refl

install_nat-IsCanonical_example :
    IsCanonical (canonical_rule 11) (new_rules nat_config 11) (sort_rules three_rules) requests
install_nat-IsCanonical_example =
    install_nat-IsCanonical nat_config 11 granted three_rules requests refl table_short rule_short
      refl refl refl (refl, (refl, (refl, (refl, tt)))) installed

-- Where no rule has the marker the new one is added before the others are removed.
repaired_legacy :
    install_nat (record granted { dump = ok (legacy_rule 2 ∷ []) })
    ≡ (ok tt, make_table ∷ make_chain ∷ list_rules ∷ add_rule ∷ remove_rules (2 ∷ []) ∷ [])
unfolding install_nat plan_rules sort_rules text_eq
repaired_legacy = refl

-- A removal that finds a rule gone is no failure where a marked rule is there.
repaired :
    install_nat (record granted { removal = err enoent; dump_again = ok (marked_rule 5 ∷ []) })
    ≡ (ok tt, requests ++ list_rules ∷ [])
unfolding install_nat plan_rules sort_rules text_eq
repaired = refl

unhandled : plan_rules false (record { handle = none; userdata = none } ∷ []) ≡ err no_handle
unfolding plan_rules
unhandled = refl

drained_errno :
    drain_errors none (datagram (nlmsg 2 0 (254 ∷ 255 ∷ 255 ∷ 255 ∷ [])) ∷ would_block false ∷ [])
    ≡ err enoent
unfolding drain_errors parse_nlmsg_error errors_from nlmsg
drained_errno = refl

dump_late : dump_rules table chain (would_block false ∷ would_block true ∷ []) ≡ err timed_out
unfolding dump_rules
dump_late = refl

abbrev attrs_or_none : Result NetlinkError (List Attr) → List Attr
attrs_or_none (err e) = []
attrs_or_none (ok attrs) = attrs

-- The handle of a removal is in network order, behind the two names.
removal_batch :
    take 3 (
      attrs_or_none
        (parse_attrs (drop 40 (batch_of nat_config (remove_rules (0x0102030405060708 ∷ []))))))
    ≡ (1, table ++ 0 ∷ []) ∷ (2, chain ++ 0 ∷ []) ∷ (3, 1 ∷ 2 ∷ 3 ∷ 4 ∷ 5 ∷ 6 ∷ 7 ∷ 8 ∷ []) ∷ []
unfolding batch_of msg_del_rule nft_msg nfgenmsg nlmsg nla batch_bookend parse_attrs attrs_from
    bytes be32
removal_batch = refl

teardown : length (delete_table table) ≡ 20 + 36 + 20
unfolding delete_table msg_del_table nft_msg nfgenmsg nlmsg nla batch_bookend bytes
teardown = refl

set_up : length (batch_of nat_config make_table) + length (batch_of nat_config make_chain) ≡ 212
unfolding batch_of msg_new_table msg_new_chain nft_msg nfgenmsg nlmsg nla batch_bookend bytes be32
set_up = refl

warns : (remove_table_warns (err 1) ≡ true) × (remove_table_warns (err enoent) ≡ false)
unfolding remove_table_warns
warns = (refl, refl)

loops_end_example :
    (is_stuck (parse_attrs (3 ∷ 0 ∷ 0 ∷ 0 ∷ [])) ≡ false)
    × (is_stuck (parse_rule_dump (3 ∷ 0 ∷ 0 ∷ 0 ∷ []) table chain) ≡ false)
    × (is_stuck (parse_nlmsg_error (3 ∷ 0 ∷ 0 ∷ 0 ∷ [])) ≡ false)
loops_end_example = loops_end table chain (3 ∷ 0 ∷ 0 ∷ 0 ∷ [])
