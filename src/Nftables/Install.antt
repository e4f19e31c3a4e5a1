-- ===== src/Nftables/Install.antt =====
-- The installation of the masquerade rule by src/nfnetlink.rs: what it asks the kernel for, and
-- which rules it removes.
use zerun.Prelude.{
  ℕ, zero, suc, ◌+◌, ◌^◌, Bool, true, false, ◌&&◌, not, Option, none, some, List, [], ◌∷◌, ◌++◌,
  Result, ok, err, ◌>>=◌, ◌==◌, ltb, if◌then◌else◌, Text, codes, text_eq, has, any, is_empty,
}
use zerun.Nftables.Socket.{DumpError}
use zerun.Nftables.Records.{RuleRecord, parse_nlmsg_error, parse_rule_dump, add_records}
use zerun.Nftables.Messages.{
  msg_new_table, msg_new_chain, msg_new_rule, msg_del_rule, msg_del_table, masquerade_rule,
  batch_bookend,
}
pub mod Canonical
pub mod Sorted
pub mod Settled

abbrev pub enoent : ℕ
enoent = 2

abbrev pub eexist : ℕ
eexist = 17

abbrev pub nat_rule_userdata : List ℕ
nat_rule_userdata = codes "zerun:nat:v1"

abbrev marked_with : Option (List ℕ) → Bool
marked_with none = false
marked_with (some marker) = text_eq marker nat_rule_userdata

abbrev pub is_marked : RuleRecord → Bool
is_marked r = marked_with r.userdata

abbrev pub has_canonical_rule : List RuleRecord → Bool
has_canonical_rule rules = any is_marked rules

-- `rules.sort_by_key(|rule| rule.handle)`: stable, and without a handle first
abbrev pub handle_lt : Option ℕ → Option ℕ → Bool
handle_lt a none = false
handle_lt none (some b) = true
handle_lt (some a) (some b) = ltb a b

abbrev pub insert_rule : RuleRecord → List RuleRecord → List RuleRecord
insert_rule r [] = r ∷ []
insert_rule r (s ∷ rules) =
    let rest = insert_rule r rules in
    if handle_lt s.handle r.handle then s ∷ rest else r ∷ s ∷ rules

unfoldable pub sort_rules : List RuleRecord → List RuleRecord
sort_rules [] = []
sort_rules (r ∷ rules) = insert_rule r (sort_rules rules)

pub data InstallError : Type 0 where
  table_refused chain_refused rule_refused removal_refused : ℕ → InstallError
  dump_failed : DumpError → InstallError
  no_handle : InstallError

-- Whether a marked rule was kept, and the handles to delete
abbrev pub Plan : Type 0
Plan = Result InstallError (Bool × List ℕ)

abbrev pub delete_handle : Option ℕ → Plan → Plan
delete_handle none rest = err no_handle
delete_handle (some h) (err e) = err e
delete_handle (some h) (ok (kept, delete)) = ok (kept, h ∷ delete)

-- The loop over the sorted rules
unfoldable pub plan_rules : Bool → List RuleRecord → Plan
plan_rules kept [] = ok (kept, [])
plan_rules kept (r ∷ rules) =
    let first = is_marked r && not kept in
    let rest = plan_rules (if first then true else kept) rules in
    if first then rest else delete_handle r.handle rest

pub record NatConfig : Type 0 where
  pub table : Text
  pub source_network : List ℕ
  pub prefix_len : ℕ

-- The requests of an installation
pub data Request : Type 0 where
  make_table make_chain list_rules add_rule : Request
  remove_rules : List ℕ → Request

abbrev pub postrouting : Text
postrouting = codes "postrouting"

abbrev del_messages : Text → List ℕ → List ℕ
del_messages table [] = []
del_messages table (h ∷ hs) = msg_del_rule table postrouting h ++ del_messages table hs

-- `send_batch_errno` puts one change set between the bookends.
abbrev pub batch : List ℕ → List ℕ
batch messages = batch_bookend 16 ++ messages ++ batch_bookend 17

-- The change of the rules in an `add_rule` request
abbrev pub rule_message : NatConfig → List ℕ
rule_message cfg =
    msg_new_rule cfg.table postrouting (masquerade_rule cfg.source_network cfg.prefix_len)
      (some nat_rule_userdata)

unfoldable pub batch_of : NatConfig → Request → List ℕ
batch_of cfg make_table = batch (msg_new_table cfg.table)
batch_of cfg make_chain = batch (msg_new_chain cfg.table postrouting 4 100)
batch_of cfg list_rules = []
batch_of cfg add_rule = batch (rule_message cfg)
batch_of cfg (remove_rules hs) = batch (del_messages cfg.table hs)

-- What the socket answers during one installation: `send_batch_errno` and `dump_rules`
pub record Replies : Type 0 where
  pub table : Result ℕ (Unit {0})
  pub chain : Result ℕ (Unit {0})
  pub dump : Result DumpError (List RuleRecord)
  pub rule : Result ℕ (Unit {0})
  pub removal : Result ℕ (Unit {0})
  pub dump_again : Result DumpError (List RuleRecord)

-- An outcome with the requests that were made on the way
abbrev pub Installed : Type 0
Installed = Result InstallError (Unit {0}) × List Request

abbrev pub requesting : Request → Installed → Installed
requesting r (outcome, later) = (outcome, r ∷ later)

-- `ensure_object`
abbrev pub ensure_object :
    (ℕ → InstallError) → Request → Result ℕ (Unit {0}) → Installed → Installed
ensure_object refused r (ok _) next = requesting r next
ensure_object refused r (err code) next =
    if code == eexist then requesting r next else (err (refused code), r ∷ [])

abbrev pub found_again : Result DumpError (List RuleRecord) → Result InstallError (Unit {0})
found_again (err e) = err (dump_failed e)
found_again (ok rules) = if has_canonical_rule rules then ok tt else err (removal_refused enoent)

abbrev pub removal_outcome : Result ℕ (Unit {0}) → Replies → Installed
removal_outcome (ok _) replies = (ok tt, [])
removal_outcome (err code) replies =
    if code == enoent
    then (found_again replies.dump_again, list_rules ∷ [])
    else (err (removal_refused code), [])

abbrev pub remove_stale : List ℕ → Replies → Installed
remove_stale [] replies = (ok tt, [])
remove_stale (h ∷ hs) replies =
    requesting (remove_rules (h ∷ hs)) (removal_outcome replies.removal replies)

abbrev pub carry_out : Plan → Replies → Installed
carry_out (err e) replies = (err e, [])
carry_out (ok (true, delete)) replies = remove_stale delete replies
carry_out (ok (false, delete)) replies =
    ensure_object rule_refused add_rule replies.rule (remove_stale delete replies)

abbrev pub settle_rules : Result DumpError (List RuleRecord) → Replies → Installed
settle_rules (err e) replies = (err (dump_failed e), [])
settle_rules (ok rules) replies = carry_out (plan_rules false (sort_rules rules)) replies

unfoldable pub install_nat : Replies → Installed
unfolding sort_rules plan_rules
install_nat replies = ensure_object table_refused make_table replies.table (
    ensure_object chain_refused make_chain replies.chain
      (requesting list_rules (settle_rules replies.dump replies)))

-- `delete_table`, and `remove_table` that says whether it warns
unfoldable pub delete_table : Text → List ℕ
delete_table name = batch (msg_del_table name)

unfoldable pub remove_table_warns : Result ℕ (Unit {0}) → Bool
remove_table_warns (ok _) = false
remove_table_warns (err code) = not (code == enoent)
