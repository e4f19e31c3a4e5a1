-- ===== src/Nftables/Socket.antt =====
-- The receive loops of src/nfnetlink.rs, on what the socket gives.
use zerun.Prelude.{
  ℕ, Bool, true, false, Option, none, some, List, [], ◌∷◌, ◌++◌, Result, ok, err, Text,
}
use zerun.Nftables.{NetlinkError}
use zerun.Nftables.Records.{RuleRecord, parse_nlmsg_error, parse_rule_dump}

-- What one `recv` on the socket gives: a datagram, nothing yet with whether the deadline has
-- passed, or an error with its number where it has one.
pub data Recv : Type 0 where
  datagram : List ℕ → Recv
  would_block : Bool → Recv
  failed : Option ℕ → Recv

abbrev pub eio : ℕ
eio = 5

abbrev pub eproto : ℕ
eproto = 71

abbrev errno_or : ℕ → Option ℕ → ℕ
errno_or default none = default
errno_or default (some code) = code

abbrev first_error : Option ℕ → Result NetlinkError (Option ℕ) → Option ℕ
first_error (some code) reply = some code
first_error none (ok reply) = reply
first_error none (err e) = some eproto

abbrev drained : Option ℕ → Result ℕ (Unit {0})
drained none = ok tt
drained (some code) = err code

-- `drain_errors`, with the error so far; where the list of replies ends, the socket is drained.
unfoldable pub drain_errors : Option ℕ → List Recv → Result ℕ (Unit {0})
drain_errors first [] = drained first
drain_errors first (datagram buf ∷ replies) =
    drain_errors (first_error first (parse_nlmsg_error buf)) replies
drain_errors first (would_block late ∷ replies) = drained first
drain_errors first (failed code ∷ replies) = err (errno_or (errno_or eio code) first)

pub data DumpError : Type 0 where
  truncated timed_out recv_failed : DumpError
  malformed : NetlinkError → DumpError

abbrev joined :
    List RuleRecord → Result DumpError (List RuleRecord) → Result DumpError (List RuleRecord)
joined found (err e) = err e
joined found (ok later) = ok (found ++ later)

abbrev after_datagram :
    Result NetlinkError (List RuleRecord × Bool)
    → Result DumpError (List RuleRecord)
    → Result DumpError (List RuleRecord)
after_datagram (err e) rest = err (malformed e)
after_datagram (ok (found, true)) rest = ok found
after_datagram (ok (found, false)) rest = joined found rest

-- The receive loop of `dump_rules`; without further replies the deadline passes.
unfoldable pub dump_rules : Text → Text → List Recv → Result DumpError (List RuleRecord)
dump_rules table chain [] = err timed_out
dump_rules table chain (datagram [] ∷ replies) = err truncated
dump_rules table chain (datagram (b ∷ buf) ∷ replies) =
    after_datagram (parse_rule_dump (b ∷ buf) table chain) (dump_rules table chain replies)
dump_rules table chain (would_block true ∷ replies) = err timed_out
dump_rules table chain (would_block false ∷ replies) = dump_rules table chain replies
dump_rules table chain (failed code ∷ replies) = err recv_failed
