-- ===== src/Nftables/Records.antt =====
-- The dump and error parsers of src/nfnetlink.rs, and the rules that they report.
use Prim.Native.Nat.{bit_and}
use zerun.Prelude.{
  ℕ, zero, suc, ◌+◌, ◌-◌, ◌*◌, ◌^◌, Bool, true, false, ◌&&◌, ◌||◌, not, Option, none, some, List,
  [], ◌∷◌, ◌++◌, Result, ok, err, ◌>>=◌, ◌==◌, ltb, leb, between, if◌then◌else◌, length, take, drop,
  Text, bytes, text_eq,
}
use zerun.Nftables.{NetlinkError, Attr, u16_at, u32_at, align, frame, parse_attrs}
pub mod Names
pub mod Message
pub mod Ends

-- How many bytes follow the first of a character, and the bounds of the second.
abbrev pub utf8_lead : ℕ → Option (ℕ × ℕ × ℕ)
utf8_lead b =
    if ltb b 0x80
    then some (0, 0, 0)
    else if between 0xc2 0xdf b
    then some (1, 0x80, 0xbf)
    else if b == 0xe0
    then some (2, 0xa0, 0xbf)
    else if b == 0xed
    then some (2, 0x80, 0x9f)
    else if between 0xe1 0xef b
    then some (2, 0x80, 0xbf)
    else if b == 0xf0
    then some (3, 0x90, 0xbf)
    else if between 0xf1 0xf3 b
    then some (3, 0x80, 0xbf)
    else if b == 0xf4
    then some (3, 0x80, 0x8f)
    else none

abbrev awaited : Option (ℕ × ℕ × ℕ) → ℕ × ℕ × ℕ
awaited none = (0, 0, 0)
awaited (some w) = w

abbrev is_lead : Option (ℕ × ℕ × ℕ) → Bool
is_lead none = false
is_lead (some w) = true

-- `str::from_utf8(value).is_ok()`, where `n` bytes are awaited, the next in `lo..=hi`.
unfoldable pub utf8_from : ℕ → ℕ → ℕ → List ℕ → Bool
utf8_from zero lo hi [] = true
utf8_from (suc n) lo hi [] = false
utf8_from zero lo hi (b ∷ s) =
    let (n, lo', hi') = awaited (utf8_lead b) in is_lead (utf8_lead b) && utf8_from n lo' hi' s
utf8_from (suc n) lo hi (b ∷ s) = between lo hi b && utf8_from n 0x80 0xbf s

abbrev pub is_utf8 : List ℕ → Bool
is_utf8 value = utf8_from 0 0 0 value

-- The bytes before the first NUL
abbrev pub until_nul : List ℕ → List ℕ
until_nul [] = []
until_nul (b ∷ value) = let rest = until_nul value in if b == 0 then [] else b ∷ rest

-- The string is kept as its bytes.
unfoldable pub parse_string : List ℕ → Option (List ℕ)
unfolding utf8_from
parse_string value = if is_utf8 (until_nul value) then some (until_nul value) else none

pub record RuleRecord : Type 0 where
  pub handle : Option ℕ
  pub userdata : Option (List ℕ)

-- What the loop over the attributes has gathered
pub record RuleFields : Type 0 where
  pub rule_table : Option (List ℕ)
  pub rule_chain : Option (List ℕ)
  pub handle : Option ℕ
  pub userdata : Option (List ℕ)

abbrev pub no_fields : RuleFields
no_fields = record { rule_table = none; rule_chain = none; handle = none; userdata = none }

-- `u64::from_be_bytes`
abbrev pub be_value : ℕ → List ℕ → ℕ
be_value acc [] = acc
be_value acc (b ∷ value) = be_value (acc * 256 + b) value

abbrev pub add_field : Attr → RuleFields → RuleFields
add_field (kind, value) f =
    if kind == 1
    then record f { rule_table = parse_string value }
    else if kind == 2
    then record f { rule_chain = parse_string value }
    else if kind == 3 && length value == 8
    then record f { handle = some (be_value 0 value) }
    else if kind == 7
    then record f { userdata = some value }
    else f

unfoldable pub gather : List Attr → RuleFields → RuleFields
gather [] f = f
gather (a ∷ attrs) f = gather attrs (add_field a f)

abbrev pub is_some_of : Text → Option (List ℕ) → Bool
is_some_of name none = false
is_some_of name (some s) = text_eq s (bytes name)

-- The records that one rule message adds
abbrev pub matching : Text → Text → RuleFields → List RuleRecord
matching table chain f =
    if is_some_of table f.rule_table && is_some_of chain f.rule_chain
    then record { handle = f.handle; userdata = f.userdata } ∷ []
    else []

-- The i32 at byte 16, as a u32: zero, or an error with the negated number, again as a u32.
abbrev pub errno_result : ℕ → Result NetlinkError (List RuleRecord)
errno_result v =
    if v == 0
    then ok []
    else if v == 2 ^ 31
    then err NetlinkError.invalid_errno
    else err (NetlinkError.kernel (2 ^ 32 - v))

abbrev pub rule_message : Text → Text → ℕ → List ℕ → Result NetlinkError (List RuleRecord)
rule_message table chain len buf =
    if u16_at 4 buf == 2
    then (if ltb len 20 then err NetlinkError.malformed_error else errno_result (u32_at 16 buf))
    else if leb 20 len
    then (parse_attrs (drop 20 (take len buf)) >>= λ attrs.
        ok (matching table chain (gather attrs no_fields)))
    else ok []

abbrev pub add_records :
    List RuleRecord
    → Result NetlinkError (List RuleRecord × Bool)
    → Result NetlinkError (List RuleRecord × Bool)
add_records found (err e) = err e
add_records found (ok (later, done)) = ok (found ++ later, done)

-- The loop of `parse_rule_dump`: the records pushed, and whether the end of the dump was seen.
unfoldable pub rules_from : Text → Text → ℕ → List ℕ → Result NetlinkError (List RuleRecord × Bool)
rules_from table chain fuel [] = ok ([], false)
rules_from table chain zero (b ∷ buf) = err NetlinkError.stuck
rules_from table chain (suc fuel) (b ∷ buf) =
    let len = u32_at 0 (b ∷ buf) in
    let rest = rules_from table chain fuel (drop (align len) (b ∷ buf)) in
    frame 16 len (b ∷ buf) >>= λ _.
    if u16_at 4 (b ∷ buf) == 3
    then ok ([], true)
    else rule_message table chain len (b ∷ buf) >>= λ found. add_records found rest

unfoldable pub parse_rule_dump : List ℕ → Text → Text → Result NetlinkError (List RuleRecord × Bool)
parse_rule_dump buf table chain = rules_from table chain (length buf) buf

-- The first negative errno of the messages in a datagram, made positive
unfoldable pub errors_from : ℕ → List ℕ → Result NetlinkError (Option ℕ)
errors_from fuel [] = ok none
errors_from zero (b ∷ buf) = err NetlinkError.stuck
errors_from (suc fuel) (b ∷ buf) =
    let len = u32_at 0 (b ∷ buf) in
    let rest = errors_from fuel (drop (align len) (b ∷ buf)) in
    let v = u32_at 16 (b ∷ buf) in
    frame 16 len (b ∷ buf) >>= λ _.
    if u16_at 4 (b ∷ buf) == 2
    then (if ltb len 20
        then err NetlinkError.malformed_error
        else if v == 2 ^ 31
        then err NetlinkError.invalid_errno
        else if ltb (2 ^ 31) v
        then ok (some (2 ^ 32 - v))
        else rest)
    else rest

unfoldable pub parse_nlmsg_error : List ℕ → Result NetlinkError (Option ℕ)
unfolding errors_from
parse_nlmsg_error buf = errors_from (length buf) buf
