-- ===== src/Nftables.antt =====
-- The netlink framing of src/nfnetlink.rs: attributes and messages, written and read. Native byte
-- order is little-endian. An offset stays within a buffer of the process, so the checked sums of
-- the source do not overflow a usize.
use Prim.Native.Nat.{bit_or, bit_and}
use zerun.Prelude.{
  ℕ, zero, suc, ◌+◌, ◌-◌, ◌*◌, ◌/◌, ◌%◌, ◌^◌, Bool, true, false, ◌&&◌, ◌||◌, not, Option, none,
  some, List, [], ◌∷◌, ◌++◌, Result, ok, err, ◌==◌, ltb, between, if◌then◌else◌, length, take, drop,
  replicate, Text, byte, bytes, text_eq, ◌>>=◌,
}
pub mod Messages
pub mod Attributes
pub mod Records
pub mod Socket
pub mod Install
mod Examples

pub data NetlinkError : Type 0 where
  truncated_header malformed_length malformed_padding malformed_error invalid_errno stuck :
      NetlinkError
  kernel : ℕ → NetlinkError

-- `to_ne_bytes` of a u16 and a u32, `to_be_bytes` of a u32 and a u64
abbrev pub u16_bytes : ℕ → List ℕ
u16_bytes v = (v % 256) ∷ (v / 256 % 256) ∷ []

abbrev pub u32_bytes : ℕ → List ℕ
u32_bytes v = (v % 256) ∷ (v / 256 % 256) ∷ (v / 65536 % 256) ∷ (v / 16777216 % 256) ∷ []

unfoldable pub be32 : ℕ → List ℕ
be32 v = (v / 16777216 % 256) ∷ (v / 65536 % 256) ∷ (v / 256 % 256) ∷ (v % 256) ∷ []

abbrev pub be64 : ℕ → List ℕ
unfolding be32
be64 v = be32 (v / 4294967296) ++ be32 (v % 4294967296)

-- `(4 - (total % 4)) % 4`, and `(len + 3) & !3`
abbrev pub padding : ℕ → ℕ
padding total = (4 - total % 4) % 4

abbrev pub align : ℕ → ℕ
align len = (len + 3) / 4 * 4

unfoldable pub nla : ℕ → List ℕ → List ℕ
nla typ payload =
    let total = 4 + length payload in
    u16_bytes (total % 2 ^ 16) ++ u16_bytes typ ++ payload ++ replicate (padding total) 0

abbrev pub nla_nested : ℕ → List ℕ → List ℕ
nla_nested typ payload = nla (bit_or typ 0x8000) payload

abbrev pub nla_str : ℕ → Text → List ℕ
nla_str typ s = nla typ (bytes s ++ 0 ∷ [])

abbrev pub nla_be32 : ℕ → ℕ → List ℕ
nla_be32 typ v = nla typ (be32 v)

-- One header, with sequence number 1 and process 0, and its payload
unfoldable pub nlmsg : ℕ → ℕ → List ℕ → List ℕ
nlmsg msg_type flags payload =
    u32_bytes ((16 + length payload) % 2 ^ 32)
    ++ u16_bytes msg_type
    ++ u16_bytes flags
    ++ u32_bytes 1
    ++ u32_bytes 0
    ++ payload

abbrev pub u16_at : ℕ → List ℕ → ℕ
u16_at i buf = byte i buf + byte (i + 1) buf * 256

abbrev pub u32_at : ℕ → List ℕ → ℕ
u32_at i buf = u16_at i buf + u16_at (i + 2) buf * 65536

abbrev pub Attr : Type 0
Attr = ℕ × List ℕ

abbrev pub type_mask : ℕ
type_mask = 0x3fff

-- What the three tests of a header say, at the start of what is left of a buffer.
abbrev pub frame : ℕ → ℕ → List ℕ → Result NetlinkError (Unit {0})
frame header len buf =
    if ltb (length buf) header
    then err truncated_header
    else if ltb len header || ltb (length buf) len
    then err malformed_length
    else if ltb (length buf) (align len)
    then err malformed_padding
    else ok tt

abbrev pub cons_attr : Attr → Result NetlinkError (List Attr) → Result NetlinkError (List Attr)
cons_attr a (err e) = err e
cons_attr a (ok attrs) = ok (a ∷ attrs)

-- The loop of `parse_attrs` on what is left of the buffer; each round takes bytes off it.
unfoldable pub attrs_from : ℕ → List ℕ → Result NetlinkError (List Attr)
attrs_from fuel [] = ok []
attrs_from zero (b ∷ buf) = err stuck
attrs_from (suc fuel) (b ∷ buf) =
    let len = u16_at 0 (b ∷ buf) in
    let rest = attrs_from fuel (drop (align len) (b ∷ buf)) in
    frame 4 len (b ∷ buf) >>= λ _.
    cons_attr (bit_and (u16_at 2 (b ∷ buf)) type_mask, take (len - 4) (drop 4 (b ∷ buf))) rest

unfoldable pub parse_attrs : List ℕ → Result NetlinkError (List Attr)
unfolding attrs_from
parse_attrs buf = attrs_from (length buf) buf
