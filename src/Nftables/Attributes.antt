-- ===== src/Nftables/Attributes.antt =====
-- Attributes that `nla` of src/nfnetlink.rs wrote are read back by `parse_attrs`.
use Prim.Native.Nat.{bit_and}
use zerun.Prelude.{
  ℕ, zero, suc, ◌+◌, ◌-◌, ◌*◌, ◌^◌, ◌<◌, ◌≤◌, List, [], ◌∷◌, ◌++◌, ◌≡◌, refl, sym, ◌∙◌, ap, arith,
  All, ok, length, drop, replicate, length-append, length-replicate, take-append, drop-append,
  append_assoc, map,
}
use zerun.Nftables.{Attr, nla, padding, align, attrs_from, parse_attrs, cons_attr, frame, type_mask}

-- The attributes of a message, one after the other.
abbrev pub encoded : List Attr → List ℕ
encoded [] = []
encoded ((typ, payload) ∷ attrs) = nla typ payload ++ encoded attrs

abbrev pub FitsAttr : Attr → Type 0
FitsAttr (typ, payload) = (typ < 2 ^ 16) × (length payload < 65532)

abbrev pub masked : Attr → Attr
masked (typ, payload) = (bit_and typ type_mask, payload)

aligned_total : (n : ℕ) → align n ≡ n + padding n
aligned_total n = omega arith

pub frame-fits :
    (header len : ℕ) (buf : List ℕ)
    → header ≤ len
    → align len ≤ length buf
    → frame header len buf ≡ ok tt
frame-fits header len buf h fits = ground arith

-- One round of the loop, on a header whose length and type are known.
attrs_from-header :
    (fuel a b c d typ : ℕ) (payload pad rest : List ℕ)
    → a + b * 256 ≡ 4 + length payload
    → c + d * 256 ≡ typ
    → length pad ≡ padding (4 + length payload)
    → attrs_from (suc fuel) (a ∷ b ∷ c ∷ d ∷ (payload ++ (pad ++ rest)))
      ≡ cons_attr (bit_and typ type_mask, payload) (attrs_from fuel rest)
unfolding attrs_from
attrs_from-header fuel a b c d typ payload pad rest size kind gap =
    let n = length payload in
    let buf = a ∷ b ∷ c ∷ d ∷ (payload ++ (pad ++ rest)) in
    let framed : frame 4 (4 + n) buf ≡ ok tt =
      frame-fits 4 (4 + n) buf (omega arith)
        (omega (arith, length-append payload (pad ++ rest), length-append pad rest)) in
    let behind : drop (align (4 + n)) buf ≡ rest = rw (sym (append_assoc payload pad rest)) (
      drop-append (align (4 + n)) (a ∷ b ∷ c ∷ d ∷ (payload ++ pad)) rest
        (omega (arith, length-append payload pad))) in
    rw (size, kind, framed, behind, take-append (4 + n - 4) payload (pad ++ rest) (omega arith))
      refl

pub attrs_from-nla :
    (fuel typ : ℕ) (payload rest : List ℕ)
    → FitsAttr (typ, payload)
    → attrs_from (suc fuel) (nla typ payload ++ rest)
      ≡ cons_attr (masked (typ, payload)) (attrs_from fuel rest)
unfolding nla
attrs_from-nla fuel typ payload rest (small, short) =
    let pad : List ℕ = replicate (padding (4 + length payload)) 0 in
    rw (append_assoc payload pad rest) (
      attrs_from-header fuel _ _ _ _ typ payload pad rest (omega arith) (omega arith)
        (length-replicate (padding (4 + length payload)) 0))

length-nla : (typ : ℕ) (payload : List ℕ) → 4 ≤ length (nla typ payload)
unfolding nla
length-nla typ payload = omega arith

attrs_from-encoded :
    (fuel : ℕ) (attrs : List Attr)
    → length (encoded attrs) ≤ fuel
    → All FitsAttr attrs
    → attrs_from fuel (encoded attrs) ≡ ok (map masked attrs)
attrs_from-encoded fuel [] h fits = unfold attrs_from in refl
attrs_from-encoded zero ((typ, payload) ∷ attrs) h fits =
    absurd (omega (arith, length-append (nla typ payload) (encoded attrs), length-nla typ payload))
attrs_from-encoded (suc fuel) ((typ, payload) ∷ attrs) h (fit, fits) =
    let rest =
      attrs_from-encoded fuel attrs
        (omega (arith, length-append (nla typ payload) (encoded attrs), length-nla typ payload))
        fits in
    attrs_from-nla fuel typ payload (encoded attrs) fit
    ∙ ap (cons_attr (masked (typ, payload))) rest

-- Attributes that fit their 16-bit fields are read back, in order, from the bytes they are written
-- as: each with its payload, without the padding, and with its type below the two flag bits.
pub parse_attrs-encoded :
    (attrs : List Attr) → All FitsAttr attrs → parse_attrs (encoded attrs) ≡ ok (map masked attrs)
unfolding parse_attrs
parse_attrs-encoded attrs fits =
    attrs_from-encoded (length (encoded attrs)) attrs (omega arith) fits
