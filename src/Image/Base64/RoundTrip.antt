-- ===== src/Image/Base64/RoundTrip.antt =====
-- Bytes that src/image/auth.rs encodes are decoded again.
use mathlib.Core.Path.{subst}
use zerun.Prelude.{
  ℕ, zero, suc, ◌+◌, ◌*◌, ◌/◌, ◌%◌, ◌<◌, ◌≤◌, Bool, true, false, ◌&&◌, Option, none, some, List, [],
  ◌∷◌, Text, ◌≡◌, refl, arith, ◌==◌, ==_iff, ltb, all, retain, Bool-cases, inl, inr,
}
use zerun.Image.Base64.{
  symbol, symbol_at, group, base64_encode, value, is_kept, out_byte, push_all, decode_chunks,
  base64_decode,
}

abbrev is_value : ℕ → Option ℕ → Bool
is_value v none = false
is_value v (some w) = w == v

is_value_sound : (v : ℕ) (o : Option ℕ) → is_value v o ≡ true → o ≡ some v
is_value_sound v none h = cc
is_value_sound v (some w) h = ground (arith, ==_iff w v)

-- Every symbol has its value back, and is neither white space nor padding.
abbrev good_symbol : ℕ → Bool
good_symbol v = is_value v (value (symbol v)) && is_kept (symbol v)

abbrev good_from : ℕ → ℕ → Bool
good_from zero v = true
good_from (suc n) v = good_symbol v && good_from n (v + 1)

symbol_table : good_from 64 0 ≡ true
unfolding value symbol
symbol_table = refl

good_from-lookup : (n lo v : ℕ) → good_from n lo ≡ true → lo ≤ v → v < lo + n → good_symbol v ≡ true
good_from-lookup zero lo v h le lt = absurd (omega arith)
good_from-lookup (suc n) lo v h le lt = elim (Bool-cases (lo == v)) [
  | inl same ↦ subst (λ x. good_symbol x ≡ true) ((==_iff lo v).0 same) (ground arith)
  | inr other ↦ good_from-lookup n (lo + 1) v (ground arith) (ground arith) (omega arith)
]

six_bits : (n : ℕ) → good_symbol (n % 64) ≡ true
six_bits n = good_from-lookup 64 0 (n % 64) symbol_table (omega arith) (omega arith)

value-symbol : (n : ℕ) → value (symbol (n % 64)) ≡ some (n % 64)
value-symbol n = is_value_sound (n % 64) (value (symbol (n % 64))) (ground (arith, six_bits n))

kept-symbol : (n : ℕ) → is_kept (symbol (n % 64)) ≡ true
kept-symbol n = ground (arith, six_bits n)

regroup :
    (n : ℕ)
    → n < 16777216
    → n / 262144 % 64 * 262144 + n / 4096 % 64 * 4096 + n / 64 % 64 * 64 + n / 1 % 64 ≡ n
regroup n h = omega arith

-- What the loop makes of two, three and four symbols.
decode_two :
    (a b v w : ℕ)
    → value a ≡ some v
    → value b ≡ some w
    → decode_chunks (a ∷ b ∷ []) ≡ some (out_byte 65536 (v * 262144 + w * 4096) ∷ [])
unfolding decode_chunks
decode_two a b v w ea eb = ground (arith, ea, eb)

decode_three :
    (a b c v w x : ℕ)
    → value a ≡ some v
    → value b ≡ some w
    → value c ≡ some x
    → (let n = v * 262144 + w * 4096 + x * 64 in
        decode_chunks (a ∷ b ∷ c ∷ []) ≡ some (out_byte 65536 n ∷ out_byte 256 n ∷ []))
unfolding decode_chunks
decode_three a b c v w x ea eb ec = ground (arith, ea, eb, ec)

decode_four :
    (a b c d v w x y : ℕ) (rest : Text)
    → value a ≡ some v
    → value b ≡ some w
    → value c ≡ some x
    → value d ≡ some y
    → (let n = v * 262144 + w * 4096 + x * 64 + y in
        decode_chunks (a ∷ b ∷ c ∷ d ∷ rest)
        ≡ push_all (out_byte 65536 n ∷ out_byte 256 n ∷ out_byte 1 n ∷ []) (decode_chunks rest))
unfolding decode_chunks
decode_four a b c d v w x y rest ea eb ec ed = ground (arith, ea, eb, ec, ed)

group_small : (a b c : ℕ) → a < 256 → b < 256 → c < 256 → group a b c < 16777216
group_small a b c ha hb hc = omega (arith, ha, hb, hc)

-- The bytes of a group, read off the sum of its symbols' values.
first_byte : (a b c : ℕ) → b < 256 → c < 256 → a < 256 → out_byte 65536 (group a b c) ≡ a
first_byte a b c hb hc ha = omega (arith, ha, hb, hc)

second_byte : (a b c : ℕ) → b < 256 → c < 256 → out_byte 256 (group a b c) ≡ b
second_byte a b c hb hc = omega (arith, hb, hc)

third_byte : (a b c : ℕ) → c < 256 → out_byte 1 (group a b c) ≡ c
third_byte a b c hc = omega (arith, hc)

abbrev six : ℕ → ℕ → ℕ
six shift n = n / shift % 64

regroup_two :
    (a : ℕ) → a < 256 → (let n = group a 0 0 in six 262144 n * 262144 + six 4096 n * 4096 ≡ n)
regroup_two a h = omega (arith, h)

regroup_three :
    (a b : ℕ)
    → a < 256
    → b < 256
    → (let n = group a b 0 in six 262144 n * 262144 + six 4096 n * 4096 + six 64 n * 64 ≡ n)
regroup_three a b ha hb = omega (arith, ha, hb)

keep_rest :
    (p q r s : ℕ) (t : Text)
    → retain is_kept (symbol (p % 64) ∷ symbol (q % 64) ∷ symbol (r % 64) ∷ symbol (s % 64) ∷ t)
      ≡ symbol (p % 64) ∷ symbol (q % 64) ∷ symbol (r % 64) ∷ symbol (s % 64) ∷ retain is_kept t
keep_rest p q r s t = ground (arith, kept-symbol p, kept-symbol q, kept-symbol r, kept-symbol s)

-- Whatever the bytes, decoding their encoding gives them back.
pub base64_decode-encode :
    (bs : List ℕ) → all (λ b. ltb b 256) bs ≡ true → base64_decode (base64_encode bs) ≡ some bs
unfolding base64_decode base64_encode
base64_decode-encode [] h = unfold decode_chunks in refl
base64_decode-encode (a ∷ []) h =
    let n = group a 0 0 in
    let ha : a < 256 = ground arith in
    ground (
      arith,
      kept-symbol (n / 262144),
      kept-symbol (n / 4096),
      decode_two (symbol_at 262144 n) (symbol_at 4096 n) (six 262144 n) (six 4096 n)
          (value-symbol (n / 262144)) (value-symbol (n / 4096)),
      regroup_two a ha,
      first_byte a 0 0 (omega arith) (omega arith) ha,
    )
base64_decode-encode (a ∷ b ∷ []) h =
    let n = group a b 0 in
    let ha : a < 256 = ground arith in
    let hb : b < 256 = ground arith in
    ground (
      arith,
      kept-symbol (n / 262144),
      kept-symbol (n / 4096),
      kept-symbol (n / 64),
      decode_three (symbol_at 262144 n) (symbol_at 4096 n) (symbol_at 64 n) (six 262144 n)
          (six 4096 n) (six 64 n) (value-symbol (n / 262144)) (value-symbol (n / 4096))
          (value-symbol (n / 64)),
      regroup_three a b ha hb,
      first_byte a b 0 hb (omega arith) ha,
      second_byte a b 0 hb (omega arith),
    )
base64_decode-encode (a ∷ b ∷ c ∷ rest) h =
    let n = group a b c in
    let ha : a < 256 = ground arith in
    let hb : b < 256 = ground arith in
    let hc : c < 256 = ground arith in
    let back : decode_chunks (retain is_kept (base64_encode rest)) ≡ some rest =
      base64_decode-encode rest (ground arith) in
    ground (
      arith,
      keep_rest (n / 262144) (n / 4096) (n / 64) (n / 1) (base64_encode rest),
      decode_four (symbol_at 262144 n) (symbol_at 4096 n) (symbol_at 64 n) (symbol_at 1 n)
          (six 262144 n) (six 4096 n) (six 64 n) (six 1 n) (retain is_kept (base64_encode rest))
          (value-symbol (n / 262144)) (value-symbol (n / 4096)) (value-symbol (n / 64))
          (value-symbol (n / 1)),
      regroup n (group_small a b c ha hb hc),
      back,
      first_byte a b c hb hc ha,
      second_byte a b c hb hc,
      third_byte a b c hc,
    )
