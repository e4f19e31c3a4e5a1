-- ===== src/Image/Base64.antt =====
-- The base64 code of src/image/auth.rs, for stored credentials. Bytes are numbers below 256. A bitwise
-- `|` of parts with no common bit is written as a sum.
use zerun.Prelude.{
  ℕ, zero, suc, ◌+◌, ◌-◌, ◌*◌, ◌/◌, ◌%◌, Bool, true, false, ◌&&◌, ◌||◌, not, Option, none, some,
  List, [], ◌∷◌, ◌++◌, Text, codes, if◌then◌else◌, ◌==◌, between, is_upper, is_lower, is_digit,
  retain,
}
pub mod RoundTrip
mod Examples

-- `BASE64[i]`, for an index below 64
abbrev pub byte_at : ℕ → Text → ℕ
byte_at i [] = 0
byte_at zero (c ∷ s) = c
byte_at (suc i) (c ∷ s) = byte_at i s

unfoldable pub symbol : ℕ → ℕ
symbol i = byte_at i (codes "ABCDEFGHIJKLMNOPQRSTUVWXYZabcdefghijklmnopqrstuvwxyz0123456789+/")

-- The symbol of six bits of a 24-bit group.
abbrev pub symbol_at : ℕ → ℕ → ℕ
symbol_at shift n = symbol (n / shift % 64)

abbrev pub group : ℕ → ℕ → ℕ → ℕ
group a b c = a * 65536 + b * 256 + c

unfoldable pub base64_encode : List ℕ → Text
base64_encode [] = []
base64_encode (a ∷ []) =
    let n = group a 0 0 in symbol_at 262144 n ∷ symbol_at 4096 n ∷ b'=' ∷ b'=' ∷ []
base64_encode (a ∷ b ∷ []) =
    let n = group a b 0 in symbol_at 262144 n ∷ symbol_at 4096 n ∷ symbol_at 64 n ∷ b'=' ∷ []
base64_encode (a ∷ b ∷ c ∷ rest) =
    let n = group a b c in
    symbol_at 262144 n ∷ symbol_at 4096 n ∷ symbol_at 64 n ∷ symbol_at 1 n ∷ base64_encode rest

unfoldable pub value : ℕ → Option ℕ
value b =
    if is_upper b
    then some (b - b'A')
    else if is_lower b
    then some (b - b'a' + 26)
    else if is_digit b
    then some (b - b'0' + 52)
    else if b == b'+'
    then some 62
    else if b == b'/'
    then some 63
    else none

-- `!b.is_ascii_whitespace() && *b != b'='`
abbrev pub is_kept : ℕ → Bool
is_kept b = not (b == 32 || (b == 9 || (b == 10 || (b == 12 || b == 13)))) && not (b == b'=')

abbrev pub bind_value : ℕ → (ℕ → Option (List ℕ)) → Option (List ℕ)
bind_value b next = elim (value b) [ none ↦ none | some v ↦ next v ]

-- `(n >> 16) as u8`, `(n >> 8) as u8` and `n as u8`
abbrev pub out_byte : ℕ → ℕ → ℕ
out_byte shift n = n / shift % 256

abbrev pub push_all : List ℕ → Option (List ℕ) → Option (List ℕ)
push_all bs none = none
push_all bs (some rest) = some (bs ++ rest)

-- The loop over chunks of four.
unfoldable pub decode_chunks : Text → Option (List ℕ)
decode_chunks [] = some []
decode_chunks (a ∷ []) = none
decode_chunks (a ∷ b ∷ []) =
    bind_value a (λ v. bind_value b (λ w. some (out_byte 65536 (v * 262144 + w * 4096) ∷ [])))
decode_chunks (a ∷ b ∷ c ∷ []) = bind_value a (λ v. bind_value b (λ w.
    bind_value c (λ x.
      let n = v * 262144 + w * 4096 + x * 64 in some (out_byte 65536 n ∷ out_byte 256 n ∷ []))))
decode_chunks (a ∷ b ∷ c ∷ d ∷ rest) =
    let later = decode_chunks rest in
    bind_value a (λ v. bind_value b (λ w. bind_value c (λ x. bind_value d (λ y.
      let n = v * 262144 + w * 4096 + x * 64 + y in
      push_all (out_byte 65536 n ∷ out_byte 256 n ∷ out_byte 1 n ∷ []) later))))

unfoldable pub base64_decode : Text → Option (List ℕ)
base64_decode input = decode_chunks (retain is_kept input)
