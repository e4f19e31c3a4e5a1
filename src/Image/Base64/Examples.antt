-- ===== src/Image/Base64/Examples.antt =====
-- Runs of the base64 code of src/image/auth.rs.
use zerun.Prelude.{ℕ, none, some, List, ◌≡◌, refl, codes}
use zerun.Image.Base64.{symbol, base64_encode, value, decode_chunks, base64_decode}
use zerun.Image.Base64.RoundTrip.{base64_decode-encode}

-- `user:pw`
abbrev credentials : List ℕ
credentials = codes "user:pw"

encode_run : base64_encode credentials ≡ codes "dXNlcjpwdw=="
unfolding base64_encode symbol
encode_run = refl

-- White space is skipped, and a single symbol left over is refused.
decode_run : base64_decode (codes "dXNl cjpwdw==") ≡ some credentials
unfolding base64_decode decode_chunks value
decode_run = refl

left_over : base64_decode (codes "dXNlc") ≡ none
unfolding base64_decode decode_chunks value
left_over = refl

base64_decode-encode_example : base64_decode (base64_encode credentials) ≡ some credentials
base64_decode-encode_example = base64_decode-encode credentials refl
