-- ===== src/Attach/Frames.antt =====
-- Frames of src/lifecycle.rs are read back as they were sent.
use mathlib.Core.Path.{subst}
use zerun.Prelude.{
  ℕ, zero, suc, ◌+◌, ◌-◌, ◌/◌, ◌%◌, ◌^◌, ◌<◌, ◌≤◌, true, false, some, List, [], ◌∷◌, ◌++◌, ok, err,
  ◌==◌, ltb, if◌then◌else◌, length, ◌≡◌, refl, ◌∙◌, ap, arith, All, length-append, take-append,
  drop-append, append_assoc, append-nil,
}
use zerun.Prelude.Int.{ℤ, pos, negsuc}
use zerun.Attach.{
  data_frame, exit_frame, frame_too_large, read_exact, be_u32, as_i32, as_u32, read_body,
  read_attach_frame, frame_of, exit_bytes, max_frame, attach_from, attach_output,
}
use zerun.Nftables.{be32}

-- A length or a code of 32 bits
be_u32-be32 : (v : ℕ) → v < 2 ^ 32 → be_u32 0 (be32 v) ≡ v
unfolding be32
be_u32-be32 v h = omega arith

read_exact-append :
    (chunk rest : List ℕ) → read_exact (length chunk) (chunk ++ rest) ≡ ok (chunk, rest)
read_exact-append chunk rest =
    let long : ltb (length (chunk ++ rest)) (length chunk) ≡ false =
      ground (arith, length-append chunk rest) in
    rw
      (long, take-append (length chunk) chunk rest refl, drop-append (length chunk) chunk rest refl)
      refl

read_attach_frame-be32 :
    (v : ℕ) (rest : List ℕ) → v < 2 ^ 32 → read_attach_frame (be32 v ++ rest) ≡ read_body v rest
unfolding read_attach_frame be32
read_attach_frame-be32 v rest h =
    let value : be_u32 0
          ((v / 16777216 % 256) ∷ (v / 65536 % 256) ∷ (v / 256 % 256) ∷ (v % 256) ∷ [])
        ≡ v =
      omega arith in
    let tail : List ℕ = (v / 65536 % 256) ∷ (v / 256 % 256) ∷ (v % 256) ∷ [] in
    rw (read_exact-append tail rest) (ap (λ n. read_body n rest) value)

pub read_attach_frame-frame_of :
    (chunk rest : List ℕ)
    → 0 < length chunk
    → length chunk < 2 ^ 32
    → read_attach_frame (frame_of chunk ++ rest)
      ≡ (if ltb max_frame (length chunk) then err frame_too_large else ok (data_frame chunk, rest))
unfolding frame_of
read_attach_frame-frame_of chunk rest some_byte small =
    let n = length chunk in
    let fits : n % 2 ^ 32 ≡ n = omega arith in
    let not_exit : (n == 0) ≡ false = ground arith in
    rw (fits, append_assoc (be32 n) chunk rest)
      (read_attach_frame-be32 n (chunk ++ rest) small
        ∙ rw (not_exit, read_exact-append chunk rest) refl)

-- What an i32 holds
unfoldable pub IsI32 : ℤ → Type 0
IsI32 (pos n) = n < 2 ^ 31
IsI32 (negsuc n) = n < 2 ^ 31

as_i32-as_u32 : (code : ℤ) → IsI32 code → (as_u32 code < 2 ^ 32) × (as_i32 (as_u32 code) ≡ code)
unfolding IsI32
as_i32-as_u32 (pos n) h =
    let fits : n % 2 ^ 32 ≡ n = omega arith in
    let low : ltb n (2 ^ 31) ≡ true = ground arith in rw fits (omega arith, rw low refl)
as_i32-as_u32 (negsuc n) h =
    let fits : n % 2 ^ 32 ≡ n = omega arith in
    let high : ltb (2 ^ 32 - 1 - n) (2 ^ 31) ≡ false = ground arith in
    rw fits (omega arith, rw high (ap negsuc (omega arith)))

read_attach_frame-exit_bytes :
    (code : ℤ) (rest : List ℕ)
    → IsI32 code
    → read_attach_frame (exit_bytes code ++ rest) ≡ ok (exit_frame code, rest)
unfolding exit_bytes be32
read_attach_frame-exit_bytes code rest h =
    let (small, back) = as_i32-as_u32 code h in
    let v = as_u32 code in
    let word : List ℕ =
      (v / 16777216 % 256) ∷ (v / 65536 % 256) ∷ (v / 256 % 256) ∷ (v % 256) ∷ [] in
    rw (append_assoc (be32 0) (be32 (as_u32 code)) rest) (
      read_attach_frame-be32 0 (be32 (as_u32 code) ++ rest) (omega arith)
      ∙ rw (read_exact-append word rest, be_u32-be32 v small, back) refl)

-- What a client gets that stays to the end, and what it should print
abbrev pub stream_of : List (List ℕ) → ℤ → List ℕ
stream_of [] code = exit_bytes code
stream_of (chunk ∷ chunks) code = frame_of chunk ++ stream_of chunks code

abbrev pub printed : List (List ℕ) → List ℕ
printed [] = []
printed (chunk ∷ chunks) = chunk ++ printed chunks

abbrev pub IsFrame : List ℕ → Type 0
IsFrame chunk = (0 < length chunk) × (length chunk ≤ max_frame)

length-frame_of : (chunk : List ℕ) → length (frame_of chunk) ≡ 4 + length chunk
unfolding frame_of
length-frame_of chunk = omega arith

length-exit_bytes : (code : ℤ) → 0 < length (exit_bytes code)
unfolding exit_bytes
length-exit_bytes code = omega arith

attach_from-stream_of :
    (fuel writes : ℕ) (chunks : List (List ℕ)) (code : ℤ)
    → length (stream_of chunks code) ≤ fuel
    → length chunks ≤ writes
    → All IsFrame chunks
    → IsI32 code
    → attach_from fuel writes (stream_of chunks code) ≡ ok (printed chunks, some code)
unfolding attach_from
attach_from-stream_of zero writes [] code enough takes frames h =
    absurd (omega (arith, length-exit_bytes code))
attach_from-stream_of zero writes (chunk ∷ chunks) code enough takes frames h =
    absurd
      (omega (arith, length-append (frame_of chunk) (stream_of chunks code), length-frame_of chunk))
attach_from-stream_of (suc fuel) writes [] code enough takes frames h =
    let last : read_attach_frame (exit_bytes code) ≡ ok (exit_frame code, []) =
      subst (λ s. read_attach_frame s ≡ ok (exit_frame code, [])) (append-nil (exit_bytes code))
        (read_attach_frame-exit_bytes code [] h) in
    rw last refl
attach_from-stream_of (suc fuel) zero (chunk ∷ chunks) code enough takes frames h =
    absurd (omega arith)
attach_from-stream_of (suc fuel) (suc writes) (chunk ∷ chunks) code enough takes
      ((some_byte, within), frames) h =
    let short : ltb max_frame (length chunk) ≡ false = ground arith in
    let first : read_attach_frame (frame_of chunk ++ stream_of chunks code)
        ≡ ok (data_frame chunk, stream_of chunks code) =
      read_attach_frame-frame_of chunk (stream_of chunks code) some_byte (omega arith)
      ∙ rw short refl in
    let later =
      attach_from-stream_of fuel writes chunks code
        (omega
          (arith, length-append (frame_of chunk) (stream_of chunks code), length-frame_of chunk))
        (omega arith) frames h in
    rw (first, later) refl

-- A client that is sent chunks of at most a mebibyte and then the exit status, whatever i32 that is,
-- prints the chunks, in order and unchanged, and ends with the status, where as many writes to its
-- standard output succeed as there are chunks.
pub attach_output-stream_of :
    (writes : ℕ) (chunks : List (List ℕ)) (code : ℤ)
    → length chunks ≤ writes
    → All IsFrame chunks
    → IsI32 code
    → attach_output writes (stream_of chunks code) ≡ ok (printed chunks, some code)
unfolding attach_output
attach_output-stream_of writes chunks code takes frames h =
    attach_from-stream_of (suc (length (stream_of chunks code))) writes chunks code (omega arith)
      takes frames h
