-- ===== src/Nftables/Records/Names.antt =====
-- The names that the messages of src/nfnetlink.rs carry are read back as their bytes.
use zerun.Prelude.{
  ℕ, suc, ◌+◌, ◌/◌, ◌%◌, Bool, true, false, ◌&&◌, ◌||◌, not, some, List, [], ◌∷◌, ◌++◌, ◌≡◌, refl,
  ◌∙◌, arith, all, ◌==◌, ltb, between, append_assoc, Text, bytes, utf8, Bool-cases, inl, inr,
  &&_true, ap,
}
use zerun.Nftables.Records.{utf8_lead, utf8_from, is_utf8, until_nul, parse_string}

-- A character of a name: a Unicode scalar value that is not NUL
abbrev pub is_name_char : ℕ → Bool
is_name_char c = not (c == 0) && (ltb c 0xd800 || between 0xe000 0x10ffff c)

utf8_from-idle : (lo hi : ℕ) (s : List ℕ) → utf8_from 0 lo hi s ≡ utf8_from 0 0 0 s
unfolding utf8_from
utf8_from-idle lo hi [] = refl
utf8_from-idle lo hi (b ∷ s) = refl

utf8_from-lead :
    (b n lo hi : ℕ) (s : List ℕ)
    → utf8_lead b ≡ some (n, lo, hi)
    → utf8_from 0 0 0 (b ∷ s) ≡ utf8_from n lo hi s
unfolding utf8_from
utf8_from-lead b n lo hi s e = rw e refl

utf8_from-next :
    (n lo hi b : ℕ) (s : List ℕ)
    → between lo hi b ≡ true
    → utf8_from (suc n) lo hi (b ∷ s) ≡ utf8_from n 0x80 0xbf s
unfolding utf8_from
utf8_from-next n lo hi b s e = rw e refl

lead_two :
    (c : ℕ)
    → ltb c 0x80 ≡ false
    → ltb c 0x800 ≡ true
    → utf8_lead (0xc0 + c / 64) ≡ some (1, 0x80, 0xbf)
lead_two c h k = ground arith

lead_three :
    (c : ℕ)
    → ltb c 0x800 ≡ false
    → ltb c 0x10000 ≡ true
    → is_name_char c ≡ true
    → (lo : ℕ) × (hi : ℕ) × (utf8_lead (0xe0 + c / 4096) ≡ some (2, lo, hi))
      × (between lo hi (0x80 + c / 64 % 64) ≡ true)
lead_three c h k name = elim (Bool-cases (ltb c 0x1000)) [
  | inl e0 ↦ (0xa0, 0xbf, ground arith, ground arith)
  | inr other ↦ elim (Bool-cases (between 0xd000 0xdfff c)) [
    | inl ed ↦ (0x80, 0x9f, ground arith, ground arith)
    | inr rest ↦ (0x80, 0xbf, ground arith, ground arith)
  ]
]

lead_four :
    (c : ℕ)
    → ltb c 0x10000 ≡ false
    → is_name_char c ≡ true
    → (lo : ℕ) × (hi : ℕ) × (utf8_lead (0xf0 + c / 262144) ≡ some (3, lo, hi))
      × (between lo hi (0x80 + c / 4096 % 64) ≡ true)
lead_four c h name = elim (Bool-cases (ltb c 0x40000)) [
  | inl f0 ↦ (0x90, 0xbf, ground arith, ground arith)
  | inr other ↦ elim (Bool-cases (ltb c 0x100000)) [
    | inl rest ↦ (0x80, 0xbf, ground arith, ground arith)
    | inr f4 ↦ (0x80, 0x8f, ground arith, ground arith)
  ]
]

pub is_utf8-character :
    (c : ℕ) (s : List ℕ) → is_name_char c ≡ true → is_utf8 (utf8 c ++ s) ≡ is_utf8 s
is_utf8-character c s h = elim (Bool-cases (ltb c 0x80)) [
  | inl one ↦ rw one (utf8_from-lead c 0 0 0 s (ground arith))
  | inr more ↦ elim (Bool-cases (ltb c 0x800)) [
    | inl two ↦
        rw (more, two)
          (utf8_from-lead (0xc0 + c / 64) 1 0x80 0xbf _ (lead_two c more two)
            ∙ utf8_from-next 0 0x80 0xbf (0x80 + c % 64) s (ground arith)
            ∙ utf8_from-idle 0x80 0xbf s)
    | inr wide ↦ elim (Bool-cases (ltb c 0x10000)) [
      | inl three ↦
          let (lo, hi, lead, second) = lead_three c wide three h in
          rw (more, wide, three)
            (utf8_from-lead (0xe0 + c / 4096) 2 lo hi _ lead
              ∙ utf8_from-next 1 lo hi (0x80 + c / 64 % 64) _ second
              ∙ utf8_from-next 0 0x80 0xbf (0x80 + c % 64) s (ground arith)
              ∙ utf8_from-idle 0x80 0xbf s)
      | inr four ↦
          let (lo, hi, lead, second) = lead_four c four h in
          rw (more, wide, four)
            (utf8_from-lead (0xf0 + c / 262144) 3 lo hi _ lead
              ∙ utf8_from-next 2 lo hi (0x80 + c / 4096 % 64) _ second
              ∙ utf8_from-next 1 0x80 0xbf (0x80 + c / 64 % 64) _ (ground arith)
              ∙ utf8_from-next 0 0x80 0xbf (0x80 + c % 64) s (ground arith)
              ∙ utf8_from-idle 0x80 0xbf s)
    ]
  ]
]

until_nul-utf8 :
    (c : ℕ) (s : List ℕ) → is_name_char c ≡ true → until_nul (utf8 c ++ s) ≡ utf8 c ++ until_nul s
until_nul-utf8 c s h = ground arith

pub until_nul-name :
    (t : Text) → all is_name_char t ≡ true → until_nul (bytes t ++ 0 ∷ []) ≡ bytes t
unfolding bytes
until_nul-name [] h = refl
until_nul-name (c ∷ t) h =
    let (hc, ht) = &&_true (is_name_char c) (all is_name_char t) h in
    rw (append_assoc (utf8 c) (bytes t) (0 ∷ []))
      (until_nul-utf8 c (bytes t ++ 0 ∷ []) hc ∙ ap (λ r. utf8 c ++ r) (until_nul-name t ht))

is_utf8-name : (t : Text) → all is_name_char t ≡ true → is_utf8 (bytes t) ≡ true
unfolding bytes
is_utf8-name [] h = unfold utf8_from in refl
is_utf8-name (c ∷ t) h =
    let (hc, ht) = &&_true (is_name_char c) (all is_name_char t) h in
    is_utf8-character c (bytes t) hc ∙ is_utf8-name t ht

pub parse_string-name :
    (t : Text) → all is_name_char t ≡ true → parse_string (bytes t ++ 0 ∷ []) ≡ some (bytes t)
unfolding parse_string
parse_string-name t h = rw (until_nul-name t h, is_utf8-name t h) refl
