-- ===== src/Image/Reference/Parts.antt =====
-- References of src/image/name.rs in normal form, and how their parts are split off.
use mathlib.Core.Path.{subst}
use zerun.Prelude.{
  ℕ, Bool, true, false, ◌&&◌, ◌||◌, not, Option, none, some, [], ◌∷◌, ◌++◌, Text, ok, ◌≡◌, refl,
  arith, ◌==◌, ==_iff, any, all, map, has, text_eq, text_eq_iff, split_once, is_empty,
  is_alphanumeric, is_hexdigit, is_whitespace, to_lower, codes, Option-cases, Bool-cases, inl, inr,
  sym,
}
use zerun.Prelude.Trim.{is_solid, rsplit_once-lacks, rsplit_once-none}
use zerun.Image.Reference.{
  Reference, default_registry, is_digest, looks_like_registry, validate_registry, is_refused,
  validate_repository, validate_tag, checked_parts, split_tag, is_tag_char, validate_optional_tag,
}
use zerun.Image.Reference.Chars.{
  path_char, validate_repository-path_char, all-lacks, path_char-to_lower, validate_tag-is_tag_char,
}

-- A tag or a digest, in lower case.
abbrev pub Selected : Option Text → Option Text → Type 0
Selected (some t) none = (validate_tag t ≡ ok tt) × (map to_lower t ≡ t)
Selected none (some d) = (is_digest d ≡ true) × (map to_lower d ≡ d)
Selected none none = ⊥
Selected (some t) (some d) = ⊥

pub record Normal (lowercase : Text → Text) (r : Reference) : Type 0 where
  pub registry_valid : validate_registry r.registry ≡ ok tt
  pub registry_named : looks_like_registry r.registry ≡ true
  pub registry_solid : all is_solid r.registry ≡ true
  pub registry_lower : lowercase r.registry ≡ r.registry
  pub repository_valid : validate_repository r.repository ≡ ok tt
  pub namespaced : (text_eq r.registry default_registry && not (has b'/' r.repository)) ≡ false
  pub selected : Selected r.tag r.digest

pub has-append : (c : ℕ) (a b : Text) → has c (a ++ b) ≡ (has c a || has c b)
has-append c [] b = refl
has-append c (d ∷ a) b = ground (arith, has-append c a b)

refused-lacks :
    (c : ℕ) (s : Text) → is_refused c ≡ true → any is_refused s ≡ false → has c s ≡ false
refused-lacks c [] h k = refl
refused-lacks c (d ∷ s) h k = ground (arith, refused-lacks c s h, ==_iff d c)

pub registry-lacks :
    (c : ℕ) (s : Text) → is_refused c ≡ true → validate_registry s ≡ ok tt → has c s ≡ false
unfolding validate_registry
registry-lacks c s h k = refused-lacks c s h (ground arith)

split_once-eq : (c : ℕ) (s a b : Text) → split_once c s ≡ some (a, b) → s ≡ a ++ c ∷ b
unfolding split_once
split_once-eq c [] a b h = cc
split_once-eq c (d ∷ s) a b h = elim (Bool-cases (d == c)) [
  | inl same ↦ ground (arith, ==_iff d c)
  | inr other ↦ elim (Option-cases (split_once c s)) [
    | inl e ↦ ground (arith, e)
    | inr ((a', b'), e) ↦ ground (arith, e, split_once-eq c s a' b' e)
  ]
]

abbrev pub digest_char : ℕ → Bool
digest_char c = is_alphanumeric c || c == b':'

hex-digest_char : (s : Text) → all is_hexdigit s ≡ true → all digest_char s ≡ true
hex-digest_char [] h = refl
hex-digest_char (c ∷ s) h = ground (arith, hex-digest_char s)

digest_chars-join :
    (algo hex : Text)
    → text_eq algo (codes "sha256") ≡ true
    → all is_hexdigit hex ≡ true
    → all digest_char (algo ++ b':' ∷ hex) ≡ true
digest_chars-join algo hex h k =
    subst (λ a. all digest_char (a ++ b':' ∷ hex) ≡ true)
      (sym ((text_eq_iff algo (codes "sha256")).0 h)) (hex-digest_char hex k)

pub is_digest-chars : (d : Text) → is_digest d ≡ true → all digest_char d ≡ true
unfolding is_digest
is_digest-chars d h = elim (Option-cases (split_once b':' d)) [
  | inl e ↦ ground (arith, e)
  | inr ((algo, hex), e) ↦
      subst (λ t. all digest_char t ≡ true) (sym (split_once-eq b':' d algo hex e))
        (digest_chars-join algo hex (ground (arith, e)) (ground (arith, e)))
]

pub digest_char_solid : (c : ℕ) → digest_char c ≡ true → is_solid c ≡ true
unfolding is_whitespace
digest_char_solid c h = ground arith

checked_parts-path :
    (repo : Text) (tag : Option Text)
    → validate_repository repo ≡ ok tt
    → validate_optional_tag tag ≡ ok tt
    → checked_parts repo tag ≡ ok (repo, tag)
unfolding checked_parts
checked_parts-path repo tag v w =
    ground (arith, v, w, path_char-to_lower repo (validate_repository-path_char repo v))

repository-nonempty : (repo : Text) → validate_repository repo ≡ ok tt → is_empty repo ≡ false
unfolding validate_repository
repository-nonempty repo h = ground arith

tag-nonempty : (t : Text) → validate_tag t ≡ ok tt → is_empty t ≡ false
unfolding validate_tag
tag-nonempty [] h = cc
tag-nonempty (c ∷ t) h = refl

pub split_tag-some :
    (repo t : Text)
    → validate_repository repo ≡ ok tt
    → validate_tag t ≡ ok tt
    → map to_lower t ≡ t
    → split_tag (repo ++ b':' ∷ t) ≡ ok (repo, some t)
unfolding split_tag
split_tag-some repo t v w low =
    let chars = validate_tag-is_tag_char t w in
    ground (
      arith,
      rsplit_once-lacks b':' repo t (all-lacks is_tag_char b':' t refl chars),
      all-lacks is_tag_char b'/' t refl chars,
      repository-nonempty repo v,
      tag-nonempty t w,
      checked_parts-path repo (some t) v w,
    )

pub split_tag-none :
    (repo : Text) → validate_repository repo ≡ ok tt → split_tag repo ≡ ok (repo, none)
unfolding split_tag
split_tag-none repo v = ground (
  arith,
  rsplit_once-none b':' repo
      (all-lacks path_char b':' repo refl (validate_repository-path_char repo v)),
  checked_parts-path repo none v refl,
)
