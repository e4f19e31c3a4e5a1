-- ===== src/Image/Reference/Chars.antt =====
-- The characters of the parts that src/image/name.rs accepts.
use zerun.Prelude.{
  ℕ, zero, suc, Bool, true, false, ◌||◌, some, List, [], ◌∷◌, Text, ok, ◌≡◌, refl, arith, ◌==◌,
  ==_iff, all, map, has, split, onto_head, is_whitespace, to_lower, Option-cases, Bool-cases, inl,
  inr, length,
}
use zerun.Prelude.Trim.{is_solid}
use zerun.Image.Reference.{
  is_repo_alphanumeric, skip_alphanumeric, skip_dashes, skip_second_underscore, after_separator,
  component_loop, valid_repository_component, validate_components, validate_repository, is_tag_char,
  validate_tag, end_or_next,
}

abbrev pub repo_char : ℕ → Bool
repo_char c = is_repo_alphanumeric c || (c == b'.' || (c == b'_' || c == b'-'))

abbrev pub path_char : ℕ → Bool
path_char c = repo_char c || c == b'/'

skip_alphanumeric-all :
    (s : Text) → all repo_char (skip_alphanumeric s) ≡ true → all repo_char s ≡ true
skip_alphanumeric-all [] h = refl
skip_alphanumeric-all (c ∷ s) h = ground (arith, skip_alphanumeric-all s)

skip_dashes-all : (s : Text) → all repo_char (skip_dashes s) ≡ true → all repo_char s ≡ true
skip_dashes-all [] h = refl
skip_dashes-all (c ∷ s) h = ground (arith, skip_dashes-all s)

skip_second_underscore-all :
    (s : Text) → all repo_char (skip_second_underscore s) ≡ true → all repo_char s ≡ true
skip_second_underscore-all [] h = refl
skip_second_underscore-all (c ∷ s) h = ground arith

after_separator-all :
    (c : ℕ) (s t : Text)
    → after_separator c s ≡ some t
    → all repo_char t ≡ true
    → all repo_char (c ∷ s) ≡ true
after_separator-all c s t e h = ground (arith, skip_second_underscore-all s, skip_dashes-all s)

end_or_next-all :
    (loop : Text → Bool) (r : Text)
    → ((t : Text) → loop t ≡ true → all repo_char t ≡ true)
    → end_or_next loop r ≡ true
    → all repo_char r ≡ true
end_or_next-all loop [] step h = refl
end_or_next-all loop (c ∷ rest) step h = elim (Option-cases (after_separator c rest)) [
  | inl e ↦ ground (arith, e)
  | inr (t, e) ↦ after_separator-all c rest t e (step t (ground (arith, e)))
]

component_loop-all : (fuel : ℕ) (s : Text) → component_loop fuel s ≡ true → all repo_char s ≡ true
unfolding component_loop
component_loop-all zero s h = cc
component_loop-all (suc fuel) s h =
    skip_alphanumeric-all s
      (end_or_next-all (component_loop fuel) (skip_alphanumeric s) (component_loop-all fuel) h)

validate_components-all :
    (cs : List Text) → validate_components cs ≡ ok tt → all (all repo_char) cs ≡ true
unfolding validate_components valid_repository_component
validate_components-all [] h = refl
validate_components-all (c ∷ cs) h =
    ground (arith, component_loop-all (length c) c, validate_components-all cs)

split-path_char : (s : Text) → all (all repo_char) (split b'/' s) ≡ true → all path_char s ≡ true
unfolding split
split-path_char [] h = refl
split-path_char (c ∷ s) h = elim (Bool-cases (c == b'/')) [
  | inl slash ↦ ground (arith, split-path_char s)
  | inr other ↦ ground (arith, onto_head-all c (split b'/' s), split-path_char s)
]
  where
    onto_head-all :
        (d : ℕ) (ps : List Text)
        → all (all repo_char) (onto_head d ps) ≡ true
        → (repo_char d ≡ true) × (all (all repo_char) ps ≡ true)
    onto_head-all d [] k = ground arith
    onto_head-all d (p ∷ ps) k = ground arith

-- A repository that is accepted consists of lowercase letters, digits, `.`, `_`, `-` and `/`.
pub validate_repository-path_char :
    (r : Text) → validate_repository r ≡ ok tt → all path_char r ≡ true
unfolding validate_repository
validate_repository-path_char r h =
    split-path_char r (validate_components-all (split b'/' r) (ground arith))

pub all-lacks : (p : ℕ → Bool) (c : ℕ) (s : Text) → p c ≡ false → all p s ≡ true → has c s ≡ false
all-lacks p c [] n h = refl
all-lacks p c (d ∷ s) n h = ground (arith, all-lacks p c s n, ==_iff d c)

-- Such characters are their own lower case, and no white space.
pub path_char-to_lower : (s : Text) → all path_char s ≡ true → map to_lower s ≡ s
path_char-to_lower [] h = refl
path_char-to_lower (c ∷ s) h = ground (arith, path_char-to_lower s)

pub all-solid :
    (p : ℕ → Bool) (s : Text)
    → ((c : ℕ) → p c ≡ true → is_solid c ≡ true)
    → all p s ≡ true
    → all is_solid s ≡ true
all-solid p [] k h = refl
all-solid p (c ∷ s) k h = ground (arith, k c, all-solid p s k)

pub path_char_solid : (c : ℕ) → path_char c ≡ true → is_solid c ≡ true
unfolding is_whitespace
path_char_solid c h = ground arith

pub tag_char_solid : (c : ℕ) → is_tag_char c ≡ true → is_solid c ≡ true
unfolding is_whitespace
tag_char_solid c h = ground arith

pub validate_tag-is_tag_char : (t : Text) → validate_tag t ≡ ok tt → all is_tag_char t ≡ true
unfolding validate_tag
validate_tag-is_tag_char [] h = cc
validate_tag-is_tag_char (c ∷ s) h = ground arith

pub slash_solid : is_solid b'/' ≡ true
unfolding is_whitespace
slash_solid = refl

pub colon_solid : is_solid b':' ≡ true
unfolding is_whitespace
colon_solid = refl

pub at_solid : is_solid b'@' ≡ true
unfolding is_whitespace
at_solid = refl
