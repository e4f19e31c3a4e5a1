-- ===== src/Image/Reference/Accepted.antt =====
-- What `parse` of src/image/name.rs lets into a registry URL.
use mathlib.Core.Path.{subst}
use zerun.Prelude.{
  true, false, not, Option, none, some, Text, ok, >>=-eq-ok, ok_injective, require, ◌≡◌, refl,
  arith, any, all, map, has, trim, is_empty, to_lower, Option-cases, inl, inr, rsplit_once,
  Bool-cases,
}
use zerun.Image.Reference.{
  Reference, is_digest, validate_registry, is_refused, validate_repository, validate_optional_tag,
  checked_parts, split_tag, split_digest, split_registry, parse_rest, parse, is_tag_char,
  full_repository, final_tag,
}
use zerun.Image.Reference.Chars.{
  path_char, validate_repository-path_char, path_char-to_lower, validate_tag-is_tag_char,
}

-- The tag of a tagged reference, or no tag beside a digest.
abbrev pub SelectorAccepted : Option Text → Option Text → Type 0
SelectorAccepted (some t) none = all is_tag_char t ≡ true
SelectorAccepted none (some d) = (h : Text) × (is_digest h ≡ true) × (d ≡ map to_lower h)
SelectorAccepted none none = ⊥
SelectorAccepted (some t) (some d) = ⊥

pub record Accepted (r : Reference) : Type 0 where
  pub registry_valid : validate_registry r.registry ≡ ok tt
  pub registry_safe : any is_refused r.registry ≡ false
  pub repository_safe : all path_char r.repository ≡ true
  pub selector : SelectorAccepted r.tag r.digest

registry-safe : (s : Text) → validate_registry s ≡ ok tt → any is_refused s ≡ false
unfolding validate_registry
registry-safe s h = ground arith

-- What `split_tag` gives: the repository, lowercased, and a valid tag.
abbrev Parts : Text × Option Text → Type 0
Parts parts = (all path_char parts.0 ≡ true) × (validate_optional_tag parts.1 ≡ ok tt)

checked_parts-Parts :
    (repo : Text) (tag : Option Text) (parts : Text × Option Text)
    → checked_parts repo tag ≡ ok parts
    → Parts parts
unfolding checked_parts
checked_parts-Parts repo tag parts h =
    let (_, v, h1) = >>=-eq-ok (validate_repository repo) _ h in
    let (_, w, h2) = >>=-eq-ok (validate_optional_tag tag) _ h1 in
    let chars = validate_repository-path_char repo v in
    let same : (repo, tag) ≡ parts =
      ground (arith, ok_injective h2, path_char-to_lower repo chars) in
    subst Parts same (chars, w)

split_tag-Parts :
    (text : Text) (parts : Text × Option Text) → split_tag text ≡ ok parts → Parts parts
unfolding split_tag
split_tag-Parts text parts h = elim (Option-cases (rsplit_once b':' text)) [
  | inl e ↦ checked_parts-Parts text none parts (ground (arith, e))
  | inr ((repo, tag), e) ↦ elim (Bool-cases (has b'/' tag)) [
    | inl slash ↦ checked_parts-Parts text none parts (ground (arith, e))
    | inr tagged ↦ checked_parts-Parts repo (some (map to_lower tag)) parts (ground (arith, e))
  ]
]

abbrev Digest : Option Text → Type 0
Digest none = Unit
Digest (some d) = (h : Text) × (is_digest h ≡ true) × (d ≡ map to_lower h)

split_digest-Digest :
    (input : Text) (parts : Text × Option Text) → split_digest input ≡ ok parts → Digest parts.1
unfolding split_digest
split_digest-Digest input parts h = elim (Option-cases (rsplit_once b'@' input)) [
  | inl e ↦ let same : none ≡ parts.1 = ground (arith, e) in subst Digest same tt
  | inr ((rest, d), e) ↦
      let valid : is_digest d ≡ true = ground (arith, e) in
      let same : some (map to_lower d) ≡ parts.1 = ground (arith, e) in
      subst Digest same (d, valid, refl)
]

module _ (lowercase : Text → Text) where
  repository-safe :
      (registry repo : Text)
      → all path_char repo ≡ true
      → all path_char (full_repository lowercase registry repo) ≡ true
  repository-safe registry repo h = ground arith

  selector-accepted :
      (digest tag : Option Text)
      → Digest digest
      → validate_optional_tag tag ≡ ok tt
      → SelectorAccepted (final_tag lowercase digest tag) digest
  selector-accepted (some d) tag h v = h
  selector-accepted none none h v = refl
  selector-accepted none (some t) h v = validate_tag-is_tag_char t v

  parse_rest-Accepted :
      (rest : Text) (digest : Option Text) (r : Reference)
      → Digest digest
      → parse_rest lowercase rest digest ≡ ok r
      → Accepted r
  unfolding parse_rest
  parse_rest-Accepted rest digest r d h =
      let (registry, repo_part) = split_registry lowercase rest in
      let (_, _, h1) = >>=-eq-ok (require (not (is_empty rest)) _) _ h in
      let (_, v, h2) = >>=-eq-ok (validate_registry registry) _ h1 in
      let (parts, st, h3) = >>=-eq-ok (split_tag repo_part) _ h2 in
      let (safe, tag_valid) = split_tag-Parts repo_part parts st in
      subst Accepted (ok_injective h3) (record {
        registry_valid = v;
        registry_safe = registry-safe registry v;
        repository_safe = repository-safe registry parts.0 safe;
        selector = selector-accepted digest parts.1 d tag_valid;
      })

  -- Whatever the text, a reference that `parse` returns has a valid registry that holds no control
  -- character, space, `/`, `?`, `#`, `@` or backslash, a repository of lowercase letters, digits, `.`,
  -- `_`, `-` and `/`, and either a tag of tag characters or a sha256 digest in lower case, never both.
  pub parse-Accepted : (text : Text) (r : Reference) → parse lowercase text ≡ ok r → Accepted r
  unfolding parse
  parse-Accepted text r h =
      let (_, _, h1) = >>=-eq-ok (require (not (is_empty (trim text))) _) _ h in
      let (parts, sd, h2) = >>=-eq-ok (split_digest (trim text)) _ h1 in
      parse_rest-Accepted parts.0 parts.1 r (split_digest-Digest (trim text) parts sd) h2
