-- ===== src/Image/Reference/RoundTrip.antt =====
-- `canonical` of src/image/name.rs prints what `parse` reads back.
use mathlib.Core.Path.{subst}
use zerun.Prelude.{
  ℕ, true, false, Option, none, some, [], ◌∷◌, ◌++◌, Text, ok, ◌≡◌, refl, arith, all, map, has,
  is_empty, to_lower, append-nil, append_assoc, all-append, sym,
}
use zerun.Prelude.Trim.{is_solid, trim-solid, split_once-lacks, rsplit_once-lacks, rsplit_once-none}
use zerun.Image.Reference.{
  Reference, is_digest, looks_like_registry, validate_tag, split_tag, split_digest, split_registry,
  parse_rest, parse, canonical, suffix, is_tag_char, final_tag,
}
use zerun.Image.Reference.Chars.{
  path_char, validate_repository-path_char, all-lacks, all-solid, path_char_solid, tag_char_solid,
  validate_tag-is_tag_char, slash_solid, colon_solid, at_solid,
}
use zerun.Image.Reference.Parts.{
  Selected, Normal, has-append, registry-lacks, digest_char, is_digest-chars, digest_char_solid,
  split_tag-some, split_tag-none,
}

nonempty-middle : (a b : Text) (c : ℕ) → is_empty (a ++ c ∷ b) ≡ false
nonempty-middle [] b c = refl
nonempty-middle (d ∷ a) b c = refl

module _ (lowercase : Text → Text) where
  split_registry-named :
      (registry repo_part : Text)
      → has b'/' registry ≡ false
      → looks_like_registry registry ≡ true
      → lowercase registry ≡ registry
      → split_registry lowercase (registry ++ b'/' ∷ repo_part) ≡ (registry, repo_part)
  unfolding split_registry
  split_registry-named registry repo_part lacks named low =
      ground (arith, split_once-lacks b'/' registry repo_part lacks, named, low)

  -- What `parse` makes of a trimmed text whose digest and tag are split off.
  parse_parts :
      (r : Reference) (repo_part : Text) (tag : Option Text)
      → Normal lowercase r
      → split_tag repo_part ≡ ok (r.repository, tag)
      → final_tag lowercase r.digest tag ≡ r.tag
      → parse_rest lowercase (r.registry ++ b'/' ∷ repo_part) r.digest ≡ ok r
  unfolding parse_rest
  parse_parts r repo_part tag n st ft =
      let lacks = registry-lacks b'/' r.registry refl n.registry_valid in
      ground (
        arith,
        split_registry-named r.registry repo_part lacks n.registry_named n.registry_lower,
        nonempty-middle r.registry repo_part b'/',
        n.registry_valid,
        st,
        ft,
        n.namespaced,
      )

  parse_split :
      (text rest : Text) (digest : Option Text) (r : Reference)
      → all is_solid text ≡ true
      → is_empty text ≡ false
      → split_digest text ≡ ok (rest, digest)
      → parse_rest lowercase rest digest ≡ ok r
      → parse lowercase text ≡ ok r
  unfolding parse
  parse_split text rest digest r solid full sd pr =
      rw (trim-solid text solid) ground (arith, full, sd, pr)

  -- Where the text is trimmed already, and no part holds an `@`.
  located-solid :
      (r : Reference) → Normal lowercase r → all is_solid (r.registry ++ b'/' ∷ r.repository) ≡ true
  located-solid r n = ground (
    arith,
    all-append is_solid r.registry (b'/' ∷ r.repository),
    n.registry_solid,
    slash_solid,
    all-solid path_char r.repository path_char_solid
        (validate_repository-path_char r.repository n.repository_valid),
  )

  located-lacks :
      (r : Reference) → Normal lowercase r → has b'@' (r.registry ++ b'/' ∷ r.repository) ≡ false
  located-lacks r n = ground (
    arith,
    has-append b'@' r.registry (b'/' ∷ r.repository),
    registry-lacks b'@' r.registry refl n.registry_valid,
    all-lacks path_char b'@' r.repository refl
        (validate_repository-path_char r.repository n.repository_valid),
  )

  parse-tagged :
      (r : Reference) (t : Text)
      → Normal lowercase r
      → r.tag ≡ some t
      → r.digest ≡ none
      → validate_tag t ≡ ok tt
      → map to_lower t ≡ t
      → parse lowercase ((r.registry ++ b'/' ∷ r.repository) ++ b':' ∷ t) ≡ ok r
  unfolding split_digest
  parse-tagged r t n et ed v low =
      let located = r.registry ++ b'/' ∷ r.repository in
      let chars = validate_tag-is_tag_char t v in
      let text_solid : all is_solid (located ++ b':' ∷ t) ≡ true = ground (
        arith,
        all-append is_solid located (b':' ∷ t),
        located-solid r n,
        colon_solid,
        all-solid is_tag_char t tag_char_solid chars,
      ) in
      let text_lacks : has b'@' (located ++ b':' ∷ t) ≡ false = ground (
        arith,
        has-append b'@' located (b':' ∷ t),
        located-lacks r n,
        all-lacks is_tag_char b'@' t refl chars,
      ) in
      let parts =
        parse_parts r (r.repository ++ b':' ∷ t) (some t) n
          (split_tag-some r.repository t n.repository_valid v low) (rw ed (sym et)) in
      let at_none =
        subst (λ o. parse_rest lowercase (r.registry ++ b'/' ∷ (r.repository ++ b':' ∷ t)) o ≡ ok r)
          ed parts in
      let moved : parse_rest lowercase (located ++ b':' ∷ t) none ≡ ok r =
        rw (append_assoc r.registry (b'/' ∷ r.repository) (b':' ∷ t)) at_none in
      let no_digest : split_digest (located ++ b':' ∷ t) ≡ ok (located ++ b':' ∷ t, none) =
        ground (arith, rsplit_once-none b'@' (located ++ b':' ∷ t) text_lacks) in
      parse_split (located ++ b':' ∷ t) (located ++ b':' ∷ t) none r text_solid
        (nonempty-middle located t b':') no_digest moved

  parse-digested :
      (r : Reference) (d : Text)
      → Normal lowercase r
      → r.tag ≡ none
      → r.digest ≡ some d
      → is_digest d ≡ true
      → map to_lower d ≡ d
      → parse lowercase ((r.registry ++ b'/' ∷ r.repository) ++ b'@' ∷ d) ≡ ok r
  unfolding split_digest
  parse-digested r d n et ed v low =
      let located = r.registry ++ b'/' ∷ r.repository in
      let chars = is_digest-chars d v in
      let text_solid : all is_solid (located ++ b'@' ∷ d) ≡ true = ground (
        arith,
        all-append is_solid located (b'@' ∷ d),
        located-solid r n,
        at_solid,
        all-solid digest_char d digest_char_solid chars,
      ) in
      let parts =
        parse_parts r r.repository none n (split_tag-none r.repository n.repository_valid)
          (rw ed (sym et)) in
      parse_split (located ++ b'@' ∷ d) located (some d) r text_solid
        (nonempty-middle located d b'@')
        (ground (
          arith,
          rsplit_once-lacks b'@' located d (all-lacks digest_char b'@' d refl chars),
          v,
          low,
        ))
        (subst (λ o. parse_rest lowercase located o ≡ ok r) ed parts)

  -- A reference in normal form, with a tag or with a digest, is printed as a text that is read back as
  -- the same reference. Normal means that the registry is valid, named as one, without white space and
  -- its own lower case, the repository valid and not a bare name on docker.io, and the tag or digest
  -- valid and in lower case.
  pub parse-canonical : (r : Reference) → Normal lowercase r → parse lowercase (canonical r) ≡ ok r
  unfolding canonical
  parse-canonical r n = go r.tag r.digest refl refl n.selected
    where
      located : Text
      located = r.registry ++ b'/' ∷ r.repository

      go :
          (t d : Option Text)
          → r.tag ≡ t
          → r.digest ≡ d
          → Selected t d
          → parse lowercase (located ++ (suffix b':' t ++ suffix b'@' d)) ≡ ok r
      go none none et ed s = absurd s
      go (some t) (some d) et ed s = absurd s
      go (some t) none et ed s = rw (append-nil (b':' ∷ t)) (parse-tagged r t n et ed s.0 s.1)
      go none (some d) et ed s = parse-digested r d n et ed s.0 s.1
