-- ===== src/Image/Reference.antt =====
-- src/image/name.rs: image references, `[registry/][namespace/]repository[:tag][@digest]`.
use zerun.Prelude.{
  ℕ, zero, suc, ◌+◌, Bool, true, false, ◌&&◌, ◌||◌, not, Option, none, some, List, [], ◌∷◌, ◌++◌,
  Text, Result, ok, err, ◌>>=◌, ◌>>◌, require, codes, text_eq, if◌then◌else◌, ltb, ◌==◌, any, all,
  map, length, has, split, split_once, rsplit_once, strip_prefix, trim, is_empty, is_lower,
  is_digit, is_alphanumeric, is_hexdigit, is_control, to_lower, byte_len, parse_uint, u16_max,
}
pub mod Chars
pub mod Parts
pub mod RoundTrip
pub mod Accepted
mod Examples

pub record Reference : Type 0 where
  pub registry : Text
  pub repository : Text
  pub tag : Option Text
  pub digest : Option Text

pub data ReferenceError : Type 0 where
  empty_reference no_repository empty_repository empty_tag : ReferenceError
  invalid_digest invalid_registry invalid_port invalid_repository invalid_component invalid_tag :
      Text → ReferenceError

abbrev pub default_registry : Text
default_registry = codes "docker.io"

pub is_digest : Text → Bool
is_digest d = elim (split_once b':' d) [
  | none ↦ false
  | some (algo, hex) ↦ text_eq algo (codes "sha256") && (byte_len hex == 64 && all is_hexdigit hex)
]

abbrev pub looks_like_registry : Text → Bool
looks_like_registry component =
    text_eq component (codes "localhost") || (has b'.' component || has b':' component)

unfoldable pub validate_port : Text → Text → Result ReferenceError (Unit {0})
validate_port port registry = elim (parse_uint u16_max port) [
  | none ↦ err (invalid_port registry)
  | some value ↦ if value == 0 then err (invalid_port registry) else ok tt
]

-- The characters that no registry holds.
abbrev pub is_refused : ℕ → Bool
is_refused c =
    is_control c
    || (c == b' ' || (c == b'/' || (c == b'?' || (c == b'#' || (c == b'@' || c == b'\\')))))

abbrev pub starts_with_char : ℕ → Text → Bool
starts_with_char c [] = false
starts_with_char c (d ∷ s) = d == c

-- What follows the closing bracket of an address.
abbrev pub port_after : Text → Text → Result ReferenceError (Unit {0})
port_after registry rest = elim (strip_prefix (b':' ∷ []) rest) [
  | none ↦ ok tt
  | some port ↦ validate_port port registry
]

unfoldable pub validate_bracketed : Text → Result ReferenceError (Unit {0})
validate_bracketed registry = elim (split_once b']' registry) [
  | none ↦ err (invalid_registry registry)
  | some (address, rest) ↦
      if byte_len address == 1 || any (λ c. not (c == b':' || is_digit c)) rest
      then err (invalid_registry registry)
      else port_after registry rest
]

abbrev pub count : ℕ → Text → ℕ
count c [] = 0
count c (d ∷ s) = if d == c then suc (count c s) else count c s

unfoldable pub validate_host : Text → Result ReferenceError (Unit {0})
validate_host registry =
    if starts_with_char b':' registry || ltb 1 (count b':' registry)
    then err (invalid_registry registry)
    else elim (rsplit_once b':' registry) [
      | none ↦ ok tt
      | some (host, port) ↦
          if is_empty host then err (invalid_registry registry) else validate_port port registry
    ]

unfoldable pub validate_registry : Text → Result ReferenceError (Unit {0})
validate_registry registry =
    if is_empty registry || any is_refused registry
    then err (invalid_registry registry)
    else if starts_with_char b'[' registry
    then validate_bracketed registry
    else validate_host registry

abbrev pub is_repo_alphanumeric : ℕ → Bool
is_repo_alphanumeric c = is_lower c || is_digit c

abbrev pub skip_alphanumeric : Text → Text
skip_alphanumeric [] = []
skip_alphanumeric (c ∷ s) =
    let rest = skip_alphanumeric s in if is_repo_alphanumeric c then rest else c ∷ s

abbrev pub skip_dashes : Text → Text
skip_dashes [] = []
skip_dashes (c ∷ s) = let rest = skip_dashes s in if c == b'-' then rest else c ∷ s

-- `match bytes[index]`: what is left after one separator.
abbrev pub skip_second_underscore : Text → Text
skip_second_underscore [] = []
skip_second_underscore (c ∷ s) = if c == b'_' then s else c ∷ s

abbrev pub after_separator : ℕ → Text → Option Text
after_separator c s =
    if c == b'.'
    then some s
    else if c == b'_'
    then some (skip_second_underscore s)
    else if c == b'-'
    then some (skip_dashes s)
    else none

abbrev pub starts_alphanumeric : Text → Bool
starts_alphanumeric [] = false
starts_alphanumeric (c ∷ s) = is_repo_alphanumeric c

-- What a round does behind the alphanumeric characters.
abbrev pub end_or_next : (Text → Bool) → Text → Bool
end_or_next loop [] = true
end_or_next loop (c ∷ rest) = elim (after_separator c rest) [
  | none ↦ false
  | some t ↦ starts_alphanumeric t && loop t
]

-- The loop, at an alphanumeric character; every round passes one, so the length is enough fuel. A
-- character outside ASCII is refused here as its bytes are.
unfoldable pub component_loop : ℕ → Text → Bool
component_loop zero s = false
component_loop (suc fuel) s = end_or_next (component_loop fuel) (skip_alphanumeric s)

unfoldable pub valid_repository_component : Text → Bool
valid_repository_component s = starts_alphanumeric s && component_loop (length s) s

unfoldable pub validate_components : List Text → Result ReferenceError (Unit {0})
validate_components [] = ok tt
validate_components (c ∷ cs) =
    require (valid_repository_component c) (invalid_component c) >> validate_components cs

unfoldable pub validate_repository : Text → Result ReferenceError (Unit {0})
validate_repository repository =
    if is_empty repository || ltb 255 (byte_len repository)
    then err (invalid_repository repository)
    else validate_components (split b'/' repository)

abbrev pub is_tag_char : ℕ → Bool
is_tag_char c = is_alphanumeric c || (c == b'_' || (c == b'.' || c == b'-'))

abbrev pub valid_tag : Text → Bool
valid_tag [] = false
valid_tag (c ∷ s) =
    not (ltb 128 (byte_len (c ∷ s))) && ((is_alphanumeric c || c == b'_') && all is_tag_char s)

unfoldable pub validate_tag : Text → Result ReferenceError (Unit {0})
validate_tag tag = require (valid_tag tag) (invalid_tag tag)

-- The tag and the repository, lowercased; the tag is checked if there is one.
abbrev pub validate_optional_tag : Option Text → Result ReferenceError (Unit {0})
validate_optional_tag none = ok tt
validate_optional_tag (some tag) = validate_tag tag

unfoldable pub checked_parts : Text → Option Text → Result ReferenceError (Text × Option Text)
checked_parts repo tag =
    validate_repository repo >> (validate_optional_tag tag >> ok (map to_lower repo, tag))

unfoldable pub split_tag : Text → Result ReferenceError (Text × Option Text)
split_tag repo_part = elim (rsplit_once b':' repo_part) [
  | none ↦ checked_parts repo_part none
  | some (repo, tag) ↦
      if has b'/' tag
      then checked_parts repo_part none
      else if is_empty repo
      then err empty_repository
      else if is_empty tag
      then err empty_tag
      else checked_parts repo (some (map to_lower tag))
]

unfoldable pub split_digest : Text → Result ReferenceError (Text × Option Text)
split_digest input = elim (rsplit_once b'@' input) [
  | none ↦ ok (input, none)
  | some (rest, d) ↦
      if is_digest d then ok (rest, some (map to_lower d)) else err (invalid_digest d)
]

-- `lowercase` is `str::to_lowercase`, over Unicode.
module _ (lowercase : Text → Text) where
  unfoldable pub split_registry : Text → Text × Text
  split_registry rest = elim (split_once b'/' rest) [
    | none ↦ (default_registry, rest)
    | some (first, tail) ↦
        if looks_like_registry first then (lowercase first, tail) else (default_registry, rest)
  ]

  abbrev pub full_repository : Text → Text → Text
  full_repository registry repo =
      if text_eq registry default_registry && not (has b'/' repo)
      then codes "library/" ++ repo
      else repo

  abbrev pub final_tag : Option Text → Option Text → Option Text
  final_tag (some digest) tag = none
  final_tag none none = some (codes "latest")
  final_tag none (some tag) = some tag

  -- What follows the digest.
  unfoldable pub parse_rest : Text → Option Text → Result ReferenceError Reference
  parse_rest rest digest =
      let (registry, repo_part) = split_registry rest in
      do
        require (not (is_empty rest)) no_repository
        validate_registry registry
        parts ← split_tag repo_part
        ok (record {
          registry = registry;
          repository = full_repository registry parts.0;
          tag = final_tag digest parts.1;
          digest = digest;
        })

  -- `Reference::parse`
  unfoldable pub parse : Text → Result ReferenceError Reference
  parse raw =
      let input = trim raw in
      do
        require (not (is_empty input)) empty_reference
        parts ← split_digest input
        parse_rest parts.0 parts.1

-- `Reference::canonical`
abbrev pub suffix : ℕ → Option Text → Text
suffix c none = []
suffix c (some s) = c ∷ s

unfoldable pub canonical : Reference → Text
canonical r = (r.registry ++ b'/' ∷ r.repository) ++ (suffix b':' r.tag ++ suffix b'@' r.digest)
