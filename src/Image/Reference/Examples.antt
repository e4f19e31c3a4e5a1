-- ===== src/Image/Reference/Examples.antt =====
-- Runs of src/image/name.rs; the registries are in lower case already.
use zerun.Prelude.{
  none, some, ok, err, ◌≡◌, refl, codes, text_eq, trim, is_whitespace, split, split_once,
  rsplit_once, strip_prefix, byte_len, parse_uint, parse_digits,
}
use zerun.Image.Reference.{
  Reference, validate_port, validate_bracketed, validate_host, validate_registry, component_loop,
  valid_repository_component, validate_components, validate_repository, validate_tag, checked_parts,
  split_tag, split_digest, split_registry, parse_rest, parse, canonical, invalid_port,
  invalid_component,
}
use zerun.Image.Reference.Parts.{Normal}
use zerun.Image.Reference.RoundTrip.{parse-canonical}
use zerun.Image.Reference.Accepted.{Accepted, parse-Accepted}

abbrev alpine : Reference
alpine = record {
  registry = codes "docker.io";
  repository = codes "library/alpine";
  tag = some (codes "latest");
  digest = none;
}

abbrev local_app : Reference
local_app = record {
  registry = codes "localhost:5000";
  repository = codes "team/my__app";
  tag = some (codes "v1.2");
  digest = none;
}

hub_defaults : parse (λ s. s) (codes " alpine ") ≡ ok alpine
unfolding parse parse_rest split_digest split_registry split_tag checked_parts validate_registry
    validate_host validate_repository validate_components valid_repository_component component_loop
    trim is_whitespace text_eq split split_once rsplit_once byte_len
hub_defaults = refl

local_run : parse (λ s. s) (codes "localhost:5000/team/my__app:V1.2") ≡ ok local_app
unfolding parse parse_rest split_digest split_registry split_tag checked_parts validate_registry
    validate_host validate_repository validate_components valid_repository_component component_loop
    validate_tag validate_port trim is_whitespace text_eq split split_once rsplit_once byte_len
    parse_uint parse_digits
local_run = refl

bad_port : parse (λ s. s) (codes "[::1]:0/app") ≡ err (invalid_port (codes "[::1]:0"))
unfolding parse parse_rest split_digest split_registry validate_registry validate_bracketed
    validate_port trim is_whitespace text_eq split_once rsplit_once strip_prefix byte_len parse_uint
    parse_digits
bad_port = refl

bad_component : parse (λ s. s) (codes "a/b.-c") ≡ err (invalid_component (codes "b.-c"))
unfolding parse parse_rest split_digest split_registry split_tag checked_parts validate_registry
    validate_host validate_repository validate_components valid_repository_component component_loop
    trim is_whitespace text_eq split split_once rsplit_once byte_len
bad_component = refl

local_app-Normal : Normal (λ s. s) local_app
unfolding validate_registry validate_host validate_port validate_repository validate_components
    valid_repository_component component_loop validate_tag text_eq is_whitespace split rsplit_once
    byte_len parse_uint parse_digits
local_app-Normal = record {
  registry_valid = refl;
  registry_named = refl;
  registry_solid = refl;
  registry_lower = refl;
  repository_valid = refl;
  namespaced = refl;
  selected = (refl, refl);
}

parse-canonical_example : parse (λ s. s) (canonical local_app) ≡ ok local_app
parse-canonical_example = parse-canonical (λ s. s) local_app local_app-Normal

parse-Accepted_example : Accepted local_app
parse-Accepted_example =
    parse-Accepted (λ s. s) (codes "localhost:5000/team/my__app:V1.2") local_app local_run
