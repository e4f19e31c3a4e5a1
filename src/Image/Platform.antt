-- ===== src/Image/Platform.antt =====
-- src/image/manifest.rs: platforms, and the choice of one manifest from an index.
use zerun.Prelude.{
  ℕ, Bool, true, false, ◌&&◌, not, Option, none, some, List, [], ◌∷◌, ◌++◌, Text, Result, ok, err,
  codes, text_eq, if◌then◌else◌, retain, split, strip_prefix, is_digit, ◌==◌,
}
pub mod Selection
mod Examples

pub record Platform : Type 0 where
  pub os : Text
  pub architecture : Text
  pub variant : Option Text

pub data PlatformError : Type 0 where
  invalid_platform : Text → PlatformError

unfoldable pub parse_platform : Text → Result PlatformError Platform
parse_platform spec = platform_of (split b'/' spec)
  where
    platform_of : List Text → Result PlatformError Platform
    platform_of (os ∷ arch ∷ []) = ok (record { os = os; architecture = arch; variant = none })
    platform_of (os ∷ arch ∷ variant ∷ []) =
        ok (record { os = os; architecture = arch; variant = some variant })
    platform_of parts = err (invalid_platform spec)

-- `self.matches(want)`
abbrev pub variant_matches : Option Text → Option Text → Bool
variant_matches none found = true
variant_matches (some want) none = false
variant_matches (some want) (some found) = text_eq want found

unfoldable pub platform_matches : Platform → Platform → Bool
platform_matches found want =
    if not (text_eq found.os want.os && text_eq found.architecture want.architecture)
    then false
    else variant_matches want.variant found.variant

-- `arch` is `std::env::consts::ARCH`, and `machine` the kernel's machine string.
unfoldable pub arm_variant : Option Text → Option Text
arm_variant none = none
arm_variant (some machine) = elim (strip_prefix (codes "armv") machine) [
  | none ↦ none
  | some [] ↦ none
  | some (c ∷ rest) ↦ if is_digit c then some (b'v' ∷ c ∷ []) else none
]

unfoldable pub host_platform : Text → Option Text → Platform
host_platform arch machine =
    if text_eq arch (codes "x86_64")
    then linux (codes "amd64") none
    else if text_eq arch (codes "aarch64")
    then linux (codes "arm64") none
    else if text_eq arch (codes "arm")
    then linux (codes "arm") (arm_variant machine)
    else if text_eq arch (codes "riscv64")
    then linux (codes "riscv64") none
    else if text_eq arch (codes "powerpc64")
    then linux (codes "ppc64le") none
    else linux arch none
  where
    linux : Text → Option Text → Platform
    linux architecture variant = record {
      os = codes "linux";
      architecture = architecture;
      variant = variant;
    }

pub record Descriptor : Type 0 where
  pub media_type : Text
  pub digest : Text
  pub size : ℕ
  pub platform : Option Platform

-- A single manifest with its config and layers, or an index.
pub data ImageDoc : Type 0 where
  manifest : Descriptor → List Descriptor → ImageDoc
  index : List Descriptor → ImageDoc

-- What the error for a missing platform lists.
abbrev pub available_name : Platform → Text
available_name p = p.os ++ b'/' ∷ (p.architecture ++ variant_suffix p.variant)
  where
    variant_suffix : Option Text → Text
    variant_suffix none = []
    variant_suffix (some v) = b'/' ∷ v

unfoldable pub available : List Descriptor → List Text
available [] = []
available (d ∷ ds) = elim d.platform [
  | none ↦ available ds
  | some p ↦ available_name p ∷ available ds
]

pub data SelectError : Type 0 where
  no_manifest_for : Text → Text → List Text → SelectError

abbrev pub is_for : Platform → Descriptor → Bool
is_for want d = elim d.platform [ none ↦ false | some p ↦ platform_matches p want ]

unfoldable pub select_in : Platform → List Descriptor → Result SelectError (Option Descriptor)
select_in want manifests = elim (retain (is_for want) manifests) [
  | [] ↦ err (no_manifest_for want.os want.architecture (available manifests))
  | d ∷ ds ↦ ok (some d)
]

-- `ImageDoc::select`
unfoldable pub select : Platform → ImageDoc → Result SelectError (Option Descriptor)
select want (manifest config layers) = ok none
select want (index manifests) = select_in want manifests
