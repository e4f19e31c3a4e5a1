-- ===== src/Image/Platform/Examples.antt =====
-- Runs of the platform selection of src/image/manifest.rs.
use zerun.Prelude.{none, some, [], ◌∷◌, ok, err, ◌≡◌, refl, codes, text_eq, split, strip_prefix}
use zerun.Image.Platform.{
  Platform, parse_platform, platform_matches, arm_variant, host_platform, Descriptor, ImageDoc,
  index, available, no_manifest_for, select_in, select, invalid_platform,
}
use zerun.Image.Platform.Selection.{Selection, select-Selection}

abbrev arm_v7 : Platform
arm_v7 = record { os = codes "linux"; architecture = codes "arm"; variant = some (codes "v7") }

abbrev arm_any : Platform
arm_any = record { os = codes "linux"; architecture = codes "arm"; variant = none }

abbrev for_v7 : Descriptor
for_v7 = record { media_type = []; digest = codes "sha256:7"; size = 0; platform = some arm_v7 }

abbrev attestation : Descriptor
attestation = record { media_type = []; digest = codes "sha256:a"; size = 0; platform = none }

abbrev two : ImageDoc
two = index (attestation ∷ for_v7 ∷ [])

any_variant : select arm_any two ≡ ok (some for_v7)
unfolding select select_in platform_matches text_eq
any_variant = refl

missing :
    select (host_platform (codes "x86_64") none) two
    ≡ err (no_manifest_for (codes "linux") (codes "amd64") (codes "linux/arm/v7" ∷ []))
unfolding select select_in platform_matches text_eq host_platform available
missing = refl

pi_host : host_platform (codes "arm") (some (codes "armv7l")) ≡ arm_v7
unfolding host_platform arm_variant text_eq strip_prefix
pi_host = refl

too_few_parts : parse_platform (codes "linux") ≡ err (invalid_platform (codes "linux"))
unfolding parse_platform split
too_few_parts = refl

select-Selection_example : Selection arm_any two (select arm_any two)
select-Selection_example = select-Selection arm_any two
