-- ===== src/Environ/Examples.antt =====
-- Environments of src/main.rs from concrete images and overrides.
use zerun.Prelude.{
  true, false, Option, none, some, List, [], ◌∷◌, Text, ok, err, codes, ◌≡◌, refl, text_eq,
  split_once, if◌then◌else◌,
}
use zerun.Environ.{
  Environment, build_image_env, image_entries, override_entries, env_value, upsert_env, parse_label,
  malformed_entry, empty_label_key, nul_in_value,
}
use zerun.Environ.Unique.{IsUnique, IsDefined, build_image_env-IsUnique}

abbrev host_var : Text → Option Text
host_var name = if text_eq name (codes "LANG") then some (codes "C") else none

abbrev image_config : List Text
image_config = codes "A=1" ∷ codes "PATH=/bin" ∷ codes "A=2=3" ∷ []

abbrev overrides : List Text
overrides = codes "LANG" ∷ codes "UNSET" ∷ codes "PATH=/opt" ∷ []

abbrev expected : Environment
expected =
    (codes "A", codes "2=3")
    ∷ (codes "PATH", codes "/opt")
    ∷ (codes "HOME", codes "/root")
    ∷ (codes "LANG", codes "C")
    ∷ (codes "HOSTNAME", codes "c1")
    ∷ (codes "TERM", codes "xterm")
    ∷ []

built : build_image_env host_var image_config overrides none (codes "c1") true ≡ ok expected
unfolding build_image_env image_entries override_entries env_value upsert_env text_eq split_once
built = refl

malformed :
    build_image_env host_var (codes "A" ∷ []) [] none (codes "c1") true ≡ err malformed_entry
unfolding build_image_env image_entries override_entries env_value upsert_env text_eq split_once
malformed = refl

nul :
    build_image_env host_var [] ((b'A' ∷ b'=' ∷ 0 ∷ []) ∷ []) none (codes "c1") false
    ≡ err nul_in_value
unfolding build_image_env image_entries override_entries env_value upsert_env text_eq split_once
nul = refl

-- With a name twice, the last value is read and the first is replaced.
twice :
    env_value
      (codes "A")
      (upsert_env (codes "A") (codes "3") ((codes "A", codes "1") ∷ (codes "A", codes "2") ∷ []))
    ≡ some (codes "2")
unfolding env_value upsert_env text_eq
twice = refl

label : parse_label (codes "tier=web=1") ≡ ok (codes "tier", codes "web=1")
unfolding parse_label split_once
label = refl

keyless : parse_label (codes "=web") ≡ err empty_label_key
unfolding parse_label split_once
keyless = refl

build_image_env-IsUnique_example :
    IsUnique expected
    × IsDefined (codes "PATH") expected
    × IsDefined (codes "HOME") expected
    × IsDefined (codes "HOSTNAME") expected
build_image_env-IsUnique_example =
    build_image_env-IsUnique host_var image_config overrides none (codes "c1") true expected built
