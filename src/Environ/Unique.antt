-- ===== src/Environ/Unique.antt =====
-- The names of an environment of src/main.rs.
use mathlib.Core.Path.{subst}
use zerun.Prelude.{
  Bool, true, false, Bool-cases, text_eq_refl, ◌∙◌, Option, none, some, List, [], ◌∷◌, ◌++◌, Text,
  ok, ◌≡◌, refl, codes, text_eq, text_eq_iff, if◌then◌else◌, arith, >>=-eq-ok, ok_injective,
  Option-cases, inl, inr, split_once,
}
use zerun.Environ.{
  Environment, env_value, upsert_env, push_missing, image_entries, image_entry, override_entries,
  override_entry, passed_on, build_image_env, with_term, hostname_or, default_path,
  validate_env_pair, validate_env_spec,
}

-- No name stands twice.
abbrev pub IsUnique : Environment → Type 0
IsUnique [] = Unit
IsUnique ((name, value) ∷ env) = (env_value name env ≡ none) × IsUnique env

abbrev pub IsDefined : Text → Environment → Type 0
IsDefined key env = (value : Text) × (env_value key env ≡ some value)

pub env_value-upsert_env :
    (key other value : Text) (env : Environment)
    → IsUnique env
    → env_value other (upsert_env key value env)
      ≡ (if text_eq key other then some value else env_value other env)
unfolding env_value upsert_env
env_value-upsert_env key other value [] unique = refl
env_value-upsert_env key other value ((name, old) ∷ env) (fresh, unique) = ground (
  arith,
  text_eq_iff key other,
  text_eq_iff name key,
  text_eq_iff name other,
  env_value-upsert_env key other value env unique,
)

upsert_env-IsUnique :
    (key value : Text) (env : Environment) → IsUnique env → IsUnique (upsert_env key value env)
unfolding env_value upsert_env
upsert_env-IsUnique key value [] unique = (refl, tt)
upsert_env-IsUnique key value ((name, old) ∷ env) (fresh, unique) =
    elim (Bool-cases (text_eq name key)) [
      | inl same ↦ rw same (fresh, unique)
      | inr other ↦
          let kept : env_value name (upsert_env key value env) ≡ none = ground (
            arith,
            text_eq_iff name key,
            text_eq_iff key name,
            fresh,
            env_value-upsert_env key name value env unique,
          ) in
          rw other (kept, upsert_env-IsUnique key value env unique)
    ]

-- A missing key is pushed where an insertion puts it.
push-upsert_env :
    (key value : Text) (env : Environment)
    → env_value key env ≡ none
    → upsert_env key value env ≡ env ++ (key, value) ∷ []
unfolding env_value upsert_env
push-upsert_env key value [] missing = refl
push-upsert_env key value ((name, old) ∷ env) missing = elim (Option-cases (env_value key env)) [
  | inl none_later ↦
      ground
        (arith, text_eq_iff name key, none_later, missing, push-upsert_env key value env none_later)
  | inr (later, found) ↦ ground (arith, found, missing)
]

-- A step on a unique environment keeps it unique and loses no name.
abbrev Keeps : Environment → Environment → Type 0
Keeps env next =
    IsUnique env → IsUnique next × ((key : Text) → IsDefined key env → IsDefined key next)

upsert_env-IsDefined :
    (key value other : Text) (env : Environment)
    → IsUnique env
    → IsDefined other env
    → IsDefined other (upsert_env key value env)
upsert_env-IsDefined key value other env unique (old, found) =
    elim (Bool-cases (text_eq key other)) [
      | inl same ↦ (value, env_value-upsert_env key other value env unique ∙ rw same refl)
      | inr differs ↦ (old, env_value-upsert_env key other value env unique ∙ rw differs found)
    ]

upsert_env-Keeps : (key value : Text) (env : Environment) → Keeps env (upsert_env key value env)
upsert_env-Keeps key value env unique = (
  upsert_env-IsUnique key value env unique,
  λ other. upsert_env-IsDefined key value other env unique,
)

upsert_env-itself :
    (key value : Text) (env : Environment) → IsUnique env → IsDefined key (upsert_env key value env)
upsert_env-itself key value env unique =
    (value, env_value-upsert_env key key value env unique ∙ rw (text_eq_refl key) refl)

abbrev Defines : Text → Environment → Environment → Type 0
Defines key env next =
    IsUnique next
    × IsDefined key next
    × ((other : Text) → IsDefined other env → IsDefined other next)

push_missing-Defines :
    (key value : Text) (env : Environment)
    → IsUnique env
    → Defines key env (push_missing key value env)
push_missing-Defines key value env unique = elim (Option-cases (env_value key env)) [
  | inl missing ↦
      let (single, kept) = upsert_env-Keeps key value env unique in
      let same : upsert_env key value env ≡ push_missing key value env =
        push-upsert_env key value env missing ∙ rw (missing, push_missing) refl in
      subst (Defines key env) same (single, upsert_env-itself key value env unique, kept)
  | inr (found, e) ↦
      let same : env ≡ push_missing key value env = rw (e, push_missing) refl in
      subst (Defines key env) same (unique, (found, e), λ other defined. defined)
]

image_entry-Keeps :
    (entry : Option (Text × Text)) (env : Environment) {next : Environment}
    → image_entry entry env ≡ ok next
    → Keeps env next
image_entry-Keeps none env given unique = cc
image_entry-Keeps (some (key, value)) env given unique =
    let (_, _, last) = >>=-eq-ok (validate_env_pair key value) _ given in
    subst (Keeps env) (ok_injective last) (upsert_env-Keeps key value env) unique

image_entries-IsUnique :
    (entries : List Text) (env : Environment) {next : Environment}
    → image_entries entries env ≡ ok next
    → IsUnique env
    → IsUnique next
unfolding image_entries
image_entries-IsUnique [] env given unique = subst IsUnique (ok_injective given) unique
image_entries-IsUnique (entry ∷ entries) env given unique =
    let (mid, first, rest) = >>=-eq-ok (image_entry (split_once b'=' entry) env) _ given in
    image_entries-IsUnique entries mid rest
      (image_entry-Keeps (split_once b'=' entry) env first unique).0

passed_on-Keeps :
    (key : Text) (value : Option Text) (env : Environment) → Keeps env (passed_on key value env)
passed_on-Keeps key none env unique = (unique, λ other defined. defined)
passed_on-Keeps key (some value) env unique = upsert_env-Keeps key value env unique

override_entry-Keeps :
    (host_var : Text → Option Text) (spec : Text) (entry : Option (Text × Text)) (env : Environment)
    → Keeps env (override_entry host_var spec entry env)
override_entry-Keeps host_var spec none env = passed_on-Keeps spec (host_var spec) env
override_entry-Keeps host_var spec (some (key, value)) env = upsert_env-Keeps key value env

override_entries-Keeps :
    (host_var : Text → Option Text) (specs : List Text) (env : Environment) {next : Environment}
    → override_entries host_var specs env ≡ ok next
    → Keeps env next
unfolding override_entries
override_entries-Keeps host_var [] env given unique =
    subst (Keeps env) (ok_injective given) (λ u. (u, λ other defined. defined)) unique
override_entries-Keeps host_var (spec ∷ specs) env given unique =
    let (_, _, rest) = >>=-eq-ok (validate_env_spec spec) _ given in
    let (single, kept) = override_entry-Keeps host_var spec (split_once b'=' spec) env unique in
    let (last, carried) = override_entries-Keeps host_var specs _ rest single in
    (last, λ key defined. carried key (kept key defined))

with_term-Keeps : (tty : Bool) (env : Environment) → Keeps env (with_term tty env)
with_term-Keeps false env unique = (unique, λ other defined. defined)
with_term-Keeps true env unique =
    let (single, _, kept) = push_missing-Defines (codes "TERM") (codes "xterm") env unique in
    (single, kept)

-- The environment of a container has no name twice, and it has a PATH, a HOME and a HOSTNAME, whatever
-- the image's entries and the overrides are, as long as they are accepted.
pub build_image_env-IsUnique :
    (host_var : Text → Option Text) (cfg_env overrides : List Text) (hostname : Option Text)
    (id : Text) (tty : Bool) (env : Environment)
    → build_image_env host_var cfg_env overrides hostname id tty ≡ ok env
    → IsUnique env
      × IsDefined (codes "PATH") env
      × IsDefined (codes "HOME") env
      × IsDefined (codes "HOSTNAME") env
unfolding build_image_env
build_image_env-IsUnique host_var cfg_env overrides hostname id tty env given =
    let (image, e1, rest) = >>=-eq-ok (image_entries cfg_env []) _ given in
    let (u1, path, _) =
      push_missing-Defines (codes "PATH") default_path image
        (image_entries-IsUnique cfg_env [] e1 tt) in
    let (u2, home, k2) = push_missing-Defines (codes "HOME") (codes "/root") _ u1 in
    let (merged, e3, last) = >>=-eq-ok (override_entries host_var overrides _) _ rest in
    let (u3, k3) = override_entries-Keeps host_var overrides _ e3 u2 in
    let (u4, host, k4) =
      push_missing-Defines (codes "HOSTNAME") (hostname_or hostname id) merged u3 in
    let (u5, k5) = with_term-Keeps tty _ u4 in
    subst
      (λ e.
        IsUnique e
        × IsDefined (codes "PATH") e
        × IsDefined (codes "HOME") e
        × IsDefined (codes "HOSTNAME") e)
      (ok_injective last) (u5, k5 _ (k4 _ (k3 _ (k2 _ path))), k5 _ (k4 _ (k3 _ home)), k5 _ host)
