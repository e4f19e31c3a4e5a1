-- ===== src/Environ.antt =====
-- The environment of a container: `build_image_env` and its helpers of src/main.rs, and the tests of
-- names and values of src/workload.rs.
use zerun.Prelude.{
  ℕ, Bool, true, false, Option, none, some, List, [], ◌∷◌, ◌++◌, Text, Result, ok, err, ◌>>=◌, ◌>>◌,
  require, codes, not, has, is_empty, text_eq, split_once, if◌then◌else◌,
}
pub mod Unique
mod Examples

abbrev pub Environment : Type 0
Environment = List (Text × Text)

pub data EnvError : Type 0 where
  empty_name equals_in_name nul_in_name nul_in_value malformed_entry invalid_label empty_label_key :
      EnvError

abbrev pub validate_env_key : Text → Result EnvError (Unit {0})
validate_env_key key =
    require (not (is_empty key)) empty_name
    >> require (not (has b'=' key)) equals_in_name
    >> require (not (has 0 key)) nul_in_name

abbrev pub validate_env_pair : Text → Text → Result EnvError (Unit {0})
validate_env_pair key value = validate_env_key key >> require (not (has 0 value)) nul_in_value

abbrev pub validate_env_spec : Text → Result EnvError (Unit {0})
validate_env_spec spec = elim (split_once b'=' spec) [
  | none ↦ validate_env_key spec
  | some (key, value) ↦ validate_env_pair key value
]

-- The last value of the key
abbrev pub or_first : Option Text → Option Text → Option Text
or_first (some value) first = some value
or_first none first = first

unfoldable pub env_value : Text → Environment → Option Text
env_value key [] = none
env_value key ((name, value) ∷ env) =
    or_first (env_value key env) (if text_eq name key then some value else none)

unfoldable pub upsert_env : Text → Text → Environment → Environment
upsert_env key value [] = (key, value) ∷ []
upsert_env key value ((name, old) ∷ env) =
    let rest = upsert_env key value env in
    if text_eq name key then (name, value) ∷ env else (name, old) ∷ rest

-- `if env_value(&env, key).is_none() { env.push((key, value)) }`
abbrev pub push_missing : Text → Text → Environment → Environment
push_missing key value env = elim (env_value key env) [
  | none ↦ env ++ (key, value) ∷ []
  | some found ↦ env
]

abbrev pub image_entry : Option (Text × Text) → Environment → Result EnvError Environment
image_entry none env = err malformed_entry
image_entry (some (key, value)) env = validate_env_pair key value >> ok (upsert_env key value env)

unfoldable pub image_entries : List Text → Environment → Result EnvError Environment
image_entries [] env = ok env
image_entries (entry ∷ entries) env =
    image_entry (split_once b'=' entry) env >>= λ next. image_entries entries next

-- `-e NAME` passes the host's value on, and does nothing without one.
abbrev pub passed_on : Text → Option Text → Environment → Environment
passed_on key (some value) env = upsert_env key value env
passed_on key none env = env

abbrev pub override_entry :
    (Text → Option Text) → Text → Option (Text × Text) → Environment → Environment
override_entry host_var spec (some (key, value)) env = upsert_env key value env
override_entry host_var spec none env = passed_on spec (host_var spec) env

unfoldable pub override_entries :
    (Text → Option Text) → List Text → Environment → Result EnvError Environment
override_entries host_var [] env = ok env
override_entries host_var (spec ∷ specs) env =
    validate_env_spec spec
    >> override_entries host_var specs (override_entry host_var spec (split_once b'=' spec) env)

abbrev pub default_path : Text
default_path = codes "/usr/local/sbin:/usr/local/bin:/usr/sbin:/usr/bin:/sbin:/bin"

abbrev pub hostname_or : Option Text → Text → Text
hostname_or (some hostname) id = hostname
hostname_or none id = id

abbrev pub with_term : Bool → Environment → Environment
with_term true env = push_missing (codes "TERM") (codes "xterm") env
with_term false env = env

unfoldable pub build_image_env :
    (Text → Option Text)
    → List Text
    → List Text
    → Option Text
    → Text
    → Bool
    → Result EnvError Environment
build_image_env host_var cfg_env overrides hostname id tty = image_entries cfg_env [] >>= λ env.
    override_entries host_var overrides
      (push_missing (codes "HOME") (codes "/root") (push_missing (codes "PATH") default_path env))
    >>= λ env. ok (with_term tty (push_missing (codes "HOSTNAME") (hostname_or hostname id) env))

abbrev pub label_of : Option (Text × Text) → Result EnvError (Text × Text)
label_of none = err invalid_label
label_of (some (key, value)) = require (not (is_empty key)) empty_label_key >> ok (key, value)

unfoldable pub parse_label : Text → Result EnvError (Text × Text)
parse_label raw = label_of (split_once b'=' raw)
