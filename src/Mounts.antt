-- ===== src/Mounts.antt =====
-- The bind and tmpfs options of src/mounts.rs, and the place of a mount below the rootfs.
use zerun.Prelude.{
  ℕ, zero, suc, ◌+◌, ◌-◌, ◌*◌, ◌/◌, ◌%◌, Bool, true, false, ◌&&◌, ◌||◌, not, Option, none, some,
  List, [], ◌∷◌, ◌++◌, Text, Result, ok, err, ◌>>=◌, ◌>>◌, require, ok_or, codes, ◌==◌, leb, ltb,
  between, text_eq, if◌then◌else◌, split, split_once, has, all, is_empty, is_alphanumeric, byte_len,
  ◌~>◌, u32_max,
}
use zerun.Prelude.Decimal.{decimal}
use zerun.Units.{parse_size, SizeError}
use zerun.Image.Unpack.{Component, normal, cur_dir, parent_dir, root_dir, prefix, FilePath}
pub mod Target
mod Examples

pub data MountError : Type 0 where
  container_missing too_many_parts unsupported_mode not_absolute over_root not_normal : MountError
  host_missing host_not_accessible host_not_file_or_dir invalid_volume_name : MountError
  unsupported_option invalid_size invalid_octal symlink_on_target invalid_target : MountError

-- What canonicalize and metadata say of a host path
pub record HostPath : Type 0 where
  pub source : Text
  pub accessible : Bool
  pub is_file_or_dir : Bool

-- `Path::components` behind the root: empty parts and single dots are skipped.
abbrev part : Text → List Component → List Component
part name rest =
    if is_empty name || text_eq name (codes ".")
    then rest
    else if text_eq name (codes "..")
    then parent_dir ∷ rest
    else normal name ∷ rest

abbrev parts : List Text → List Component
parts [] = []
parts (name ∷ names) = part name (parts names)

unfoldable pub components : Text → List Component
components path = parts (split b'/' path)

abbrev pub is_normal : Component → Bool
is_normal (normal name) = true
is_normal other = false

abbrev pub starts_with_slash : Text → Bool
starts_with_slash [] = false
starts_with_slash (c ∷ s) = c == b'/'

unfoldable pub validate_volume_name : Text → Result MountError (Unit {0})
validate_volume_name name =
    require
      (between 1 128 (byte_len name)
        && all (λ b. is_alphanumeric b || b == b'_' || b == b'.' || b == b'-') name
        && not (text_eq name (codes ".") || text_eq name (codes "..")))
      invalid_volume_name

pub record BindMount : Type 0 where
  pub source : Text
  pub target : Text
  pub readonly : Bool
  pub named : Option Text
  pub raw : Text

-- The parts between colons: the host, the container and the mode, which is rw without one
abbrev bind_parts : List Text → Result MountError (Text × Text × Text)
bind_parts [] = err container_missing
bind_parts (host ∷ []) = err container_missing
bind_parts (host ∷ container ∷ []) = ok (host, container, codes "rw")
bind_parts (host ∷ container ∷ mode ∷ []) = ok (host, container, mode)
bind_parts (host ∷ container ∷ mode ∷ more ∷ rest) = err too_many_parts

abbrev is_readonly : Text → Result MountError Bool
is_readonly mode =
    if is_empty mode || text_eq mode (codes "rw")
    then ok false
    else if text_eq mode (codes "ro")
    then ok true
    else err unsupported_mode

abbrev pub check_container : Text → Result MountError (Unit {0})
check_container container =
    require (starts_with_slash container) not_absolute
    >> require (not (text_eq container (codes "/"))) over_root
    >> require (all is_normal (components container)) not_normal

abbrev host_source : Option HostPath → Result MountError (Text × Option Text)
host_source none = err host_missing
host_source (some p) =
    require p.accessible host_not_accessible
    >> require p.is_file_or_dir host_not_file_or_dir
    >> ok (p.source, none)

abbrev bind_source : (Text → Option HostPath) → Text → Result MountError (Text × Option Text)
bind_source lookup host =
    if starts_with_slash host
    then host_source (lookup host)
    else (validate_volume_name host >> ok ([], some host))

unfoldable pub parse_bind : (Text → Option HostPath) → Text → Result MountError BindMount
unfolding components validate_volume_name
parse_bind lookup value = bind_parts (split b':' value) >>= λ (host, container, mode).
    is_readonly mode >>= λ readonly.
    check_container container
    >> (bind_source lookup host >>= λ (source, named). ok (record {
      source = source;
      target = container;
      readonly = readonly;
      named = named;
      raw = value;
    }))

-- `safe_target` on the names of the rootfs, innermost first; `is_link` is what `symlink_metadata` finds.
unfoldable pub safe_target :
    (FilePath → Bool) → FilePath → List Component → Result MountError FilePath
safe_target is_link cur [] = ok cur
safe_target is_link cur (normal c ∷ rest) =
    let later = safe_target is_link (c ∷ cur) rest in
    if is_link (c ∷ cur) then err symlink_on_target else later
safe_target is_link cur (other ∷ rest) = err invalid_target

pub record TmpfsMount : Type 0 where
  pub target : Text
  pub mount_options : Text
  pub readonly : Bool
  pub raw : Text

abbrev pub push_opt : Text → Text → Text → Text
push_opt options key value =
    (if is_empty options then [] else options ++ codes ",") ++ key ++ codes "=" ++ value

-- `from_str_radix(s, 8)`, and a print in base 8 of at most twelve bits
abbrev octal_digits : ℕ → Text → Option ℕ
octal_digits acc [] = some acc
octal_digits acc (c ∷ s) =
    let n = acc * 8 + (c - b'0') in
    let rest = octal_digits n s in if between b'0' b'7' c && leb n u32_max then rest else none

abbrev octal_value : Text → Option ℕ
octal_value [] = none
octal_value (c ∷ []) = if c == b'+' then none else octal_digits 0 (c ∷ [])
octal_value (c ∷ d ∷ s) = if c == b'+' then octal_digits 0 (d ∷ s) else octal_digits 0 (c ∷ d ∷ s)

abbrev strip_zeros : Text → Text
strip_zeros [] = []
strip_zeros (c ∷ []) = c ∷ []
strip_zeros (c ∷ d ∷ s) =
    let rest = strip_zeros s in if c == b'0' && d == b'o' then rest else c ∷ d ∷ s

abbrev octal_text : ℕ → Text
octal_text n =
    let digit = λ (k : ℕ). b'0' + n / k % 8 in
    if ltb n 8
    then digit 1 ∷ []
    else if ltb n 64
    then digit 8 ∷ digit 1 ∷ []
    else if ltb n 512
    then digit 64 ∷ digit 8 ∷ digit 1 ∷ []
    else digit 512 ∷ digit 64 ∷ digit 8 ∷ digit 1 ∷ []

abbrev size_option : Text → Result SizeError ℕ → Result MountError Text
size_option options (err e) = err invalid_size
size_option options (ok size) = ok (push_opt options (codes "size") (decimal size))

abbrev mode_option : Text → Option ℕ → Result MountError Text
mode_option options none = err invalid_octal
mode_option options (some mode) =
    if ltb 4095 mode
    then err invalid_octal
    else ok (push_opt options (codes "mode") (octal_text mode))

abbrev key_option : Text → Option (Text × Text) → Result MountError Text
key_option options none = err unsupported_option
key_option options (some (key, value)) =
    if text_eq key (codes "size")
    then size_option options (parse_size value)
    else if text_eq key (codes "mode")
    then mode_option options (octal_value (strip_zeros value))
    else err unsupported_option

-- One option, on the options and the flag so far
abbrev tmpfs_option : Text → Text × Bool → Result MountError (Text × Bool)
tmpfs_option opt (options, readonly) =
    if is_empty opt
    then ok (options, readonly)
    else if text_eq opt (codes "ro")
    then ok (options, true)
    else if text_eq opt (codes "rw")
    then ok (options, false)
    else (key_option options (split_once b'=' opt) >>= λ o. ok (o, readonly))

unfoldable pub tmpfs_options : List Text → Text × Bool → Result MountError (Text × Bool)
tmpfs_options [] state = ok state
tmpfs_options (opt ∷ opts) state = tmpfs_option opt state >>= λ s. tmpfs_options opts s

abbrev tmpfs_parts : Option (Text × Text) → Text → Text × List Text
tmpfs_parts none value = (value, [])
tmpfs_parts (some (path, opts)) value =
    if is_empty opts then (value, []) else (path, split b',' opts)

unfoldable pub parse_tmpfs : Text → Result MountError TmpfsMount
unfolding components tmpfs_options
parse_tmpfs value =
    let (path, opts) = tmpfs_parts (split_once b':' value) value in
    require (starts_with_slash path) not_absolute
    >> require (all is_normal (components path)) not_normal
    >> require (not (text_eq path (codes "/"))) over_root
    >> (tmpfs_options opts ([], false) >>= λ (options, readonly).
        ok (record { target = path; mount_options = options; readonly = readonly; raw = value }))
