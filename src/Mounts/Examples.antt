-- ===== src/Mounts/Examples.antt =====
-- The options of src/mounts.rs on concrete arguments.
use zerun.Prelude.{
  Bool, true, false, Option, none, some, [], ◌∷◌, Text, ok, err, codes, ◌≡◌, refl, text_eq, split,
  split_once, parse_digits, parse_uint, trim, is_whitespace, byte_len, if◌then◌else◌,
}
use zerun.Prelude.Decimal.{decimal, digits_from}
use zerun.Units.{
  parse_size, size_of_parts, malformed, split_fraction, split_size_suffix, split_unit, pop_last,
  drop_byte_suffix, unit_factor, parse_u128, checked_mul_u128, scale_fraction,
}
use zerun.Image.Unpack.{FilePath, path_eq}
use zerun.Mounts.{
  HostPath, BindMount, parse_bind, parse_tmpfs, components, safe_target, tmpfs_options,
  validate_volume_name, over_root, not_normal, too_many_parts, unsupported_option,
  invalid_volume_name, symlink_on_target, host_missing,
}
use zerun.Mounts.Target.{IsBelow, parse_bind-Reached}

abbrev lookup : Text → Option HostPath
lookup path =
    if text_eq path (codes "/etc/app")
    then some (record { source = path; accessible = true; is_file_or_dir = true })
    else none

abbrev rootfs : FilePath
rootfs = codes "rootfs" ∷ []

abbrev is_link : FilePath → Bool
is_link path = path_eq path (codes "tmp" ∷ rootfs)

abbrev config : BindMount
config = record {
  source = codes "/etc/app";
  target = codes "/srv/./conf";
  readonly = true;
  named = none;
  raw = codes "/etc/app:/srv/./conf:ro";
}

config_parsed : parse_bind lookup (codes "/etc/app:/srv/./conf:ro") ≡ ok config
unfolding parse_bind components text_eq split
config_parsed = refl

config_target :
    safe_target is_link rootfs (components (codes "/srv/./conf"))
    ≡ ok (codes "conf" ∷ codes "srv" ∷ rootfs)
unfolding safe_target components text_eq split
config_target = refl

linked_target : safe_target is_link rootfs (components (codes "/tmp/x")) ≡ err symlink_on_target
unfolding safe_target components text_eq split
linked_target = refl

two_dots : parse_bind lookup (codes "data:/srv/..") ≡ err not_normal
unfolding parse_bind components text_eq split
two_dots = refl

colon_path : parse_bind lookup (codes "data:/srv:ro:x") ≡ err too_many_parts
unfolding parse_bind components text_eq split
colon_path = refl

no_host : parse_bind lookup (codes "/etc/none:/srv") ≡ err host_missing
unfolding parse_bind components text_eq split
no_host = refl

bad_volume : parse_bind lookup (codes "a+b:/srv") ≡ err invalid_volume_name
unfolding parse_bind components text_eq split validate_volume_name byte_len
bad_volume = refl

over_slash : parse_bind lookup (codes "/etc/app:/") ≡ err over_root
unfolding parse_bind components text_eq split
over_slash = refl

-- Two slashes are no "/", and name the root all the same.
abbrev over_slashes : BindMount
over_slashes = record {
  source = codes "/etc/app";
  target = codes "//";
  readonly = false;
  named = none;
  raw = codes "/etc/app://";
}

slashes_parsed : parse_bind lookup (codes "/etc/app://") ≡ ok over_slashes
unfolding parse_bind components text_eq split
slashes_parsed = refl

slashes_target : safe_target is_link rootfs (components (codes "//")) ≡ ok rootfs
unfolding safe_target components text_eq split
slashes_target = refl

tmpfs_parsed :
    parse_tmpfs (codes "/tmp:size=2k,mode=0o1777,ro")
    ≡ ok (record {
      target = codes "/tmp";
      mount_options = codes "size=2048,mode=1777";
      readonly = true;
      raw = codes "/tmp:size=2k,mode=0o1777,ro";
    })
unfolding parse_tmpfs components text_eq split tmpfs_options parse_size split_once parse_digits
    decimal digits_from size_of_parts malformed split_fraction trim split_size_suffix split_unit
    pop_last drop_byte_suffix is_whitespace unit_factor byte_len parse_u128 parse_uint
    checked_mul_u128 scale_fraction
tmpfs_parsed = refl

tmpfs_unknown : parse_tmpfs (codes "/tmp:uid=0") ≡ err unsupported_option
unfolding parse_tmpfs components text_eq split tmpfs_options split_once
tmpfs_unknown = refl

parse_bind-Reached_example : IsBelow is_link rootfs rootfs (components config.target)
parse_bind-Reached_example =
    parse_bind-Reached lookup is_link rootfs (codes "/etc/app:/srv/./conf:ro") config config_parsed
