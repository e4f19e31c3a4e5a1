-- ===== src/Image/Unpack/Examples.antt =====
-- Runs of src/image/unpack.rs over a rootfs with a link inside it and a link that climbs out.
use zerun.Prelude.{
  ◌≡◌, refl, some, List, [], ◌∷◌, ◌++◌, ok, err, codes, text_eq, if◌then◌else◌, none,
}
use zerun.Image.Unpack.{
  FilePath, Component, normal, parent_dir, root_dir, other, symlink, Fs, path_eq, strip_root,
  push_all, normalize_under, link_target, resolve_component, walk_from, safe_walk, safe_join,
  safe_join_leaf, escapes, too_deep, sanitize_rel_path, sanitize_onto, cur_dir,
}
use zerun.Image.Unpack.Resolved.{Resolved, safe_join-Resolved}

abbrev rootfs : FilePath
rootfs = codes "r" ∷ []

-- `/r/lib -> /usr`, `/r/out -> ../../etc` and `/r/loop -> loop`
abbrev tree : Fs
tree path =
    if path_eq path (codes "lib" ∷ rootfs)
    then symlink (some (root_dir ∷ normal (codes "usr") ∷ []))
    else if path_eq path (codes "out" ∷ rootfs)
    then symlink (some (parent_dir ∷ parent_dir ∷ normal (codes "etc") ∷ []))
    else if path_eq path (codes "loop" ∷ rootfs)
    then symlink (some (normal (codes "loop") ∷ []))
    else other

abbrev in_lib : List Component
in_lib = normal (codes "lib") ∷ normal (codes "a.so") ∷ []

through_link : safe_join (λ p. p) tree rootfs in_lib ≡ ok (codes "a.so" ∷ codes "usr" ∷ rootfs)
unfolding safe_join safe_walk walk_from resolve_component link_target normalize_under strip_root
    push_all text_eq
through_link = refl

climbing : safe_join (λ p. p) tree rootfs (normal (codes "out") ∷ []) ≡ err escapes
unfolding safe_join safe_walk walk_from resolve_component link_target normalize_under strip_root
    push_all text_eq
climbing = refl

looping : safe_join (λ p. p) tree rootfs (normal (codes "loop") ∷ []) ≡ err too_deep
unfolding safe_join safe_walk walk_from resolve_component link_target normalize_under strip_root
    push_all text_eq
looping = refl

-- The last name of a leaf is not followed.
literal_leaf :
    safe_join_leaf (λ p. p) tree rootfs (normal (codes "out") ∷ []) ≡ ok (codes "out" ∷ rootfs)
unfolding safe_join_leaf safe_walk walk_from
literal_leaf = refl

safe_join-Resolved_example :
    Resolved tree rootfs (codes "a.so" ∷ codes "usr" ∷ rootfs)
    × ((s : FilePath) × (codes "a.so" ∷ codes "usr" ∷ rootfs ≡ s ++ rootfs))
safe_join-Resolved_example =
    safe_join-Resolved (λ p. p) tree (λ p. refl) rootfs in_lib _ through_link

sanitized :
    sanitize_rel_path (cur_dir ∷ normal (codes "usr") ∷ normal (codes "a") ∷ [])
    ≡ some (codes "a" ∷ codes "usr" ∷ [])
unfolding sanitize_rel_path sanitize_onto
sanitized = refl

sanitize_climbing : sanitize_rel_path (normal (codes "usr") ∷ parent_dir ∷ []) ≡ none
unfolding sanitize_rel_path sanitize_onto
sanitize_climbing = refl
