-- ===== src/Mounts/Target.antt =====
-- Where src/mounts.rs mounts what an accepted option asks for.
use mathlib.Core.Path.{subst}
use zerun.Prelude.{
  Bool, true, false, List, [], ◌∷◌, Text, ok, err, ◌≡◌, refl, ◌⊎◌, inl, inr, Bool-cases, all, ap,
  ok_injective, >>=-eq-ok, arith, Option, split,
}
use zerun.Image.Unpack.{Component, normal, cur_dir, parent_dir, root_dir, prefix, FilePath}
use zerun.Mounts.{
  symlink_on_target, HostPath, BindMount, components, is_normal, parse_bind, bind_parts,
  is_readonly, check_container, bind_source, safe_target,
}

-- The rootfs, and what is reached from it over names that are no links
pub data Reached (is_link : FilePath → Bool) (rootfs : FilePath) : FilePath → Type 0 where
  start : Reached is_link rootfs rootfs
  down :
      {cur : FilePath} {name : Text}
      → Reached is_link rootfs cur
      → is_link (name ∷ cur) ≡ false
      → Reached is_link rootfs (name ∷ cur)

-- The path below `cur` that the normal components spell
abbrev pub pushed : FilePath → List Component → FilePath
pushed cur [] = cur
pushed cur (normal name ∷ rest) = pushed (name ∷ cur) rest
pushed cur (other ∷ rest) = pushed cur rest

abbrev pub IsBelow : (FilePath → Bool) → FilePath → FilePath → List Component → Type 0
IsBelow is_link rootfs cur parts =
    (safe_target is_link cur parts ≡ err symlink_on_target)
    ⊎ ((safe_target is_link cur parts ≡ ok (pushed cur parts))
        × Reached is_link rootfs (pushed cur parts))

extended :
    (is_link : FilePath → Bool) (rootfs cur : FilePath) (name : Text) (rest : List Component)
    → is_link (name ∷ cur) ≡ false
    → IsBelow is_link rootfs (name ∷ cur) rest
    → IsBelow is_link rootfs cur (normal name ∷ rest)
unfolding safe_target
extended is_link rootfs cur name rest free (inl e) = inl (ground (arith, free, e))
extended is_link rootfs cur name rest free (inr (e, r)) = inr (ground (arith, free, e), r)

walked :
    (is_link : FilePath → Bool) (rootfs cur : FilePath) (parts : List Component)
    → Reached is_link rootfs cur
    → all is_normal parts ≡ true
    → IsBelow is_link rootfs cur parts
unfolding safe_target
walked is_link rootfs cur [] reached plain = inr (refl, reached)
walked is_link rootfs cur (normal name ∷ rest) reached plain =
    elim (Bool-cases (is_link (name ∷ cur))) [
      | inl link ↦ inl (rw link)
      | inr free ↦
          extended is_link rootfs cur name rest free
            (walked is_link rootfs (name ∷ cur) rest (down reached free) plain)
    ]
walked is_link rootfs cur (cur_dir ∷ rest) reached plain = cc
walked is_link rootfs cur (parent_dir ∷ rest) reached plain = cc
walked is_link rootfs cur (root_dir ∷ rest) reached plain = cc
walked is_link rootfs cur (prefix p ∷ rest) reached plain = cc

check_container-normal :
    (container : Text)
    → check_container container ≡ ok tt
    → all is_normal (components container) ≡ true
check_container-normal container given = ground (arith, given)

parse_bind-target :
    (lookup : Text → Option HostPath) (value : Text) {b : BindMount}
    → parse_bind lookup value ≡ ok b
    → all is_normal (components b.target) ≡ true
unfolding parse_bind
parse_bind-target lookup value {b} given =
    let ((host, container, mode), _, h1) = >>=-eq-ok (bind_parts (split b':' value)) _ given in
    let (readonly, _, h2) = >>=-eq-ok (is_readonly mode) _ h1 in
    let (_, checked, h3) = >>=-eq-ok (check_container container) _ h2 in
    let (_, _, h4) = >>=-eq-ok (bind_source lookup host) _ h3 in
    let same : container ≡ b.target = ap (λ (c : BindMount). c.target) (ok_injective h4) in
    subst (λ c. all is_normal (components c) ≡ true) same (check_container-normal container checked)

-- The target of an accepted bind is mounted at the path that its names spell below the rootfs, and none
-- of the names on the way there is a symbolic link; or the mount is refused for such a link. No
-- accepted bind is refused for another reason.
pub parse_bind-Reached :
    (lookup : Text → Option HostPath) (is_link : FilePath → Bool) (rootfs : FilePath) (value : Text)
    (b : BindMount)
    → parse_bind lookup value ≡ ok b
    → IsBelow is_link rootfs rootfs (components b.target)
parse_bind-Reached lookup is_link rootfs value b given =
    walked is_link rootfs rootfs (components b.target) start (parse_bind-target lookup value given)
