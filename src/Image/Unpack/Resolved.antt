-- ===== src/Image/Unpack/Resolved.antt =====
-- The paths that `safe_join` and `safe_join_leaf` of src/image/unpack.rs hand out stay under the
-- rootfs, and no directory on the way to them is a symbolic link.
use mathlib.Core.Path.{subst}
use zerun.Prelude.{
  ℕ, zero, suc, Bool, true, false, ◌≡◌, refl, ap, List, [], ◌∷◌, ◌++◌, Text, Result, ok, err, ◌>>=◌,
  >>=-eq-ok,
}
use zerun.Image.Unpack.{
  FilePath, Component, normal, cur_dir, parent_dir, root_dir, prefix, Entry, absent, other, symlink,
  Fs, WalkError, too_deep, link_target, resolve_component, walk_from, safe_walk, safe_join,
  safe_join_leaf, max_symlink_depth,
}

abbrev pub NotLink : Entry → Type 0
NotLink absent = Unit
NotLink other = Unit
NotLink (symlink target) = ⊥

-- Every name below `root` on the path is no symbolic link.
pub data Resolved (fs : Fs) (root : FilePath) : FilePath → Type 0 where
  at_root : Resolved fs root root
  below :
      {p : FilePath} (c : Text)
      → Resolved fs root p
      → NotLink (fs (c ∷ p))
      → Resolved fs root (c ∷ p)

-- The directory is resolved, and the last name is taken as it is.
pub data ResolvedDir (fs : Fs) (root : FilePath) : FilePath → Type 0 where
  itself : ResolvedDir fs root root
  leaf : {p : FilePath} (c : Text) → Resolved fs root p → ResolvedDir fs root (c ∷ p)

Resolved-ResolvedDir : {fs : Fs} {root p : FilePath} → Resolved fs root p → ResolvedDir fs root p
Resolved-ResolvedDir at_root = itself
Resolved-ResolvedDir (below c r h) = leaf c r

-- A resolved path lies under the root.
pub Resolved-under :
    {fs : Fs} {root p : FilePath} → Resolved fs root p → (s : FilePath) × (p ≡ s ++ root)
Resolved-under at_root = ([], refl)
Resolved-under (below c r h) = let (s, e) = Resolved-under r in (c ∷ s, ap (λ q. c ∷ q) e)

pub ResolvedDir-under :
    {fs : Fs} {root p : FilePath} → ResolvedDir fs root p → (s : FilePath) × (p ≡ s ++ root)
ResolvedDir-under itself = ([], refl)
ResolvedDir-under (leaf c r) = let (s, e) = Resolved-under r in (c ∷ s, ap (λ q. c ∷ q) e)

ok_injective : {p q : FilePath} → ◌≡◌ {A = Result WalkError FilePath} (ok p) (ok q) → p ≡ q
ok_injective h = cc

module _ (fs : Fs) (root : FilePath) where
  resolve_entry :
      (walk : List Component → Result WalkError FilePath) (b : Bool) (c : Text) (p q : FilePath)
      (e : Entry)
      → ((cs : List Component) (t : FilePath) → walk cs ≡ ok t → Resolved fs root t)
      → Resolved fs root p
      → fs (c ∷ p) ≡ e
      → resolve_component fs walk b root (c ∷ p) ≡ ok q
      → Resolved fs root q
  unfolding resolve_component
  resolve_entry walk b c p q absent sound r e h =
      subst (Resolved fs root) (ok_injective (rw (e, resolve_component) at h)) (below c r (rw e tt))
  resolve_entry walk b c p q other sound r e h =
      subst (Resolved fs root) (ok_injective (rw (e, resolve_component) at h)) (below c r (rw e tt))
  resolve_entry walk false c p q (symlink target) sound r e h =
      let h' : ◌≡◌ {A = Result WalkError FilePath} (err too_deep) (ok q) =
        rw (e, resolve_component) at h in
      cc
  resolve_entry walk true c p q (symlink target) sound r e h =
      let h' : (link_target root (c ∷ p) target >>= walk) ≡ ok q = rw (e, resolve_component) at h in
      let (cs, found, rest) = >>=-eq-ok (link_target root (c ∷ p) target) walk h' in sound cs q rest

  -- A step from a resolved directory gives a resolved path.
  abbrev Steps : (FilePath → Result WalkError FilePath) → Type 0
  Steps resolve =
      (c : Text) (d q : FilePath) → Resolved fs root d → resolve (c ∷ d) ≡ ok q → Resolved fs root q

  walk_all :
      (resolve : FilePath → Result WalkError FilePath) (cs : List Component) (cur p : FilePath)
      → Steps resolve
      → Resolved fs root cur
      → walk_from true resolve cur cs ≡ ok p
      → Resolved fs root p
  unfolding walk_from
  walk_all resolve [] cur p step r h = subst (Resolved fs root) (ok_injective h) r
  walk_all resolve (cur_dir ∷ cs) cur p step r h = walk_all resolve cs cur p step r h
  walk_all resolve (parent_dir ∷ cs) cur p step r h = cc
  walk_all resolve (root_dir ∷ cs) cur p step r h = cc
  walk_all resolve (prefix d ∷ cs) cur p step r h = cc
  walk_all resolve (normal c ∷ cs) cur p step r h =
      let (next, found, rest) =
        >>=-eq-ok (resolve (c ∷ cur)) (λ n. walk_from true resolve n cs) h in
      walk_all resolve cs next p step (step c cur next r found) rest

  walk_leaf :
      (resolve : FilePath → Result WalkError FilePath) (cs : List Component) (cur p : FilePath)
      → Steps resolve
      → Resolved fs root cur
      → walk_from false resolve cur cs ≡ ok p
      → ResolvedDir fs root p
  unfolding walk_from
  walk_leaf resolve [] cur p step r h =
      subst (ResolvedDir fs root) (ok_injective h) (Resolved-ResolvedDir r)
  walk_leaf resolve (cur_dir ∷ cs) cur p step r h = walk_leaf resolve cs cur p step r h
  walk_leaf resolve (parent_dir ∷ cs) cur p step r h = cc
  walk_leaf resolve (root_dir ∷ cs) cur p step r h = cc
  walk_leaf resolve (prefix d ∷ cs) cur p step r h = cc
  walk_leaf resolve (normal c ∷ []) cur p step r h =
      subst (ResolvedDir fs root) (ok_injective h) (leaf c r)
  walk_leaf resolve (normal c ∷ d ∷ cs) cur p step r h =
      let (next, found, rest) =
        >>=-eq-ok (resolve (c ∷ cur)) (λ n. walk_from false resolve n (d ∷ cs)) h in
      walk_leaf resolve (d ∷ cs) next p step (step c cur next r found) rest

module _ (real : FilePath → FilePath) (fs : Fs)
    (real_idem : (p : FilePath) → real (real p) ≡ real p) where
  walk_sound :
      (hops : ℕ) (root : FilePath) (rel : List Component) (p : FilePath)
      → safe_walk real fs hops root rel true ≡ ok p
      → Resolved fs (real root) p
  unfolding safe_walk
  walk_sound zero root rel p h =
      walk_all fs (real root) _ rel (real root) p
        (λ c d q r e.
          resolve_entry fs (real root) _ false c d q (fs (c ∷ d)) (λ cs t x. cc) r refl e)
        at_root h
  walk_sound (suc hops) root rel p h =
      walk_all fs (real root) _ rel (real root) p
        (λ c d q r e.
          resolve_entry fs (real root) _ true c d q (fs (c ∷ d))
            (λ cs t x.
              subst (λ o. Resolved fs o t) (real_idem root) (walk_sound hops (real root) cs t x))
            r refl e)
        at_root h

  leaf_sound :
      (hops : ℕ) (root : FilePath) (rel : List Component) (p : FilePath)
      → safe_walk real fs hops root rel false ≡ ok p
      → ResolvedDir fs (real root) p
  unfolding safe_walk
  leaf_sound zero root rel p h =
      walk_leaf fs (real root) _ rel (real root) p
        (λ c d q r e.
          resolve_entry fs (real root) _ false c d q (fs (c ∷ d)) (λ cs t x. cc) r refl e)
        at_root h
  leaf_sound (suc hops) root rel p h =
      walk_leaf fs (real root) _ rel (real root) p
        (λ c d q r e.
          resolve_entry fs (real root) _ true c d q (fs (c ∷ d))
            (λ cs t x.
              subst (λ o. Resolved fs o t) (real_idem root) (walk_sound hops (real root) cs t x))
            r refl e)
        at_root h

  -- A path from `safe_join` lies under the real rootfs, and none of the names below the rootfs on it
  -- is a symbolic link, whatever links the rootfs holds. Canonical paths are assumed to be their own
  -- canonical paths.
  pub safe_join-Resolved :
      (root : FilePath) (rel : List Component) (p : FilePath)
      → safe_join real fs root rel ≡ ok p
      → Resolved fs (real root) p × ((s : FilePath) × (p ≡ s ++ real root))
  unfolding safe_join
  safe_join-Resolved root rel p h =
      let r = walk_sound max_symlink_depth root rel p h in (r, Resolved-under r)

  -- A path from `safe_join_leaf` lies under the real rootfs, and its directory is free of symbolic
  -- links below the rootfs, so only the last name itself may be one.
  pub safe_join_leaf-ResolvedDir :
      (root : FilePath) (rel : List Component) (p : FilePath)
      → safe_join_leaf real fs root rel ≡ ok p
      → ResolvedDir fs (real root) p × ((s : FilePath) × (p ≡ s ++ real root))
  unfolding safe_join_leaf
  safe_join_leaf-ResolvedDir root rel p h =
      let r = leaf_sound max_symlink_depth root rel p h in (r, ResolvedDir-under r)
