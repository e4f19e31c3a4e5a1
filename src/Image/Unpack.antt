-- ===== src/Image/Unpack.antt =====
-- The path resolution of src/image/unpack.rs, which keeps every write of a layer under the rootfs.
-- A path is the list of its names, innermost first, so `join` is `∷` and `parent` is the tail.
use mathlib.Core.List.{reverse}
use mathlib.Core.Option
use zerun.Prelude.{
  ℕ, zero, suc, Bool, true, false, ◌&&◌, Option, none, some, List, [], ◌∷◌, ◌++◌, map, Text, Result,
  ok, err, ok_or, ◌>>=◌, if◌then◌else◌, text_eq, is_empty,
}
pub mod Resolved
mod Examples

abbrev pub FilePath : Type 0
FilePath = List Text

-- `std::path::Component`
pub data Component : Type 0 where
  normal : Text → Component
  cur_dir parent_dir root_dir : Component
  prefix : Text → Component

-- What `symlink_metadata` and `read_link` say of a path. A link that cannot be read has no target.
pub data Entry : Type 0 where
  absent : Entry
  other : Entry
  symlink : Option (List Component) → Entry

abbrev pub Fs : Type 0
Fs = FilePath → Entry

pub data WalkError : Type 0 where
  too_deep unsafe_component unreadable_link escapes base_outside resolves_outside : WalkError

abbrev pub path_eq : FilePath → FilePath → Bool
path_eq [] [] = true
path_eq [] (d ∷ q) = false
path_eq (c ∷ p) [] = false
path_eq (c ∷ p) (d ∷ q) = text_eq c d && path_eq p q

-- `p.strip_prefix(root)`
pub strip_root : FilePath → FilePath → Option FilePath
strip_root root [] = if path_eq [] root then some [] else none
strip_root root (c ∷ p) =
    let rest : Option FilePath = Option.map (λ s. c ∷ s) (strip_root root p) in
    if path_eq (c ∷ p) root then some [] else rest

-- The loop over the components of a link's target, on the stack of names.
pub push_all : List Text → List Component → Result WalkError (List Text)
push_all stack [] = ok stack
push_all stack (root_dir ∷ cs) = push_all [] cs
push_all stack (prefix d ∷ cs) = push_all [] cs
push_all stack (cur_dir ∷ cs) = push_all stack cs
push_all [] (parent_dir ∷ cs) = err escapes
push_all (s ∷ stack) (parent_dir ∷ cs) = push_all stack cs
push_all stack (normal c ∷ cs) = push_all (c ∷ stack) cs

-- The names of `base` below `root` make the first stack; they are all `Normal`.
pub normalize_under : FilePath → FilePath → List Component → Result WalkError FilePath
normalize_under root base target = elim (strip_root root base) [
  | none ↦ err base_outside
  | some stack ↦ (push_all stack target >>= λ out. ok (out ++ root))
]

-- `target.is_absolute()`
abbrev pub is_absolute : List Component → Bool
is_absolute (root_dir ∷ cs) = true
is_absolute _ = false

-- `path.parent().unwrap_or(root)`
abbrev pub parent_or : FilePath → FilePath → FilePath
parent_or root [] = root
parent_or root (c ∷ p) = p

-- The relative path, outermost name first, that a stripped path stands for.
abbrev pub components : FilePath → List Component
components p = map normal (reverse p)

-- Where a link leads, as a path below the root and outermost name first.
pub link_target : FilePath → FilePath → Option (List Component) → Result WalkError (List Component)
link_target root path none = err unreadable_link
link_target root path (some target) = do
  joined ← normalize_under root (if is_absolute target then root else parent_or root path) target
  rel ← ok_or (strip_root root joined) resolves_outside
  ok (components rel)

-- `resolve_component`, given the walk that it makes from a link's target and whether hops are left.
pub resolve_component :
    Fs
    → (List Component → Result WalkError FilePath)
    → Bool
    → FilePath
    → FilePath
    → Result WalkError FilePath
resolve_component fs walk can_follow root path = elim (fs path) [
  | absent ↦ ok path
  | other ↦ ok path
  | symlink target ↦ if can_follow then (link_target root path target >>= walk) else err too_deep
]

-- The loop of `safe_walk` over the components that are left; `resolve_last` stands first.
pub walk_from :
    Bool
    → (FilePath → Result WalkError FilePath)
    → FilePath
    → List Component
    → Result WalkError FilePath
walk_from resolve_last resolve cur [] = ok cur
walk_from resolve_last resolve cur (cur_dir ∷ cs) = walk_from resolve_last resolve cur cs
walk_from resolve_last resolve cur (parent_dir ∷ cs) = err unsafe_component
walk_from resolve_last resolve cur (root_dir ∷ cs) = err unsafe_component
walk_from resolve_last resolve cur (prefix d ∷ cs) = err unsafe_component
walk_from true resolve cur (normal c ∷ cs) = do
  next ← resolve (c ∷ cur)
  walk_from true resolve next cs
walk_from false resolve cur (normal c ∷ []) = ok (c ∷ cur)
walk_from false resolve cur (normal c ∷ d ∷ cs) = do
  next ← resolve (c ∷ cur)
  walk_from false resolve next (d ∷ cs)

abbrev pub max_symlink_depth : ℕ
max_symlink_depth = 64

-- `real` is `fs::canonicalize`, or the path itself where that fails. `hops` is what is left of
-- `MAX_SYMLINK_DEPTH`, so `depth` is `64 - hops`, and the test `depth > 64` never holds.
module _ (real : FilePath → FilePath) (fs : Fs) where
  pub safe_walk : ℕ → FilePath → List Component → Bool → Result WalkError FilePath
  safe_walk zero root rel resolve_last =
      walk_from resolve_last (resolve_component fs (λ cs. err too_deep) false (real root))
        (real root) rel
  safe_walk (suc hops) root rel resolve_last =
      walk_from resolve_last
        (resolve_component fs (λ cs. safe_walk hops (real root) cs true) true (real root))
        (real root) rel

  pub safe_join : FilePath → List Component → Result WalkError FilePath
  safe_join root rel = safe_walk max_symlink_depth root rel true

  pub safe_join_leaf : FilePath → List Component → Result WalkError FilePath
  safe_join_leaf root rel = safe_walk max_symlink_depth root rel false

-- `sanitize_rel_path`: the names of a tar path, or nothing for a path that is absolute, climbs, or is
-- empty.
pub sanitize_onto : FilePath → List Component → Option FilePath
sanitize_onto out [] = some out
sanitize_onto out (normal c ∷ cs) = sanitize_onto (c ∷ out) cs
sanitize_onto out (cur_dir ∷ cs) = sanitize_onto out cs
sanitize_onto out (parent_dir ∷ cs) = none
sanitize_onto out (root_dir ∷ cs) = none
sanitize_onto out (prefix d ∷ cs) = none

pub sanitize_rel_path : List Component → Option FilePath
unfolding sanitize_onto
sanitize_rel_path p = elim (sanitize_onto [] p) [
  | none ↦ none
  | some [] ↦ none
  | some (c ∷ out) ↦ some (c ∷ out)
]
