-- ===== src/Image/Gc.antt =====
-- The garbage collection of src/image/store.rs: the marking of blobs and rootfs directories from the
-- records, and the two sweeps.
use zerun.Prelude.{
  ℕ, zero, suc, ◌+◌, Bool, true, false, ◌&&◌, ◌||◌, not, Option, none, some, List, [], ◌∷◌, ◌++◌,
  Text, if◌then◌else◌, text_eq, codes, retain, strip_prefix, starts_with, byte_len, is_hexdigit,
  all, ◌==◌, length,
}
use zerun.Image.Index.{ImageRecord}
pub mod Marks
pub mod Sweep
mod Examples

-- What `classify` makes of a stored blob: a manifest with its config and layers, or an index.
pub data ImageDoc : Type 0 where
  manifest_doc : Text → List Text → ImageDoc
  index_doc : List Text → ImageDoc

-- A `BTreeSet<String>` read through membership; inserting says whether the text is new.
abbrev pub member : Text → List Text → Bool
member d [] = false
member d (x ∷ xs) = if text_eq x d then true else member d xs

abbrev pub insert_all : List Text → List Text → List Text
insert_all [] keep = keep
insert_all (d ∷ ds) keep = insert_all ds (d ∷ keep)

abbrev pub insert_optional : Option Text → List Text → List Text
insert_optional none keep = keep
insert_optional (some d) keep = d ∷ keep

abbrev pub bind {ℓ} : {A : Type ℓ} → Option A → (A → Option A) → Option A
bind none f = none
bind (some a) f = f a

pub keep_children :
    (Text → List Text → Option (List Text)) → List Text → List Text → Option (List Text)
keep_children visit [] keep = some keep
keep_children visit (c ∷ cs) keep = bind (visit c keep) (keep_children visit cs)

-- `read` is `read_blob` and `classify`; a blob that is missing or is neither gives nothing. The call
-- depth is bounded by `fuel`, and `none` says that it was not enough.
module _ (read : Text → Option ImageDoc) where
  pub keep_manifest_tree : ℕ → Text → List Text → Option (List Text)
  keep_manifest_tree zero digest keep = none
  keep_manifest_tree (suc fuel) digest keep =
      if member digest keep then some keep else elim (read digest) [
        | none ↦ some (digest ∷ keep)
        | some (manifest_doc config layers) ↦ some (insert_all layers (config ∷ digest ∷ keep))
        | some (index_doc children) ↦
            keep_children (keep_manifest_tree fuel) children (digest ∷ keep)
      ]

  abbrev pub keep_optional_tree : ℕ → Option Text → List Text → Option (List Text)
  keep_optional_tree fuel none keep = some keep
  keep_optional_tree fuel (some index) keep = keep_manifest_tree fuel index keep

  -- One round of the marking loop.
  pub mark_record : ℕ → ImageRecord → List Text → Option (List Text)
  mark_record fuel r keep =
      let roots = r.config ∷ insert_optional r.index (r.manifest ∷ keep) in
      bind (keep_optional_tree fuel r.index roots) (keep_manifest_tree fuel r.manifest)

  pub mark_records : ℕ → List ImageRecord → List Text → Option (List Text)
  mark_records fuel [] keep = some keep
  mark_records fuel (r ∷ rs) keep = bind (mark_record fuel r keep) (mark_records fuel rs)

-- `digest_hex`
unfoldable pub digest_hex : Text → Option Text
digest_hex digest = elim (strip_prefix (codes "sha256:") digest) [
  | none ↦ none
  | some hex ↦ if byte_len hex == 64 && all is_hexdigit hex then some hex else none
]

pub keep_rootfs : List ImageRecord → List Text
keep_rootfs [] = []
keep_rootfs (r ∷ rs) =
    let rest = keep_rootfs rs in elim (digest_hex r.config) [ none ↦ rest | some hex ↦ hex ∷ rest ]

abbrev pub temporary : Text → Bool
temporary name = starts_with (codes ".tmp-") name

-- The names that a sweep of `blobs/sha256` leaves.
pub blob_survives : List Text → Text → Bool
blob_survives keep name = not (temporary name) && member (codes "sha256:" ++ name) keep

-- What the file system does during a sweep: whether `read_dir` gives the entry, which is not so for any
-- where it fails, and whether a removal takes the entry away.
pub record Disk : Type 0 where
  pub lists : Text → Bool
  pub removes : Text → Bool

-- An entry that is to be removed and stays.
abbrev pub resists : Disk → Text → Bool
resists disk name = not (disk.lists name && disk.removes name)

pub sweep_blobs : Disk → List Text → List Text → List Text
sweep_blobs disk keep names = retain (λ n. blob_survives keep n || resists disk n) names

abbrev pub is_config_hex : Text → Bool
is_config_hex name = byte_len name == 64 && all is_hexdigit name

-- What `try_lock_rootfs_for_gc` finds: the rootfs is free, leased by a container, or the lock failed.
pub data Lease : Type 0 where
  free leased lock_failed : Lease

-- What the sweep of `rootfs` does with one entry; an error ends the sweep.
pub data Verdict : Type 0 where
  keep_entry remove_entry abort : Verdict

pub judge_rootfs : List Text → (Text → Bool) → (Text → Lease) → Text → Verdict
judge_rootfs keep protected lease name =
    let by_config = if member name keep then keep_entry else remove_entry in
    if temporary name || protected name
    then keep_entry
    else if is_config_hex name
    then elim (lease name) [ free ↦ by_config | leased ↦ keep_entry | lock_failed ↦ abort ]
    else by_config

-- The names that are left, and whether the sweep failed. A removal that fails is ignored.
pub sweep_rootfs : Disk → List Text → (Text → Bool) → (Text → Lease) → List Text → List Text × Bool
sweep_rootfs disk keep protected lease [] = ([], false)
sweep_rootfs disk keep protected lease (name ∷ names) =
    let (rest, failed) = sweep_rootfs disk keep protected lease names in
    let verdict = judge_rootfs keep protected lease name in
    if not (disk.lists name) then (name ∷ rest, failed) else elim verdict [
      | keep_entry ↦ (name ∷ rest, failed)
      | remove_entry ↦ ((if disk.removes name then rest else name ∷ rest), failed)
      | abort ↦ (name ∷ names, true)
    ]

pub record Dirs : Type 0 where
  pub blobs : List Text
  pub rootfs : List Text
  pub failed : Bool

-- `gc_with_protected_from`, once the locks are held and the records are read.
pub gc :
    (Text → Option ImageDoc)
    → ℕ
    → List ImageRecord
    → Disk
    → Disk
    → (Text → Bool)
    → (Text → Lease)
    → List Text
    → List Text
    → Option Dirs
gc read fuel records blob_disk rootfs_disk protected lease blobs rootfs =
    elim (mark_records read fuel records []) [
      | none ↦ none
      | some keep ↦
          let (rest, failed) =
            sweep_rootfs rootfs_disk (keep_rootfs records) protected lease rootfs in
          some (record { blobs = sweep_blobs blob_disk keep blobs; rootfs = rest; failed = failed })
    ]
