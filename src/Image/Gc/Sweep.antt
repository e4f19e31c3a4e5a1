-- ===== src/Image/Gc/Sweep.antt =====
-- What the two sweeps of `gc_with_protected_from` in src/image/store.rs leave.
use zerun.Prelude.{
  ℕ, suc, Bool, true, false, ◌&&◌, ◌||◌, not, Option, some, List, [], ◌∷◌, ◌++◌, Text, ◌≡◌, ◌≢◌,
  ◌⊎◌, refl, arith, text_eq, text_eq_refl, text_eq_iff, any, codes, Bool-cases, inl, inr, retain,
  sym,
}
use mathlib.Core.Path.{subst}
use zerun.Image.Index.{ImageRecord}
use zerun.Image.Gc.{
  ImageDoc, member, blob_survives, sweep_blobs, temporary, Lease, free, leased, lock_failed,
  Verdict, keep_entry, remove_entry, abort, judge_rootfs, sweep_rootfs, keep_rootfs, is_config_hex,
  Disk, resists, Dirs, gc,
}
use zerun.Image.Gc.Marks.{names_digest, mark_records_exact}

member-retain :
    (p : Text → Bool) (name : Text) (names : List Text)
    → member name (retain p names) ≡ (member name names && p name)
member-retain p name [] = refl
member-retain p name (x ∷ xs) = elim (Bool-cases (text_eq x name)) [
  | inl same ↦
      let at_x =
        subst (λ y. member y (retain p (x ∷ xs)) ≡ (member y (x ∷ xs) && p y))
          ((text_eq_iff x name).0 same) in
      at_x (elim (Bool-cases (p x)) [
        | inl kept ↦ ground (arith, text_eq_refl x)
        | inr dropped ↦ ground (arith, text_eq_refl x, member-retain p x xs)
      ])
  | inr other ↦ ground (arith, member-retain p name xs)
]

module _ (read : Text → Option ImageDoc) (fuel : ℕ) (records : List ImageRecord)
    (blob_disk rootfs_disk : Disk) (protected : Text → Bool) (lease : Text → Lease)
    (blobs rootfs : List Text) where
  -- A collection ends with any positive fuel, and a blob is left exactly when it was stored and is needed or
  -- resists: it is needed when its name does not start with `.tmp-` and its digest is the manifest, index
  -- or config digest of a record, and it resists when the directory does not list it or its removal fails.
  pub gc_blobs :
      (dirs : Dirs) × (gc read (suc fuel) records blob_disk rootfs_disk protected lease blobs rootfs
        ≡ some dirs)
      × ((name : Text)
          → member name dirs.blobs ≡ (
              member name blobs
              && ((not (temporary name) && any (names_digest (codes "sha256:" ++ name)) records)
                  || resists blob_disk name)))
  unfolding gc sweep_blobs blob_survives
  gc_blobs =
      let (marks, e, exact) = mark_records_exact read fuel records [] in
      let swept = sweep_rootfs rootfs_disk (keep_rootfs records) protected lease rootfs in
      (
        record { blobs = sweep_blobs blob_disk marks blobs; rootfs = swept.0; failed = swept.1 },
        ground (arith, e),
        λ name. ground (
          arith,
          member-retain (λ n. blob_survives marks n || resists blob_disk n) name blobs,
          exact (codes "sha256:" ++ name),
        ),
      )

-- A rootfs that the records, a container or a running unpack needs.
abbrev pub needed : List ImageRecord → (Text → Bool) → (Text → Lease) → Text → Bool
needed records protected lease name =
    temporary name
    || (protected name
        || (member name (keep_rootfs records)
            || (is_config_hex name
                && elim (lease name) [ free ↦ false | leased ↦ true | lock_failed ↦ true ])))

Verdict-cases : (v : Verdict) → (v ≡ keep_entry) ⊎ ((v ≡ remove_entry) ⊎ (v ≡ abort))
Verdict-cases keep_entry = inl refl
Verdict-cases remove_entry = inr (inl refl)
Verdict-cases abort = inr (inr refl)

module _ (records : List ImageRecord) (disk : Disk) (protected : Text → Bool)
    (lease : Text → Lease) where
  judge_needed :
      (name : Text)
      → needed records protected lease name ≡ true
      → judge_rootfs (keep_rootfs records) protected lease name ≢ remove_entry
  unfolding judge_rootfs
  judge_needed name h r = go (lease name) refl
    where
      go : (l : Lease) → lease name ≡ l → ⊥
      go free e = ground arith
      go leased e = ground arith
      go lock_failed e = ground arith

  -- Every rootfs that is needed survives the sweep, whether or not the sweep fails on the way, and
  -- whatever the file system lists and removes.
  pub sweep_rootfs-needed :
      (names : List Text) (name : Text)
      → member name names ≡ true
      → needed records protected lease name ≡ true
      → member name (sweep_rootfs disk (keep_rootfs records) protected lease names).0 ≡ true
  unfolding sweep_rootfs
  sweep_rootfs-needed [] name m n = cc
  sweep_rootfs-needed (x ∷ xs) name m n = elim (Bool-cases (disk.lists x)) [
    | inr unlisted ↦ ground (arith, unlisted, sweep_rootfs-needed xs name)
    | inl listed ↦ elim (Verdict-cases (judge_rootfs (keep_rootfs records) protected lease x)) [
      | inl e ↦ ground (arith, listed, e, sweep_rootfs-needed xs name)
      | inr (inl e) ↦ elim (Bool-cases (text_eq x name)) [
        | inl same ↦ absurd (judge_needed x (needed_at same) e)
        | inr other ↦ ground (arith, listed, e, sweep_rootfs-needed xs name)
      ]
      | inr (inr e) ↦ ground (arith, listed, e)
    ]
  ]
    where
      needed_at : text_eq x name ≡ true → needed records protected lease x ≡ true
      needed_at same =
          subst (λ y. needed records protected lease y ≡ true) (sym ((text_eq_iff x name).0 same)) n
