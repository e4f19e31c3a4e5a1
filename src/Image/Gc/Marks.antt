-- ===== src/Image/Gc/Marks.antt =====
-- What the marking of src/image/store.rs keeps, and that it ends.
use zerun.Prelude.{
  ℕ, suc, Bool, true, false, ◌||◌, Option, none, some, List, [], ◌∷◌, Text, ◌≡◌, refl, arith,
  text_eq, text_eq_refl, any,
}
use zerun.Image.Index.{ImageRecord}
use zerun.Image.Gc.{
  ImageDoc, member, keep_manifest_tree, keep_optional_tree, insert_optional, mark_record,
  mark_records,
}

-- The digests that a record names itself.
abbrev pub names_digest : Text → ImageRecord → Bool
names_digest d r =
    text_eq r.manifest d
    || (elim r.index [ none ↦ false | some i ↦ text_eq i d ] || text_eq r.config d)

abbrev pub roots : ImageRecord → List Text → List Text
roots r keep = r.config ∷ insert_optional r.index (r.manifest ∷ keep)

module _ (read : Text → Option ImageDoc) where
  -- A digest that is marked already is not traversed.
  visit_marked :
      (fuel : ℕ) (d : Text) (keep : List Text)
      → member d keep ≡ true
      → keep_manifest_tree read (suc fuel) d keep ≡ some keep
  unfolding keep_manifest_tree
  visit_marked fuel d keep h = ground arith

  optional_marked :
      (fuel : ℕ) (o : Option Text) (c m : Text) (keep : List Text)
      → keep_optional_tree read (suc fuel) o (c ∷ insert_optional o (m ∷ keep))
        ≡ some (c ∷ insert_optional o (m ∷ keep))
  optional_marked fuel none c m keep = refl
  optional_marked fuel (some i) c m keep =
      visit_marked fuel i (c ∷ i ∷ m ∷ keep) (ground (arith, text_eq_refl i))

  manifest_marked : (r : ImageRecord) (keep : List Text) → member r.manifest (roots r keep) ≡ true
  manifest_marked r keep = go r.index
    where
      go :
          (o : Option Text)
          → member r.manifest (r.config ∷ insert_optional o (r.manifest ∷ keep)) ≡ true
      go none = ground (arith, text_eq_refl r.manifest)
      go (some i) = ground (arith, text_eq_refl r.manifest)

  -- One round marks the record's own digests: they are inserted before the traversal, which then finds
  -- both of its roots marked.
  mark_record-roots :
      (fuel : ℕ) (r : ImageRecord) (keep : List Text)
      → mark_record read (suc fuel) r keep ≡ some (roots r keep)
  unfolding mark_record
  mark_record-roots fuel r keep = ground (
    arith,
    optional_marked fuel r.index r.config r.manifest keep,
    visit_marked fuel r.manifest (roots r keep) (manifest_marked r keep),
  )

  member-roots :
      (d : Text) (r : ImageRecord) (keep : List Text)
      → member d (roots r keep) ≡ (names_digest d r || member d keep)
  member-roots d r keep = ground arith

  -- The marking ends with any positive fuel, and marks exactly the manifest, index and config digests that the
  -- records name: no layer is marked unless a record names its digest.
  pub mark_records_exact :
      (fuel : ℕ) (records : List ImageRecord) (keep : List Text)
      → (marks : List Text) × (mark_records read (suc fuel) records keep ≡ some marks)
        × ((d : Text) → member d marks ≡ (any (names_digest d) records || member d keep))
  unfolding mark_records
  mark_records_exact fuel [] keep = (keep, refl, λ d. refl)
  mark_records_exact fuel (r ∷ rs) keep =
      let (marks, e, exact) = mark_records_exact fuel rs (roots r keep) in
      (
        marks,
        ground (arith, mark_record-roots fuel r keep),
        λ d. ground (arith, exact d, member-roots d r keep),
      )
