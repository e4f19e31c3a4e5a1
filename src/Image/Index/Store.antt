-- ===== src/Image/Index/Store.antt =====
-- What the operations of src/image/store.rs on `images.json` do to the records that it lists.
use mathlib.Core.Path.{subst}
use zerun.Prelude.{
  ℕ, Bool, Option, none, some, List, [], Text, Result, ok, err, ◌≡◌, refl, arith, find,
  Option-cases, inl, inr, sym, text_eq_iff, if◌then◌else◌, Bool-cases, find_sound,
}
use zerun.Image.Index.{
  ImageRecord, has_key, or_latest, selects, find_record_in, new_record, upsert_record, take_first,
  StoreError, Env, records_of, save_records, under_index, add_index_image, tag_source, tag_record,
  remove_record, remove_from,
}
use zerun.Image.Index.Laws.{
  find-upsert_self, find-upsert_ne, Unique, upsert-Unique, find-take_first, take_first-Unique,
  take_first-gone, take_first-find, option_eq_sound,
}

-- The records that a file lists.
abbrev pub listed :
    {Bytes : Type 0}
    → (Bytes → Option (List ImageRecord))
    → Option Bytes
    → Option (List ImageRecord)
listed decode none = some []
listed decode (some file) = decode file

-- What one more record does to the list.
pub record Added (before after : List ImageRecord) (r : ImageRecord) : Type 0 where
  pub unique : Unique before → Unique after
  pub finds :
      (n : Text) (t : Option Text)
      → find (has_key n t) after ≡ (if has_key n t r then some r else find (has_key n t) before)

finds-upsert :
    (records : List ImageRecord) (r : ImageRecord) (n : Text) (t : Option Text)
    → find (has_key n t) (upsert_record records r)
      ≡ (if has_key n t r then some r else find (has_key n t) records)
finds-upsert records r n t = elim (Bool-cases (has_key n t r)) [
  | inr other ↦ ground (arith, other, find-upsert_ne records r n t other)
  | inl same ↦
      ground
        (arith, same, find-upsert_self records r, text_eq_iff r.name n, option_eq_sound r.tag t)
]

upsert-Added :
    (records : List ImageRecord) (r : ImageRecord) → Added records (upsert_record records r) r
upsert-Added records r = record {
  unique = upsert-Unique records r;
  finds = λ n t. finds-upsert records r n t;
}

read_listed :
    {Bytes : Type 0} (decode : Bytes → Option (List ImageRecord)) (env : Env) (file : Option Bytes)
    (records : List ImageRecord)
    → records_of decode env file ≡ ok records
    → listed decode file ≡ some records
unfolding records_of
read_listed decode env none records h = ground arith
read_listed decode env (some file) records h = ground arith

module _ {Bytes : Type 0} (encode : List ImageRecord → Bytes)
    (decode : Bytes → Option (List ImageRecord))
    (round_trip : (records : List ImageRecord) → decode (encode records) ≡ some records) where
  save_listed :
      {A : Type 0} (env : Env) (file file' : Option Bytes) (records : List ImageRecord)
      (reply a : A)
      → save_records encode env file records reply ≡ (ok a, file')
      → (listed decode file' ≡ some records) × (reply ≡ a)
  unfolding save_records
  save_listed env file file' records reply a h = ground (arith, round_trip records)

  under_index-inv :
      {A : Type 0} (env : Env) (file file' : Option Bytes)
      (body : List ImageRecord → Result StoreError A × Option Bytes) (a : A)
      → under_index encode decode env file body ≡ (ok a, file')
      → (records : List ImageRecord) × (records_of decode env file ≡ ok records)
        × (body records ≡ (ok a, file'))
  under_index-inv env file file' body a h = ground arith

  -- After an image is recorded, its name and tag find the new record, every other name and tag finds
  -- what it found before, and names and tags stay unique. serde_json is assumed to read back what it
  -- wrote.
  pub add_index_image-Added :
      (env : Env) (file file' : Option Bytes) (name : Text) (tag : Option Text)
      (manifest config : Text) (size : ℕ) (index : Option Text)
      → add_index_image encode decode env file name tag manifest config size index ≡ (ok tt, file')
      → (before after : List ImageRecord) × (listed decode file ≡ some before)
        × (listed decode file' ≡ some after)
        × Added before after (new_record env.now name tag manifest config size index)
  unfolding add_index_image
  add_index_image-Added env file file' name tag manifest config size index h =
      let r = new_record env.now name tag manifest config size index in
      let (before, e, run) = under_index-inv env file file' _ tt h in
      let (saved, _) = save_listed env file file' (upsert_record before r) tt tt run in
      (
        before,
        upsert_record before r,
        read_listed decode env file before e,
        saved,
        upsert-Added before r,
      )

  tag_record-inv :
      (env : Env) (file file' : Option Bytes) (sn : Text) (st sd : Option Text) (target_name : Text)
      (target_tag : Option Text) (r : ImageRecord)
      → tag_record encode decode env file sn st sd target_name target_tag ≡ (ok r, file')
      → (before : List ImageRecord) × (source : ImageRecord) × (records_of decode env file
          ≡ ok before)
        × (find_record_in before sn st sd ≡ some source)
        × (tag_source encode decode env file before source target_name target_tag ≡ (ok r, file'))
  unfolding tag_record
  tag_record-inv env file file' sn st sd target_name target_tag r h = ground arith

  -- Tagging gives the target a record with the source's manifest, index, config and size, found under
  -- the target's name and tag; every other name and tag finds what it found before.
  pub tag_record-Added :
      (env : Env) (file file' : Option Bytes) (source_name : Text)
      (source_tag source_digest : Option Text) (target_name : Text) (target_tag : Option Text)
      (r : ImageRecord)
      → tag_record encode decode env file source_name source_tag source_digest target_name
          target_tag
        ≡ (ok r, file')
      → (before after : List ImageRecord) × (source : ImageRecord) × (tag : Text) × (listed decode
            file
          ≡ some before)
        × (listed decode file' ≡ some after)
        × (find_record_in before source_name source_tag source_digest ≡ some source)
        × (target_tag ≡ some tag)
        × (r
            ≡ new_record env.now target_name
                (some tag)
                source.manifest
                source.config
                source.size_bytes
                source.index)
        × Added before after r
  unfolding tag_source
  tag_record-Added env file file' sn st sd target_name none r h =
      let (before, source, e, found, run) =
        tag_record-inv env file file' sn st sd target_name none r h in
      ground arith
  tag_record-Added env file file' sn st sd target_name (some tag) r h =
      let (before, source, e, found, run) =
        tag_record-inv env file file' sn st sd target_name (some tag) r h in
      let r' =
        new_record env.now target_name (some tag) source.manifest source.config source.size_bytes
          source.index in
      let (saved, same) = save_listed env file file' (upsert_record before r') r' r run in
      (
        before,
        upsert_record before r',
        source,
        tag,
        read_listed decode env file before e,
        saved,
        found,
        refl,
        sym same,
        subst (Added before (upsert_record before r')) same (upsert-Added before r'),
      )

  remove_from-inv :
      (env : Env) (file file' : Option Bytes) (p : ImageRecord → Bool) (before : List ImageRecord)
      (r : ImageRecord)
      → remove_from encode decode env file p before ≡ (ok (some r), file')
      → (rest : List ImageRecord) × (take_first p before ≡ some (r, rest))
        × (listed decode file' ≡ some rest)
  unfolding remove_from
  remove_from-inv env file file' p before r h = elim (Option-cases (take_first p before)) [
    | inl nothing ↦ ground arith
    | inr ((r', rest), taken) ↦
        let run : save_records encode env file rest (some r') ≡ (ok (some r), file') =
          ground arith in
        let (saved, same) = save_listed env file file' rest (some r') (some r) run in
        (rest, ground arith, saved)
  ]

  remove_record-inv :
      (env : Env) (file file' : Option Bytes) (name : Text) (tag digest : Option Text)
      (r : ImageRecord)
      → remove_record encode decode env file name tag digest ≡ (ok (some r), file')
      → (before : List ImageRecord) × (records_of decode env file ≡ ok before)
        × (remove_from encode decode env file (selects name tag digest) before
            ≡ (ok (some r), file'))
  unfolding remove_record
  remove_record-inv env file file' name tag digest r h = ground arith

  removed_finds :
      (name : Text) (tag : Option Text) (before after : List ImageRecord) (r : ImageRecord)
      → Unique before
      → take_first (has_key name (some (or_latest tag))) before ≡ some (r, after)
      → find (has_key name (some (or_latest tag))) before ≡ some r
      → (n : Text) (t : Option Text)
      → find (has_key n t) after ≡ (if has_key n t r then none else find (has_key n t) before)
  removed_finds name tag before after r u taken found n t =
      let key = some (or_latest tag) in
      let keyed = find_sound (has_key name key) before r found in
      elim (Bool-cases (has_key n t r)) [
        | inr other ↦
            ground
              (arith, other, find-take_first (has_key name key) (has_key n t) before after r taken)
        | inl same ↦ ground (
          arith,
          same,
          keyed,
          take_first-gone name key before after r u taken,
          text_eq_iff r.name n,
          text_eq_iff r.name name,
          option_eq_sound r.tag t,
          option_eq_sound r.tag key,
        )
      ]

  -- Removing by name and tag, from a file in which names and tags are unique, removes the record that
  -- the lookup finds: its name and tag then find nothing, every other name and tag finds what it found
  -- before, and names and tags stay unique.
  pub remove_record_lem :
      (env : Env) (file file' : Option Bytes) (name : Text) (tag : Option Text) (r : ImageRecord)
      (before : List ImageRecord)
      → listed decode file ≡ some before
      → Unique before
      → remove_record encode decode env file name tag none ≡ (ok (some r), file')
      → (after : List ImageRecord) × (listed decode file' ≡ some after)
        × (find_record_in before name tag none ≡ some r)
        × Unique after
        × ((n : Text) (t : Option Text)
            → find (has_key n t) after
              ≡ (if has_key n t r then none else find (has_key n t) before))
  unfolding find_record_in
  remove_record_lem env file file' name tag r before l u h =
      let p = has_key name (some (or_latest tag)) in
      let (read, e, run) = remove_record-inv env file file' name tag none r h in
      let same : read ≡ before = ground (arith, l, read_listed decode env file read e) in
      let (after, taken', saved) =
        remove_from-inv env file file' (selects name tag none) read r run in
      let taken : take_first p before ≡ some (r, after) =
        subst (λ b. take_first p b ≡ some (r, after)) same taken' in
      let found : find p before ≡ some r = ground (arith, taken, take_first-find p before) in
      (
        after,
        saved,
        found,
        take_first-Unique p before after r u taken,
        removed_finds name tag before after r u taken found,
      )

  -- A failed change of the index leaves the file as it was, whatever failed.
  pub index_change-err :
      (env : Env) (file file' : Option Bytes) (name target : Text) (tag digest index : Option Text)
      (manifest config : Text) (size : ℕ) (e : StoreError)
      → (add_index_image encode decode env file name tag manifest config size index ≡ (err e, file')
          → file' ≡ file)
        × (tag_record encode decode env file name tag digest target index ≡ (err e, file')
            → file' ≡ file)
        × (remove_record encode decode env file name tag digest ≡ (err e, file') → file' ≡ file)
  unfolding add_index_image tag_record tag_source remove_record remove_from save_records
  index_change-err env file file' name target tag digest index manifest config size e =
      (λ h. ground arith, λ h. ground arith, λ h. ground arith)
