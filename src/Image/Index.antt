-- ===== src/Image/Index.antt =====
-- The local image index of src/image/store.rs: the records that tags and digests find, and the
-- read-modify-write operations on `images.json`.
use mathlib.Core.Option
use zerun.Prelude.{
  ℕ, Bool, true, false, ◌&&◌, ◌||◌, not, Option, none, some, List, [], ◌∷◌, ◌++◌, Text, Result, ok,
  err, ok_or, ◌>>=◌, if◌then◌else◌, text_eq, codes, find, retain,
}
pub mod Laws
pub mod Store
mod Examples

pub record ImageRecord : Type 0 where
  pub name : Text
  pub tag : Option Text
  pub manifest : Text
  pub index : Option Text
  pub config : Text
  pub size_bytes : ℕ
  pub created_at : ℕ

-- `a == b` on optional texts
abbrev pub option_eq : Option Text → Option Text → Bool
option_eq none none = true
option_eq none (some b) = false
option_eq (some a) none = false
option_eq (some a) (some b) = text_eq a b

-- The record that a digest pins: its manifest, or the index that it came from.
abbrev pub has_digest : Text → ImageRecord → Bool
has_digest digest r = text_eq r.manifest digest || option_eq r.index (some digest)

abbrev pub has_key : Text → Option Text → ImageRecord → Bool
has_key name tag r = text_eq r.name name && option_eq r.tag tag

-- `tag.unwrap_or("latest")`
abbrev pub or_latest : Option Text → Text
or_latest none = codes "latest"
or_latest (some t) = t

-- What a reference is looked up by.
abbrev pub selects : Text → Option Text → Option Text → ImageRecord → Bool
selects name tag (some digest) = has_digest digest
selects name tag none = has_key name (some (or_latest tag))

pub find_record_in : List ImageRecord → Text → Option Text → Option Text → Option ImageRecord
find_record_in records name tag digest = find (selects name tag digest) records

pub new_record : ℕ → Text → Option Text → Text → Text → ℕ → Option Text → ImageRecord
new_record now name tag manifest config size index = record {
  name = name;
  tag = tag;
  manifest = manifest;
  index = index;
  config = config;
  size_bytes = size;
  created_at = now;
}

-- `retain` drops what has the same name and tag; the new record goes to the end.
pub upsert_record : List ImageRecord → ImageRecord → List ImageRecord
upsert_record records r = retain (λ x. not (has_key r.name r.tag x)) records ++ r ∷ []

-- `position` and `remove`: the first record that passes, and the others.
abbrev pub keep_first :
    ImageRecord → Option (ImageRecord × List ImageRecord) → Option (ImageRecord × List ImageRecord)
keep_first x none = none
keep_first x (some (r, rest)) = some (r, x ∷ rest)

pub take_first : (ImageRecord → Bool) → List ImageRecord → Option (ImageRecord × List ImageRecord)
take_first p [] = none
take_first p (x ∷ xs) =
    let later = keep_first x (take_first p xs) in if p x then some (x, xs) else later

pub data StoreError : Type 0 where
  operation_lock_failed index_lock_failed read_failed parse_failed write_failed no_such_image
        target_is_digest :
      StoreError

-- What the locks and the file system do during one call.
pub record Env : Type 0 where
  pub operation_lock : Bool
  pub index_lock : Bool
  pub readable : Bool
  pub writable : Bool
  pub now : ℕ

pub records_of :
    {Bytes : Type 0}
    → (Bytes → Option (List ImageRecord))
    → Env
    → Option Bytes
    → Result StoreError (List ImageRecord)
records_of decode env none = ok []
records_of decode env (some file) =
    if env.readable then ok_or (decode file) parse_failed else err read_failed

pub save_records :
    {Bytes A : Type 0}
    → (List ImageRecord → Bytes)
    → Env
    → Option Bytes
    → List ImageRecord
    → A
    → Result StoreError A × Option Bytes
save_records encode env file records reply =
    if env.writable then (ok reply, some (encode records)) else (err write_failed, file)

-- `images.json` is missing or holds bytes; `encode` and `decode` are serde_json's.
module _ {Bytes : Type 0} (encode : List ImageRecord → Bytes)
    (decode : Bytes → Option (List ImageRecord)) where
  -- A section that reads the records under the index lock.
  abbrev pub under_index :
      {A : Type 0}
      → Env
      → Option Bytes
      → (List ImageRecord → Result StoreError A × Option Bytes)
      → Result StoreError A × Option Bytes
  under_index env file body =
      if env.index_lock
      then elim (records_of decode env file) [ err e ↦ (err e, file) | ok records ↦ body records ]
      else (err index_lock_failed, file)

  pub add_index_image :
      Env
      → Option Bytes
      → Text
      → Option Text
      → Text
      → Text
      → ℕ
      → Option Text
      → Result StoreError (Unit {0}) × Option Bytes
  add_index_image env file name tag manifest config size index = under_index env file (λ records.
      save_records encode env file
        (upsert_record records (new_record env.now name tag manifest config size index)) tt)

  pub find_record :
      Env → Option Bytes → Text → Option Text → Option Text → Result StoreError (Option ImageRecord)
  find_record env file name tag digest = do
    records ← records_of decode env file
    ok (find_record_in records name tag digest)

  pub tag_source :
      Env
      → Option Bytes
      → List ImageRecord
      → ImageRecord
      → Text
      → Option Text
      → Result StoreError ImageRecord × Option Bytes
  tag_source env file records source target_name none = (err target_is_digest, file)
  tag_source env file records source target_name (some tag) =
      let r : ImageRecord =
        new_record env.now target_name (some tag) source.manifest source.config source.size_bytes
          source.index in
      save_records encode env file (upsert_record records r) r

  pub tag_record :
      Env
      → Option Bytes
      → Text
      → Option Text
      → Option Text
      → Text
      → Option Text
      → Result StoreError ImageRecord × Option Bytes
  tag_record env file source_name source_tag source_digest target_name target_tag =
      if env.operation_lock
      then under_index env file (λ records.
        elim (find_record_in records source_name source_tag source_digest) [
          | none ↦ (err no_such_image, file)
          | some source ↦ tag_source env file records source target_name target_tag
        ])
      else (err operation_lock_failed, file)

  pub remove_from :
      Env
      → Option Bytes
      → (ImageRecord → Bool)
      → List ImageRecord
      → Result StoreError (Option ImageRecord) × Option Bytes
  remove_from env file p records = elim (take_first p records) [
    | none ↦ (ok none, file)
    | some (r, rest) ↦ save_records encode env file rest (some r)
  ]

  pub remove_record :
      Env
      → Option Bytes
      → Text
      → Option Text
      → Option Text
      → Result StoreError (Option ImageRecord) × Option Bytes
  remove_record env file name tag digest =
      if env.operation_lock
      then under_index env file (remove_from env file (selects name tag digest))
      else (err operation_lock_failed, file)
