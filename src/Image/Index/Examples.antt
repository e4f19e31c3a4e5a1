-- ===== src/Image/Index/Examples.antt =====
-- Runs of the index operations of src/image/store.rs. The file is its own decoding.
use zerun.Prelude.{
  true, Option, none, some, List, [], ◌∷◌, Text, ok, ◌≡◌, refl, codes, find, text_eq, if◌then◌else◌,
}
use zerun.Image.Index.{
  ImageRecord, has_key, find_record_in, new_record, upsert_record, take_first, Env, records_of,
  save_records, add_index_image, tag_source, tag_record, remove_from, remove_record, find_record,
}
use zerun.Image.Index.Laws.{Unique}
use zerun.Image.Index.Store.{listed, Added, add_index_image-Added, remove_record_lem}

abbrev fine : Env
fine = record {
  operation_lock = true;
  index_lock = true;
  readable = true;
  writable = true;
  now = 7;
}

abbrev alpine : Text
alpine = codes "docker.io/library/alpine"

abbrev latest : Option Text
latest = some (codes "latest")

abbrev stored_record : Option Text → ImageRecord
stored_record tag = record {
  name = alpine;
  tag = tag;
  manifest = codes "sha256:m";
  index = none;
  config = codes "sha256:c";
  size_bytes = 42;
  created_at = 7;
}

abbrev one : List ImageRecord
one = stored_record latest ∷ []

abbrev two : List ImageRecord
two = stored_record latest ∷ stored_record (some (codes "v1")) ∷ []

add_run :
    add_index_image
      (λ rs. rs)
      some
      fine
      none
      alpine
      latest
      (codes "sha256:m")
      (codes "sha256:c")
      42
      none
    ≡ (ok tt, some one)
unfolding add_index_image records_of save_records upsert_record new_record
add_run = refl

tag_run :
    tag_record (λ rs. rs) some fine (some one) alpine none none alpine (some (codes "v1"))
    ≡ (ok (stored_record (some (codes "v1"))), some two)
unfolding tag_record tag_source find_record_in records_of save_records upsert_record new_record
    text_eq
tag_run = refl

remove_run :
    remove_record (λ rs. rs) some fine (some two) alpine none none
    ≡ (ok (some (stored_record latest)), some (stored_record (some (codes "v1")) ∷ []))
unfolding remove_record remove_from take_first records_of save_records text_eq
remove_run = refl

add_index_image-Added_example :
    (before after : List ImageRecord) × (listed some none ≡ some before)
    × (listed some (some one) ≡ some after)
    × Added before after (new_record 7 alpine latest (codes "sha256:m") (codes "sha256:c") 42 none)
add_index_image-Added_example =
    add_index_image-Added (λ rs. rs) some (λ rs. refl) fine none (some one) alpine latest
      (codes "sha256:m") (codes "sha256:c") 42 none add_run

two-Unique : Unique two
unfolding text_eq
two-Unique = (refl, (refl, tt))

remove_record_lem_example :
    (after : List ImageRecord) × (listed some (some (stored_record (some (codes "v1")) ∷ []))
      ≡ some after)
    × (find_record_in two alpine none none ≡ some (stored_record latest))
    × Unique after
    × ((n : Text) (t : Option Text)
        → find (has_key n t) after
          ≡ (if has_key n t (stored_record latest) then none else find (has_key n t) two))
remove_record_lem_example =
    remove_record_lem (λ rs. rs) some (λ rs. refl) fine (some two)
      (some (stored_record (some (codes "v1")) ∷ [])) alpine none (stored_record latest) two refl
      two-Unique remove_run

-- Without a tag, `latest` is looked up.
find_run :
    find_record (λ rs. rs) some fine (some two) alpine none none ≡ ok (some (stored_record latest))
unfolding find_record records_of find_record_in text_eq
find_run = refl

index_change-err_run : remove_record (λ rs. rs) some fine none alpine none none ≡ (ok none, none)
unfolding remove_record remove_from take_first records_of
index_change-err_run = refl
