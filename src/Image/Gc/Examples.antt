-- ===== src/Image/Gc/Examples.antt =====
-- Runs of the garbage collection of src/image/store.rs: an index with one platform manifest.
use zerun.Prelude.{
  true, false, ◌&&◌, ◌||◌, not, Option, none, some, List, [], ◌∷◌, ◌++◌, Text, ◌≡◌, refl, codes,
  text_eq, if◌then◌else◌, any, strip_prefix,
}
use zerun.Image.Index.{ImageRecord}
use zerun.Image.Gc.{
  ImageDoc, manifest_doc, index_doc, member, keep_children, keep_manifest_tree, mark_records,
  mark_record, blob_survives, sweep_blobs, temporary, free, sweep_rootfs, keep_rootfs, Dirs, gc,
  Disk, resists,
}
use zerun.Image.Gc.Marks.{names_digest}
use zerun.Image.Gc.Sweep.{gc_blobs, sweep_rootfs-needed}

abbrev index_digest : Text
index_digest = codes "sha256:i"

abbrev manifest_digest : Text
manifest_digest = codes "sha256:m"

abbrev config_digest : Text
config_digest = codes "sha256:c"

abbrev layer_digest : Text
layer_digest = codes "sha256:l"

abbrev one_manifest : ImageDoc
one_manifest = manifest_doc config_digest (layer_digest ∷ [])

abbrev read_example : Text → Option ImageDoc
read_example d =
    if text_eq index_digest d
    then some (index_doc (manifest_digest ∷ []))
    else if text_eq manifest_digest d
    then some one_manifest
    else none

abbrev willing : Disk
willing = record { lists = λ n. true; removes = λ n. true }

-- The removal of `l` fails.
abbrev stubborn : Disk
stubborn = record { lists = λ n. true; removes = λ n. not (text_eq n (codes "l")) }

abbrev recorded : List ImageRecord
recorded =
    record {
      name = codes "docker.io/library/alpine";
      tag = some (codes "latest");
      manifest = manifest_digest;
      index = some index_digest;
      config = config_digest;
      size_bytes = 42;
      created_at = 7;
    }
    ∷ []

traversal_run :
    keep_manifest_tree read_example 3 index_digest []
    ≡ some (layer_digest ∷ config_digest ∷ manifest_digest ∷ index_digest ∷ [])
unfolding keep_manifest_tree keep_children text_eq
traversal_run = refl

marks_run :
    mark_records read_example 3 recorded []
    ≡ some (config_digest ∷ index_digest ∷ manifest_digest ∷ [])
unfolding mark_records mark_record keep_manifest_tree text_eq
marks_run = refl

gc_blobs_example :
    (dirs : Dirs) × (gc read_example 3 recorded willing willing
        (λ n. false)
        (λ n. free)
        (codes "c" ∷ codes "l" ∷ [])
        []
      ≡ some dirs)
    × ((name : Text)
        → member name dirs.blobs ≡ (
            member name (codes "c" ∷ codes "l" ∷ [])
            && ((not (temporary name) && any (names_digest (codes "sha256:" ++ name)) recorded)
                || resists willing name)))
gc_blobs_example =
    gc_blobs read_example 2 recorded willing willing (λ n. false) (λ n. free)
      (codes "c" ∷ codes "l" ∷ []) []

-- The layer of the recorded image is swept.
layer_swept :
    gc read_example 3 recorded willing willing
      (λ n. false)
      (λ n. free)
      (codes "c" ∷ codes "l" ∷ [])
      []
    ≡ some (record { blobs = codes "c" ∷ []; rootfs = []; failed = false })
unfolding gc mark_records mark_record keep_manifest_tree text_eq sweep_blobs blob_survives
    sweep_rootfs strip_prefix keep_rootfs
layer_swept = refl

-- A blob whose removal fails stays.
layer_stays :
    gc read_example 3 recorded stubborn willing
      (λ n. false)
      (λ n. free)
      (codes "x" ∷ codes "l" ∷ [])
      []
    ≡ some (record { blobs = codes "l" ∷ []; rootfs = []; failed = false })
unfolding gc mark_records mark_record keep_manifest_tree text_eq sweep_blobs blob_survives
    sweep_rootfs strip_prefix keep_rootfs
layer_stays = refl

sweep_rootfs-needed_example :
    member
      (codes "old")
      (sweep_rootfs willing
        (keep_rootfs recorded)
        (text_eq (codes "old"))
        (λ n. free)
        (codes "bad" ∷ codes "old" ∷ [])).0
    ≡ true
unfolding text_eq strip_prefix
sweep_rootfs-needed_example =
    sweep_rootfs-needed recorded willing (text_eq (codes "old")) (λ n. free)
      (codes "bad" ∷ codes "old" ∷ []) (codes "old") refl refl
