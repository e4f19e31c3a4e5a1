-- ===== src/PsFilter.antt =====
-- src/psfilter.rs: the selectors of `zerun ps --filter KEY=VALUE`.
use zerun.Prelude.{
  ℕ, zero, suc, ◌^◌, ◌-◌, Bool, true, false, ◌&&◌, ◌||◌, not, Option, none, some, List, [], ◌∷◌,
  ◌++◌, Text, Result, ok, err, codes, text_eq, if◌then◌else◌, ◌==◌, all, split_once, starts_with,
  is_empty,
}
use zerun.Prelude.Int.{ℤ, pos, negsuc, parse_i32}
use zerun.Prelude.Dict
use zerun.Prelude.Dict.{Dict}
use zerun.State.{ContainerState, Status, created, running, exited}
pub mod Matches
mod Examples

pub record PsFilter : Type 0 where
  pub status : Option Status
  pub paused : Option Bool
  pub name : Option Text
  pub id : Option Text
  pub image : Option Text
  pub exit_code : Option ℤ
  pub net : Option Text
  pub labels : List (Text × Option Text)

abbrev pub no_filter : PsFilter
no_filter = record {
  status = none;
  paused = none;
  name = none;
  id = none;
  image = none;
  exit_code = none;
  net = none;
  labels = [];
}

pub data FilterError : Type 0 where
  invalid_status invalid_name invalid_id invalid_image invalid_net invalid_exit_code invalid_label
        unknown_filter :
      FilterError

-- The keys that `set` knows.
pub data FilterKey : Type 0 where
  status_key name_key id_key image_key net_key exit_code_key label_key : FilterKey

unfoldable pub key_of : Text → Option FilterKey
key_of key =
    if text_eq key (codes "status")
    then some status_key
    else if text_eq key (codes "name")
    then some name_key
    else if text_eq key (codes "id")
    then some id_key
    else if text_eq key (codes "image")
    then some image_key
    else if text_eq key (codes "net")
    then some net_key
    else if text_eq key (codes "exitCode")
    then some exit_code_key
    else if text_eq key (codes "label")
    then some label_key
    else none

unfoldable pub status_of : Text → Option (Status × Option Bool)
status_of value =
    if text_eq value (codes "created")
    then some (created, none)
    else if text_eq value (codes "running")
    then some (running, some false)
    else if text_eq value (codes "paused")
    then some (running, some true)
    else if text_eq value (codes "exited")
    then some (exited, none)
    else none

abbrev pub label_of : Text → Text × Option Text
label_of value = elim (split_once b'=' value) [
  | none ↦ (value, none)
  | some (name, wanted) ↦ (name, some wanted)
]

unfoldable pub set_key : FilterKey → Text → PsFilter → Result FilterError PsFilter
set_key status_key value f = elim (status_of value) [
  | none ↦ err invalid_status
  | some (status, paused) ↦ ok (record f { status = some status; paused = paused })
]
set_key name_key value f =
    if is_empty value then err invalid_name else ok (record f { name = some value })
set_key id_key value f =
    if is_empty value then err invalid_id else ok (record f { id = some value })
set_key image_key value f =
    if is_empty value then err invalid_image else ok (record f { image = some value })
set_key net_key value f =
    if is_empty value then err invalid_net else ok (record f { net = some value })
set_key exit_code_key value f = elim (parse_i32 value) [
  | none ↦ err invalid_exit_code
  | some code ↦ ok (record f { exit_code = some code })
]
set_key label_key value f =
    let l = label_of value in
    if is_empty l.0 then err invalid_label else ok (record f { labels = f.labels ++ l ∷ [] })

-- `PsFilter::set`
unfoldable pub set : Text → Text → PsFilter → Result FilterError PsFilter
set key value f = elim (key_of key) [ none ↦ err unknown_filter | some k ↦ set_key k value f ]

abbrev pub status_eq : Status → Status → Bool
status_eq created created = true
status_eq running running = true
status_eq exited exited = true
status_eq created running = false
status_eq created exited = false
status_eq running created = false
status_eq running exited = false
status_eq exited created = false
status_eq exited running = false

abbrev pub integer_eq : ℤ → ℤ → Bool
integer_eq (pos m) (pos n) = m == n
integer_eq (negsuc m) (negsuc n) = m == n
integer_eq (pos m) (negsuc n) = false
integer_eq (negsuc m) (pos n) = false

abbrev pub bool_eq : Bool → Bool → Bool
bool_eq true b = b
bool_eq false b = not b

-- `is_none_or` and `is_some_and`
abbrev pub is_none_or {ℓ} : {A : Type ℓ} → Option A → (A → Bool) → Bool
is_none_or none p = true
is_none_or (some a) p = p a

abbrev pub is_some_and {ℓ} : {A : Type ℓ} → Option A → (A → Bool) → Bool
is_some_and none p = false
is_some_and (some a) p = p a

-- `PsFilter::widens_status`
unfoldable pub widens_status : PsFilter → Bool
widens_status f =
    is_some_and f.status (λ s. not (status_eq s running)) || is_some_and f.exit_code (λ c. true)

abbrev pub label_matches : Dict Text → Text × Option Text → Bool
label_matches labels (name, wanted) =
    is_some_and (Dict.get name labels) (λ found. is_none_or wanted (λ value. text_eq found value))

-- Every selector but the labels.
abbrev pub fields_match : {Rest : Type 0} → PsFilter → ContainerState Rest → Bool
fields_match f s =
    is_none_or f.status (λ want. status_eq s.status want)
    && (is_none_or f.paused (λ want. bool_eq s.paused want)
        && (is_none_or f.id (λ want. starts_with want s.id)
            && (is_none_or f.name (λ want. is_some_and s.name (λ name. text_eq name want))
                && (is_none_or f.image (λ want. text_eq s.image want)
                    && (is_none_or f.net (λ want. text_eq s.net want)
                        && is_none_or f.exit_code
                            (λ want. is_some_and s.exit_code (integer_eq want)))))))

-- `PsFilter::matches`, over one record
unfoldable pub matches : {Rest : Type 0} → PsFilter → ContainerState Rest → Bool
matches f s = fields_match f s && all (label_matches s.labels) f.labels
