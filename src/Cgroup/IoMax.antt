-- ===== src/Cgroup/IoMax.antt =====
-- The merging of `io_max_value` in src/cgroup.rs, device by device.
use zerun.Prelude.{
  ℕ, ◌≡◌, refl, Option, none, some, List, [], ◌∷◌, Text, arith, if◌then◌else◌, text_eq, text_eq_iff,
}
use zerun.Prelude.Dict
use zerun.Prelude.Dict.{Dict, get-insert}
use zerun.Cgroup.{IoLimit, or_else, merge_limit, merge_limits}

-- The value that the options give last for a device, if any gives one.
abbrev pub last_given : (IoLimit → Option ℕ) → Text → List IoLimit → Option ℕ
last_given field d [] = none
last_given field d (l ∷ ls) =
    or_else (last_given field d ls) (if text_eq l.device d then field l else none)

abbrev pub entry_value : (IoLimit → Option ℕ) → Option IoLimit → Option ℕ
entry_value field none = none
entry_value field (some l) = field l

-- A field that a round merges by itself, and that is unset by default.
abbrev Merges : (IoLimit → Option ℕ) → Type 0
Merges field =
    (l : IoLimit) (found : Option IoLimit)
    → field (merge_limit l found) ≡ or_else (field l) (entry_value field found)

or_else_assoc : (a b c : Option ℕ) → or_else (or_else a b) c ≡ or_else a (or_else b c)
or_else_assoc none b c = refl
or_else_assoc (some x) b c = refl

merged_field :
    (field : IoLimit → Option ℕ) (d : Text) (m : Dict IoLimit) (ls : List IoLimit)
    → Merges field
    → entry_value field (Dict.get d (merge_limits m ls))
      ≡ or_else (last_given field d ls) (entry_value field (Dict.get d m))
unfolding merge_limits
merged_field field d m [] h = refl
merged_field field d m (l ∷ ls) h =
    let l' = merge_limit l (Dict.get l.device m) in
    ground (
      arith,
      merged_field field d (Dict.insert l.device l' m) ls h,
      get-insert l.device d l' m,
      h l (Dict.get l.device m),
      text_eq_iff l.device d,
      or_else_assoc (last_given field d ls) (field l) (entry_value field (Dict.get d m)),
      or_else_assoc (last_given field d ls) none (entry_value field (Dict.get d m)),
    )

-- For every device, each of the four ceilings in the merged table is the value that the options give
-- last for that device and ceiling, and is unset if none gives one; other devices have no influence.
pub merge_limits-last_given :
    (d : Text) (ls : List IoLimit)
    → (let e = Dict.get d (merge_limits [] ls) in
        (entry_value (λ l. l.read_bps) e ≡ last_given (λ l. l.read_bps) d ls)
        × (entry_value (λ l. l.write_bps) e ≡ last_given (λ l. l.write_bps) d ls)
        × (entry_value (λ l. l.read_iops) e ≡ last_given (λ l. l.read_iops) d ls)
        × (entry_value (λ l. l.write_iops) e ≡ last_given (λ l. l.write_iops) d ls))
unfolding merge_limit Dict.get
merge_limits-last_given d ls =
    let r = merged_field (λ l. l.read_bps) d [] ls (λ l found. ground arith) in
    let w = merged_field (λ l. l.write_bps) d [] ls (λ l found. ground arith) in
    let ri = merged_field (λ l. l.read_iops) d [] ls (λ l found. ground arith) in
    let wi = merged_field (λ l. l.write_iops) d [] ls (λ l found. ground arith) in
    (ground arith, ground arith, ground arith, ground arith)
