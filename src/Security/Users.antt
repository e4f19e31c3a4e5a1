-- ===== src/Security/Users.antt =====
-- `--user` of src/security.rs: how a user is resolved against the container's files, and switched to.
use zerun.Prelude.{
  ℕ, zero, suc, Bool, true, false, ◌&&◌, ◌||◌, not, Option, none, some, List, [], ◌∷◌, Text, Result,
  ok, err, ◌>>=◌, ◌>>◌, require, ok_or, text_eq, if◌then◌else◌, ◌==◌, has, all, split, split_once,
  trim, is_empty, is_digit, parse_uint, u32_max,
}
pub mod Switch
mod Examples

pub data UserError : Type 0 where
  empty_spec empty_user empty_group too_many_parts unknown_user unknown_group rootless_identity
        clear_groups_failed set_gid_failed set_uid_failed :
      UserError

unfoldable pub parse_id : Text → Option ℕ
parse_id value =
    if is_empty value || not (all is_digit value) then none else parse_uint u32_max value

-- `text.lines()`: a final line break ends no further line, and a carriage return before it goes too.
abbrev pub drop_cr : Text → Text
drop_cr [] = []
drop_cr (c ∷ []) = if c == 13 then [] else c ∷ []
drop_cr (c ∷ d ∷ s) = c ∷ drop_cr (d ∷ s)

abbrev pub full_lines : List Text → List Text
full_lines [] = []
full_lines (l ∷ []) = if is_empty l then [] else l ∷ []
full_lines (l ∷ m ∷ ls) = drop_cr l ∷ full_lines (m ∷ ls)

pub lines : Text → List Text
lines text = full_lines (split 10 text)

-- The first line with enough fields and the name decides, readable or not.
abbrev pub both : Option ℕ → Option ℕ → Option (ℕ × ℕ)
both none gid = none
both (some uid) none = none
both (some uid) (some gid) = some (uid, gid)

abbrev pub user_line : Text → List Text → Option (Option (ℕ × ℕ))
user_line name (user ∷ password ∷ uid ∷ gid ∷ rest) =
    if text_eq user name
    then some (both (parse_uint u32_max uid) (parse_uint u32_max gid))
    else none
user_line name fields = none

abbrev pub group_line : Text → List Text → Option (Option ℕ)
group_line name (group ∷ password ∷ gid ∷ rest) =
    if text_eq group name then some (parse_uint u32_max gid) else none
group_line name fields = none

abbrev pub first_line {ℓ} : {A : Type ℓ} → (List Text → Option (Option A)) → List Text → Option A
first_line parse [] = none
first_line parse (l ∷ ls) =
    let later = first_line parse ls in
    elim (parse (split b':' l)) [ none ↦ later | some found ↦ found ]

-- A file that cannot be read gives nothing.
pub lookup_user_uid_gid : Option Text → Text → Option (ℕ × ℕ)
lookup_user_uid_gid none name = none
lookup_user_uid_gid (some passwd) name = first_line (user_line name) (lines passwd)

pub lookup_group_gid : Option Text → Text → Option ℕ
lookup_group_gid none name = none
lookup_group_gid (some group) name = first_line (group_line name) (lines group)

-- `/etc/passwd` and `/etc/group` of the container
pub record Files : Type 0 where
  pub passwd : Option Text
  pub group : Option Text

abbrev pub user_ids : Files → Text → Result UserError (ℕ × ℕ)
user_ids files user = ok_or (lookup_user_uid_gid files.passwd user) unknown_user

abbrev pub uid_of : Files → Text → Result UserError ℕ
uid_of files user = elim (parse_id user) [
  | some id ↦ ok id
  | none ↦ (user_ids files user >>= λ ids. ok ids.0)
]

abbrev pub gid_of : Files → Text → Option Text → Result UserError ℕ
gid_of files user none = elim (parse_id user) [
  | some id ↦ ok id
  | none ↦ (user_ids files user >>= λ ids. ok ids.1)
]
gid_of files user (some group) = if is_empty group then err empty_group else elim (parse_id group) [
  | some id ↦ ok id
  | none ↦ ok_or (lookup_group_gid files.group group) unknown_group
]

abbrev pub user_parts : Text → Result UserError (Text × Option Text)
user_parts raw = elim (split_once b':' raw) [
  | none ↦ ok (raw, none)
  | some (user, group) ↦ if has b':' group then err too_many_parts else ok (user, some group)
]

pub resolve_user_spec : Files → Text → Result UserError (ℕ × ℕ)
resolve_user_spec files spec =
    let raw = trim spec in
    do
      require (not (is_empty raw)) empty_spec
      parts ← user_parts raw
      require (not (is_empty parts.0)) empty_user
      uid ← uid_of files parts.0
      gid ← gid_of files parts.0 parts.1
      ok (uid, gid)

-- The calls that change the identity of the process.
pub data UserCall : Type 0 where
  clear_supplementary_groups : UserCall
  set_gid : ℕ → UserCall
  set_uid : ℕ → UserCall

-- One call after another until one fails; `succeeds` is what the kernel answers.
pub run_calls :
    (UserCall → Bool) → List (UserCall × UserError) → List UserCall × Result UserError (Unit {0})
run_calls succeeds [] = ([], ok tt)
run_calls succeeds ((call, error) ∷ calls) =
    let (made, outcome) = run_calls succeeds calls in
    if succeeds call then (call ∷ made, outcome) else (call ∷ [], err error)

abbrev pub switch_to :
    (UserCall → Bool) → Bool → ℕ × ℕ → List UserCall × Result UserError (Unit {0})
switch_to succeeds rootless (uid, gid) =
    let root = (uid == 0) && (gid == 0) in
    if rootless && not root
    then ([], err rootless_identity)
    else if root
    then ([], ok tt)
    else run_calls succeeds (
        (clear_supplementary_groups, clear_groups_failed)
        ∷ (set_gid gid, set_gid_failed)
        ∷ (set_uid uid, set_uid_failed)
        ∷ [])

abbrev pub switch_resolved :
    (UserCall → Bool)
    → Bool
    → Result UserError (ℕ × ℕ)
    → List UserCall × Result UserError (Unit {0})
switch_resolved succeeds rootless (err e) = ([], err e)
switch_resolved succeeds rootless (ok ids) = switch_to succeeds rootless ids

-- The calls that are made, and the outcome.
pub switch_user :
    (UserCall → Bool) → Files → Option Text → Bool → List UserCall × Result UserError (Unit {0})
switch_user succeeds files none rootless = ([], ok tt)
switch_user succeeds files (some raw) rootless =
    switch_resolved succeeds rootless (resolve_user_spec files raw)
