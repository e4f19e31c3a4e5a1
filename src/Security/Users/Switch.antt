-- ===== src/Security/Users/Switch.antt =====
-- Which identity `switch_user` of src/security.rs takes on.
use zerun.Prelude.{
  ℕ, ◌≤◌, Bool, true, false, ◌&&◌, not, Option, none, some, List, [], ◌∷◌, ◌++◌, Text, Result, ok,
  err, ◌≡◌, refl, arith, if◌then◌else◌, ◌==◌, all, u32_max, inl, inr, all-append, ◌⊎◌,
  is_whitespace, Bool-cases,
}
use zerun.Prelude.Decimal.{decimal, decimal-all, parse_uint-decimal, is_empty-decimal}
use zerun.Prelude.Trim.{
  trim-solid, split_once-lacks, split_once-none, digits_solid, digits_lack, is_solid,
}
use zerun.Security.Users.{
  UserError, parse_id, Files, resolve_user_spec, UserCall, clear_supplementary_groups, set_gid,
  set_uid, run_calls, switch_user, clear_groups_failed, set_gid_failed, set_uid_failed,
  rootless_identity, switch_resolved,
}

parse_id-decimal : (n : ℕ) → n ≤ u32_max → parse_id (decimal n) ≡ some n
unfolding parse_id
parse_id-decimal n small =
    ground (arith, decimal-all n, is_empty-decimal n, parse_uint-decimal u32_max n small)

-- A numeric user is that number, with the same number as its group.
pub resolve_user_spec-uid :
    (files : Files) (u : ℕ) → u ≤ u32_max → resolve_user_spec files (decimal u) ≡ ok (u, u)
unfolding resolve_user_spec
resolve_user_spec-uid files u small =
    rw (trim-solid (decimal u) (digits_solid (decimal u) (decimal-all u))) ground (
      arith,
      split_once-none b':' (decimal u) (digits_lack b':' (decimal u) refl (decimal-all u)),
      is_empty-decimal u,
      parse_id-decimal u small,
    )

pair_solid : (u g : ℕ) → all is_solid (decimal u ++ b':' ∷ decimal g) ≡ true
unfolding is_whitespace
pair_solid u g = ground (
  arith,
  all-append is_solid (decimal u) (b':' ∷ decimal g),
  digits_solid (decimal u) (decimal-all u),
  digits_solid (decimal g) (decimal-all g),
)

-- A numeric `user:group` is read as the two numbers, whatever the container's files say.
pub resolve_user_spec-uid_gid :
    (files : Files) (u g : ℕ)
    → u ≤ u32_max
    → g ≤ u32_max
    → resolve_user_spec files (decimal u ++ b':' ∷ decimal g) ≡ ok (u, g)
unfolding resolve_user_spec
resolve_user_spec-uid_gid files u g us gs =
    rw (trim-solid (decimal u ++ b':' ∷ decimal g) (pair_solid u g)) ground (
      arith,
      split_once-lacks b':' (decimal u) (decimal g)
          (digits_lack b':' (decimal u) refl (decimal-all u)),
      digits_lack b':' (decimal g) refl (decimal-all g),
      is_empty-decimal u,
      is_empty-decimal g,
      parse_id-decimal u us,
      parse_id-decimal g gs,
    )

-- The calls in the order of the source, when none fails.
abbrev pub full_switch : ℕ → ℕ → List UserCall
full_switch uid gid = clear_supplementary_groups ∷ set_gid gid ∷ set_uid uid ∷ []

abbrev pub Switched : Files → Text → Bool → List UserCall → Type 0
Switched files raw rootless calls =
    (uid gid : ℕ) × (resolve_user_spec files raw ≡ ok (uid, gid))
    × (((uid ≡ 0) × (gid ≡ 0) × (calls ≡ []))
        ⊎ ((rootless ≡ false) × (calls ≡ full_switch uid gid)))

-- A switch that succeeds for a given user has resolved it, and has either made no call, for root, or
-- has dropped the groups, then taken the group, then the user, in a container that is not rootless.
switch_user-Switched :
    (succeeds : UserCall → Bool) (files : Files) (raw : Text) (rootless : Bool)
    (calls : List UserCall)
    → switch_user succeeds files (some raw) rootless ≡ (calls, ok tt)
    → Switched files raw rootless calls
unfolding switch_user run_calls
switch_user-Switched succeeds files raw rootless calls h = go (resolve_user_spec files raw) refl
  where
    go :
        (r : Result UserError (ℕ × ℕ))
        → resolve_user_spec files raw ≡ r
        → Switched files raw rootless calls
    go (err e) at = ground arith
    go (ok (uid, gid)) at = (uid, gid, at, ground (arith, at))

-- The calls up to the first that fails.
abbrev pub Begun : (UserCall → Bool) → ℕ → ℕ → List UserCall → Type 0
Begun succeeds uid gid calls =
    (calls ≡ clear_supplementary_groups ∷ [])
    ⊎ (((succeeds clear_supplementary_groups ≡ true)
          × (calls ≡ clear_supplementary_groups ∷ set_gid gid ∷ []))
        ⊎ ((succeeds clear_supplementary_groups ≡ true)
            × (succeeds (set_gid gid) ≡ true)
            × (calls ≡ full_switch uid gid)))

abbrev planned : ℕ → ℕ → List (UserCall × UserError)
planned uid gid =
    (clear_supplementary_groups, clear_groups_failed)
    ∷ (set_gid gid, set_gid_failed)
    ∷ (set_uid uid, set_uid_failed)
    ∷ []

run_calls-Begun :
    (succeeds : UserCall → Bool) (uid gid : ℕ)
    → Begun succeeds uid gid (run_calls succeeds (planned uid gid)).0
unfolding run_calls
run_calls-Begun succeeds uid gid = elim (Bool-cases (succeeds clear_supplementary_groups)) [
  | inr failed ↦ inl (ground (arith, failed))
  | inl cleared ↦ elim (Bool-cases (succeeds (set_gid gid))) [
    | inr failed ↦ inr (inl (cleared, ground (arith, cleared, failed)))
    | inl taken ↦ inr (inr (cleared, taken, last_call cleared taken))
  ]
]
  where
    last_call :
        succeeds clear_supplementary_groups ≡ true
        → succeeds (set_gid gid) ≡ true
        → (run_calls succeeds (planned uid gid)).0 ≡ full_switch uid gid
    last_call cleared taken = ground (arith, cleared, taken)

abbrev pub InOrder : (UserCall → Bool) → Bool → List UserCall → Type 0
InOrder succeeds rootless calls =
    (calls ≡ []) ⊎ ((rootless ≡ false) × ((uid gid : ℕ) × Begun succeeds uid gid calls))

switched-InOrder :
    (succeeds : UserCall → Bool) (uid gid : ℕ) (root rootless : Bool)
    → InOrder succeeds rootless
        (if rootless && not root
          then ([], err rootless_identity)
          else if root
          then ([], ok tt)
          else run_calls succeeds (planned uid gid)).0
switched-InOrder succeeds uid gid true true = inl refl
switched-InOrder succeeds uid gid true false = inl refl
switched-InOrder succeeds uid gid false true = inl refl
switched-InOrder succeeds uid gid false false =
    inr (refl, (uid, gid, run_calls-Begun succeeds uid gid))

switch_resolved-InOrder :
    (succeeds : UserCall → Bool) (rootless : Bool) (r : Result UserError (ℕ × ℕ))
    → InOrder succeeds rootless (switch_resolved succeeds rootless r).0
switch_resolved-InOrder succeeds rootless (err e) = inl refl
switch_resolved-InOrder succeeds rootless (ok (uid, gid)) =
    switched-InOrder succeeds uid gid ((uid == 0) && (gid == 0)) rootless

-- Whatever fails, the user is changed only after the supplementary groups were cleared and the group
-- was taken, and a rootless container makes no call at all.
pub switch_user-InOrder :
    (succeeds : UserCall → Bool) (files : Files) (spec : Option Text) (rootless : Bool)
    → InOrder succeeds rootless (switch_user succeeds files spec rootless).0
unfolding switch_user
switch_user-InOrder succeeds files none rootless = inl refl
switch_user-InOrder succeeds files (some raw) rootless =
    switch_resolved-InOrder succeeds rootless (resolve_user_spec files raw)
