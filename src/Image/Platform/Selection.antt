-- ===== src/Image/Platform/Selection.antt =====
-- Which manifest `select` of src/image/manifest.rs takes, and how platforms are written.
use zerun.Prelude.{
  ℕ, Bool, true, false, Option, none, some, List, [], ◌∷◌, ◌++◌, Text, Result, ok, err, ◌≡◌, refl,
  arith, text_eq_iff, All, retain, has, split, Bool-cases, inl, inr, ◌⊎◌, Option-cases, ap,
  append-nil,
}
use mathlib.Core.Path.{subst}
use zerun.Image.Platform.{
  Platform, parse_platform, variant_matches, platform_matches, Descriptor, ImageDoc, manifest,
  index, available, available_name, SelectError, no_manifest_for, is_for, select_in, select,
}

-- A descriptor is for a platform when it names its system and architecture, and its variant if one is
-- asked for.
abbrev pub ForPlatform : Platform → Descriptor → Type 0
ForPlatform want d =
    (p : Platform) × (d.platform ≡ some p)
    × (p.os ≡ want.os)
    × (p.architecture ≡ want.architecture)
    × ((want.variant ≡ none) ⊎ (want.variant ≡ p.variant))

-- The first of a list for a platform, with what stands before it.
abbrev pub FirstFor : Platform → List Descriptor → Descriptor → Type 0
FirstFor want ds d =
    (before after : List Descriptor) × (ds ≡ before ++ d ∷ after)
    × All (λ x. is_for want x ≡ false) before
    × ForPlatform want d

variant_for :
    (want found : Option Text) → variant_matches want found ≡ true → (want ≡ none) ⊎ (want ≡ found)
variant_for none found h = inl refl
variant_for (some w) none h = cc
variant_for (some w) (some v) h = inr (ground (arith, text_eq_iff w v))

is_for-ForPlatform : (want : Platform) (d : Descriptor) → is_for want d ≡ true → ForPlatform want d
unfolding platform_matches
is_for-ForPlatform want d h = elim (Option-cases d.platform) [
  | inl e ↦ ground (arith, e)
  | inr (p, e) ↦ (
    p,
    e,
    ground (arith, e, text_eq_iff p.os want.os),
    ground (arith, e, text_eq_iff p.architecture want.architecture),
    variant_for want.variant p.variant (ground (arith, e)),
  )
]

select_in-FirstFor :
    (want : Platform) (ds : List Descriptor) (d : Descriptor) (rest : List Descriptor)
    → retain (is_for want) ds ≡ d ∷ rest
    → FirstFor want ds d
select_in-FirstFor want [] d rest h = cc
select_in-FirstFor want (x ∷ ds) d rest h = elim (Bool-cases (is_for want x)) [
  | inl fits_x ↦
      let same : x ≡ d = ground (arith, fits_x) in
      subst (FirstFor want (x ∷ ds)) same ([], ds, refl, tt, is_for-ForPlatform want x fits_x)
  | inr other ↦
      let (before, after, e, others, fits) =
        select_in-FirstFor want ds d rest (ground (arith, other)) in
      (x ∷ before, after, ap (λ l. x ∷ l) e, (other, others), fits)
]

retain-none :
    (p : Descriptor → Bool) (ds : List Descriptor) → retain p ds ≡ [] → All (λ x. p x ≡ false) ds
retain-none p [] h = tt
retain-none p (x ∷ ds) h = (ground arith, retain-none p ds (ground arith))

abbrev pub Selection : Platform → ImageDoc → Result SelectError (Option Descriptor) → Type 0
Selection want (manifest config layers) r = r ≡ ok none
Selection want (index ds) r =
    ((d : Descriptor) × (r ≡ ok (some d)) × FirstFor want ds d)
    ⊎ (All (λ x. is_for want x ≡ false) ds
        × (r ≡ err (no_manifest_for want.os want.architecture (available ds))))

-- A single manifest needs no selection; of an index the first descriptor for the platform is taken,
-- and if there is none the error lists the platforms that there are.
pub select-Selection : (want : Platform) (doc : ImageDoc) → Selection want doc (select want doc)
unfolding select select_in
select-Selection want (manifest config layers) = refl
select-Selection want (index ds) = go (retain (is_for want) ds) refl
  where
    go :
        (l : List Descriptor)
        → retain (is_for want) ds ≡ l
        → Selection want (index ds) (select want (index ds))
    go [] e = inr (retain-none (is_for want) ds e, ground (arith, e))
    go (d ∷ rest) e = inl (d, ground (arith, e), select_in-FirstFor want ds d rest e)

split-lacks : (c : ℕ) (a : Text) → has c a ≡ false → split c a ≡ a ∷ []
unfolding split
split-lacks c [] h = refl
split-lacks c (d ∷ a) h = ground (arith, split-lacks c a)

split-append : (c : ℕ) (a b : Text) → has c a ≡ false → split c (a ++ c ∷ b) ≡ a ∷ split c b
unfolding split
split-append c [] b h = ground arith
split-append c (d ∷ a) b h = ground (arith, split-append c a b)

abbrev platform_text : Text → Text → Option Text → Text
platform_text os arch none = os ++ b'/' ∷ (arch ++ [])
platform_text os arch (some v) = os ++ b'/' ∷ (arch ++ b'/' ∷ v)

abbrev as_parsed : Text → Text → Option Text → Platform
as_parsed os arch variant = record { os = os; architecture = arch; variant = variant }

parse-platform_text :
    (os arch : Text) (variant : Option Text)
    → has b'/' os ≡ false
    → has b'/' arch ≡ false
    → ((v : Text) → variant ≡ some v → has b'/' v ≡ false)
    → parse_platform (platform_text os arch variant) ≡ ok (as_parsed os arch variant)
unfolding parse_platform
parse-platform_text os arch none lo la lv =
    ground (arith, split-append b'/' os (arch ++ []) lo, append-nil arch, split-lacks b'/' arch la)
parse-platform_text os arch (some v) lo la lv = ground (
  arith,
  split-append b'/' os (arch ++ b'/' ∷ v) lo,
  split-append b'/' arch v la,
  split-lacks b'/' v (lv v refl),
)

-- A platform whose parts hold no slash is read back from the name that the error lists it under.
pub parse_platform-available_name :
    (p : Platform)
    → has b'/' p.os ≡ false
    → has b'/' p.architecture ≡ false
    → ((v : Text) → p.variant ≡ some v → has b'/' v ≡ false)
    → parse_platform (available_name p) ≡ ok p
parse_platform-available_name p lo la lv =
    go p.variant (parse-platform_text p.os p.architecture p.variant lo la lv)
  where
    go :
        (v : Option Text)
        → parse_platform (platform_text p.os p.architecture v)
          ≡ ok (as_parsed p.os p.architecture v)
        → parse_platform (available_name (as_parsed p.os p.architecture v))
          ≡ ok (as_parsed p.os p.architecture v)
    go none h = h
    go (some v) h = h
