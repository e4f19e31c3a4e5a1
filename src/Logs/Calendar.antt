-- ===== src/Logs/Calendar.antt =====
-- The day numbers of src/logs.rs turn the dates of src/state.rs back.
use zerun.Prelude.{
  ℕ, zero, suc, ◌+◌, ◌-◌, ◌*◌, ◌/◌, ◌%◌, ◌≤◌, ◌<◌, ◌≡◌, refl, ◌∙◌, ap, arith, ltb, leb,
  if◌then◌else◌, Bool, true, false, Bool-cases, inl, inr,
}
use zerun.Prelude.Int.{pos, diff, ◌-ℤ◌}
use zerun.Clock.{civil_from_days}
use zerun.Logs.{days_from_civil}

-- The days of an era of 400 years before a year that begins in March
abbrev pub year_start : ℕ → ℕ
year_start y = 365 * y + y / 4 - y / 100

abbrev pub year_of : ℕ → ℕ
year_of doe = (doe - doe / 1460 + doe / 36524 - doe / 146096) / 365

abbrev pub month_of : ℕ → ℕ
month_of doy = (5 * doy + 2) / 153

abbrev pub month_start : ℕ → ℕ
month_start mp = (153 * mp + 2) / 5

-- A day of an era falls into the year that is computed.
pub year_of-bounds :
    (doe : ℕ)
    → doe < 146097
    → (year_of doe ≤ 399)
      × (year_start (year_of doe) ≤ doe)
      × (doe ≤ year_start (year_of doe) + 365)
year_of-bounds doe h = (omega arith, omega arith, omega arith)

-- The last day of a leap year is the only one with 365 days before it.
pub leap_day :
    (doe : ℕ)
    → doe < 146097
    → doe ≡ year_start (year_of doe) + 365
    → ((year_of doe + 1) % 4 ≡ 0) × ((year_of doe + 1) % 100 ≡ 0 → (year_of doe + 1) % 400 ≡ 0)
leap_day doe h e = (omega arith, λ k. omega arith)

diff-le : (a b : ℕ) → b ≤ a → diff a b ≡ pos (a - b)
diff-le a b h = let no_less : leb b a ≡ true = ground arith in rw no_less refl

sub-le : (a b : ℕ) → b ≤ a → pos a -ℤ pos b ≡ pos (a - b)
sub-le a zero h = ap pos (omega arith)
sub-le a (suc b) h = diff-le a (suc b) h

-- The date of a day number that is not negative, in natural numbers
abbrev pub day_of_era : ℕ → ℕ
day_of_era z = (z + 719468) % 146097

abbrev pub day_of_year : ℕ → ℕ
day_of_year z = day_of_era z - year_start (year_of (day_of_era z))

abbrev pub civil_month : ℕ → ℕ
civil_month z = let mp = month_of (day_of_year z) in if ltb mp 10 then mp + 3 else mp - 9

abbrev pub civil_day : ℕ → ℕ
civil_day z = day_of_year z - month_start (month_of (day_of_year z)) + 1

abbrev pub march_year : ℕ → ℕ
march_year z = year_of (day_of_era z) + (z + 719468) / 146097 * 400

abbrev pub civil_year : ℕ → ℕ
civil_year z = if leb (civil_month z) 2 then march_year z + 1 else march_year z

pub civil_from_days-pos :
    (z : ℕ) → civil_from_days (pos z) ≡ (pos (civil_year z), civil_month z, civil_day z)
unfolding civil_from_days
civil_from_days-pos z =
    let w = z + 719468 in
    let era : pos w -ℤ pos (w / 146097 * 146097) ≡ pos (w % 146097) =
      sub-le w (w / 146097 * 146097) (omega arith) ∙ ap pos (omega arith) in
    elim (Bool-cases (leb (civil_month z) 2)) [
      | inl early ↦ rw (era, early) refl
      | inr late ↦ rw (era, late) refl
    ]

-- The date is one of the calendar, and its year does not come before 1970.
pub month-bounds : (doy : ℕ) → doy ≤ 365 → (month_of doy ≤ 11) × (month_start (month_of doy) ≤ doy)
month-bounds doy h = (omega arith, omega arith)

shifted_month :
    (mp m : ℕ) → mp ≤ 11 → m ≡ (if ltb mp 10 then mp + 3 else mp - 9) → (m + 9) % 12 ≡ mp
shifted_month mp m h e = ground arith

days_from_civil-pos :
    (y m d : ℕ)
    → 1 ≤ y
    → let y' = if leb m 2 then y - 1 else y in
      days_from_civil (pos y) m d
      ≡ pos (
          y' / 400 * 146097
          + (y' % 400 * 365
              + y' % 400 / 4
              - y' % 400 / 100
              + ((153 * ((m + 9) % 12) + 2) / 5 + d - 1)))
        -ℤ pos 719468
unfolding days_from_civil
days_from_civil-pos y m d h = elim (Bool-cases (leb m 2)) [
  | inl early ↦ rw (early, sub-le y 1 h, era_rest (y - 1)) refl
  | inr late ↦ rw (late, era_rest y) refl
]
  where
    era_rest : (y : ℕ) → pos y -ℤ pos (y / 400 * 400) ≡ pos (y % 400)
    era_rest y = sub-le y (y / 400 * 400) (omega arith) ∙ ap pos (omega arith)

assemble :
    (era yoe doe doy m d : ℕ)
    → yoe ≤ 399
    → year_start yoe ≤ doe
    → doy ≡ doe - year_start yoe
    → (m + 9) % 12 ≡ month_of doy
    → month_start (month_of doy) ≤ doy
    → d ≡ doy - month_start (month_of doy) + 1
    → let y = yoe + era * 400 in
      y / 400 * 146097
        + (y % 400 * 365 + y % 400 / 4 - y % 400 / 100 + ((153 * ((m + 9) % 12) + 2) / 5 + d - 1))
      ≡ era * 146097 + doe
assemble era yoe doe doy m d small after year month before day =
    let same : (yoe + era * 400) % 400 ≡ yoe = omega arith in
    let count : (yoe + era * 400) / 400 ≡ era = omega arith in rw (same, count, month) (omega arith)

later_year : (w x : ℕ) → 146097 ≤ w → 1 ≤ x + w / 146097 * 400
later_year w x h = omega arith

march_year-one : (z : ℕ) → 1 ≤ march_year z
march_year-one z = later_year (z + 719468) (year_of (day_of_era z)) (omega arith)

year_step :
    (b : Bool) (y : ℕ)
    → 1 ≤ y
    → (1 ≤ (if b then y + 1 else y))
      × ((if b then (if b then y + 1 else y) - 1 else (if b then y + 1 else y)) ≡ y)
year_step true y h = (omega arith, omega arith)
year_step false y h = (h, refl)

pub days_from_civil-civil :
    (z : ℕ) → days_from_civil (pos (civil_year z)) (civil_month z) (civil_day z) ≡ pos z
days_from_civil-civil z =
    let w = z + 719468 in
    let doe = day_of_era z in
    let yoe = year_of doe in
    let doy = day_of_year z in
    let (small, after, within) = year_of-bounds doe (omega arith) in
    let (mp_small, before) = month-bounds doy (omega arith) in
    let month = shifted_month (month_of doy) (civil_month z) mp_small refl in
    let total =
      assemble (w / 146097) yoe doe doy (civil_month z) (civil_day z) small after refl month before
        refl in
    let (one, back) = year_step (leb (civil_month z) 2) (march_year z) (march_year-one z) in
    rw (days_from_civil-pos (civil_year z) (civil_month z) (civil_day z) one, back, total)
      (sub-le (w / 146097 * 146097 + doe) 719468 (omega arith) ∙ ap pos (omega arith))

-- Every day number that is not negative is had back from the date that it is turned into.
pub days_from_civil-civil_from_days :
    (z : ℕ) → let (y, m, d) = civil_from_days (pos z) in days_from_civil y m d ≡ pos z
days_from_civil-civil_from_days z = rw (civil_from_days-pos z) (days_from_civil-civil z)
