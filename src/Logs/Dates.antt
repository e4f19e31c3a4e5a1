-- ===== src/Logs/Dates.antt =====
-- The dates of src/state.rs are ones that src/logs.rs accepts.
use mathlib.Core.Path.{subst}
use zerun.Prelude.{
  ℕ, ◌+◌, ◌-◌, ◌*◌, ◌/◌, ◌%◌, ◌≤◌, ◌<◌, ◌≡◌, refl, sym, ap, arith, ltb, leb, ◌==◌, ==_iff,
  if◌then◌else◌, true, false, Bool-cases, inl, inr, ◌||◌, ◌⊎◌,
}
use zerun.Prelude.Int.{pos}
use zerun.Logs.{days_in_month}
use zerun.Logs.Calendar.{
  year_of, month_of, month_start, year_start, day_of_era, day_of_year, march_year, civil_year,
  civil_month, civil_day, leap_day, year_of-bounds, month-bounds,
}

month_range :
    (mp m : ℕ)
    → mp ≤ 11
    → m ≡ (if ltb mp 10 then mp + 3 else mp - 9)
    → (1 ≤ m) × (m ≤ 12) × ((m ≡ 2) → (mp ≡ 11))
month_range mp m h e = (ground arith, ground arith, λ k. ground arith)

-- The days of the months other than February
month_days :
    (doy m : ℕ)
    → doy ≤ 365
    → m ≡ (if ltb (month_of doy) 10 then month_of doy + 3 else month_of doy - 9)
    → doy - month_start (month_of doy) + 1
      ≤ (if m == 4 || m == 6 || m == 9 || m == 11 then 30 else 31)
month_days doy m h e = ground arith

february_days :
    (doy : ℕ)
    → doy ≤ 365
    → month_of doy ≡ 11
    → (doy - month_start (month_of doy) + 1 ≤ 28)
      ⊎ ((doy ≡ 365) × (doy - month_start (month_of doy) + 1 ≡ 29))
february_days doy h e = ground arith

days_in_month-other :
    (y m d : ℕ)
    → 1 ≤ m
    → m ≤ 12
    → (m == 2) ≡ false
    → d ≤ (if m == 4 || m == 6 || m == 9 || m == 11 then 30 else 31)
    → d ≤ days_in_month (pos y) m
unfolding days_in_month
days_in_month-other y m d lo hi other h = ground arith

days_in_month-february :
    (y d : ℕ)
    → (d ≤ 28) ⊎ ((d ≡ 29) × (y % 4 ≡ 0) × (y % 100 ≡ 0 → y % 400 ≡ 0))
    → d ≤ days_in_month (pos y) 2
unfolding days_in_month
days_in_month-february y d (inl short) = ground arith
days_in_month-february y d (inr (last, four, hundred)) = elim (Bool-cases (y % 100 == 0)) [
  | inl century ↦ let leap : y % 400 ≡ 0 = hundred (ground arith) in ground arith
  | inr other ↦ ground arith
]

in_era : (x k : ℕ) → (x + k * 400 + 1) % 400 ≡ (x + 1) % 400
in_era x k = omega arith

leap_in_era :
    (x k : ℕ)
    → (x + 1) % 4 ≡ 0
    → ((x + 1) % 100 ≡ 0 → (x + 1) % 400 ≡ 0)
    → ((x + k * 400 + 1) % 4 ≡ 0) × ((x + k * 400 + 1) % 100 ≡ 0 → (x + k * 400 + 1) % 400 ≡ 0)
leap_in_era x k four hundred =
    (omega arith, λ century. omega (arith, in_era x k, hundred (omega arith)))

leap_or_short :
    (doe era doy : ℕ)
    → doe < 146097
    → year_start (year_of doe) ≤ doe
    → doy ≡ doe - year_start (year_of doe)
    → doy ≤ 365
    → month_of doy ≡ 11
    → let y = year_of doe + era * 400 + 1 in
      let d = doy - month_start (month_of doy) + 1 in
      (d ≤ 28) ⊎ ((d ≡ 29) × (y % 4 ≡ 0) × (y % 100 ≡ 0 → y % 400 ≡ 0))
leap_or_short doe era doy small after e short february = elim (february_days doy short february) [
  | inl early ↦ inl early
  | inr (last, day) ↦
      let (four, hundred) = leap_day doe small (omega arith) in
      let (in_four, in_hundred) = leap_in_era (year_of doe) era four hundred in
      inr (day, in_four, in_hundred)
]

-- The month is one of twelve, and the day one of the month's.
pub civil-in_month :
    (z : ℕ)
    → (1 ≤ civil_month z)
      × (civil_month z ≤ 12)
      × (civil_day z ≤ days_in_month (pos (civil_year z)) (civil_month z))
civil-in_month z =
    let doe = day_of_era z in
    let doy = day_of_year z in
    let (small, after, within) = year_of-bounds doe (omega arith) in
    let short : doy ≤ 365 = omega arith in
    let (mp_small, before) = month-bounds doy short in
    let (lo, hi, february) = month_range (month_of doy) (civil_month z) mp_small refl in
    (
      lo,
      hi,
      elim (Bool-cases (civil_month z == 2)) [
        | inl second ↦
            let is_two : civil_month z ≡ 2 = (==_iff (civil_month z) 2).0 second in
            let year : civil_year z ≡ march_year z + 1 =
              ap (λ m. if leb m 2 then march_year z + 1 else march_year z) is_two in
            let day = days_in_month-february (march_year z + 1) (civil_day z) (
              leap_or_short doe ((z + 719468) / 146097) doy (omega arith) after refl short
                (february is_two)) in
            subst (λ m. civil_day z ≤ days_in_month (pos (civil_year z)) m) (sym is_two)
              (subst (λ y. civil_day z ≤ days_in_month (pos y) 2) (sym year) day)
        | inr other ↦
            days_in_month-other (civil_year z) (civil_month z) (civil_day z) lo hi other
              (month_days doy (civil_month z) short refl)
      ],
    )

early_month : (mp : ℕ) → leb (if ltb mp 10 then mp + 3 else mp - 9) 2 ≡ true → mp ≤ 11 → 10 ≤ mp
early_month mp h k = ground arith

last_era : (w : ℕ) → w ≤ 3652364 → w / 146097 ≤ 24
last_era w h = omega arith

early_in_era :
    (doe doy era w : ℕ)
    → w ≤ 3652364
    → w ≡ era * 146097 + doe
    → year_of doe ≤ 399
    → year_start (year_of doe) ≤ doe
    → doy ≡ doe - year_start (year_of doe)
    → 10 ≤ month_of doy
    → era ≤ 24
    → year_of doe + era * 400 + 1 ≤ 9999
early_in_era doe doy era w h e small after f late last = omega arith

-- Up to the end of 9999 a year has four digits at most.
pub civil_year-bound : (z : ℕ) → z ≤ 2932896 → civil_year z ≤ 9999
civil_year-bound z h =
    let w = z + 719468 in
    let doe = day_of_era z in
    let doy = day_of_year z in
    let (small, after, within) = year_of-bounds doe (omega arith) in
    let (mp_small, before) = month-bounds doy (omega arith) in
    let last = last_era w (omega arith) in
    elim (Bool-cases (leb (civil_month z) 2)) [
      | inl early ↦ rw early (
          early_in_era doe doy (w / 146097) w (omega arith) (omega arith) small after refl
            (early_month (month_of doy) early mp_small) last)
      | inr late ↦ rw late (omega arith)
    ]
