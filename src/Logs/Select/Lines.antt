-- ===== src/Logs/Select/Lines.antt =====
-- What src/logs.rs selects and shows of a log, line by line.
use zerun.Prelude.{
  ℕ, zero, suc, false, ||_false, some, List, [], ◌∷◌, ◌++◌, ◌==◌, if◌then◌else◌, length, ◌≡◌, refl,
  sym, ◌∙◌, ap, arith, ◌≤◌, map, has, retain, Bool-cases, inl, inr,
}
use zerun.Logs.Select.{
  LogTimeFilter, is_active, line_of, after_line, lines_from, in_range, selected, filter_log_lines,
  strip_log_timestamps, without_timestamp,
}

-- The lines of a log, each with its newline; the last may lack it.
abbrev pub onto_line : ℕ → List (List ℕ) → List (List ℕ)
onto_line b [] = (b ∷ []) ∷ []
onto_line b (l ∷ ls) = (b ∷ l) ∷ ls

unfoldable pub lines : List ℕ → List (List ℕ)
lines [] = []
lines (b ∷ s) = let rest = lines s in if b == 10 then (b ∷ []) ∷ rest else onto_line b rest

abbrev pub concat : List (List ℕ) → List ℕ
concat [] = []
concat (l ∷ ls) = l ++ concat ls

lines-line_of : (b : ℕ) (s : List ℕ) → lines (b ∷ s) ≡ line_of (b ∷ s) ∷ lines (after_line (b ∷ s))
unfolding lines
lines-line_of b [] = elim (Bool-cases (b == 10)) [ inl e ↦ rw e refl | inr e ↦ rw e refl ]
lines-line_of b (c ∷ s) = elim (Bool-cases (b == 10)) [
  | inl e ↦ rw e refl
  | inr e ↦ rw e (ap (onto_line b) (lines-line_of c s))
]

after_line_le : (s : List ℕ) → length (after_line s) ≤ length s
after_line_le [] = omega arith
after_line_le (b ∷ s) = ground (arith, after_line_le s)

after_line_lt : (b : ℕ) (s : List ℕ) → length (after_line (b ∷ s)) ≤ length s
after_line_lt b s = ground (arith, after_line_le s)

pub lines_from-lines :
    (shown : List ℕ → List ℕ) (fuel : ℕ) (log : List ℕ)
    → length log ≤ fuel
    → lines_from shown fuel log ≡ concat (map shown (lines log))
lines_from-lines shown fuel [] h = unfold lines_from lines in refl
lines_from-lines shown zero (b ∷ s) h = absurd (omega arith)
lines_from-lines shown (suc fuel) (b ∷ s) h =
    let rest =
      lines_from-lines shown fuel (after_line (b ∷ s)) (omega (arith, after_line_lt b s)) in
    let one_round : lines_from shown (suc fuel) (b ∷ s)
        ≡ shown (line_of (b ∷ s)) ++ lines_from shown fuel (after_line (b ∷ s)) =
      unfold lines_from in refl in
    one_round
    ∙ ap (λ r. shown (line_of (b ∷ s)) ++ r) rest
    ∙ ap (λ ls. concat (map shown ls)) (sym (lines-line_of b s))

concat-selected :
    (f : LogTimeFilter) (ls : List (List ℕ))
    → concat (map (selected f) ls) ≡ concat (retain (in_range f) ls)
concat-selected f [] = refl
concat-selected f (l ∷ ls) = elim (Bool-cases (in_range f l)) [
  | inl e ↦ rw (e, concat-selected f ls) refl
  | inr e ↦ rw (e, concat-selected f ls) refl
]

-- With an active filter exactly the lines whose capture time is in range are left, unchanged and in
-- order; with one that is not active the log is.
pub filter_log_lines-retain :
    (log : List ℕ) (f : LogTimeFilter)
    → filter_log_lines log (some f)
      ≡ (if is_active f then concat (retain (in_range f) (lines log)) else log)
unfolding filter_log_lines
filter_log_lines-retain log f =
    rw (lines_from-lines (selected f) (length log) log (omega arith), concat-selected f (lines log))
      refl

pub strip_log_timestamps-map :
    (log : List ℕ) → strip_log_timestamps log ≡ concat (map without_timestamp (lines log))
unfolding strip_log_timestamps
strip_log_timestamps-map log = lines_from-lines without_timestamp (length log) log (omega arith)

pub lines-append :
    (body rest : List ℕ)
    → has 10 body ≡ false
    → lines ((body ++ 10 ∷ []) ++ rest) ≡ (body ++ 10 ∷ []) ∷ lines rest
unfolding lines
lines-append [] rest h = refl
lines-append (b ∷ body) rest h =
    let (other, free) : ((b == 10) ≡ false) × (has 10 body ≡ false) =
      ||_false (b == 10) (has 10 body) h in
    rw (other, lines-append body rest free) refl
