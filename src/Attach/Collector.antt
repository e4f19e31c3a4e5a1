-- ===== src/Attach/Collector.antt =====
-- The collector thread of src/lifecycle.rs: how the reads of the pipe become records and frames.
use zerun.Prelude.{
  ℕ, zero, suc, ◌≤◌, Bool, true, false, not, ||_false, Option, List, [], ◌∷◌, ◌++◌, ◌==◌,
  if◌then◌else◌, length, has, is_empty, ◌≡◌, refl, sym, ◌∙◌, ap, arith, Bool-cases, inl, inr,
  append-nil, append_assoc, All,
}
use zerun.Clock.{Instant, now_rfc3339_nanos}
use zerun.Rotation.{Disk}
use zerun.Rotation.Writer.{RotatingLog, WriteReply, Logged, write_record}
use zerun.Logs.Select.{line_of, after_line}
use zerun.Logs.Select.Lines.{lines, concat, onto_line}

unfoldable pub write_timestamped_line :
    Disk → WriteReply → Option Instant → List ℕ → RotatingLog → Logged
unfolding write_record now_rfc3339_nanos
write_timestamped_line disk reply clock line log =
    write_record disk reply (now_rfc3339_nanos clock) line log

lines-first :
    (s rest : List ℕ)
    → has 10 s ≡ true
    → lines (s ++ rest) ≡ line_of s ∷ lines (after_line s ++ rest)
unfolding lines
lines-first [] rest h = cc
lines-first (b ∷ s) rest h = elim (Bool-cases (b == 10)) [
  | inl e ↦ rw e refl
  | inr e ↦ rw e (ap (onto_line b) (lines-first s rest (rw e at h)))
]

after_line-shorter : (s : List ℕ) → has 10 s ≡ true → suc (length (after_line s)) ≤ length s
after_line-shorter [] h = cc
after_line-shorter (b ∷ s) h = elim (Bool-cases (b == 10)) [
  | inl e ↦ rw e (omega arith)
  | inr e ↦ rw e (omega (arith, after_line-shorter s (rw e at h)))
]

lines-last : (b : ℕ) (s : List ℕ) → has 10 (b ∷ s) ≡ false → lines (b ∷ s) ≡ (b ∷ s) ∷ []
unfolding lines
lines-last b [] h = let e = (||_false (b == 10) false h).0 in rw e refl
lines-last b (c ∷ s) h =
    let (e, free) = ||_false (b == 10) (has 10 (c ∷ s)) h in
    rw e (ap (onto_line b) (lines-last c s free))

-- `write` says whether it succeeded, and gives the log after it.
module _ {Log : Type 0} (write : List ℕ → Log → Bool × Log) where
  -- The log, and the lines that were broadcast
  pub record Collected : Type 0 where
    pub log : Log
    pub sent : List (List ℕ)

  abbrev pub stored : List ℕ → Collected → Collected
  stored line c = record { log = (write line c.log).1; sent = c.sent ++ line ∷ [] }

  -- The inner loop on what is pending: whether every write succeeded, and what is still pending.
  unfoldable pub drain : ℕ → List ℕ → Collected → Bool × List ℕ × Collected
  drain zero pending c = (true, pending, c)
  drain (suc fuel) pending c =
      let line = line_of pending in
      let later = drain fuel (after_line pending) (stored line c) in
      if not (has 10 pending)
      then (true, pending, c)
      else if (write line c.log).0
      then later
      else (false, after_line pending, record c { log = (write line c.log).1 })

  -- What is left at the end of the pipe is a last line; there a failure ends nothing.
  abbrev pub finish_pending : List ℕ → Collected → Collected
  finish_pending [] c = c
  finish_pending (b ∷ pending) c = stored (b ∷ pending) c

  -- The outer loop on the reads; a read of no bytes is the end.
  unfoldable pub collect : List (List ℕ) → List ℕ → Collected → Collected
  unfolding drain
  collect [] pending c = finish_pending pending c
  collect ([] ∷ chunks) pending c = finish_pending pending c
  collect ((b ∷ chunk) ∷ chunks) pending c =
      let all_of = pending ++ b ∷ chunk in
      let (fine, rest, c') = drain (length all_of) all_of c in
      let later = collect chunks rest c' in if fine then later else c'

  -- Every line is stored, in order.
  abbrev pub all_stored : List (List ℕ) → Collected → Collected
  all_stored [] c = c
  all_stored (l ∷ ls) c = all_stored ls (stored l c)

  module _ (granted : (line : List ℕ) (log : Log) → (write line log).0 ≡ true) where
    drain-lines :
        (fuel : ℕ) (pending : List ℕ) (c : Collected)
        → length pending ≤ fuel
        → (tail : List ℕ) × (c' : Collected) × (drain fuel pending c ≡ (true, tail, c'))
          × (has 10 tail ≡ false)
          × ((rest : List ℕ)
              → all_stored (lines (pending ++ rest)) c ≡ all_stored (lines (tail ++ rest)) c')
    unfolding drain
    drain-lines zero [] c h = ([], c, refl, refl, λ rest. refl)
    drain-lines zero (b ∷ pending) c h = absurd (omega arith)
    drain-lines (suc fuel) pending c h = elim (Bool-cases (has 10 pending)) [
      | inl more ↦
          let (tail, c', run, free, same) =
            drain-lines fuel (after_line pending) (stored (line_of pending) c)
              (omega (arith, after_line-shorter pending more)) in
          (
            tail,
            c',
            rw (more, granted (line_of pending) c.log) run,
            free,
            λ rest. ap (λ ls. all_stored ls c) (lines-first pending rest more) ∙ same rest,
          )
      | inr none_left ↦ (pending, c, rw none_left refl, none_left, λ rest. refl)
    ]

    collect-pending :
        (chunks : List (List ℕ)) (pending : List ℕ) (c : Collected)
        → All (λ chunk. is_empty chunk ≡ false) chunks
        → has 10 pending ≡ false
        → collect chunks pending c ≡ all_stored (lines (pending ++ concat chunks)) c
    unfolding collect
    collect-pending [] [] c reads free = unfold lines in refl
    collect-pending [] (b ∷ pending) c reads free =
        rw (append-nil pending, lines-last b pending free) refl
    collect-pending ([] ∷ chunks) pending c (some_byte, reads) free = cc
    collect-pending ((b ∷ chunk) ∷ chunks) pending c (some_byte, reads) free =
        let all_of = pending ++ b ∷ chunk in
        let (tail, c', run, free', same) = drain-lines (length all_of) all_of c (omega arith) in
        let joined : lines (pending ++ (b ∷ (chunk ++ concat chunks)))
            ≡ lines (all_of ++ concat chunks) =
          ap lines (sym (append_assoc pending (b ∷ chunk) (concat chunks))) in
        rw run (
          collect-pending chunks tail c' reads free'
          ∙ sym (same (concat chunks))
          ∙ ap (λ ls. all_stored ls c) (sym joined))

    -- However the output is cut into reads, where every write succeeds its lines are stored and
    -- broadcast, each once, in order, and what is behind the last newline as a line of its own.
    pub collect-lines :
        (chunks : List (List ℕ)) (c : Collected)
        → All (λ chunk. is_empty chunk ≡ false) chunks
        → collect chunks [] c ≡ all_stored (lines (concat chunks)) c
    collect-lines chunks c reads = collect-pending chunks [] c reads refl
