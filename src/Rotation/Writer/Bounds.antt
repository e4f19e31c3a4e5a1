-- ===== src/Rotation/Writer/Bounds.antt =====
-- The size of the active console log of src/lifecycle.rs.
use zerun.Prelude.{
  ℕ, zero, suc, ◌+◌, ◌≤◌, ◌<◌, List, [], ◌∷◌, ◌++◌, Result, ok, err, ltb, ◌≡◌, refl, sym, ◌∙◌, ap,
  arith, ◌⊎◌, inl, inr, length, u64_max, length-append, Bool-cases,
}
use zerun.Rotation.{LogFiles, Disk, LogError, rotate}
use zerun.Rotation.Shift.{rotate-rotated}
use zerun.Rotation.Writer.{
  RotatingLog, WriteReply, complete, partial, append_bytes, after_rotation, rotate_log, then_append,
  is_full, write_record, record_bytes, content_of, at_least_one, saturating_add,
}

abbrev pub active : RotatingLog → List ℕ
active log = content_of (log.files 0)

-- The count is the size of the active file.
unfoldable pub IsCounted : RotatingLog → Type 0
IsCounted log = log.written ≡ length (active log)

-- The active file is within the limit, or holds nothing but the one record.
unfoldable pub IsBounded : List ℕ → RotatingLog → Type 0
IsBounded bytes log = (length (active log) ≤ log.options.max_size) ⊎ (active log ≡ bytes)

append_bytes-inv :
    (reply : WriteReply) (bytes : List ℕ) (log log' : RotatingLog)
    → append_bytes reply bytes log ≡ (ok tt, log')
    → (active log' ≡ active log ++ bytes)
      × (log'.written ≡ saturating_add log.written (length bytes))
      × (log'.options ≡ log.options)
append_bytes-inv complete bytes log log' e =
    let same = ap (λ p. p.1) e in
    (ap active (sym same), ap (λ l. l.written) (sym same), ap (λ l. l.options) (sym same))
append_bytes-inv (partial n) bytes log log' e = cc

after_rotation-inv :
    (r : Result LogError (Unit {0}) × LogFiles) (reply : WriteReply) (bytes : List ℕ)
    (log log' : RotatingLog)
    → then_append reply bytes (after_rotation r log) ≡ (ok tt, log')
    → (g : LogFiles) × (r ≡ (ok tt, g))
      × (append_bytes reply bytes (record log { files = g; written = 0 }) ≡ (ok tt, log'))
after_rotation-inv (ok tt, g) reply bytes log log' e = (g, refl, e)
after_rotation-inv (err reason, g) reply bytes log log' e = cc

rotate-empties :
    (disk : Disk) (n : ℕ) (f g : LogFiles)
    → rotate disk (at_least_one n) f ≡ (ok tt, g)
    → content_of (g 0) ≡ []
rotate-empties disk zero f g e = ap content_of (rotate-rotated disk 0 f g 0 e)
rotate-empties disk (suc n) f g e = ap content_of (rotate-rotated disk n f g 0 e)

rotate_log-inv :
    (disk : Disk) (reply : WriteReply) (bytes : List ℕ) (log log' : RotatingLog)
    → then_append reply bytes (rotate_log disk log) ≡ (ok tt, log')
    → (active log' ≡ bytes)
      × (log'.written ≡ saturating_add 0 (length bytes))
      × (log'.options ≡ log.options)
rotate_log-inv disk reply bytes log log' e =
    let (g, rotation, appended) =
      after_rotation-inv (rotate disk (at_least_one log.options.max_files) log.files) reply bytes
        log log' e in
    let none_left = rotate-empties disk log.options.max_files log.files g rotation in
    let (content, count, options) =
      append_bytes-inv reply bytes (record log { files = g; written = 0 }) log' appended in
    (content ∙ ap (λ r. r ++ bytes) none_left, count, options)

no_bytes : (xs : List ℕ) → length xs ≡ 0 → xs ≡ []
no_bytes [] e = refl
no_bytes (x ∷ xs) e = absurd (omega arith)

-- With a limit, the active file stays within it, unless one record alone is larger: then it holds
-- that record and nothing else. The count stays right. The limit and the record fit a u64.
pub write_record-IsBounded :
    (disk : Disk) (reply : WriteReply) (timestamp line : List ℕ) (log log' : RotatingLog)
    → IsCounted log
    → 0 < log.options.max_size
    → log.options.max_size < u64_max
    → length (record_bytes timestamp line) ≤ u64_max
    → write_record disk reply timestamp line log ≡ (ok tt, log')
    → IsCounted log' × IsBounded (record_bytes timestamp line) log'
unfolding write_record IsCounted IsBounded
write_record-IsBounded disk reply timestamp line log log' counted some_limit limit fits e =
    let bytes = record_bytes timestamp line in
    elim (Bool-cases (is_full (length bytes) log)) [
      | inl full ↦
          let (content, count, options) = rotate_log-inv disk reply bytes log log' (rw full at e) in
          (omega (arith, ap length content), inr content)
      | inr room ↦
          let (content, count, options) = append_bytes-inv reply bytes log log' (rw room at e) in
          let size : length (active log') ≡ length (active log) + length bytes =
            ap length content ∙ length-append (active log) bytes in
          elim (Bool-cases (ltb 0 log.written)) [
            | inl more ↦
                let within : saturating_add log.written (length bytes) ≤ log.options.max_size =
                  ground arith in
                let same : log'.options.max_size ≡ log.options.max_size =
                  ap (λ o. o.max_size) options in
                (omega (arith, size), inl (omega (arith, size, same, within)))
            | inr first ↦
                let none_written : log.written ≡ 0 = ground arith in
                let empty : active log ≡ [] = no_bytes (active log) (omega (arith, none_written)) in
                (omega (arith, size, none_written), inr (content ∙ ap (λ r. r ++ bytes) empty))
          ]
    ]
