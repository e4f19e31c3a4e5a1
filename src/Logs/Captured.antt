-- ===== src/Logs/Captured.antt =====
-- A log that src/lifecycle.rs has captured, as src/logs.rs selects from it and shows it.
use zerun.Prelude.{ℕ, ◌+◌, ◌*◌, ◌≤◌, ◌<◌, false, some, List, [], ◌∷◌, ◌++◌, ◌≡◌, has}
use zerun.Prelude.Int.{ℤ, pos}
use zerun.Clock.{now_rfc3339_nanos}
use zerun.Rotation.Writer.{record_bytes}

-- A line without its newline, and when it was captured
pub record Entry : Type 0 where
  pub secs : ℕ
  pub nanos : ℕ
  pub body : List ℕ

abbrev pub line : Entry → List ℕ
line e = e.body ++ 10 ∷ []

unfoldable pub entry_bytes : Entry → List ℕ
unfolding record_bytes
entry_bytes e = record_bytes (now_rfc3339_nanos (some (e.secs, e.nanos))) (line e)

abbrev pub time : Entry → ℤ
time e = pos (e.secs * 1000000000 + e.nanos)

-- Captured before the year 10000, and one line
unfoldable pub IsEntry : Entry → Type 0
IsEntry e = (e.secs ≤ 253402300799) × (e.nanos < 1000000000) × (has 10 e.body ≡ false)

-- The bytes of the log
abbrev pub captured : List Entry → List ℕ
captured [] = []
captured (e ∷ es) = entry_bytes e ++ captured es

abbrev pub line_bytes : List Entry → List ℕ
line_bytes [] = []
line_bytes (e ∷ es) = line e ++ line_bytes es
