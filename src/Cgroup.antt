-- ===== src/Cgroup.antt =====
-- The limit planning of src/cgroup.rs: `plan_limit_writes` and the parsers of its options.
use mathlib.Core.Option
use zerun.Prelude.{
  ℕ, zero, suc, ◌+◌, ◌-◌, ◌*◌, ◌^◌, Bool, true, false, ◌&&◌, ◌||◌, not, Option, none, some, List,
  [], ◌∷◌, ◌++◌, Text, Result, ok, err, ok_or, require, ◌>>=◌, ◌>>◌, ◌==◌, leb, ltb, if◌then◌else◌,
  all, has, byte_len, is_empty, is_digit, split, split_once, rsplit_once, trim, parse_uint, text_eq,
  codes, u32_max, u64_max, to_lower, map,
}
use zerun.Prelude.Decimal.{decimal}
use zerun.Prelude.Dict
use zerun.Prelude.Dict.{Dict}
use zerun.Prelude.Int.{ℤ, pos, negsuc}
use zerun.Units
use zerun.Units.{SizeError}
pub mod Plan
pub mod IoMax
mod Examples

pub data LimitError : Type 0 where
  size : SizeError → LimitError
  swap_below_memory swap_needs_memory bad_cpus bad_cpuset bad_pids bad_device bad_number bad_flag
        zero_value :
      LimitError

-- `parse_size`, the shared parser with the error of this module.
pub parse_size : Text → Result LimitError ℕ
parse_size s = elim (Units.parse_size s) [ ok n ↦ ok n | err e ↦ err (size e) ]

-- Docker's total of memory and swap, as the swap alone. A negative total is unlimited.
pub swap_limit_for_total : ℕ → ℤ → Result LimitError Text
swap_limit_for_total memory (negsuc n) = ok (codes "max")
swap_limit_for_total memory (pos total) =
    if ltb total memory then err swap_below_memory else ok (decimal (total - memory))

pub parse_memory_swap : Text → Result LimitError ℤ
parse_memory_swap value =
    let v = trim value in
    if text_eq v (codes "-1") || text_eq (map to_lower v) (codes "unlimited")
    then ok (negsuc 0)
    else do
      bytes ← parse_size v
      require (not (bytes == 0)) zero_value
      require (ltb bytes (2 ^ 63)) bad_number
      ok (pos bytes)

pub parse_index : Text → Option ℕ
parse_index s =
    if is_empty s || (ltb 20 (byte_len s) || not (all is_digit s))
    then none
    else parse_uint u64_max s

-- `group.split_once('-')`, or the group twice
pub ends : Text → Text × Text
ends group = elim (split_once b'-' group) [ none ↦ (group, group) | some p ↦ p ]

abbrev pub ordered : Option ℕ → Option ℕ → Bool
ordered none hi = false
ordered (some lo) none = false
ordered (some lo) (some hi) = leb lo hi

pub valid_group : Text → Bool
valid_group group = let (start, end) = ends group in ordered (parse_index start) (parse_index end)

pub parse_cpuset : Text → Result LimitError Text
parse_cpuset value =
    let v = trim value in
    do
      require (not (is_empty v)) bad_cpuset
      require (all valid_group (split b',' v)) bad_cpuset
      ok v

pub parse_positive_number : Text → Result LimitError ℕ
parse_positive_number value = do
  n ← ok_or (parse_uint u64_max (trim value)) bad_number
  require (not (n == 0)) zero_value
  ok n

pub record IoLimit : Type 0 where
  pub device : Text
  pub read_bps : Option ℕ
  pub write_bps : Option ℕ
  pub read_iops : Option ℕ
  pub write_iops : Option ℕ

-- `IoLimit::default()`
abbrev pub no_limit : IoLimit
no_limit = record {
  device = [];
  read_bps = none;
  write_bps = none;
  read_iops = none;
  write_iops = none;
}

-- `a.or(b)`
abbrev pub or_else : Option ℕ → Option ℕ → Option ℕ
or_else none b = b
or_else (some a) b = some a

-- One round of the loop: what the limit sets replaces what the entry of its device holds.
pub merge_limit : IoLimit → Option IoLimit → IoLimit
merge_limit limit found =
    let entry : IoLimit = Option.get_or found no_limit in
    record entry {
      read_bps = or_else limit.read_bps entry.read_bps;
      write_bps = or_else limit.write_bps entry.write_bps;
      read_iops = or_else limit.read_iops entry.read_iops;
      write_iops = or_else limit.write_iops entry.write_iops;
    }

pub merge_limits : Dict IoLimit → List IoLimit → Dict IoLimit
merge_limits by_device [] = by_device
merge_limits by_device (l ∷ ls) =
    merge_limits (Dict.insert l.device (merge_limit l (Dict.get l.device by_device)) by_device) ls

pub value_or_max : Option ℕ → Text
value_or_max none = codes "max"
value_or_max (some v) = decimal v

abbrev pub io_line : Text → IoLimit → Text
io_line device limit =
    device
    ++ (codes " rbps="
        ++ (value_or_max limit.read_bps
            ++ (codes " wbps="
                ++ (value_or_max limit.write_bps
                    ++ (codes " riops="
                        ++ (value_or_max limit.read_iops
                            ++ (codes " wiops=" ++ value_or_max limit.write_iops)))))))

-- `join("\n")`
abbrev pub join_lines : Dict IoLimit → Text
join_lines [] = []
join_lines ((device, limit) ∷ []) = io_line device limit
join_lines ((device, limit) ∷ e ∷ es) = io_line device limit ++ (10 ∷ join_lines (e ∷ es))

pub io_max_value : List IoLimit → Text
io_max_value limits = join_lines (merge_limits [] limits)

pub record ResourceLimits (F64 : Type 0) : Type 0 where
  pub memory : Option Text
  pub memory_reservation : Option Text
  pub memory_swap : Option ℤ
  pub cpus : Option F64
  pub cpuset_cpus : Option Text
  pub cpuset_mems : Option Text
  pub pids : Option ℤ
  pub io : List IoLimit
  pub oom_group : Bool

-- The files of a cgroup that limits are written to.
pub data ControlFile : Type 0 where
  memory_max memory_swap_max memory_high cpu_max cpuset_cpus cpuset_mems pids_max io_max
        memory_oom_group :
      ControlFile

abbrev pub Writes : Type 0
Writes = List (ControlFile × Text)

-- One optional write.
pub plan_one {ℓ} :
    {A : Type ℓ} → ControlFile → Option A → (A → Result LimitError Text) → Result LimitError Writes
plan_one file none value = ok []
plan_one file (some a) value = do v ← value a; ok ((file, v) ∷ [])

pub plan_memory : Option Text → Option ℤ → Option ℕ → Result LimitError Writes
plan_memory (some mem) swap current = do
  bytes ← parse_size mem
  limit ← elim swap [ some total ↦ swap_limit_for_total bytes total | none ↦ ok (decimal bytes) ]
  ok ((memory_max, decimal bytes) ∷ (memory_swap_max, limit) ∷ [])
plan_memory none none current = ok []
plan_memory none (some (negsuc n)) current = ok ((memory_swap_max, codes "max") ∷ [])
plan_memory none (some (pos total)) none = err swap_needs_memory
plan_memory none (some (pos total)) (some memory) = do
  limit ← swap_limit_for_total memory (pos total)
  ok ((memory_swap_max, limit) ∷ [])

pub pids_value : ℤ → Result LimitError Text
pids_value (negsuc n) = err bad_pids
pids_value (pos zero) = err bad_pids
pids_value (pos (suc n)) = ok (decimal (suc n))

-- `cpu_quota` is the conversion of a fractional CPU count, in floating point.
module _ {F64 : Type 0} (cpu_quota : F64 → Result LimitError ℕ) where
  pub cpu_value : F64 → Result LimitError Text
  cpu_value cpus = do quota ← cpu_quota cpus; ok (decimal quota ++ codes " 100000")

  pub plan_limit_writes : ResourceLimits F64 → Option ℕ → Result LimitError Writes
  plan_limit_writes limits current_memory = do
    memory ← plan_memory limits.memory limits.memory_swap current_memory
    high ←
        plan_one memory_high limits.memory_reservation (λ h. parse_size h >>= λ n. ok (decimal n))
    cpu ← plan_one cpu_max limits.cpus cpu_value
    cpus ← plan_one cpuset_cpus limits.cpuset_cpus parse_cpuset
    mems ← plan_one cpuset_mems limits.cpuset_mems parse_cpuset
    pids ← plan_one pids_max limits.pids pids_value
    let io : Writes = elim limits.io [ [] ↦ [] | l ∷ ls ↦ (io_max, io_max_value (l ∷ ls)) ∷ [] ]
    let oom : Writes = if limits.oom_group then (memory_oom_group, codes "1") ∷ [] else []
    ok (memory ++ (high ++ (cpu ++ (cpus ++ (mems ++ (pids ++ (io ++ oom)))))))
