-- ===== src/Cgroup/Examples.antt =====
-- Runs of the limit planning of src/cgroup.rs. A CPU count is taken as a quota already.
use zerun.Prelude.{
  ℕ, ◌+◌, ◌≡◌, refl, true, none, some, List, [], ◌∷◌, Text, Result, ok, err, codes, trim,
  is_whitespace, byte_len, split_once, parse_uint, parse_digits, split, text_eq,
}
use zerun.Prelude.Decimal.{decimal}
use zerun.Prelude.Dict
use zerun.Prelude.Int.{pos, negsuc}
use zerun.Units
use zerun.Cgroup.{
  LimitError, IoLimit, no_limit, parse_size, swap_limit_for_total, memory_max, memory_swap_max,
  pids_max, memory_oom_group, Writes, plan_one, plan_memory, pids_value, ResourceLimits,
  plan_limit_writes, merge_limits, swap_below_memory, parse_cpuset, valid_group, ends, parse_index,
  parse_memory_swap, parse_positive_number, cpu_value,
}
use zerun.Cgroup.Plan.{plan_limit_writes-total}
use zerun.Cgroup.IoMax.{entry_value, last_given, merge_limits-last_given}

abbrev quota : ℕ → Result LimitError ℕ
quota n = ok n

abbrev limits : ResourceLimits ℕ
limits = record {
  memory = some (codes "64");
  memory_reservation = none;
  memory_swap = some (pos 100);
  cpus = none;
  cpuset_cpus = none;
  cpuset_mems = none;
  pids = some (pos 5);
  io = [];
  oom_group = true;
}

abbrev planned : Writes
planned =
    (memory_max, decimal 64)
    ∷ (memory_swap_max, decimal 36)
    ∷ (pids_max, decimal 5)
    ∷ (memory_oom_group, codes "1")
    ∷ []

sixty_four : parse_size (codes "64") ≡ ok 64
unfolding parse_size Units.parse_size Units.split_size_suffix Units.drop_byte_suffix
    Units.split_unit Units.pop_last Units.unit_factor Units.split_fraction Units.size_of_parts
    Units.malformed Units.parse_u128 Units.checked_mul_u128 Units.scale_fraction trim is_whitespace
    byte_len split_once parse_uint parse_digits
sixty_four = refl

plan_run : plan_limit_writes quota limits none ≡ ok planned
unfolding plan_limit_writes plan_memory plan_one pids_value swap_limit_for_total
plan_run = rw sixty_four refl

-- A total below the memory limit is refused before anything is written.
low_total :
    plan_limit_writes quota (record limits { memory_swap = some (pos 63) }) none
    ≡ err swap_below_memory
unfolding plan_limit_writes plan_memory swap_limit_for_total
low_total = rw sixty_four refl

cpuset_run : parse_cpuset (codes "0-3,5") ≡ ok (codes "0-3,5")
unfolding parse_cpuset valid_group ends parse_index trim is_whitespace byte_len split_once split
    parse_uint parse_digits
cpuset_run = refl

plan_limit_writes-total_example :
    (bytes swap : ℕ) × (rest : Writes) × (parse_size (codes "64") ≡ ok bytes)
    × (bytes + swap ≡ 100)
    × (planned ≡ (memory_max, decimal bytes) ∷ (memory_swap_max, decimal swap) ∷ rest)
plan_limit_writes-total_example =
    plan_limit_writes-total quota limits none (codes "64") 100 planned refl refl plan_run

abbrev sda : Text
sda = codes "8:0"

abbrev options : List IoLimit
options =
    record no_limit { device = sda; read_bps = some 1 }
    ∷ record no_limit { device = codes "8:16"; read_bps = some 2 }
    ∷ record no_limit { device = sda; read_bps = some 3 }
    ∷ []

merge_limits-last_given_example :
    (let e = Dict.get sda (merge_limits [] options) in
      (entry_value (λ l. l.read_bps) e ≡ last_given (λ l. l.read_bps) sda options)
      × (entry_value (λ l. l.write_bps) e ≡ last_given (λ l. l.write_bps) sda options)
      × (entry_value (λ l. l.read_iops) e ≡ last_given (λ l. l.read_iops) sda options)
      × (entry_value (λ l. l.write_iops) e ≡ last_given (λ l. l.write_iops) sda options))
merge_limits-last_given_example = merge_limits-last_given sda options

swap_unlimited : parse_memory_swap (codes " Unlimited ") ≡ ok (negsuc 0)
unfolding parse_memory_swap trim is_whitespace text_eq
swap_unlimited = refl

positive_run : parse_positive_number (codes "12") ≡ ok 12
unfolding parse_positive_number parse_uint parse_digits trim is_whitespace
positive_run = refl

cpu_run : cpu_value (λ n. ok n) 50000 ≡ ok (codes "50000 100000")
unfolding cpu_value decimal
cpu_run = refl
