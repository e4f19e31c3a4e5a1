-- ===== src/Cgroup/Plan.antt =====
-- What `plan_limit_writes` of src/cgroup.rs plans, option by option.
use mathlib.Core.Path.{subst}
use zerun.Prelude.{
  ℕ, ◌+◌, ◌-◌, ◌≤◌, ◌≡◌, inl, inr, Bool, true, false, Option, none, some, List, [], ◌∷◌, ◌++◌, Text,
  Result, ok, >>=-eq-ok, arith, if◌then◌else◌, ok_injective, Bool-cases, ltb, codes, sym, ap, ◌∙◌,
}
use zerun.Prelude.Decimal.{decimal}
use zerun.Prelude.Int.{ℤ, pos, negsuc}
use zerun.Cgroup.{
  LimitError, IoLimit, parse_size, swap_limit_for_total, ControlFile, memory_max, memory_swap_max,
  memory_high, cpu_max, cpuset_cpus, cpuset_mems, pids_max, io_max, memory_oom_group, Writes,
  plan_one, plan_memory, pids_value, ResourceLimits, cpu_value, plan_limit_writes, parse_cpuset,
  io_max_value,
}

-- The place of a file in the plan.
abbrev pub rank : ControlFile → ℕ
rank memory_max = 0
rank memory_swap_max = 1
rank memory_high = 2
rank cpu_max = 3
rank cpuset_cpus = 4
rank cpuset_mems = 5
rank pids_max = 6
rank io_max = 7
rank memory_oom_group = 8

-- The files of the writes stand in the plan's order, each at most once, between two places.
abbrev pub Ordered : ℕ → ℕ → Writes → Type 0
Ordered lo hi [] = lo ≤ hi
Ordered lo hi ((file, v) ∷ w) = (lo ≤ rank file) × Ordered (rank file + 1) hi w

Ordered-weaken : (lo lo' hi : ℕ) (w : Writes) → lo ≤ lo' → Ordered lo' hi w → Ordered lo hi w
Ordered-weaken lo lo' hi [] le h = omega arith
Ordered-weaken lo lo' hi ((file, v) ∷ w) le h = (omega arith, h.1)

Ordered-append :
    (lo mid hi : ℕ) (w w' : Writes) → Ordered lo mid w → Ordered mid hi w' → Ordered lo hi (w ++ w')
Ordered-append lo mid hi [] w' h h' = Ordered-weaken lo mid hi w' h h'
Ordered-append lo mid hi ((file, v) ∷ w) w' h h' =
    (h.0, Ordered-append (rank file + 1) mid hi w w' h.1 h')

plan_one-Ordered {ℓ} :
    {A : Type ℓ} (file : ControlFile) (o : Option A) (value : A → Result LimitError Text)
    (w : Writes)
    → plan_one file o value ≡ ok w
    → Ordered (rank file) (rank file + 1) w
unfolding plan_one
plan_one-Ordered file none value w h =
    subst (Ordered (rank file) (rank file + 1)) (ok_injective h) (omega arith)
plan_one-Ordered file (some a) value w h =
    let (v, found, rest) = >>=-eq-ok (value a) (λ v. ok ((file, v) ∷ [])) h in
    subst (Ordered (rank file) (rank file + 1)) (ok_injective rest) (omega arith, omega arith)

two_Ordered : (a b : Text) → Ordered 0 2 ((memory_max, a) ∷ (memory_swap_max, b) ∷ [])
two_Ordered a b = omega arith

plan_memory-Ordered :
    (mem : Option Text) (swap : Option ℤ) (current : Option ℕ) (w : Writes)
    → plan_memory mem swap current ≡ ok w
    → Ordered 0 2 w
unfolding plan_memory swap_limit_for_total
plan_memory-Ordered (some mem) (some total) current w h =
    let (bytes, p, h') = >>=-eq-ok (parse_size mem) _ h in
    let (limit, q, h'') = >>=-eq-ok (swap_limit_for_total bytes total) _ h' in
    subst (Ordered 0 2) (ok_injective h'') (two_Ordered (decimal bytes) limit)
plan_memory-Ordered (some mem) none current w h =
    let (bytes, p, h') = >>=-eq-ok (parse_size mem) _ h in
    subst (Ordered 0 2) (ok_injective h') (two_Ordered (decimal bytes) (decimal bytes))
plan_memory-Ordered none none current w h = subst (Ordered 0 2) (ok_injective h) (omega arith)
plan_memory-Ordered none (some (negsuc n)) current w h =
    subst (Ordered 0 2) (ok_injective h) (omega arith)
plan_memory-Ordered none (some (pos total)) none w h = cc
plan_memory-Ordered none (some (pos total)) (some memory) w h =
    let (limit, q, h') = >>=-eq-ok (swap_limit_for_total memory (pos total)) _ h in
    subst (Ordered 0 2) (ok_injective h') (omega arith)

-- With a memory limit and a total, the swap limit is what the total leaves over.
pub plan_memory-total :
    (mem : Text) (total : ℕ) (current : Option ℕ) (w : Writes)
    → plan_memory (some mem) (some (pos total)) current ≡ ok w
    → (bytes swap : ℕ) × (parse_size mem ≡ ok bytes)
      × (bytes + swap ≡ total)
      × (w ≡ (memory_max, decimal bytes) ∷ (memory_swap_max, decimal swap) ∷ [])
unfolding plan_memory swap_limit_for_total
plan_memory-total mem total current w h =
    let (bytes, p, h') = >>=-eq-ok (parse_size mem) _ h in
    elim (Bool-cases (ltb total bytes)) [
      | inl low ↦ ground arith
      | inr fine ↦ (bytes, total - bytes, p, ground arith, ground arith)
    ]

module _ {F64 : Type 0} (cpu_quota : F64 → Result LimitError ℕ) where
  -- The parts of a plan that was made, one for each option.
  pub record PlanParts (limits : ResourceLimits F64) (current : Option ℕ) (w : Writes)
      : Type 0 where
    pub memory : Writes
    pub high : Writes
    pub cpu : Writes
    pub cpus : Writes
    pub mems : Writes
    pub pids : Writes
    pub tail : Writes
    pub memory_planned : plan_memory limits.memory limits.memory_swap current ≡ ok memory
    pub high_Ordered : Ordered 2 3 high
    pub cpu_Ordered : Ordered 3 4 cpu
    pub cpus_Ordered : Ordered 4 5 cpus
    pub mems_Ordered : Ordered 5 6 mems
    pub pids_planned : plan_one pids_max limits.pids pids_value ≡ ok pids
    pub tail_Ordered : Ordered 7 9 tail
    pub joined : memory ++ (high ++ (cpu ++ (cpus ++ (mems ++ (pids ++ tail))))) ≡ w

  tail_of : ResourceLimits F64 → Writes
  tail_of limits =
      (elim limits.io [ [] ↦ [] | l ∷ ls ↦ (io_max, io_max_value (l ∷ ls)) ∷ [] ])
      ++ (if limits.oom_group then (memory_oom_group, codes "1") ∷ [] else [])

  tail_of-Ordered : (limits : ResourceLimits F64) → Ordered 7 9 (tail_of limits)
  unfolding tail_of
  tail_of-Ordered limits = go limits.io limits.oom_group
    where
      go :
          (ls : List IoLimit) (oom : Bool)
          → Ordered 7 9 (
              (elim ls [ [] ↦ [] | l ∷ ls' ↦ (io_max, io_max_value (l ∷ ls')) ∷ [] ])
              ++ (if oom then (memory_oom_group, codes "1") ∷ [] else []))
      go [] true = omega arith
      go [] false = omega arith
      go (l ∷ ls) true = omega arith
      go (l ∷ ls) false = omega arith

  plan_parts :
      (limits : ResourceLimits F64) (current : Option ℕ) (w : Writes)
      → plan_limit_writes cpu_quota limits current ≡ ok w
      → PlanParts limits current w
  unfolding plan_limit_writes tail_of
  plan_parts limits current w h =
      let (memory, e1, h1) = >>=-eq-ok (plan_memory limits.memory limits.memory_swap current) _ h in
      let (high, e2, h2) = >>=-eq-ok (plan_one memory_high limits.memory_reservation _) _ h1 in
      let (cpu, e3, h3) = >>=-eq-ok (plan_one cpu_max limits.cpus (cpu_value cpu_quota)) _ h2 in
      let (cpus, e4, h4) = >>=-eq-ok (plan_one cpuset_cpus limits.cpuset_cpus parse_cpuset) _ h3 in
      let (mems, e5, h5) = >>=-eq-ok (plan_one cpuset_mems limits.cpuset_mems parse_cpuset) _ h4 in
      let (pids, e6, h6) = >>=-eq-ok (plan_one pids_max limits.pids pids_value) _ h5 in
      record {
        memory = memory;
        high = high;
        cpu = cpu;
        cpus = cpus;
        mems = mems;
        pids = pids;
        tail = tail_of limits;
        memory_planned = e1;
        high_Ordered = plan_one-Ordered memory_high limits.memory_reservation _ high e2;
        cpu_Ordered = plan_one-Ordered cpu_max limits.cpus _ cpu e3;
        cpus_Ordered = plan_one-Ordered cpuset_cpus limits.cpuset_cpus _ cpus e4;
        mems_Ordered = plan_one-Ordered cpuset_mems limits.cpuset_mems _ mems e5;
        pids_planned = e6;
        tail_Ordered = tail_of-Ordered limits;
        joined = ok_injective h6;
      }

  -- A plan writes the control files in one fixed order, each at most once.
  pub plan_limit_writes-Ordered :
      (limits : ResourceLimits F64) (current : Option ℕ) (w : Writes)
      → plan_limit_writes cpu_quota limits current ≡ ok w
      → Ordered 0 9 w
  plan_limit_writes-Ordered limits current w h =
      let p = plan_parts limits current w h in
      let pids_o = plan_one-Ordered pids_max limits.pids pids_value p.pids p.pids_planned in
      let memory_o =
        plan_memory-Ordered limits.memory limits.memory_swap current p.memory p.memory_planned in
      subst (Ordered 0 9) p.joined (
        Ordered-append 0 2 9 _ _ memory_o (
          Ordered-append 2 3 9 _ _ p.high_Ordered (
            Ordered-append 3 4 9 _ _ p.cpu_Ordered (
              Ordered-append 4 5 9 _ _ p.cpus_Ordered (
                Ordered-append 5 6 9 _ _ p.mems_Ordered
                  (Ordered-append 6 7 9 _ _ pids_o p.tail_Ordered))))))

  -- With a memory limit and a finite total of memory and swap, a plan begins with the two memory
  -- files, and their values add up to the total that was asked for.
  pub plan_limit_writes-total :
      (limits : ResourceLimits F64) (current : Option ℕ) (mem : Text) (total : ℕ) (w : Writes)
      → limits.memory ≡ some mem
      → limits.memory_swap ≡ some (pos total)
      → plan_limit_writes cpu_quota limits current ≡ ok w
      → (bytes swap : ℕ) × (rest : Writes) × (parse_size mem ≡ ok bytes)
        × (bytes + swap ≡ total)
        × (w ≡ (memory_max, decimal bytes) ∷ (memory_swap_max, decimal swap) ∷ rest)
  plan_limit_writes-total limits current mem total w em es h =
      let p = plan_parts limits current w h in
      let planned : plan_memory (some mem) (some (pos total)) current ≡ ok p.memory =
        rw (← em, ← es) p.memory_planned in
      let (bytes, swap, size, sum, first) = plan_memory-total mem total current p.memory planned in
      let rest = p.high ++ (p.cpu ++ (p.cpus ++ (p.mems ++ (p.pids ++ p.tail)))) in
      (bytes, swap, rest, size, sum, sym p.joined ∙ ap (λ m. m ++ rest) first)
