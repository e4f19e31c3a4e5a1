-- ===== src/Seccomp/Filter.antt =====
-- What the kernel answers to a system call under the program of src/seccomp.rs.
use zerun.Prelude.{
  ℕ, suc, ◌+◌, ◌-◌, ◌%◌, ◌≤◌, List, [], ◌∷◌, ◌++◌, length, drop, ◌==◌, any, if◌then◌else◌, ok, ◌≡◌,
  refl, arith, Bool-cases, inl, inr,
}
use zerun.Seccomp.{
  SockFilter, load_word, jump_equal, return_constant, ret_kill_process, ret_allow, ret_errno_eperm,
  nr_offset, arch_offset, Arch, audit_arch_native, bpf_stmt, bpf_jump, compares,
  build_default_program,
}

-- What the profile promises: another architecture is killed, a listed call allowed, any other refused.
abbrev pub profile_answer : Arch → List ℕ → (ℕ → ℕ) → ℕ
profile_answer arch allowed word =
    if word arch_offset == audit_arch_native arch
    then (if any (λ nr. word nr_offset == nr) allowed then ret_allow else ret_errno_eperm)
    else ret_kill_process

abbrev epilogue : List SockFilter
epilogue = bpf_stmt return_constant ret_errno_eperm ∷ bpf_stmt return_constant ret_allow ∷ []

-- The remaining compares and the refusal are as long as the jump.
drop-compares :
    (n i : ℕ) (nrs : List ℕ)
    → drop (suc (length nrs)) (compares n i nrs ++ epilogue)
      ≡ bpf_stmt return_constant ret_allow ∷ []
unfolding compares
drop-compares n i [] = refl
drop-compares n i (nr ∷ nrs) = drop-compares n (i + 1) nrs

-- The kernel's interpreter: `run rest a` is the answer of the instructions that are left, with the
-- accumulator `a`, and `word` the seccomp data by offset.
module _ (run : List SockFilter → ℕ → ℕ) (word : ℕ → ℕ)
    (run_load : (offset a : ℕ) (rest : List SockFilter)
      → run (bpf_stmt load_word offset ∷ rest) a ≡ run rest (word offset))
    (run_jump : (jt jf k a : ℕ) (rest : List SockFilter)
      → run (bpf_jump jump_equal jt jf k ∷ rest) a ≡ run (drop (if a == k then jt else jf) rest) a)
    (run_return : (k a : ℕ) (rest : List SockFilter)
      → run (bpf_stmt return_constant k ∷ rest) a ≡ k) where
  run-compares :
      (n i : ℕ) (nrs : List ℕ) (a : ℕ)
      → i + length nrs ≡ n
      → n ≤ 255
      → run (compares n i nrs ++ epilogue) a
        ≡ (if any (λ nr. a == nr) nrs then ret_allow else ret_errno_eperm)
  unfolding compares
  run-compares n i [] a e small = run_return ret_errno_eperm a _
  run-compares n i (nr ∷ nrs) a e small =
      let rest = compares n (i + 1) nrs ++ epilogue in
      let jumped = run_jump ((n - i) % 256) 0 nr a rest in
      let distance : (n - i) % 256 ≡ suc (length nrs) = omega (arith, e, small) in
      elim (Bool-cases (a == nr)) [
        | inl same ↦
            ground (arith, jumped, distance, drop-compares n (i + 1) nrs, run_return ret_allow a [])
        | inr other ↦ ground (arith, jumped, run-compares n (i + 1) nrs a (omega (arith, e)) small)
      ]

  -- Whatever the list, a program that is built answers as the profile promises. The interpreter is
  -- assumed to load words, to jump forward on equality, and to return constants.
  pub build_default_program-answers :
      (arch : Arch) (allowed : List ℕ) (program : List SockFilter)
      → build_default_program arch allowed ≡ ok program
      → run program 0 ≡ profile_answer arch allowed word
  unfolding build_default_program
  build_default_program-answers arch allowed program h =
      let small : length allowed ≤ 255 = ground arith in
      let gate = compares (length allowed) 0 allowed ++ epilogue in
      let checks = bpf_stmt load_word nr_offset ∷ gate in
      let kill = bpf_stmt return_constant ret_kill_process ∷ checks in
      let jump = bpf_jump jump_equal 1 0 (audit_arch_native arch) ∷ kill in
      ground (
        arith,
        run_load arch_offset 0 jump,
        run_jump 1 0 (audit_arch_native arch) (word arch_offset) kill,
        run_return ret_kill_process (word arch_offset) checks,
        run_load nr_offset (word arch_offset) gate,
        run-compares (length allowed) 0 allowed (word nr_offset) (omega arith) small,
      )
