-- ===== src/Seccomp/Examples.antt =====
-- Runs of src/seccomp.rs under an interpreter of the four instructions.
use zerun.Prelude.{ℕ, zero, suc, ◌==◌, List, [], ◌∷◌, drop, if◌then◌else◌, ok, ◌≡◌, refl}
use zerun.Seccomp.{
  SockFilter, load_word, jump_equal, return_constant, ret_kill_process, ret_allow, ret_errno_eperm,
  nr_offset, arch_offset, x86_64, audit_arch_native, bpf_stmt, bpf_jump, compares,
  build_default_program,
}
use zerun.Seccomp.Filter.{profile_answer, build_default_program-answers}

-- Jumps go forward, so the rest of the program shrinks; `skip` counts what a jump passes over.
abbrev run_skipping : (ℕ → ℕ) → ℕ → List SockFilter → ℕ → ℕ
run_skipping word skip [] a = 0
run_skipping word (suc skip) (insn ∷ rest) a = run_skipping word skip rest a
run_skipping word zero (insn ∷ rest) a =
    let loaded = run_skipping word 0 rest (word insn.k) in
    let jumped = run_skipping word (if a == insn.k then insn.jt else insn.jf) rest a in
    if insn.code == load_word then loaded else if insn.code == jump_equal then jumped else insn.k

run_skipping-drop :
    (word : ℕ → ℕ) (skip : ℕ) (rest : List SockFilter) (a : ℕ)
    → run_skipping word skip rest a ≡ run_skipping word 0 (drop skip rest) a
run_skipping-drop word zero rest a = refl
run_skipping-drop word (suc skip) [] a = refl
run_skipping-drop word (suc skip) (insn ∷ rest) a = run_skipping-drop word skip rest a

-- Call 59 on the native architecture.
abbrev call_59 : ℕ → ℕ
call_59 offset = if offset == arch_offset then audit_arch_native x86_64 else 59

abbrev two_calls : List SockFilter
two_calls =
    bpf_stmt load_word arch_offset
    ∷ bpf_jump jump_equal 1 0 (audit_arch_native x86_64)
    ∷ bpf_stmt return_constant ret_kill_process
    ∷ bpf_stmt load_word nr_offset
    ∷ bpf_jump jump_equal 2 0 1
    ∷ bpf_jump jump_equal 1 0 59
    ∷ bpf_stmt return_constant ret_errno_eperm
    ∷ bpf_stmt return_constant ret_allow
    ∷ []

built : build_default_program x86_64 (1 ∷ 59 ∷ []) ≡ ok two_calls
unfolding build_default_program compares
built = refl

build_default_program-answers_example :
    run_skipping call_59 0 two_calls 0 ≡ profile_answer x86_64 (1 ∷ 59 ∷ []) call_59
build_default_program-answers_example =
    build_default_program-answers (run_skipping call_59 0) call_59 (λ offset a rest. refl)
      (λ jt jf k a rest. run_skipping-drop call_59 (if a == k then jt else jf) rest a)
      (λ k a rest. refl) x86_64 (1 ∷ 59 ∷ []) two_calls built
