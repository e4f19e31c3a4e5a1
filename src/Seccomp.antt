-- ===== src/Seccomp.antt =====
-- src/seccomp.rs: the BPF program of the default profile. The allowlist is an argument, since its
-- numbers are libc's.
use zerun.Prelude.{
  ℕ, zero, suc, ◌+◌, ◌-◌, ◌%◌, Bool, true, false, List, [], ◌∷◌, ◌++◌, length, ltb, if◌then◌else◌,
  Result, ok, err,
}
pub mod Filter
mod Examples

-- `libc::sock_filter`
pub record SockFilter : Type 0 where
  pub code : ℕ
  pub jt : ℕ
  pub jf : ℕ
  pub k : ℕ

-- `BPF_LD | BPF_W | BPF_ABS`, `BPF_JMP | BPF_JEQ | BPF_K` and `BPF_RET | BPF_K`
abbrev pub load_word : ℕ
load_word = 0x20

abbrev pub jump_equal : ℕ
jump_equal = 0x15

abbrev pub return_constant : ℕ
return_constant = 0x06

abbrev pub ret_kill_process : ℕ
ret_kill_process = 0x80000000

abbrev pub ret_allow : ℕ
ret_allow = 0x7fff0000

-- `SECCOMP_RET_ERRNO | EPERM`, whose bits are disjoint
abbrev pub ret_errno_eperm : ℕ
ret_errno_eperm = 0x00050000 + 1

abbrev pub nr_offset : ℕ
nr_offset = 0

abbrev pub arch_offset : ℕ
arch_offset = 4

pub data Arch : Type 0 where
  x86_64 aarch64 arm riscv64 : Arch

-- `AUDIT_ARCH_NATIVE` of each target
abbrev pub audit_arch_native : Arch → ℕ
audit_arch_native x86_64 = 0xc000003e
audit_arch_native aarch64 = 0xc00000b7
audit_arch_native arm = 0x40000028
audit_arch_native riscv64 = 0xc00000f3

abbrev pub bpf_stmt : ℕ → ℕ → SockFilter
bpf_stmt code k = record { code = code; jt = 0; jf = 0; k = k }

abbrev pub bpf_jump : ℕ → ℕ → ℕ → ℕ → SockFilter
bpf_jump code jt jf k = record { code = code; jt = jt; jf = jf; k = k }

-- The loop over `allowed.iter().enumerate()`, from index `i` of `n`; the offset is cast to a `u8`.
pub compares : ℕ → ℕ → List ℕ → List SockFilter
compares n i [] = []
compares n i (nr ∷ nrs) = bpf_jump jump_equal ((n - i) % 256) 0 nr ∷ compares n (i + 1) nrs

pub data BuildError : Type 0 where
  allowlist_too_large : ℕ → BuildError

pub build_default_program : Arch → List ℕ → Result BuildError (List SockFilter)
build_default_program arch allowed =
    let n = length allowed in
    if ltb 255 n
    then err (allowlist_too_large n)
    else ok (
        bpf_stmt load_word arch_offset
        ∷ bpf_jump jump_equal 1 0 (audit_arch_native arch)
        ∷ bpf_stmt return_constant ret_kill_process
        ∷ bpf_stmt load_word nr_offset
        ∷ (compares n 0 allowed
            ++ bpf_stmt return_constant ret_errno_eperm ∷ bpf_stmt return_constant ret_allow ∷ []))
