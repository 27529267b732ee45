-- ===== src/XorTlb/Program.antt =====
-- The program loongnix/qemu_dev/test_device/test_xor.c, on the driver of the XOR device. What the system
-- calls return, and what the device makes of the memory, are arguments.
pub mod Passes
use jvm_gc_acclelerator.Common.{
  ℕ, ◌%◌, ◌≤◌, ◌≡◌, ◌≢◌, refl, ap, subst, arith, Bool, true, false, not, ◌||◌, Option, none, some,
  List, ◌++◌, ◌==◌, if◌then◌else◌, length,
}
use Prim.Native.Nat.{bit_xor}
use jvm_gc_acclelerator.Common.Int.{ℤ, pos, is_neg}
use jvm_gc_acclelerator.Dma.Kernel.{Process, Mmu}
use jvm_gc_acclelerator.Dma.Missed.{Miss}
use jvm_gc_acclelerator.Dma.Ownership.{AllPut}
use jvm_gc_acclelerator.XorTlb.Regs.{max_pinned, xor_tlb_ioc_run}
use jvm_gc_acclelerator.XorTlb.Address.{u64_user_addr_ok-aligned}
use jvm_gc_acclelerator.XorTlb.{XorTlbdev, Operation, Caller, xor_run, xor_ioctl}
use jvm_gc_acclelerator.XorTlb.Misses.{AllMapped}
use jvm_gc_acclelerator.XorTlb.Runs.{Run}
use jvm_gc_acclelerator.XorTlb.Serves.{serving, xor_run-served}

abbrev pub a_word : ℕ
a_word = 0x1122334455667788

abbrev pub b_word : ℕ
b_word = 0xff00ff00aa55aa55

-- The words of the process's memory, by their addresses.
abbrev pub Memory : Type 0
Memory = ℕ → ℕ

abbrev pub store : ℕ → ℕ → Memory → Memory
store p word mem q = if q == p then word else mem q

-- What the program gets from outside: the returns of `posix_memalign` and the blocks, that of `open`, how
-- the ioctl goes for an operation and the word that lies at its `out` when the driver reads it, and what
-- the device makes of the memory.
pub record ProgramEnv : Type 0 where
  pub memalign_a : ℕ
  pub memalign_b : ℕ
  pub memalign_out : ℕ
  pub a : ℕ
  pub b : ℕ
  pub out : ℕ
  pub opened : ℤ
  pub call : Operation → ℕ → Caller
  pub memory : Memory
  pub computed : Operation → Memory → Memory

-- The values that the program prints.
pub record Printed : Type 0 where
  pub a : ℕ
  pub b : ℕ
  pub out : ℕ
  pub result : ℕ
  pub expect : ℕ

abbrev pub operation_of : ProgramEnv → Operation
operation_of env = record { a = env.a; b = env.b; out = env.out; result = 0 }

-- The memory when the ioctl is called, and when it has returned.
abbrev pub prepared : ProgramEnv → Memory
prepared env = store env.out 0 (store env.b b_word (store env.a a_word env.memory))

abbrev pub ended : ProgramEnv → Memory
ended env = env.computed (operation_of env) (prepared env)

-- `op` after the ioctl.
abbrev pub handed_over : Operation → Option Operation → Operation
handed_over op none = op
handed_over op (some got) = got

-- From the return of the ioctl on.
unfoldable pub report :
    ProgramEnv → Option XorTlbdev × ℤ × Option Operation → Option XorTlbdev × ℕ × Option Printed
report env (dev, ret, out) =
    let mem = ended env in
    let expect = bit_xor (mem env.a) (mem env.b) in
    if is_neg ret then (dev, 1, none) else (
      dev,
      if mem env.out == expect then 0 else 2,
      some (record {
        a = mem env.a;
        b = mem env.b;
        out = mem env.out;
        result = (handed_over (operation_of env) out).result;
        expect = expect;
      }),
    )

-- The exit status and what is printed to stdout.
unfoldable pub main : ProgramEnv → Option XorTlbdev → Option XorTlbdev × ℕ × Option Printed
unfolding report xor_ioctl
main env dev =
    if not (env.memalign_a == 0) || not (env.memalign_b == 0) || not (env.memalign_out == 0)
    then (dev, 1, none)
    else if is_neg env.opened
    then (dev, 1, none)
    else report env
        (xor_ioctl xor_tlb_ioc_run (env.call (operation_of env) (ended env env.out)) dev)
