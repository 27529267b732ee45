-- ===== src/XorTlb/Program/Passes.antt =====
-- The program test_xor.c on a driver and a device that work.
use jvm_gc_acclelerator.Common.{
  ℕ, ◌%◌, ◌≤◌, ◌≡◌, ◌≢◌, refl, ◌∙◌, ap, arith, true, false, some, List, length, Option,
}
use Prim.Native.Nat.{bit_xor}
use jvm_gc_acclelerator.Common.Int.{ℤ, pos, is_neg}
use jvm_gc_acclelerator.Dma.Kernel.{Process, Mmu}
use jvm_gc_acclelerator.Dma.Missed.{Miss}
use jvm_gc_acclelerator.Dma.Ownership.{AllPut}
use jvm_gc_acclelerator.XorTlb.Regs.{max_pinned}
use jvm_gc_acclelerator.XorTlb.Address.{u64_user_addr_ok-aligned}
use jvm_gc_acclelerator.XorTlb.{XorTlbdev, Operation, Caller, xor_run, xor_ioctl, u64_user_addr_ok}
use jvm_gc_acclelerator.XorTlb.Misses.{AllMapped}
use jvm_gc_acclelerator.XorTlb.Runs.{Run}
use jvm_gc_acclelerator.XorTlb.Serves.{serving, xor_run-served}
use jvm_gc_acclelerator.XorTlb.Program.{
  ProgramEnv, Printed, Memory, a_word, b_word, store, operation_of, prepared, ended, report, main,
}

-- What the documentation of `posix_memalign` says of a block with the alignment 4096.
pub record IsBlock (addr : ℕ) : Type 0 where
  pub some_addr : addr ≢ 0
  pub aligned : addr % 4096 ≡ 0

-- The memory is allocated, in blocks apart from each other, and the device is opened.
pub record IsReady (env : ProgramEnv) : Type 0 where
  pub got_a : env.memalign_a ≡ 0
  pub got_b : env.memalign_b ≡ 0
  pub got_out : env.memalign_out ≡ 0
  pub block_a : IsBlock env.a
  pub block_b : IsBlock env.b
  pub block_out : IsBlock env.out
  pub a_b : env.a ≢ env.b
  pub a_out : env.a ≢ env.out
  pub b_out : env.b ≢ env.out
  pub opened : is_neg env.opened ≡ false

-- A device that writes to `out` the exclusive or of the words at `a` and `b`, and nothing else.
abbrev pub Xors : (Operation → Memory → Memory) → Type 0
Xors computed =
    (op : Operation) (mem : Memory) (p : ℕ)
    → computed op mem p ≡ store op.out (bit_xor (mem op.a) (mem op.b)) mem p

store-other : (p q word : ℕ) (mem : Memory) → q ≢ p → store p word mem q ≡ mem q
store-other p q word mem apart = ground (arith, apart)

store-same : (p word : ℕ) (mem : Memory) → store p word mem p ≡ word
store-same p word mem = ground arith

module _ (env : ProgramEnv) (ready : IsReady env) where
  prepared-a : prepared env env.a ≡ a_word
  prepared-a = ground (arith, ready.a_out, ready.a_b)

  prepared-b : prepared env env.b ≡ b_word
  prepared-b = ground (arith, ready.b_out)

  abbrev both : ℕ
  both = bit_xor (prepared env env.a) (prepared env env.b)

  module _ (xors : Xors env.computed) where
    ended-a : ended env env.a ≡ a_word
    ended-a =
        xors (operation_of env) (prepared env) env.a
        ∙ store-other env.out env.a both (prepared env) ready.a_out
        ∙ prepared-a

    ended-b : ended env env.b ≡ b_word
    ended-b =
        xors (operation_of env) (prepared env) env.b
        ∙ store-other env.out env.b both (prepared env) ready.b_out
        ∙ prepared-b

    ended-out : ended env env.out ≡ bit_xor a_word b_word
    ended-out =
        xors (operation_of env) (prepared env) env.out
        ∙ store-same env.out both (prepared env)
        ∙ ap (λ w. bit_xor w (prepared env env.b)) prepared-a
        ∙ ap (bit_xor a_word) prepared-b

IsBlock-accepted :
    (page_shift addr : ℕ) → 3 ≤ page_shift → IsBlock addr → u64_user_addr_ok page_shift addr ≡ true
IsBlock-accepted page_shift addr big h =
    u64_user_addr_ok-aligned page_shift addr big h.some_addr
      (let aligned = h.aligned in omega (arith, aligned))

-- What the program prints when all is well.
abbrev pub right_answer : Printed
right_answer = record {
  a = a_word;
  b = b_word;
  out = bit_xor a_word b_word;
  result = bit_xor a_word b_word;
  expect = bit_xor a_word b_word;
}

report-right :
    (env : ProgramEnv) (op : Operation) (dev : Option XorTlbdev) (ret : ℤ) (out : Option Operation)
    → IsReady env
    → Xors env.computed
    → ret ≡ pos 0
    → out ≡ some (record op { result = ended env env.out })
    → report env (dev, ret, out) ≡ (dev, 0, some right_answer)
unfolding report
report-right env op dev ret out ready xors zero handed =
    rw (zero, handed, ended-a env ready xors, ended-b env ready xors, ended-out env ready xors) refl

main-ioctl :
    (env : ProgramEnv) (caller : Caller) (d : XorTlbdev)
    → IsReady env
    → env.call (operation_of env) (ended env env.out) ≡ caller
    → let (d', ret, out) = xor_run caller caller.op d in
      main env (some d) ≡ report env (some d', ret, out)
unfolding main xor_ioctl
main-ioctl env caller d ready calls =
    rw (ready.got_a, ready.got_b, ready.got_out, ready.opened, calls) refl

-- The program on the driver between two calls of its ioctl: its memory is allocated in blocks apart from
-- each other, the device is opened, the device writes to `out` the exclusive or of the words at `a` and
-- `b` and nothing else, after misses that are at most as many as pages can be pinned and whose lookups
-- succeed, it signals DONE, the wait ends in time, and the driver can read the word at `out` and copy the
-- operation. Then the program exits with 0 and prints its two words and, as the word at `out`, as the
-- driver's result and as what it expects, their exclusive or; and the driver is left without an operation
-- and with each page, task and mm put as often as a reference to it was taken.
pub main-right_answer :
    (env : ProgramEnv) (current : Process) (mm page_shift : ℕ) (mmu : Mmu) (pages : ℕ → ℕ)
    (misses : List Miss) (left : ℕ) (d : XorTlbdev)
    → IsReady env
    → Xors env.computed
    → ((op : Operation) (word : ℕ)
        → env.call op word ≡ serving op current page_shift mmu misses left word)
    → Run d
    → 3 ≤ page_shift
    → current.mm ≡ some mm
    → length misses ≤ max_pinned
    → AllMapped mmu current.task mm pages misses
    → let op = operation_of env in
      let served =
        xor_run (serving op current page_shift mmu misses left (ended env env.out)) (some op) d in
      (main env (some d) ≡ (some served.0, 0, some right_answer))
      × (served.0.op_active ≡ false)
      × AllPut served.0.dma
main-right_answer env current mm page_shift mmu pages misses left d ready xors calls run big has few
      mapped =
    let op = operation_of env in
    let word = ended env env.out in
    let caller = serving op current page_shift mmu misses left word in
    let (ret, out, done, off, put, sent) =
      xor_run-served op current mm page_shift mmu pages misses left word d run
        (IsBlock-accepted page_shift env.a big ready.block_a)
        (IsBlock-accepted page_shift env.b big ready.block_b)
        (IsBlock-accepted page_shift env.out big ready.block_out) has few mapped in
    let (d', ret', out') = xor_run caller (some op) d in
    (
      main-ioctl env caller d ready (calls op word)
          ∙ report-right env op (some d') ret' out' ready xors ret out,
      off,
      put,
    )
