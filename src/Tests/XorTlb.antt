-- ===== src/Tests/XorTlb.antt =====
-- Runs of the XOR device's driver.
use Prim.Native.Nat.{bit_xor}
use jvm_gc_acclelerator.Common.{
  ℕ, ◌≡◌, refl, arith, true, false, not, some, ◌∷◌, [], ◌++◌, List, is_some, if◌then◌else◌,
}
use jvm_gc_acclelerator.Common.Int.{pos, negsuc, is_nonzero}
use jvm_gc_acclelerator.Driver.{Resource, acquired, released}
use jvm_gc_acclelerator.Dma.Answer.{writes}
use jvm_gc_acclelerator.Dma.Missed.{Miss, pushed}
use jvm_gc_acclelerator.Dma.Ownership.{AllPut}
use jvm_gc_acclelerator.XorTlb.Regs.{xor_port, irq_tlb_miss}
use jvm_gc_acclelerator.XorTlb.{XorTlbdev, Interrupt, Caller, xor_run, u64_user_addr_ok, Operation}
use jvm_gc_acclelerator.XorTlb.Probe.{ProbeEnv, probe, remove, new_xor_tlbdev}
use jvm_gc_acclelerator.XorTlb.Probing.{probe-remove-balanced}
use jvm_gc_acclelerator.XorTlb.Runs.{probed, ioctl, Run-AllPut}
use jvm_gc_acclelerator.Dma.{}
use jvm_gc_acclelerator.XorTlb.Misses.{interrupts_sent, AllMapped}
use jvm_gc_acclelerator.XorTlb.Serves.{serving, start_sent, xor_run-served}
use jvm_gc_acclelerator.XorTlb.Program.{ProgramEnv, store, operation_of, ended, main}
use jvm_gc_acclelerator.XorTlb.Program.Passes.{IsReady, right_answer, main-right_answer}
use jvm_gc_acclelerator.Tests.Values.{process, device, mmu}

-- A TLB miss, served, and then a signal that ends the wait.
abbrev caller : Caller
caller = record {
  op = some (record { a = 0x5000; b = 0x5008; out = 0x5010; result = 0 });
  current = process;
  page_shift = 12;
  interrupts =
      Interrupt.top (device irq_tlb_miss xor_port)
      ∷ Interrupt.thread (device irq_tlb_miss xor_port) mmu
      ∷ [];
  waited = negsuc 511;
  late = [];
  read = some 0;
  copied = true;
}

abbrev interrupted : XorTlbdev
interrupted = (xor_run caller caller.op new_xor_tlbdev).0

Run-AllPut_example : (interrupted.op_active ≡ false) × AllPut interrupted.dma
Run-AllPut_example = Run-AllPut (ioctl caller caller.op probed)

-- A probe that fails at the last step.
abbrev no_misc_device : ProbeEnv
no_misc_device = record {
  kzalloc_ok = true;
  enable_device = pos 0;
  request_regions = pos 0;
  iomap = some 4096;
  alloc_irq_vectors = pos 1;
  irq_vector = pos 5;
  request_irq = pos 0;
  misc_register = negsuc 15;
}

probe-remove-balanced_example :
    let p = probe no_misc_device in
    let after =
      if is_some p.device then (remove (some new_xor_tlbdev) p.resources).1 else p.resources in
    (is_some p.device ≡ not (is_nonzero p.ret))
    × (acquired Resource.bar_mapping after ≡ released Resource.bar_mapping after)
probe-remove-balanced_example =
    probe-remove-balanced no_misc_device Resource.bar_mapping new_xor_tlbdev

-- An operation that the device ends by DONE.
abbrev operation : Operation
operation = record { a = 0x5000; b = 0x5008; out = 0x5010; result = 0 }

-- A read miss and a write miss of the same page, and DONE.
abbrev misses : List Miss
misses = record { va = 0x5000; write = false } ∷ record { va = 0x5010; write = true } ∷ []

-- Every lookup gives page 21.
abbrev pages : ℕ → ℕ
pages va = 21

misses-AllMapped : AllMapped mmu 7 8 pages misses
misses-AllMapped = (record { one = refl; gave = refl }, (record { one = refl; gave = refl }, tt))

addr_ok :
    (u64_user_addr_ok 12 0x5000 ≡ true)
    × (u64_user_addr_ok 12 0x5008 ≡ true)
    × (u64_user_addr_ok 12 0x5010 ≡ true)
unfolding u64_user_addr_ok
addr_ok = (refl, refl, refl)

xor_run-served_example :
    let (d', ret, out) =
      xor_run (serving operation process 12 mmu misses 249 99) (some operation) new_xor_tlbdev in
    (ret ≡ pos 0)
    × (out ≡ some (record operation { result = 99 }))
    × (d'.done ≡ 0)
    × (d'.op_active ≡ false)
    × AllPut d'.dma
    × (writes d'.calls ≡ pushed (start_sent operation ++ interrupts_sent mmu pages misses) [])
xor_run-served_example =
    xor_run-served operation process 8 12 mmu pages misses 249 99 new_xor_tlbdev probed addr_ok.0
      addr_ok.1 addr_ok.2 refl (omega arith) misses-AllMapped

-- Three blocks, each of which the device misses.
abbrev block_misses : List Miss
block_misses =
    record { va = 0x1000; write = false }
    ∷ record { va = 0x2000; write = false }
    ∷ record { va = 0x3000; write = true }
    ∷ []

-- The device computes what it should.
abbrev program : ProgramEnv
program = record {
  memalign_a = 0;
  memalign_b = 0;
  memalign_out = 0;
  a = 0x1000;
  b = 0x2000;
  out = 0x3000;
  opened = pos 3;
  call = λ op word. serving op process 12 mmu block_misses 249 word;
  memory = λ p. 0;
  computed = λ op mem. store op.out (bit_xor (mem op.a) (mem op.b)) mem;
}

block_misses-AllMapped : AllMapped mmu 7 8 pages block_misses
block_misses-AllMapped = (
  record { one = refl; gave = refl },
  (record { one = refl; gave = refl }, (record { one = refl; gave = refl }, tt)),
)

program-IsReady : IsReady program
program-IsReady = record {
  got_a = refl;
  got_b = refl;
  got_out = refl;
  block_a = record { some_addr = λ e. omega arith; aligned = refl };
  block_b = record { some_addr = λ e. omega arith; aligned = refl };
  block_out = record { some_addr = λ e. omega arith; aligned = refl };
  a_b = λ e. omega arith;
  a_out = λ e. omega arith;
  b_out = λ e. omega arith;
  opened = refl;
}

main-right_answer_example :
    let op = operation_of program in
    let served =
      xor_run
        (serving op process 12 mmu block_misses 249 (ended program 0x3000))
        (some op)
        new_xor_tlbdev in
    (main program (some new_xor_tlbdev) ≡ (some served.0, 0, some right_answer))
    × (served.0.op_active ≡ false)
    × AllPut served.0.dma
main-right_answer_example =
    main-right_answer program process 8 12 mmu pages block_misses 249 new_xor_tlbdev program-IsReady
      (λ op mem p. refl) (λ op word. refl) probed (omega arith) refl (omega arith)
      block_misses-AllMapped
