-- ===== src/Hwgc/Irq/Pending.antt =====
-- Interrupts between the two halves of the handler.
use jvm_gc_acclelerator.Common.{
  ℕ, zero, suc, ◌*◌, ◌/◌, ◌^◌, ◌≡◌, refl, arith, false, ◌⊎◌, inl, inr, Bool-cases, ◌||◌, ◌∷◌,
  bit_or, ◌==◌, if◌then◌else◌,
}
use native.Mathlib.Nat.{one-le-pow}
use jvm_gc_acclelerator.Common.Bits.{bit_at, bit_at-bit_or, bit_and-mask}
use jvm_gc_acclelerator.Dma.Kernel.{Call, Device, Mmu}
use jvm_gc_acclelerator.Hwgc.Regs.{reg_irq_status, reg_irq_clear}
use jvm_gc_acclelerator.Hwgc.Types.{Hwgc}
use jvm_gc_acclelerator.Hwgc.Events.{publish_sw_event, abort_operation_from_irq}
use jvm_gc_acclelerator.Hwgc.Irq.{
  IrqReturn, irq_top, irq_thread, has_irq, fill_miss, publish_done, publish_request,
}
use jvm_gc_acclelerator.Hwgc.Irq.Keeps.{KeptByBlocks, handle_pending-keeps}

bit_at-cases : (k n : ℕ) → (bit_at k n ≡ 0) ⊎ (bit_at k n ≡ 1)
bit_at-cases zero n = omega arith
bit_at-cases (suc k) n = bit_at-cases k (n / 2)

-- The test of a mask of one bit, by the value of that bit.
has_irq-bit_at : (k n : ℕ) → has_irq (2 ^ k) n ≡ (bit_at k n == 1)
has_irq-bit_at k n = elim (bit_at-cases k n) [
  | inl clear ↦ rw (bit_and-mask k n, clear) (let e : 0 * 2 ^ k ≡ 0 = omega arith in rw e refl)
  | inr raised ↦ rw (bit_and-mask k n, raised) (ground (arith, one-le-pow k 2))
]

bit_at-zero : (k : ℕ) → bit_at k 0 ≡ 0
bit_at-zero zero = refl
bit_at-zero (suc k) = bit_at-zero k

-- Bit `k` is raised in `a | b` exactly if it is raised in `a` or in `b`.
has_irq-bit_or :
    (k a b : ℕ) → has_irq (2 ^ k) (bit_or a b) ≡ (has_irq (2 ^ k) a || has_irq (2 ^ k) b)
has_irq-bit_or k a b =
    rw (has_irq-bit_at k (bit_or a b), has_irq-bit_at k a, has_irq-bit_at k b, bit_at-bit_or k a b)
      (ground (arith, bit_at-cases k a, bit_at-cases k b))

-- No bit is raised in 0.
pub has_irq-zero : (k : ℕ) → has_irq (2 ^ k) 0 ≡ false
has_irq-zero k = rw (has_irq-bit_at k 0, bit_at-zero k) refl

-- For each interrupt bit, it waits for the thread after the top half exactly if it waited
-- before or the device reports it now. What the device reports is acknowledged by one write,
-- and the thread is woken, exactly if it is not 0.
pub irq_top-pending :
    (k : ℕ) (dev : Device) (d : Hwgc)
    → let st = dev.read32 reg_irq_status in
      let (d', ret) = irq_top dev d in
      (has_irq (2 ^ k) d'.pending_irq ≡ (has_irq (2 ^ k) d.pending_irq || has_irq (2 ^ k) st))
      × (d'.calls ≡ (if st == 0 then d.calls else Call.write32 reg_irq_clear st ∷ d.calls))
      × (ret ≡ (if st == 0 then IrqReturn.irq_none else IrqReturn.irq_wake_thread))
unfolding irq_top
irq_top-pending k dev d = elim (Bool-cases (dev.read32 reg_irq_status == 0)) [
  | inl quiet ↦
      let zero_st : dev.read32 reg_irq_status ≡ 0 = ground arith in
      rw (zero_st, irq_top) (ground (arith, has_irq-zero k))
  | inr raised ↦ rw raised (has_irq-bit_or k d.pending_irq (dev.read32 reg_irq_status), refl, refl)
]

pending_cleared : (dev : Device) (mmu : Mmu) → KeptByBlocks (λ d. d.pending_irq ≡ 0) dev mmu
unfolding fill_miss publish_done publish_request publish_sw_event abort_operation_from_irq
pending_cleared dev mmu = record {
  fill = λ d h. ground arith;
  done = λ d h. ground arith;
  grow = λ d h. ground arith;
  expand = λ d h. ground arith;
  allocate = λ d h. ground arith;
  wake = λ d h. ground arith;
  abort = λ status d h. ground arith;
}

-- After a run of the thread no interrupt waits, whatever its blocks did.
irq_thread-pending :
    (dev : Device) (mmu : Mmu) (d : Hwgc) → (irq_thread dev mmu d).0.pending_irq ≡ 0
unfolding irq_thread
irq_thread-pending dev mmu d =
    handle_pending-keeps (λ d'. d'.pending_irq ≡ 0) dev mmu d.pending_irq _
      (pending_cleared dev mmu) refl
