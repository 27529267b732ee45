-- ===== src/Hwgc/Irq/Keeps.antt =====
-- The interrupt thread by its blocks.
use jvm_gc_acclelerator.Common.{ℕ, Bool, true, false, inl, inr, Bool-cases}
use jvm_gc_acclelerator.Common.Int.{ℤ, is_nonzero}
use jvm_gc_acclelerator.Common.Errno.{eio}
use jvm_gc_acclelerator.Dma.Kernel.{Device, Mmu}
use jvm_gc_acclelerator.Hwgc.Regs.{
  irq_tlb_miss, irq_done, irq_grow, irq_expand, irq_allocate, irq_wake, irq_error, event_grow,
  event_expand, event_allocate, event_wake,
}
use jvm_gc_acclelerator.Hwgc.Types.{Hwgc}
use jvm_gc_acclelerator.Hwgc.Events.{abort_operation_from_irq}
use jvm_gc_acclelerator.Hwgc.Irq.{
  has_irq, handle_stage, error_stage, handle_pending, fill_miss, publish_done, publish_request,
}

-- `P` survives the five things that the thread does.
pub record KeptByBlocks (P : Hwgc → Type 0) (dev : Device) (mmu : Mmu) : Type 0 where
  pub fill : (d : Hwgc) → P d → P (fill_miss dev mmu d).0
  pub done : (d : Hwgc) → P d → P (publish_done d).0
  pub grow : (d : Hwgc) → P d → P (publish_request dev event_grow d).0
  pub expand : (d : Hwgc) → P d → P (publish_request dev event_expand d).0
  pub allocate : (d : Hwgc) → P d → P (publish_request dev event_allocate d).0
  pub wake : (d : Hwgc) → P d → P (publish_request dev event_wake d).0
  pub abort : (status : ℤ) (d : Hwgc) → P d → P (abort_operation_from_irq status d)

module _ (P : Hwgc → Type 0)
    (abort : (status : ℤ) (d : Hwgc) → P d → P (abort_operation_from_irq status d)) where
  pub handle_stage-keeps :
      (raised : Bool) (handler : Hwgc → Hwgc × ℤ) (s : Hwgc × Bool)
      → ((d : Hwgc) → P d → P (handler d).0)
      → P s.0
      → P (handle_stage raised handler s).0
  unfolding handle_stage
  handle_stage-keeps raised handler (d, false) keep h = h
  handle_stage-keeps false handler (d, true) keep h = h
  handle_stage-keeps true handler (d, true) keep h = elim (Bool-cases (is_nonzero (handler d).1)) [
    | inl failed ↦ rw failed (abort (handler d).1 (handler d).0 (keep d h))
    | inr fine ↦ rw fine (keep d h)
  ]

  pub error_stage-keeps : (raised : Bool) (s : Hwgc × Bool) → P s.0 → P (error_stage raised s)
  unfolding error_stage
  error_stage-keeps raised (d, false) h = h
  error_stage-keeps false (d, true) h = h
  error_stage-keeps true (d, true) h = abort eio d h

pub handle_pending-keeps :
    (P : Hwgc → Type 0) (dev : Device) (mmu : Mmu) (pending : ℕ) (d : Hwgc)
    → KeptByBlocks P dev mmu
    → P d
    → P (handle_pending dev mmu pending d)
unfolding handle_pending
handle_pending-keeps P dev mmu pending d k h =
    let stage = handle_stage-keeps P k.abort in
    let tlb = handle_stage (has_irq irq_tlb_miss pending) (fill_miss dev mmu) (d, true) in
    let done = handle_stage (has_irq irq_done pending) publish_done tlb in
    let grow = handle_stage (has_irq irq_grow pending) (publish_request dev event_grow) done in
    let expand =
      handle_stage (has_irq irq_expand pending) (publish_request dev event_expand) grow in
    let allocate =
      handle_stage (has_irq irq_allocate pending) (publish_request dev event_allocate) expand in
    let wake = handle_stage (has_irq irq_wake pending) (publish_request dev event_wake) allocate in
    let at_tlb : P tlb.0 = stage _ (fill_miss dev mmu) (d, true) k.fill h in
    let at_done : P done.0 = stage _ publish_done tlb k.done at_tlb in
    let at_grow : P grow.0 = stage _ (publish_request dev event_grow) done k.grow at_done in
    let at_expand : P expand.0 = stage _ (publish_request dev event_expand) grow k.expand at_grow in
    let at_allocate : P allocate.0 =
      stage _ (publish_request dev event_allocate) expand k.allocate at_expand in
    let at_wake : P wake.0 = stage _ (publish_request dev event_wake) allocate k.wake at_allocate in
    error_stage-keeps P k.abort (has_irq irq_error pending) wake at_wake
