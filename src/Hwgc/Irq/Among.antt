-- ===== src/Hwgc/Irq/Among.antt =====
-- A run of the interrupt thread of loongnix/qemu_dev/hwgc_driver/hwgc_driver_platform.c with top halves
-- of further interrupts before, between and after its blocks.
pub mod Blocks
pub mod Quiet
pub mod Atomic
use jvm_gc_acclelerator.Common.{ℕ, Bool, true, List, [], ◌∷◌}
use jvm_gc_acclelerator.Dma.Kernel.{Device, Mmu}
use jvm_gc_acclelerator.Hwgc.Regs.{
  irq_tlb_miss, irq_done, irq_grow, irq_expand, irq_allocate, irq_wake, irq_error, event_grow,
  event_expand, event_allocate, event_wake,
}
use jvm_gc_acclelerator.Hwgc.Types.{Hwgc}
use jvm_gc_acclelerator.Hwgc.Irq.{
  irq_top, has_irq, fill_miss, publish_done, publish_request, handle_stage, error_stage,
}

-- The top halves of some interrupts, in their order.
unfoldable pub irq_tops : List Device → Hwgc → Hwgc
unfolding irq_top
irq_tops [] d = d
irq_tops (dev ∷ rest) d = irq_tops rest (irq_top dev d).0

abbrev pub among : List Device → Hwgc × Bool → Hwgc × Bool
among tops (d, going) = (irq_tops tops d, going)

-- `tops k` are those at place `k`: 0 is after the thread has taken the pending interrupts.
unfoldable pub handle_pending_among : Device → Mmu → (ℕ → List Device) → ℕ → Hwgc → Hwgc
unfolding handle_stage error_stage irq_tops
handle_pending_among dev mmu tops pending d =
    let first = among (tops 0) (d, true) in
    let tlb = handle_stage (has_irq irq_tlb_miss pending) (fill_miss dev mmu) first in
    let done = handle_stage (has_irq irq_done pending) publish_done (among (tops 1) tlb) in
    let grow =
      handle_stage (has_irq irq_grow pending) (publish_request dev event_grow)
        (among (tops 2) done) in
    let expand =
      handle_stage (has_irq irq_expand pending) (publish_request dev event_expand)
        (among (tops 3) grow) in
    let allocate =
      handle_stage (has_irq irq_allocate pending) (publish_request dev event_allocate)
        (among (tops 4) expand) in
    let wake =
      handle_stage (has_irq irq_wake pending) (publish_request dev event_wake)
        (among (tops 5) allocate) in
    irq_tops (tops 7) (error_stage (has_irq irq_error pending) (among (tops 6) wake))

unfoldable pub irq_thread_among : Device → Mmu → (ℕ → List Device) → Hwgc → Hwgc
unfolding handle_pending_among
irq_thread_among dev mmu tops d =
    handle_pending_among dev mmu tops d.pending_irq (record d { pending_irq = 0 })
