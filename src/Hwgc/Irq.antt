-- ===== src/Hwgc/Irq.antt =====
-- The two halves of the interrupt handler of
-- loongnix/qemu_dev/hwgc_driver/hwgc_driver_platform.c.
pub mod Keeps
pub mod Pending
pub mod Among
use jvm_gc_acclelerator.Common.{ℕ, Bool, true, false, not, bit_and, bit_or, ◌==◌, if◌then◌else◌}
use jvm_gc_acclelerator.Common.Int.{ℤ, is_nonzero}
use jvm_gc_acclelerator.Common.Errno.{eio}
use jvm_gc_acclelerator.Dma.Kernel.{Device, Mmu}
use jvm_gc_acclelerator.Dma.{fill_tlb_for_miss}
use jvm_gc_acclelerator.Hwgc.Regs.{
  hwgc_port, reg_irq_status, reg_irq_clear, reg_irq_par0, reg_irq_par1, irq_tlb_miss, irq_done,
  irq_grow, irq_expand, irq_allocate, irq_wake, irq_error, event_done, event_grow, event_expand,
  event_allocate, event_wake,
}
use jvm_gc_acclelerator.Hwgc.Types.{Hwgc, reg_write32}
use jvm_gc_acclelerator.Hwgc.Events.{publish_sw_event, abort_operation_from_irq}

pub data IrqReturn : Type 0 where
  irq_none irq_handled irq_wake_thread : IrqReturn

unfoldable pub irq_top : Device → Hwgc → Hwgc × IrqReturn
irq_top dev d =
    let st = dev.read32 reg_irq_status in
    if st == 0
    then (d, IrqReturn.irq_none)
    else let cleared = reg_write32 d st reg_irq_clear in
      (record cleared { pending_irq = bit_or cleared.pending_irq st }, IrqReturn.irq_wake_thread)

-- `if (pending & mask)`
abbrev pub has_irq : ℕ → ℕ → Bool
has_irq mask pending = not (bit_and pending mask == 0)

unfoldable pub fill_miss : Device → Mmu → Hwgc → Hwgc × ℤ
unfolding fill_tlb_for_miss
fill_miss dev mmu d =
    let (dma', ret) = fill_tlb_for_miss hwgc_port dev mmu d.dma in (record d { dma = dma' }, ret)

unfoldable pub publish_done : Hwgc → Hwgc × ℤ
unfolding publish_sw_event
publish_done d = publish_sw_event event_done 0 0 (record d { op_status = ℤ.pos 0 })

-- An event with the two parameter registers of the device.
unfoldable pub publish_request : Device → ℕ → Hwgc → Hwgc × ℤ
unfolding publish_sw_event
publish_request dev type d =
    publish_sw_event type (dev.read64 reg_irq_par0) (dev.read64 reg_irq_par1) d

-- One `if (pending & IRQ_…)` block of the handler. The flag says whether the handler goes on; a
-- result other than 0 aborts the operation and returns.
unfoldable pub handle_stage : Bool → (Hwgc → Hwgc × ℤ) → Hwgc × Bool → Hwgc × Bool
unfolding abort_operation_from_irq
handle_stage raised handler (d, false) = (d, false)
handle_stage raised handler (d, true) =
    let (d', ret) = handler d in
    if not raised
    then (d, true)
    else if is_nonzero ret
    then (abort_operation_from_irq ret d', false)
    else (d', true)

unfoldable pub error_stage : Bool → Hwgc × Bool → Hwgc
unfolding abort_operation_from_irq
error_stage raised (d, false) = d
error_stage raised (d, true) = if raised then abort_operation_from_irq eio d else d

-- The blocks of the handler, for the interrupts that were pending.
unfoldable pub handle_pending : Device → Mmu → ℕ → Hwgc → Hwgc
handle_pending dev mmu pending d =
    let tlb = handle_stage (has_irq irq_tlb_miss pending) (fill_miss dev mmu) (d, true) in
    let done = handle_stage (has_irq irq_done pending) publish_done tlb in
    let grow = handle_stage (has_irq irq_grow pending) (publish_request dev event_grow) done in
    let expand =
      handle_stage (has_irq irq_expand pending) (publish_request dev event_expand) grow in
    let allocate =
      handle_stage (has_irq irq_allocate pending) (publish_request dev event_allocate) expand in
    let wake = handle_stage (has_irq irq_wake pending) (publish_request dev event_wake) allocate in
    error_stage (has_irq irq_error pending) wake

unfoldable pub irq_thread : Device → Mmu → Hwgc → Hwgc × IrqReturn
unfolding handle_pending
irq_thread dev mmu d =
    (handle_pending dev mmu d.pending_irq (record d { pending_irq = 0 }), IrqReturn.irq_handled)
