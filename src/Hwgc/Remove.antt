-- ===== src/Hwgc/Remove.antt =====
-- The two critical sections of `hwgc_platform_remove` in
-- loongnix/qemu_dev/hwgc_driver/hwgc_driver_platform.c.
use jvm_gc_acclelerator.Common.{true, false, is_some, if◌then◌else◌}
use jvm_gc_acclelerator.Dma.Kernel.{Call}
use jvm_gc_acclelerator.Dma.{unpin_all, release_process_context}
use jvm_gc_acclelerator.Hwgc.Regs.{reg_cmd, cmd_reset}
use jvm_gc_acclelerator.Hwgc.Types.{Hwgc, emit, reg_write32}
use jvm_gc_acclelerator.Hwgc.Events.{clear_event_state}

-- Under `event_lock`, and the wake-up that follows it.
unfoldable pub announce_removal : Hwgc → Hwgc
unfolding clear_event_state
announce_removal d = emit Call.wake_up (clear_event_state (record d { removing = true }))

-- Under `op_lock`.
unfoldable pub stop_device : Hwgc → Hwgc
unfolding unpin_all release_process_context
stop_device d =
    let reset = if is_some d.bar0 then reg_write32 d cmd_reset reg_cmd else d in
    let quiet = emit Call.synchronize_irq reset in
    record quiet { dma = release_process_context (unpin_all quiet.dma); op_active = false }
