-- ===== src/Hwgc/Words/Typed.antt =====
-- The ioctls, the removal, and the states that typed steps reach.
use jvm_gc_acclelerator.Common.{
  arith, not, Option, none, some, ◌||◌, if_keeps, if◌then◌else◌, ◌==◌, is_some,
}
use jvm_gc_acclelerator.Common.Int.{ℤ, is_nonzero}
use jvm_gc_acclelerator.Common.Errno.{enodev, einval, eagain}
use jvm_gc_acclelerator.Dma.Kernel.{Call}
use jvm_gc_acclelerator.Dma.Grows.{release-keeps}
use jvm_gc_acclelerator.Hwgc.Regs.{reg_cmd, cmd_reset}
use jvm_gc_acclelerator.Hwgc.Types.{Event, Hwgc, emit, reg_write32}
use jvm_gc_acclelerator.Hwgc.Events.{
  take_event, Taken, restore_event, finish_operation, clear_event_state, needs_reply,
}
use jvm_gc_acclelerator.Hwgc.Ioctl.{reply_event_ioctl, accept_reply, write_reply}
use jvm_gc_acclelerator.Hwgc.Remove.{announce_removal, stop_device}
use jvm_gc_acclelerator.Hwgc.Invariant.Reach.{
  Step, interrupt, thread, start, take, restore, finish, reply, announce, stop,
}
use jvm_gc_acclelerator.Hwgc.Invariant.Blocks.{
  BlockStep, pending, fill, done, grow, expand, allocate, wake, abort, any_device, any_mmu,
}
use jvm_gc_acclelerator.Hwgc.Words.{
  BlockInputFits, DeviceFits, MmuFits, block, AllFitRegisters, EventFits, HwgcFits, ReplyFits,
  InputFits, TypedReach, probed, later,
}
use jvm_gc_acclelerator.Hwgc.Words.Fits.{
  blocks-HwgcFits, one_more, irq_top-HwgcFits, irq_thread-HwgcFits, write32-HwgcFits,
  zero_event-EventFits,
}
use jvm_gc_acclelerator.Hwgc.Words.Start.{start_ioctl-HwgcFits}

take_event-HwgcFits : (d : Hwgc) → HwgcFits d → HwgcFits (take_event d).0
unfolding take_event
take_event-HwgcFits d h =
    let kept = if_keeps (λ (r : Hwgc × Taken). HwgcFits r.0) in
    kept d.removing (d, Taken.refused enodev) _ h
      (kept (not d.event_pending) (d, Taken.refused eagain) _ h
        (record {
          calls = h.calls;
          pending_irq = h.pending_irq;
          event_seq = h.event_seq;
          current_event = h.current_event;
        }))

restore_event-HwgcFits :
    (ev : Event) (d : Hwgc) → EventFits ev → HwgcFits d → HwgcFits (restore_event ev d)
unfolding restore_event
restore_event-HwgcFits ev d fits h =
    if_keeps (λ (d : Hwgc). HwgcFits (emit Call.wake_up d)) (not d.removing) _ d
      (record {
        calls = (tt, h.calls);
        pending_irq = h.pending_irq;
        event_seq = h.event_seq;
        current_event = fits;
      })
      (record {
        calls = (tt, h.calls);
        pending_irq = h.pending_irq;
        event_seq = h.event_seq;
        current_event = h.current_event;
      })

finish_operation-HwgcFits : (d : Hwgc) → HwgcFits d → HwgcFits (finish_operation d)
unfolding finish_operation clear_event_state
finish_operation-HwgcFits d h = if_keeps HwgcFits (not d.op_active) d _ h (record {
  calls =
      (tt, release-keeps AllFitRegisters one_more (emit Call.synchronize_irq d).dma (tt, h.calls));
  pending_irq = h.pending_irq;
  event_seq = h.event_seq;
  current_event = zero_event-EventFits;
})

accept_reply-HwgcFits : (ev : Event) (d : Hwgc) → HwgcFits d → HwgcFits (accept_reply ev d).0
unfolding accept_reply
accept_reply-HwgcFits ev d h =
    let kept = if_keeps (λ (r : Hwgc × ℤ). HwgcFits r.0) in
    kept d.removing (d, enodev) _ h
      (kept (not d.event_in_service) (d, einval) _ h
        (kept (not (ev.seq == d.current_event.seq) || not (ev.type == d.current_event.type))
          (d, einval) _ h
          (record {
            calls = h.calls;
            pending_irq = h.pending_irq;
            event_seq = h.event_seq;
            current_event = zero_event-EventFits;
          })))

write_reply-HwgcFits :
    (ev : Event) (r : Hwgc × ℤ) → EventFits ev → HwgcFits r.0 → HwgcFits (write_reply ev r).0
unfolding write_reply
write_reply-HwgcFits ev (d, ret) fits h =
    if_keeps (λ (r : Hwgc × ℤ). HwgcFits r.0) (is_nonzero ret) (d, ret) _ h
      (record {
        calls = (omega arith, (fits.res1, (fits.res0, h.calls)));
        pending_irq = h.pending_irq;
        event_seq = h.event_seq;
        current_event = h.current_event;
      })

reply_event_ioctl-HwgcFits :
    (ev : Option Event) (d : Hwgc) → ReplyFits ev → HwgcFits d → HwgcFits (reply_event_ioctl ev d).0
unfolding reply_event_ioctl
reply_event_ioctl-HwgcFits none d fits h = h
reply_event_ioctl-HwgcFits (some ev) d fits h =
    if_keeps (λ (r : Hwgc × ℤ). HwgcFits r.0) (not (needs_reply ev.type)) (d, einval) _ h
      (write_reply-HwgcFits ev (accept_reply ev d) fits (accept_reply-HwgcFits ev d h))

announce_removal-HwgcFits : (d : Hwgc) → HwgcFits d → HwgcFits (announce_removal d)
unfolding announce_removal clear_event_state
announce_removal-HwgcFits d h = record {
  calls = (tt, h.calls);
  pending_irq = h.pending_irq;
  event_seq = h.event_seq;
  current_event = zero_event-EventFits;
}

stop_device-HwgcFits : (d : Hwgc) → HwgcFits d → HwgcFits (stop_device d)
unfolding stop_device
stop_device-HwgcFits d h =
    let reset = if is_some d.bar0 then reg_write32 d cmd_reset reg_cmd else d in
    let at_reset : HwgcFits reset =
      if_keeps HwgcFits (is_some d.bar0) _ d (write32-HwgcFits d cmd_reset reg_cmd (omega arith) h)
        h in
    record {
      calls =
          release-keeps AllFitRegisters one_more (emit Call.synchronize_irq reset).dma
            (tt, at_reset.calls);
      pending_irq = at_reset.pending_irq;
      event_seq = at_reset.event_seq;
      current_event = at_reset.current_event;
    }

any_device-DeviceFits : DeviceFits any_device
any_device-DeviceFits = record { read32 = λ off. omega arith; read64 = λ off. omega arith }

any_mmu-MmuFits : MmuFits any_mmu
any_mmu-MmuFits page = omega arith

-- A critical section whose inputs fit their C types keeps the words of the state in their widths.
Step-HwgcFits : {d d' : Hwgc} → (step : Step d d') → InputFits step → HwgcFits d → HwgcFits d'
Step-HwgcFits {d} (interrupt dev) read h = irq_top-HwgcFits dev d read h
Step-HwgcFits {d} (thread dev mmu) (read, phys) h = irq_thread-HwgcFits dev mmu d read phys h
Step-HwgcFits {d} (start params current) fits h = start_ioctl-HwgcFits params current d fits h
Step-HwgcFits {d} take fits h = take_event-HwgcFits d h
Step-HwgcFits {d} (restore ev known) fits h = restore_event-HwgcFits ev d fits h
Step-HwgcFits {d} finish fits h = finish_operation-HwgcFits d h
Step-HwgcFits {d} (reply ev) fits h = reply_event_ioctl-HwgcFits ev d fits h
Step-HwgcFits {d} announce fits h = announce_removal-HwgcFits d h
Step-HwgcFits {d} stop fits h = stop_device-HwgcFits d h

-- A block of the thread, likewise.
BlockStep-HwgcFits :
    {d d' : Hwgc} → (step : BlockStep d d') → BlockInputFits step → HwgcFits d → HwgcFits d'
BlockStep-HwgcFits {d} (fill dev mmu) (read, phys) h = (blocks-HwgcFits dev mmu read phys).fill d h
BlockStep-HwgcFits {d} (grow dev) read h =
    (blocks-HwgcFits dev any_mmu read any_mmu-MmuFits).grow d h
BlockStep-HwgcFits {d} (expand dev) read h =
    (blocks-HwgcFits dev any_mmu read any_mmu-MmuFits).expand d h
BlockStep-HwgcFits {d} (allocate dev) read h =
    (blocks-HwgcFits dev any_mmu read any_mmu-MmuFits).allocate d h
BlockStep-HwgcFits {d} (wake dev) read h =
    (blocks-HwgcFits dev any_mmu read any_mmu-MmuFits).wake d h
BlockStep-HwgcFits {d} pending fits h = record {
  calls = h.calls;
  pending_irq = omega arith;
  event_seq = h.event_seq;
  current_event = h.current_event;
}
BlockStep-HwgcFits {d} done fits h =
    (blocks-HwgcFits any_device any_mmu any_device-DeviceFits any_mmu-MmuFits).done d h
BlockStep-HwgcFits {d} (abort status) fits h =
    (blocks-HwgcFits any_device any_mmu any_device-DeviceFits any_mmu-MmuFits).abort status d h

-- If in every critical section and every block of the interrupt thread the device's registers, the
-- physical addresses, the parameters, and the events that a process hands in or that are restored, fit
-- their C types, then in every state that is reached every value that was ever written to a register is a
-- word of that register's width, `pending_irq` is a 32-bit word, `event_seq` a 64-bit word, and each of
-- the seven fields of `current_event` a word of its width.
pub TypedReach-HwgcFits : {d : Hwgc} → TypedReach d → HwgcFits d
TypedReach-HwgcFits (probed bar0 irq dev_id) = record {
  calls = tt;
  pending_irq = omega arith;
  event_seq = omega arith;
  current_event = zero_event-EventFits;
}
TypedReach-HwgcFits (later r step fits) = Step-HwgcFits step fits (TypedReach-HwgcFits r)
TypedReach-HwgcFits (block r step fits) = BlockStep-HwgcFits step fits (TypedReach-HwgcFits r)
