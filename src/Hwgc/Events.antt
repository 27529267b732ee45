-- ===== src/Hwgc/Events.antt =====
-- The one-slot event channel between the IRQ thread and the process, and the end of an operation:
-- hwgc_event_needs_reply to hwgc_abort_operation_from_irq of
-- loongnix/qemu_dev/hwgc_driver/hwgc_driver_platform.c.
use jvm_gc_acclelerator.Common.{ℕ, ◌+◌, ◌%◌, ◌^◌, Bool, true, false, not, ◌||◌, ◌==◌, if◌then◌else◌}
use jvm_gc_acclelerator.Common.Int.{ℤ, pos, to_bits64}
use jvm_gc_acclelerator.Common.Errno.{eagain, ebusy, enodev}
use jvm_gc_acclelerator.Dma.Kernel.{Call}
use jvm_gc_acclelerator.Dma.{unpin_all, release_process_context}
use jvm_gc_acclelerator.Hwgc.Regs.{
  event_done, event_grow, event_expand, event_allocate, event_wake, event_error, reg_cmd, cmd_reset,
}
use jvm_gc_acclelerator.Hwgc.Types.{Event, zero_event, Hwgc, emit, reg_write32}

-- `switch (type)`
unfoldable pub needs_reply : ℕ → Bool
needs_reply type =
    if type == event_grow
    then true
    else if type == event_expand
    then true
    else if type == event_allocate
    then true
    else if type == event_wake
    then true
    else false

unfoldable pub is_terminal : ℕ → Bool
is_terminal type = if type == event_done then true else if type == event_error then true else false

unfoldable pub clear_event_state : Hwgc → Hwgc
clear_event_state d = record d {
  current_event = zero_event;
  event_pending = false;
  event_in_service = false;
}

abbrev pub new_event : ℕ → ℕ → ℕ → ℕ → Event
new_event type par0 par1 seq = record zero_event {
  type = type;
  seq = seq;
  par0 = par0;
  par1 = par1;
}

unfoldable pub publish_sw_event : ℕ → ℕ → ℕ → Hwgc → Hwgc × ℤ
publish_sw_event type par0 par1 d =
    if d.removing
    then (d, enodev)
    else if d.event_pending || d.event_in_service
    then (d, ebusy)
    else let seq = (d.event_seq + 1) % 2 ^ 64 in
      (
        emit Call.wake_up (record d {
          event_seq = seq;
          current_event = new_event type par0 par1 seq;
          event_pending = true;
        }),
        pos 0,
      )

unfoldable pub finish_operation : Hwgc → Hwgc
unfolding unpin_all release_process_context clear_event_state
finish_operation d =
    if not d.op_active
    then d
    else let quiet = emit Call.synchronize_irq d in
      let released = record quiet { dma = release_process_context (unpin_all quiet.dma) } in
      emit Call.wake_up (record (clear_event_state released) { op_active = false })

-- The result of the publication is only printed.
unfoldable pub abort_operation_from_irq : ℤ → Hwgc → Hwgc
unfolding publish_sw_event
abort_operation_from_irq status d =
    let reset = reg_write32 (record d { op_status = status }) cmd_reset reg_cmd in
    (publish_sw_event event_error (to_bits64 status) 0 reset).0

-- The critical section of `hwgc_wait_event_ioctl`: the event that is taken, or the error.
pub data Taken : Type 0 where
  taken : Event → Taken
  refused : ℤ → Taken

unfoldable pub take_event : Hwgc → Hwgc × Taken
unfolding needs_reply
take_event d =
    if d.removing
    then (d, Taken.refused enodev)
    else if not d.event_pending
    then (d, Taken.refused eagain)
    else (
      record d { event_pending = false; event_in_service = needs_reply d.current_event.type },
      Taken.taken d.current_event,
    )

-- Its second critical section, after a failed `copy_to_user`.
unfoldable pub restore_event : Event → Hwgc → Hwgc
restore_event ev d = emit Call.wake_up (
    if not d.removing
    then record d { current_event = ev; event_pending = true; event_in_service = false }
    else d)
