-- ===== src/Hwgc/Channel/Lost.antt =====
-- Where an event is dropped: the abort of an operation while the channel is busy, and a failed copy
-- that meets a newer event.
use jvm_gc_acclelerator.Common.{ℕ, ◌≡◌, arith, Bool, true, false, ◌∷◌, if◌then◌else◌}
use jvm_gc_acclelerator.Common.Int.{ℤ, pos, to_bits64}
use jvm_gc_acclelerator.Common.Errno.{eio}
use jvm_gc_acclelerator.Dma.Kernel.{Call, Device, Mmu}
use jvm_gc_acclelerator.Hwgc.Regs.{
  event_done, event_error, reg_cmd, cmd_reset, irq_tlb_miss, irq_done, irq_grow, irq_expand,
  irq_allocate, irq_wake, irq_error,
}
use jvm_gc_acclelerator.Hwgc.Types.{Event, Hwgc}
use jvm_gc_acclelerator.Hwgc.Events.{
  new_event, needs_reply, is_terminal, publish_sw_event, abort_operation_from_irq, take_event,
  restore_event,
}
use jvm_gc_acclelerator.Hwgc.Irq.{handle_pending, handle_stage, error_stage, publish_done, has_irq}
use jvm_gc_acclelerator.Hwgc.Channel.{Channel, channel_of, offer}
use jvm_gc_acclelerator.Hwgc.Channel.Refine.{next_seq}

abbrev is_idle : Channel → Bool
is_idle Channel.idle = true
is_idle _ = false

-- The abort of an operation stores the status, resets the device, and offers the ERROR event
-- with the status to the channel: the new channel is the one that `offer` gives, and a waiter
-- is woken only if the channel was idle.
pub abort_operation_from_irq-offer :
    (status : ℤ) (d : Hwgc)
    → let d' = abort_operation_from_irq status d in
      (d'.op_status ≡ status)
      × (channel_of d'
          ≡ (offer (new_event event_error (to_bits64 status) 0 (next_seq d)) (channel_of d)).0)
      × (d'.calls ≡ (
          if is_idle (channel_of d)
          then Call.wake_up ∷ Call.write32 reg_cmd cmd_reset ∷ d.calls
          else Call.write32 reg_cmd cmd_reset ∷ d.calls))
unfolding abort_operation_from_irq publish_sw_event
abort_operation_from_irq-offer status d = ground arith

is_terminal-needs_reply : (type : ℕ) → is_terminal type ≡ true → needs_reply type ≡ false
unfolding needs_reply is_terminal
is_terminal-needs_reply type h = ground arith

-- A pending terminal event is taken, another event is published, and the event that was taken is
-- restored: the publication reported 0 and left the newer event pending, and the restored event
-- stands in its place.
pub restore_event-overwrites :
    (d : Hwgc) (ev : Event) (type par0 par1 : ℕ)
    → channel_of d ≡ Channel.pending ev
    → is_terminal ev.type ≡ true
    → let newer = publish_sw_event type par0 par1 (take_event d).0 in
      (newer.1 ≡ pos 0)
      × (channel_of newer.0 ≡ Channel.pending (new_event type par0 par1 (next_seq d)))
      × (channel_of (restore_event ev newer.0) ≡ Channel.pending ev)
unfolding publish_sw_event take_event restore_event
restore_event-overwrites d ev type par0 par1 e terminal =
    ground (arith, is_terminal-needs_reply ev.type terminal)

-- The interrupts DONE and ERROR together and no other, on an idle channel: the status is -EIO
-- afterwards, but the pending event is DONE, not ERROR.
pub handle_pending-done_error :
    (dev : Device) (mmu : Mmu) (pending : ℕ) (d : Hwgc)
    → channel_of d ≡ Channel.idle
    → has_irq irq_tlb_miss pending ≡ false
    → has_irq irq_done pending ≡ true
    → has_irq irq_grow pending ≡ false
    → has_irq irq_expand pending ≡ false
    → has_irq irq_allocate pending ≡ false
    → has_irq irq_wake pending ≡ false
    → has_irq irq_error pending ≡ true
    → let d' = handle_pending dev mmu pending d in
      (d'.op_status ≡ eio)
      × (channel_of d' ≡ Channel.pending (new_event event_done 0 0 (next_seq d)))
unfolding handle_pending handle_stage error_stage publish_done publish_sw_event
handle_pending-done_error dev mmu pending d i tlb done grow expand allocate wake error =
    simp (tlb, done, grow, expand, allocate, wake, error) (ground arith)
