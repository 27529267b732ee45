-- ===== src/Hwgc/Channel/Refine.antt =====
-- The operations of Hwgc/Events.antt and Hwgc/Ioctl.antt against those of the channel.
use jvm_gc_acclelerator.Common.{
  ℕ, ◌+◌, ◌%◌, ◌^◌, ◌≡◌, arith, Bool, true, false, none, some, ◌∷◌, if◌then◌else◌,
}
use jvm_gc_acclelerator.Common.Int.{ℤ, pos, is_nonzero}
use jvm_gc_acclelerator.Common.Errno.{efault}
use jvm_gc_acclelerator.Dma.Kernel.{Call}
use jvm_gc_acclelerator.Hwgc.Regs.{reg_cmd, reg_irq_res0, reg_irq_res1, cmd_continue}
use jvm_gc_acclelerator.Hwgc.Types.{Event, Hwgc}
use jvm_gc_acclelerator.Hwgc.Events.{
  new_event, needs_reply, is_terminal, publish_sw_event, take_event, restore_event,
  finish_operation, clear_event_state,
}
use jvm_gc_acclelerator.Hwgc.Ioctl.{
  accept_reply, write_reply, reply_event_ioctl, wait_event_ioctl, deliver_event,
}
use jvm_gc_acclelerator.Hwgc.Channel.{
  Channel, channel_of, offer, consume, settle, wait_for_event, OneSlot,
}

abbrev pub next_seq : Hwgc → ℕ
next_seq d = (d.event_seq + 1) % 2 ^ 64

-- No event type both wants a reply and ends the operation.
pub needs_reply-is_terminal : (type : ℕ) → needs_reply type ≡ true → is_terminal type ≡ false
unfolding needs_reply is_terminal
needs_reply-is_terminal type h = ground arith

-- Publishing offers the event, with the next sequence number, to the channel: the new channel
-- and the result are those that `offer` gives.
pub publish_sw_event-offer :
    (type par0 par1 : ℕ) (d : Hwgc)
    → (channel_of (publish_sw_event type par0 par1 d).0, (publish_sw_event type par0 par1 d).1)
      ≡ offer (new_event type par0 par1 (next_seq d)) (channel_of d)
unfolding publish_sw_event
publish_sw_event-offer type par0 par1 d = ground arith

-- The first critical section of the wait ioctl: the new channel and the result are those that
-- `consume` gives.
pub take_event-consume :
    (d : Hwgc) → (channel_of (take_event d).0, (take_event d).1) ≡ consume (channel_of d)
unfolding take_event
take_event-consume d = ground arith

-- The reply ioctl's critical section settles the event in service.
pub accept_reply-settle :
    (ev : Event) (d : Hwgc)
    → OneSlot d
    → (channel_of (accept_reply ev d).0, (accept_reply ev d).1) ≡ settle ev (channel_of d)
unfolding accept_reply
accept_reply-settle ev d one = ground arith

-- The reply ioctl, for an event that wants a reply and in a state where no event is both
-- pending and in service: the new channel and the result are those that `settle` gives, and if
-- the result is 0 the two results and then CMD_CONTINUE are written to the device, and nothing
-- otherwise.
pub reply_event_ioctl-settle :
    (ev : Event) (d : Hwgc)
    → OneSlot d
    → needs_reply ev.type ≡ true
    → let (d', ret) = reply_event_ioctl (some ev) d in
      ((channel_of d', ret) ≡ settle ev (channel_of d))
      × (d'.calls ≡ (
          if is_nonzero ret
          then d.calls
          else Call.write32 reg_cmd cmd_continue
            ∷ Call.write64 reg_irq_res1 ev.res1
            ∷ Call.write64 reg_irq_res0 ev.res0
            ∷ d.calls))
unfolding reply_event_ioctl accept_reply write_reply
reply_event_ioctl-settle ev d one wants = rw wants (ground arith)

-- The whole wait ioctl, whatever `wait_event_interruptible` returned and whether or not the copy to the
-- process succeeds: the new channel, the result and the event that reaches the process are those that
-- `wait_for_event` gives.
pub wait_event_ioctl-wait_for_event :
    (waited : ℤ) (copied : Bool) (d : Hwgc)
    → let (d', ret, out) = wait_event_ioctl waited copied d in
      (channel_of d', ret, out) ≡ wait_for_event waited copied (channel_of d)
unfolding wait_event_ioctl deliver_event take_event restore_event finish_operation clear_event_state
wait_event_ioctl-wait_for_event waited copied d = ground arith

-- A wait that is woken with an event pending that wants a reply, and whose copy to the process
-- succeeds, reports 0, hands the event over and puts it in service.
wait_event_ioctl-deliver :
    (d : Hwgc) (ev : Event)
    → channel_of d ≡ Channel.pending ev
    → needs_reply ev.type ≡ true
    → let (d', ret, out) = wait_event_ioctl (pos 0) true d in
      (channel_of d' ≡ Channel.in_service ev) × (ret ≡ pos 0) × (out ≡ some ev)
unfolding wait_event_ioctl take_event deliver_event
wait_event_ioctl-deliver d ev e wants = ground (arith, needs_reply-is_terminal ev.type wants)

-- A wait that is woken with an event pending, and whose copy to the process fails, reports
-- -EFAULT, hands nothing over and leaves the event pending.
wait_event_ioctl-restore :
    (d : Hwgc) (ev : Event)
    → channel_of d ≡ Channel.pending ev
    → let (d', ret, out) = wait_event_ioctl (pos 0) false d in
      (channel_of d' ≡ Channel.pending ev) × (ret ≡ efault) × (out ≡ none)
unfolding wait_event_ioctl take_event restore_event
wait_event_ioctl-restore d ev e = ground arith
