-- ===== src/Hwgc/Channel/Cycle.antt =====
-- A request of the device from its publication to its reply.
use jvm_gc_acclelerator.Common.{ℕ, ◌≡◌, arith, true, some, ◌∷◌}
use jvm_gc_acclelerator.Common.Int.{pos}
use jvm_gc_acclelerator.Dma.Kernel.{Call}
use jvm_gc_acclelerator.Hwgc.Regs.{reg_cmd, reg_irq_res0, reg_irq_res1, cmd_continue}
use jvm_gc_acclelerator.Hwgc.Types.{Hwgc}
use jvm_gc_acclelerator.Hwgc.Events.{needs_reply, new_event, publish_sw_event, take_event}
use jvm_gc_acclelerator.Hwgc.Ioctl.{
  wait_event_ioctl, deliver_event, reply_event_ioctl, accept_reply, write_reply,
}
use jvm_gc_acclelerator.Hwgc.Channel.{Channel, channel_of}
use jvm_gc_acclelerator.Hwgc.Channel.Refine.{next_seq, needs_reply-is_terminal}

-- On an idle channel, a request that is published, handed to the process by a wait, and replied to
-- with two results: the process gets the request's type and parameters, every call succeeds, the
-- channel is idle again, and after the wake-up the device got the results and CMD_CONTINUE.
pub reply_event_ioctl-publish_sw_event :
    (type par0 par1 res0 res1 : ℕ) (d : Hwgc)
    → channel_of d ≡ Channel.idle
    → needs_reply type ≡ true
    → let (published, ret) = publish_sw_event type par0 par1 d in
      let (waited, wait_ret, out) = wait_event_ioctl (pos 0) true published in
      let ev = new_event type par0 par1 (next_seq d) in
      let (replied, reply_ret) =
        reply_event_ioctl (some (record ev { res0 = res0; res1 = res1 })) waited in
      (ret ≡ pos 0)
      × (wait_ret ≡ pos 0)
      × (out ≡ some ev)
      × (reply_ret ≡ pos 0)
      × (channel_of replied ≡ Channel.idle)
      × (replied.calls
          ≡ Call.write32 reg_cmd cmd_continue
            ∷ Call.write64 reg_irq_res1 res1
            ∷ Call.write64 reg_irq_res0 res0
            ∷ Call.wake_up
            ∷ d.calls)
unfolding publish_sw_event wait_event_ioctl take_event deliver_event reply_event_ioctl accept_reply
    write_reply
reply_event_ioctl-publish_sw_event type par0 par1 res0 res1 d idle wants =
    ground (arith, needs_reply-is_terminal type wants)
