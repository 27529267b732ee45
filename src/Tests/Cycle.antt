-- ===== src/Tests/Cycle.antt =====
-- A GROW request from its publication to its reply.
use jvm_gc_acclelerator.Common.{◌≡◌, refl, true, some, [], ◌∷◌}
use jvm_gc_acclelerator.Common.Int.{pos}
use jvm_gc_acclelerator.Dma.Kernel.{Call}
use jvm_gc_acclelerator.Hwgc.Regs.{event_grow, reg_cmd, reg_irq_res0, reg_irq_res1, cmd_continue}
use jvm_gc_acclelerator.Hwgc.Types.{Hwgc, new_hwgc}
use jvm_gc_acclelerator.Hwgc.Events.{needs_reply, new_event, publish_sw_event}
use jvm_gc_acclelerator.Hwgc.Ioctl.{wait_event_ioctl, reply_event_ioctl}
use jvm_gc_acclelerator.Hwgc.Channel.{Channel, channel_of}
use jvm_gc_acclelerator.Hwgc.Channel.Cycle.{reply_event_ioctl-publish_sw_event}

abbrev idle_device : Hwgc
idle_device = new_hwgc (some 0) (pos 5) (pos 0)

reply_event_ioctl-publish_sw_event_example :
    let (published, ret) = publish_sw_event event_grow 3 4 idle_device in
    let (waited, wait_ret, out) = wait_event_ioctl (pos 0) true published in
    let ev = new_event event_grow 3 4 1 in
    let (replied, reply_ret) = reply_event_ioctl (some (record ev { res0 = 6; res1 = 7 })) waited in
    (ret ≡ pos 0)
    × (wait_ret ≡ pos 0)
    × (out ≡ some ev)
    × (reply_ret ≡ pos 0)
    × (channel_of replied ≡ Channel.idle)
    × (replied.calls
        ≡ Call.write32 reg_cmd cmd_continue
          ∷ Call.write64 reg_irq_res1 7
          ∷ Call.write64 reg_irq_res0 6
          ∷ Call.wake_up
          ∷ [])
unfolding needs_reply
reply_event_ioctl-publish_sw_event_example =
    reply_event_ioctl-publish_sw_event event_grow 3 4 6 7 idle_device refl refl
