-- ===== src/Tests/Hwgc.antt =====
-- Runs of the accelerator's driver.
use jvm_gc_acclelerator.Common.{
  ℕ, ◌+◌, ◌≡◌, refl, arith, true, false, some, [], ◌∷◌, ◌++◌, ◌==◌, if◌then◌else◌,
}
use jvm_gc_acclelerator.Common.Int.{pos, is_nonzero, to_bits64}
use jvm_gc_acclelerator.Common.Errno.{eio}
use jvm_gc_acclelerator.Dma.Kernel.{DmaContext, Call}
use jvm_gc_acclelerator.Dma.{unpin_all, fill_tlb_for_miss}
use jvm_gc_acclelerator.Dma.Answer.{fill_tlb_for_miss-answer, writes, answer}
use jvm_gc_acclelerator.Dma.Count.{
  count, is_put_page, is_set_dirty, slots_from, has_page, has_written_page,
}
use jvm_gc_acclelerator.Dma.Unpin.{unpin_all_lem}
use jvm_gc_acclelerator.Hwgc.Regs.{
  reg_par3, hwgc_port, event_grow, event_done, event_error, reg_cmd, cmd_reset, cmd_continue,
  reg_irq_res0, reg_irq_res1,
}
use jvm_gc_acclelerator.Hwgc.Types.{Event, Hwgc, new_hwgc}
use jvm_gc_acclelerator.Hwgc.Events.{
  new_event, needs_reply, is_terminal, publish_sw_event, take_event, restore_event,
  abort_operation_from_irq,
}
use jvm_gc_acclelerator.Hwgc.Irq.{handle_pending}
use jvm_gc_acclelerator.Hwgc.Ioctl.{wait_event_ioctl, reply_event_ioctl}
use jvm_gc_acclelerator.Hwgc.Channel.{Channel, channel_of, offer, settle, wait_for_event}
use jvm_gc_acclelerator.Hwgc.Channel.Refine.{
  publish_sw_event-offer, reply_event_ioctl-settle, wait_event_ioctl-wait_for_event,
}
use jvm_gc_acclelerator.Hwgc.Channel.Lost.{
  abort_operation_from_irq-offer, restore_event-overwrites, handle_pending-done_error,
}
use jvm_gc_acclelerator.Hwgc.Params.{program_parameters}
use jvm_gc_acclelerator.Hwgc.Params.Roundtrip.{
  FitsTypes, register64, device_view, as_read, byte, high32, program_parameters-device_view,
}
use jvm_gc_acclelerator.Tests.Values.{device, mmu, parameters}

abbrev fresh : Hwgc
fresh = new_hwgc (some 0) (pos 5) (pos 0)

publish_sw_event-offer_example :
    (
      channel_of (publish_sw_event event_grow 3 4 fresh).0,
      (publish_sw_event event_grow 3 4 fresh).1,
    )
    ≡ offer (new_event event_grow 3 4 1) Channel.idle
publish_sw_event-offer_example = publish_sw_event-offer event_grow 3 4 fresh

-- A GROW event, pending and then in service.
abbrev grow : Event
grow = new_event event_grow 3 4 1

abbrev waiting : Hwgc
waiting = record fresh {
  current_event = grow;
  event_pending = true;
  event_seq = 1;
  op_active = true;
}

abbrev serving : Hwgc
serving = record waiting { event_pending = false; event_in_service = true }

reply_event_ioctl-settle_example :
    let (d', ret) = reply_event_ioctl (some grow) serving in
    ((channel_of d', ret) ≡ settle grow (Channel.in_service grow))
    × (d'.calls ≡ (
        if is_nonzero ret
        then serving.calls
        else Call.write32 reg_cmd cmd_continue
          ∷ Call.write64 reg_irq_res1 0
          ∷ Call.write64 reg_irq_res0 0
          ∷ serving.calls))
unfolding needs_reply
reply_event_ioctl-settle_example = reply_event_ioctl-settle grow serving (λ e. ground arith) refl

wait_event_ioctl-wait_for_event_example :
    let (d', ret, out) = wait_event_ioctl (pos 0) false waiting in
    (channel_of d', ret, out) ≡ wait_for_event (pos 0) false (Channel.pending grow)
wait_event_ioctl-wait_for_event_example = wait_event_ioctl-wait_for_event (pos 0) false waiting

parameters-FitsTypes : FitsTypes parameters
parameters-FitsTypes = ground arith

program_parameters-device_view_example :
    let read : ℕ → ℕ = λ off. register64 off (program_parameters parameters fresh).calls in
    (device_view read ≡ as_read parameters) × (byte 3 (high32 (read reg_par3)) ≡ 3)
program_parameters-device_view_example =
    program_parameters-device_view parameters fresh parameters-FitsTypes

-- The references of an operation that has pinned nothing yet.
abbrev holding : DmaContext
holding = record fresh.dma {
  active_task = some 7;
  active_mm = some 8;
  calls = Call.get_task_mm 8 ∷ Call.get_task_struct 7 ∷ [];
}

fill_tlb_for_miss-answer_example :
    let (c', ret) = fill_tlb_for_miss hwgc_port (device 1 hwgc_port) mmu holding in
    writes c'.calls
    ≡ (if is_nonzero ret then [] else answer hwgc_port mmu 0x5008 21) ++ writes holding.calls
fill_tlb_for_miss-answer_example =
    fill_tlb_for_miss-answer hwgc_port (device 1 hwgc_port) mmu 7 8 21 holding refl refl refl refl

-- A table of two pages, the second one written.
abbrev two_pages : DmaContext
two_pages = record holding {
  pinned = λ i.
      if i == 0
      then record { page = some 21; write = false }
      else record { page = some 22; write = true };
  nr_pinned = 2;
}

unpin_all_lem_example :
    ((unpin_all two_pages).nr_pinned ≡ 0)
    × (count (is_put_page 22) (unpin_all two_pages).calls
        ≡ count (is_put_page 22) two_pages.calls + slots_from (has_page 22) two_pages.pinned 0 2)
    × (count (is_set_dirty 22) (unpin_all two_pages).calls
        ≡ count (is_set_dirty 22) two_pages.calls
          + slots_from (has_written_page 22) two_pages.pinned 0 2)
unpin_all_lem_example = unpin_all_lem 22 two_pages

abort_operation_from_irq-offer_example :
    let d' = abort_operation_from_irq eio serving in
    (d'.op_status ≡ eio)
    × (channel_of d'
        ≡ (offer (new_event event_error (to_bits64 eio) 0 2) (Channel.in_service grow)).0)
    × (d'.calls ≡ Call.write32 reg_cmd cmd_reset ∷ serving.calls)
abort_operation_from_irq-offer_example = abort_operation_from_irq-offer eio serving

abbrev finished : Hwgc
finished = record waiting { current_event = new_event event_done 0 0 1 }

restore_event-overwrites_example :
    let newer = publish_sw_event event_error 0 0 (take_event finished).0 in
    (newer.1 ≡ pos 0)
    × (channel_of newer.0 ≡ Channel.pending (new_event event_error 0 0 2))
    × (channel_of (restore_event (new_event event_done 0 0 1) newer.0)
        ≡ Channel.pending (new_event event_done 0 0 1))
unfolding is_terminal
restore_event-overwrites_example =
    restore_event-overwrites finished (new_event event_done 0 0 1) event_error 0 0 refl refl

handle_pending-done_error_example :
    let d' = handle_pending (device 0x42 hwgc_port) mmu 0x42 fresh in
    (d'.op_status ≡ eio) × (channel_of d' ≡ Channel.pending (new_event event_done 0 0 1))
handle_pending-done_error_example =
    handle_pending-done_error (device 0x42 hwgc_port) mmu 0x42 fresh refl refl refl refl refl refl
      refl refl
