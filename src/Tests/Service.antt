-- ===== src/Tests/Service.antt =====
-- Whole operations of the accelerator's driver, and what reaches the waiting process.
use jvm_gc_acclelerator.Common.{◌+◌, ◌≤◌, ◌<◌, ◌≡◌, refl, arith, true, false, some, [], ◌∷◌}
use jvm_gc_acclelerator.Common.Int.{pos}
use jvm_gc_acclelerator.Dma.Kernel.{Device}
use jvm_gc_acclelerator.Dma.{hold_process_context}
use jvm_gc_acclelerator.Hwgc.Regs.{irq_grow, irq_wake, event_grow, event_wake}
use jvm_gc_acclelerator.Hwgc.Types.{Event, Hwgc, new_hwgc}
use jvm_gc_acclelerator.Hwgc.Events.{
  new_event, Taken, take_event, restore_event, publish_sw_event, needs_reply, is_terminal,
  clear_event_state,
}
use jvm_gc_acclelerator.Hwgc.Params.{program_parameters, parameter_writes, emit_all}
use jvm_gc_acclelerator.Hwgc.Irq.{
  irq_top, irq_thread, handle_pending, handle_stage, error_stage, publish_request, fill_miss,
  publish_done,
}
use jvm_gc_acclelerator.Hwgc.Ioctl.{
  wait_condition, start_ioctl, start_held, start_device, new_operation, reply_event_ioctl,
  accept_reply, write_reply,
}
use jvm_gc_acclelerator.Hwgc.Invariant.Wake.{wakes}
use jvm_gc_acclelerator.Hwgc.Invariant.Wake.Run.{Run-wakes, here, block}
use jvm_gc_acclelerator.Hwgc.Invariant.Blocks.{BlockStep}
use jvm_gc_acclelerator.Hwgc.Service.{raising}
use jvm_gc_acclelerator.Hwgc.Session.{
  Waiter, SessionReach, later, start, interrupt, thread, take, fail_copy, copy, reply,
}
use jvm_gc_acclelerator.Hwgc.Waiters.{WaitersReach, WaitersStep}
use jvm_gc_acclelerator.Hwgc.Waiters.Unique.{in_slot}
use jvm_gc_acclelerator.Hwgc.Waiters.Once.{times, WaitersReach-once}
use jvm_gc_acclelerator.Hwgc.Session.Order.{IsOrdered, SessionReach-IsOrdered}
use jvm_gc_acclelerator.Tests.Values.{process, mmu, parameters}

abbrev fresh : Hwgc
fresh = new_hwgc (some 0) (pos 5) (pos 0)

-- A session in which two events are delivered, the first one by its second copy.
abbrev pub grow : Device
grow = raising irq_grow 1 2

abbrev pub wake : Device
wake = raising irq_wake 5 6

abbrev grow_event : Event
grow_event = new_event event_grow 1 2 1

abbrev wake_event : Event
wake_event = new_event event_wake 5 6 2

abbrev pub raised : Hwgc
raised = (irq_top grow (start_ioctl (some parameters) process fresh).0).0

abbrev published : Hwgc
published = (irq_thread grow mmu raised).0

abbrev taken : Hwgc
taken = (take_event published).0

abbrev restored : Hwgc
restored = restore_event grow_event taken

abbrev taken_again : Hwgc
taken_again = (take_event restored).0

abbrev replied : Hwgc
replied = (reply_event_ioctl (some grow_event) taken_again).0

abbrev raised_wake : Hwgc
raised_wake = (irq_top wake replied).0

abbrev published_wake : Hwgc
published_wake = (irq_thread wake mmu raised_wake).0

-- What the process takes, and whether it would sleep.
record Facts : Type 0 where
  first : (take_event published).1 ≡ Taken.taken grow_event
  again : (take_event restored).1 ≡ Taken.taken grow_event
  second : (take_event published_wake).1 ≡ Taken.taken wake_event
  asleep : wait_condition raised ≡ false
  awake : wait_condition published ≡ true

facts : Facts
unfolding wait_condition irq_top irq_thread handle_pending handle_stage error_stage publish_request
    fill_miss publish_sw_event take_event needs_reply restore_event is_terminal start_ioctl
    start_held hold_process_context start_device new_operation program_parameters parameter_writes
    emit_all clear_event_state reply_event_ioctl accept_reply write_reply publish_done
facts = record { first = refl; again = refl; second = refl; asleep = refl; awake = refl }

-- The session.
two_delivered : SessionReach 2 (record {
  driver = (take_event published_wake).0;
  waiter = Waiter.outside;
  delivered = wake_event ∷ grow_event ∷ [];
})
unfolding is_terminal
two_delivered =
    let start_session = SessionReach.probed (some 0) (pos 5) (pos 0) in
    let raised_session =
      later (later start_session (start (some parameters) process)) (interrupt grow) in
    let taken_session = later (thread grow mmu raised_session) (take grow_event refl facts.first) in
    let restored_session = later taken_session (fail_copy grow_event refl) in
    let again_session = later restored_session (take grow_event refl facts.again) in
    let copied_session = later again_session (copy grow_event refl) in
    let replied_session = later copied_session (reply (some grow_event)) in
    let published_session = thread wake mmu (later replied_session (interrupt wake)) in
    later (later published_session (take wake_event refl facts.second)) (copy wake_event refl)

SessionReach-IsOrdered_example : IsOrdered (wake_event ∷ grow_event ∷ [])
SessionReach-IsOrdered_example = SessionReach-IsOrdered two_delivered (omega arith)

-- The first of the two events, as any number of waiting processes have it.
once_delivered :
    WaitersReach 1 (record { driver = taken_again; copying = []; delivered = grow_event ∷ [] })
once_delivered =
    let raised_waiters =
      WaitersReach.later
        (WaitersReach.later (WaitersReach.probed (some 0) (pos 5) (pos 0))
          (WaitersStep.start (some parameters) process))
        (WaitersStep.interrupt grow) in
    let held_waiters =
      WaitersReach.later (WaitersReach.thread grow mmu raised_waiters)
        (WaitersStep.take grow_event facts.first) in
    let restored_waiters =
      WaitersReach.later held_waiters (WaitersStep.fail_copy [] [] grow_event refl) in
    let again_waiters =
      WaitersReach.later restored_waiters (WaitersStep.take grow_event facts.again) in
    WaitersReach.later again_waiters (WaitersStep.copy [] [] grow_event refl)

WaitersReach-once_example : times 1 (grow_event ∷ []) + (times 1 [] + in_slot 1 taken_again) ≤ 1
WaitersReach-once_example = WaitersReach-once once_delivered (omega arith) 1

-- The thread by its blocks.
abbrev published_by_blocks : Hwgc
published_by_blocks = (publish_request grow event_grow (record raised { pending_irq = 0 })).0

awake_by_blocks : wait_condition published_by_blocks ≡ true
unfolding wait_condition irq_top publish_request publish_sw_event start_ioctl start_held
    hold_process_context start_device new_operation program_parameters parameter_writes emit_all
    clear_event_state
awake_by_blocks = refl

-- The same wake-up, where the thread runs by its blocks.
Run-wakes_example : wakes raised < wakes published_by_blocks
Run-wakes_example =
    Run-wakes (block (block here BlockStep.pending) (BlockStep.grow grow)) facts.asleep
      awake_by_blocks
