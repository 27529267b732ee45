-- ===== src/Hwgc/Invariant/Wake/Run.antt =====
-- A whole run of critical sections and blocks of the interrupt thread, and the wake-ups in it.
use jvm_gc_acclelerator.Common.{
  ℕ, ◌≤◌, ◌<◌, ◌≡◌, arith, true, false, Option, inl, inr, Bool-cases, if_keeps, is_some,
  if◌then◌else◌,
}
use jvm_gc_acclelerator.Dma.Kernel.{Process, Device, Mmu, Call}
use jvm_gc_acclelerator.Dma.Count.{count}
use jvm_gc_acclelerator.Dma.Grows.{release-keeps}
use jvm_gc_acclelerator.Dma.{hold_process_context, unpin_all, release_process_context}
use jvm_gc_acclelerator.Hwgc.Regs.{reg_cmd, cmd_reset}
use jvm_gc_acclelerator.Hwgc.Types.{Parameters, Event, Hwgc, emit, reg_write32}
use jvm_gc_acclelerator.Hwgc.Events.{take_event, restore_event, finish_operation, clear_event_state}
use jvm_gc_acclelerator.Hwgc.Params.{emit_all, program_parameters, parameter_writes}
use jvm_gc_acclelerator.Hwgc.Irq.{irq_top, irq_thread}
use jvm_gc_acclelerator.Hwgc.Irq.Keeps.{handle_pending-keeps}
use jvm_gc_acclelerator.Hwgc.Ioctl.{
  start_ioctl, start_held, start_device, new_operation, wait_condition, reply_event_ioctl,
  accept_reply, write_reply,
}
use jvm_gc_acclelerator.Hwgc.Remove.{announce_removal, stop_device}
use jvm_gc_acclelerator.Hwgc.Invariant.Reach.{
  Step, interrupt, thread, start, take, restore, finish, reply, announce, stop,
}
use jvm_gc_acclelerator.Hwgc.Invariant.Blocks.{BlockStep, BlockStep-keeps}
use jvm_gc_acclelerator.Hwgc.Invariant.Wake.{
  is_wake_up, wakes, at_least, IsWoken, blocks-IsWoken, is_stop, Step-wakes,
}

-- The log of wake-ups only grows.
Grows : Hwgc → Hwgc → Type 0
Grows d d' = wakes d ≤ wakes d'

start_ioctl-Grows :
    (params : Option Parameters) (current : Process) (d : Hwgc)
    → Grows d (start_ioctl params current d).0
unfolding Grows start_ioctl start_held start_device program_parameters parameter_writes emit_all
    new_operation clear_event_state hold_process_context
start_ioctl-Grows params current d = ground arith

take_event-Grows : (d : Hwgc) → Grows d (take_event d).0
unfolding Grows take_event
take_event-Grows d = ground arith

irq_top-Grows : (dev : Device) (d : Hwgc) → Grows d (irq_top dev d).0
unfolding Grows irq_top
irq_top-Grows dev d = ground arith

restore_event-Grows : (ev : Event) (d : Hwgc) → Grows d (restore_event ev d)
unfolding Grows restore_event
restore_event-Grows ev d = ground arith

reply_event_ioctl-Grows : (ev : Option Event) (d : Hwgc) → Grows d (reply_event_ioctl ev d).0
unfolding Grows reply_event_ioctl accept_reply write_reply
reply_event_ioctl-Grows ev d = ground arith

announce_removal-Grows : (d : Hwgc) → Grows d (announce_removal d)
unfolding Grows announce_removal clear_event_state
announce_removal-Grows d = omega arith

-- The end of an operation, from a log with at least so many wake-ups.
released :
    (before : ℕ) (d : Hwgc)
    → before ≤ wakes d
    → before ≤ count is_wake_up (release_process_context (unpin_all d.dma)).calls
released before d h =
    release-keeps (λ calls. before ≤ count is_wake_up calls)
      (λ call calls other. at_least before call calls) d.dma h

finish_operation-Grows : (d : Hwgc) → Grows d (finish_operation d)
unfolding Grows finish_operation clear_event_state
finish_operation-Grows d =
    ground (arith, released (wakes d) (emit Call.synchronize_irq d) (omega arith))

stop_device-Grows : (d : Hwgc) → Grows d (stop_device d)
unfolding Grows stop_device
stop_device-Grows d =
    let reset = if is_some d.bar0 then reg_write32 d cmd_reset reg_cmd else d in
    let at_reset : wakes d ≤ wakes reset =
      if_keeps (λ (r : Hwgc). wakes d ≤ wakes r) (is_some d.bar0) _ d (omega arith) (omega arith) in
    released (wakes d) (emit Call.synchronize_irq reset) (omega (arith, at_reset))

-- A section that only adds wake-ups, and wakes if it makes the condition true.
IsWoken-after :
    (before : ℕ) (d d' : Hwgc)
    → Grows d d'
    → (wait_condition d ≡ false → wait_condition d' ≡ true → wakes d < wakes d')
    → IsWoken before d
    → IsWoken before d'
unfolding Grows
IsWoken-after before d d' grows wakes_it h = record {
  grown = omega (arith, h.grown, grows);
  woken = λ on. elim (Bool-cases (wait_condition d)) [
    | inl awake ↦ omega (arith, h.woken awake, grows)
    | inr asleep ↦ omega (arith, h.grown, wakes_it asleep on)
  ];
}

pending-IsWoken :
    (before : ℕ) (d : Hwgc) → IsWoken before d → IsWoken before (record d { pending_irq = 0 })
unfolding wait_condition
pending-IsWoken before d h = record { grown = h.grown; woken = h.woken }

irq_thread-IsWoken :
    (before : ℕ) (dev : Device) (mmu : Mmu) (d : Hwgc)
    → IsWoken before d
    → IsWoken before (irq_thread dev mmu d).0
unfolding irq_thread
irq_thread-IsWoken before dev mmu d h =
    handle_pending-keeps (IsWoken before) dev mmu d.pending_irq (record d { pending_irq = 0 })
      (blocks-IsWoken before dev mmu) (pending-IsWoken before d h)

Step-IsWoken :
    (before : ℕ) {d d' : Hwgc} (step : Step d d')
    → (is_stop step ≡ true → d.removing ≡ true)
    → IsWoken before d
    → IsWoken before d'
Step-IsWoken before {d} (thread dev mmu) announced = irq_thread-IsWoken before dev mmu d
Step-IsWoken before {d} (interrupt dev) announced =
    IsWoken-after before d _ (irq_top-Grows dev d) (Step-wakes (interrupt dev) announced)
Step-IsWoken before {d} (start params current) announced =
    IsWoken-after before d _ (start_ioctl-Grows params current d)
      (Step-wakes (start params current) announced)
Step-IsWoken before {d} take announced =
    IsWoken-after before d _ (take_event-Grows d) (Step-wakes take announced)
Step-IsWoken before {d} (restore ev known) announced =
    IsWoken-after before d _ (restore_event-Grows ev d) (Step-wakes (restore ev known) announced)
Step-IsWoken before {d} finish announced =
    IsWoken-after before d _ (finish_operation-Grows d) (Step-wakes finish announced)
Step-IsWoken before {d} (reply ev) announced =
    IsWoken-after before d _ (reply_event_ioctl-Grows ev d) (Step-wakes (reply ev) announced)
Step-IsWoken before {d} announce announced =
    IsWoken-after before d _ (announce_removal-Grows d) (Step-wakes announce announced)
Step-IsWoken before {d} stop announced =
    IsWoken-after before d _ (stop_device-Grows d) (Step-wakes stop announced)

-- A run of critical sections and blocks; the last section of a removal comes after its announcement.
pub data Run (d : Hwgc) : Hwgc → Type 0 where
  here : Run d d
  section :
      {d' d'' : Hwgc}
      → Run d d'
      → (step : Step d' d'') → (is_stop step ≡ true → d'.removing ≡ true)
      → Run d d''
  block : {d' d'' : Hwgc} → Run d d' → BlockStep d' d'' → Run d d''

Run-IsWoken : (before : ℕ) {d d' : Hwgc} → Run d d' → IsWoken before d → IsWoken before d'
Run-IsWoken before here h = h
Run-IsWoken before (section run step announced) h =
    Step-IsWoken before step announced (Run-IsWoken before run h)
Run-IsWoken before (block run step) h =
    BlockStep-keeps (IsWoken before) (blocks-IsWoken before) (pending-IsWoken before) step
      (Run-IsWoken before run h)

-- No wake-up is lost: if the condition that the wait ioctl waits for is false in a state, so that a process
-- goes to sleep, and true after a run of critical sections and blocks of the interrupt thread in any
-- order, in which the last section of a removal only comes after the announcement of the removal, then the
-- waiters were woken in that run.
pub Run-wakes :
    {d d' : Hwgc}
    → Run d d'
    → wait_condition d ≡ false
    → wait_condition d' ≡ true
    → wakes d < wakes d'
Run-wakes {d} run asleep on =
    (Run-IsWoken (wakes d) run (record { grown = omega arith; woken = λ awake. absurd (cc) })).woken
      on
