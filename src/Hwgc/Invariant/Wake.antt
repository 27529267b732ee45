-- ===== src/Hwgc/Invariant/Wake.antt =====
-- The condition of the wait ioctl and the wake-ups, in each critical section.
pub mod Run
use jvm_gc_acclelerator.Common.{
  ℕ, ◌≤◌, ◌<◌, ◌≡◌, ◌≢◌, refl, arith, Bool, true, false, Option, List, ◌∷◌,
}
use jvm_gc_acclelerator.Common.Int.{ℤ, pos}
use jvm_gc_acclelerator.Dma.Kernel.{Process, Device, Mmu, Call}
use jvm_gc_acclelerator.Dma.Count.{count}
use jvm_gc_acclelerator.Dma.Grows.{release-keeps, fill_tlb_for_miss-keeps}
use jvm_gc_acclelerator.Dma.{hold_process_context}
use jvm_gc_acclelerator.Hwgc.Regs.{hwgc_port, reg_cmd, cmd_reset}
use jvm_gc_acclelerator.Hwgc.Types.{Parameters, Event, Hwgc, emit, reg_write32}
use jvm_gc_acclelerator.Hwgc.Events.{
  publish_sw_event, abort_operation_from_irq, take_event, restore_event, finish_operation,
  clear_event_state,
}
use jvm_gc_acclelerator.Hwgc.Params.{emit_all, program_parameters, parameter_writes}
use jvm_gc_acclelerator.Hwgc.Irq.{irq_top, irq_thread, fill_miss, publish_done, publish_request}
use jvm_gc_acclelerator.Hwgc.Irq.Keeps.{KeptByBlocks, handle_pending-keeps}
use jvm_gc_acclelerator.Hwgc.Ioctl.{
  start_ioctl, start_held, start_device, new_operation, wait_condition, reply_event_ioctl,
  accept_reply, write_reply,
}
use jvm_gc_acclelerator.Hwgc.Remove.{announce_removal}
use jvm_gc_acclelerator.Hwgc.Invariant.Reach.{
  Step, interrupt, thread, start, take, restore, finish, reply, announce, stop,
}

abbrev pub is_wake_up : Call → Bool
is_wake_up Call.wake_up = true
is_wake_up _ = false

-- How often the waiters were woken.
abbrev pub wakes : Hwgc → ℕ
wakes d = count is_wake_up d.calls

-- From a state with `before` wake-ups on, the condition is false or a wake-up was made.
pub record IsWoken (before : ℕ) (d : Hwgc) : Type 0 where
  pub grown : before ≤ wakes d
  pub woken : wait_condition d ≡ true → before < wakes d

pub at_least :
    (before : ℕ) (call : Call) (calls : List Call)
    → before ≤ count is_wake_up calls
    → before ≤ count is_wake_up (call ∷ calls)
at_least before call calls h = omega arith

above :
    (before : ℕ) (call : Call) (calls : List Call)
    → before < count is_wake_up calls
    → before < count is_wake_up (call ∷ calls)
above before call calls h = omega arith

publish_sw_event-IsWoken :
    (before type par0 par1 : ℕ) (d : Hwgc)
    → IsWoken before d
    → IsWoken before (publish_sw_event type par0 par1 d).0
unfolding publish_sw_event wait_condition
publish_sw_event-IsWoken before type par0 par1 d h = ground (arith, h.grown, h.woken)

fill_miss-IsWoken :
    (before : ℕ) (dev : Device) (mmu : Mmu) (d : Hwgc)
    → IsWoken before d
    → IsWoken before (fill_miss dev mmu d).0
unfolding fill_miss wait_condition
fill_miss-IsWoken before dev mmu d h = record {
  grown =
      fill_tlb_for_miss-keeps (λ calls. before ≤ count is_wake_up calls)
        (λ call calls other. at_least before call calls) hwgc_port dev mmu d.dma
        (λ page calls more. omega arith) h.grown;
  woken = λ on.
      fill_tlb_for_miss-keeps (λ calls. before < count is_wake_up calls)
        (λ call calls other. above before call calls) hwgc_port dev mmu d.dma
        (λ page calls more. omega arith) (h.woken on);
}

reset-IsWoken :
    (before : ℕ) (status : ℤ) (d : Hwgc)
    → IsWoken before d
    → IsWoken before (reg_write32 (record d { op_status = status }) cmd_reset reg_cmd)
unfolding wait_condition
reset-IsWoken before status d h = record {
  grown = at_least before (Call.write32 reg_cmd cmd_reset) d.calls h.grown;
  woken = λ on. above before (Call.write32 reg_cmd cmd_reset) d.calls (h.woken on);
}

status-IsWoken :
    (before : ℕ) (d : Hwgc) → IsWoken before d → IsWoken before (record d { op_status = pos 0 })
unfolding wait_condition
status-IsWoken before d h = record { grown = h.grown; woken = h.woken }

pub blocks-IsWoken : (before : ℕ) (dev : Device) (mmu : Mmu) → KeptByBlocks (IsWoken before) dev mmu
unfolding publish_done publish_request abort_operation_from_irq
blocks-IsWoken before dev mmu = record {
  fill = fill_miss-IsWoken before dev mmu;
  done = λ d h. publish_sw_event-IsWoken before _ _ _ _ (status-IsWoken before d h);
  grow = publish_sw_event-IsWoken before _ _ _;
  expand = publish_sw_event-IsWoken before _ _ _;
  allocate = publish_sw_event-IsWoken before _ _ _;
  wake = publish_sw_event-IsWoken before _ _ _;
  abort = λ status d h. publish_sw_event-IsWoken before _ _ _ _ (reset-IsWoken before status d h);
}

-- A waiter that would sleep is woken, if the section makes its condition true.
abbrev Wakes : Hwgc → Hwgc → Type 0
Wakes d d' = wait_condition d ≡ false → wait_condition d' ≡ true → wakes d < wakes d'

irq_thread-Wakes : (dev : Device) (mmu : Mmu) (d : Hwgc) → Wakes d (irq_thread dev mmu d).0
unfolding irq_thread wait_condition
irq_thread-Wakes dev mmu d asleep =
    (handle_pending-keeps (IsWoken (wakes d)) dev mmu d.pending_irq (record d { pending_irq = 0 })
      (blocks-IsWoken (wakes d) dev mmu)
      (record { grown = omega arith; woken = λ on. absurd (cc) })).woken

irq_top-Wakes : (dev : Device) (d : Hwgc) → Wakes d (irq_top dev d).0
unfolding irq_top wait_condition
irq_top-Wakes dev d asleep on = ground arith

start_ioctl-Wakes :
    (params : Option Parameters) (current : Process) (d : Hwgc)
    → Wakes d (start_ioctl params current d).0
unfolding start_ioctl start_held start_device program_parameters parameter_writes emit_all
    new_operation clear_event_state wait_condition hold_process_context
start_ioctl-Wakes params current d asleep on = ground arith

take_event-Wakes : (d : Hwgc) → Wakes d (take_event d).0
unfolding take_event wait_condition
take_event-Wakes d asleep on = ground arith

restore_event-Wakes : (ev : Event) (d : Hwgc) → Wakes d (restore_event ev d)
unfolding restore_event wait_condition
restore_event-Wakes ev d asleep on = ground arith

finish_operation-Wakes : (d : Hwgc) → Wakes d (finish_operation d)
unfolding finish_operation clear_event_state wait_condition
finish_operation-Wakes d asleep on = ground (
  arith,
  release-keeps (λ calls. wakes d ≤ count is_wake_up calls)
      (λ call calls other. at_least (wakes d) call calls) (emit Call.synchronize_irq d).dma
      (omega arith),
)

reply_event_ioctl-Wakes : (ev : Option Event) (d : Hwgc) → Wakes d (reply_event_ioctl ev d).0
unfolding reply_event_ioctl accept_reply write_reply wait_condition
reply_event_ioctl-Wakes ev d asleep on = ground arith

announce_removal-Wakes : (d : Hwgc) → Wakes d (announce_removal d)
unfolding announce_removal clear_event_state
announce_removal-Wakes d asleep on = omega arith

removed-awake : (d : Hwgc) → d.removing ≡ true → wait_condition d ≢ false
unfolding wait_condition
removed-awake d gone asleep = grind arith

-- The last section of a removal, which comes after the announcement.
abbrev pub is_stop : {d d' : Hwgc} → Step d d' → Bool
is_stop stop = true
is_stop _ = false

-- If a critical section makes the condition that the wait ioctl waits for true, where it was false, then
-- the section wakes the waiters, as long as the last section of a removal only comes after the
-- announcement of the removal.
pub Step-wakes :
    {d d' : Hwgc} (step : Step d d')
    → (is_stop step ≡ true → d.removing ≡ true)
    → wait_condition d ≡ false
    → wait_condition d' ≡ true
    → wakes d < wakes d'
Step-wakes {d} (interrupt dev) announced = irq_top-Wakes dev d
Step-wakes {d} (thread dev mmu) announced = irq_thread-Wakes dev mmu d
Step-wakes {d} (start params current) announced = start_ioctl-Wakes params current d
Step-wakes {d} take announced = take_event-Wakes d
Step-wakes {d} (restore ev known) announced = restore_event-Wakes ev d
Step-wakes {d} finish announced = finish_operation-Wakes d
Step-wakes {d} (reply ev) announced = reply_event_ioctl-Wakes ev d
Step-wakes {d} announce announced = announce_removal-Wakes d
Step-wakes {d} stop announced = λ asleep on. absurd (removed-awake d (announced refl) asleep)
