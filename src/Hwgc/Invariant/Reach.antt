-- ===== src/Hwgc/Invariant/Reach.antt =====
-- The critical sections in any order, and the states that they reach.
use jvm_gc_acclelerator.Common.{ℕ, ◌+◌, ◌≤◌, ◌≡◌, arith, true, false, not, ◌&&◌, Option, ◌||◌}
use jvm_gc_acclelerator.Common.Int.{ℤ}
use jvm_gc_acclelerator.Dma.Kernel.{Process, Device, Mmu}
use jvm_gc_acclelerator.Dma.Count.{count, is_get_page, is_put_page, slots_from}
use jvm_gc_acclelerator.Dma.Ownership.{AllPut, IsEmpty-AllPut}
use jvm_gc_acclelerator.Hwgc.Types.{Parameters, Event, Hwgc, new_hwgc}
use jvm_gc_acclelerator.Hwgc.Events.{
  needs_reply, is_terminal, take_event, restore_event, finish_operation,
}
use jvm_gc_acclelerator.Hwgc.Irq.{irq_top, irq_thread}
use jvm_gc_acclelerator.Hwgc.Ioctl.{start_ioctl, reply_event_ioctl}
use jvm_gc_acclelerator.Hwgc.Remove.{announce_removal, stop_device}
use jvm_gc_acclelerator.Hwgc.Invariant.Defs.{SlotInv, HeldInv}
use jvm_gc_acclelerator.Hwgc.Invariant.Slot.{
  irq_top-SlotInv, irq_thread-SlotInv, start_ioctl-SlotInv, take_event-SlotInv,
  restore_event-SlotInv, finish_operation-SlotInv, reply_event_ioctl-SlotInv,
  announce_removal-SlotInv, stop_device-SlotInv,
}
use jvm_gc_acclelerator.Hwgc.Invariant.Held.{
  irq_top-HeldInv, irq_thread-HeldInv, start_ioctl-HeldInv, take_event-HeldInv,
  restore_event-HeldInv, finish_operation-HeldInv, reply_event_ioctl-HeldInv,
  announce_removal-HeldInv, stop_device-HeldInv,
}

-- A section of one of the threads. The wait ioctl has three: it takes the event, and then restores it
-- or finishes the operation; any event of a known type may be restored, and an operation may be
-- finished at any time, which is more than the code does.
pub data Step (d : Hwgc) : Hwgc → Type 0 where
  interrupt : (dev : Device) → Step d (irq_top dev d).0
  thread : (dev : Device) (mmu : Mmu) → Step d (irq_thread dev mmu d).0
  start : (params : Option Parameters) (current : Process) → Step d (start_ioctl params current d).0
  take : Step d (take_event d).0
  restore :
      (ev : Event)
      → (needs_reply ev.type || is_terminal ev.type) ≡ true
      → Step d (restore_event ev d)
  finish : Step d (finish_operation d)
  reply : (ev : Option Event) → Step d (reply_event_ioctl ev d).0
  announce : Step d (announce_removal d)
  stop : Step d (stop_device d)

-- From the structure that probe leaves.
pub data Reach : Hwgc → Type 0 where
  probed : (bar0 : Option ℕ) (irq dev_id : ℤ) → Reach (new_hwgc bar0 irq dev_id)
  later : {d d' : Hwgc} → Reach d → Step d d' → Reach d'

pub Step-SlotInv : {d d' : Hwgc} → Step d d' → SlotInv d → SlotInv d'
Step-SlotInv (interrupt dev) inv = irq_top-SlotInv dev _ inv
Step-SlotInv (thread dev mmu) inv = irq_thread-SlotInv dev mmu _ inv
Step-SlotInv (start params current) inv = start_ioctl-SlotInv params current _ inv
Step-SlotInv take inv = take_event-SlotInv _ inv
Step-SlotInv (restore ev known) inv = restore_event-SlotInv ev _ known inv
Step-SlotInv finish inv = finish_operation-SlotInv _ inv
Step-SlotInv (reply ev) inv = reply_event_ioctl-SlotInv ev _ inv
Step-SlotInv announce inv = announce_removal-SlotInv _
Step-SlotInv stop inv = stop_device-SlotInv _ inv

pub Step-HeldInv : {d d' : Hwgc} → Step d d' → HeldInv d → HeldInv d'
Step-HeldInv {d} (interrupt dev) inv = irq_top-HeldInv dev d inv
Step-HeldInv {d} (thread dev mmu) inv = irq_thread-HeldInv dev mmu d inv
Step-HeldInv {d} (start params current) inv = start_ioctl-HeldInv params current d inv
Step-HeldInv {d} take inv = take_event-HeldInv d inv
Step-HeldInv {d} (restore ev known) inv = restore_event-HeldInv ev d inv
Step-HeldInv {d} finish inv = finish_operation-HeldInv d inv
Step-HeldInv {d} (reply ev) inv = reply_event_ioctl-HeldInv ev d inv
Step-HeldInv {d} announce inv = announce_removal-HeldInv d inv
Step-HeldInv {d} stop inv = stop_device-HeldInv d inv

pub new_hwgc-HeldInv : (bar0 : Option ℕ) (irq dev_id : ℤ) → HeldInv (new_hwgc bar0 irq dev_id)
unfolding slots_from
new_hwgc-HeldInv bar0 irq dev_id = record {
  owns = record {
    bounded = omega arith;
    once = λ p. omega arith;
    pages = λ p. omega arith;
    tasks = λ t. omega arith;
    mms = λ m. omega arith;
  };
  idle_empty = λ off. ground arith;
}

pub Reach-SlotInv : {d : Hwgc} → Reach d → SlotInv d
Reach-SlotInv (probed bar0 irq dev_id) = ground arith
Reach-SlotInv (later r step) = Step-SlotInv step (Reach-SlotInv r)

Reach-HeldInv : {d : Hwgc} → Reach d → HeldInv d
Reach-HeldInv (probed bar0 irq dev_id) = new_hwgc-HeldInv bar0 irq dev_id
Reach-HeldInv (later r step) = Step-HeldInv step (Reach-HeldInv r)

-- In every reachable state no event is both pending and in service; an event in service wants a
-- reply; a pending one wants a reply or ends the operation.
pub Reach-one_slot :
    {d : Hwgc}
    → Reach d
    → ((d.event_pending && d.event_in_service) ≡ false)
      × ((not d.event_in_service || needs_reply d.current_event.type) ≡ true)
      × ((not d.event_pending
            || needs_reply d.current_event.type
            || is_terminal d.current_event.type)
          ≡ true)
Reach-one_slot r =
    let inv = Reach-SlotInv r in ground (arith, inv.one_slot, inv.service_type, inv.pending_type)

-- In every reachable state with no operation, each page, task and mm has been put as often as a
-- reference to it was taken.
pub Reach-AllPut : {d : Hwgc} → Reach d → d.op_active ≡ false → AllPut d.dma
Reach-AllPut r off = let h = Reach-HeldInv r in IsEmpty-AllPut h.owns (h.idle_empty off)

-- In every reachable state each page has been put at most as often as a reference to it was
-- taken, and at most one reference more was taken than put.
Reach-put_bounds :
    {d : Hwgc}
    → Reach d
    → (p : ℕ)
    → (count (is_put_page p) d.calls ≤ count (is_get_page p) d.calls)
      × (count (is_get_page p) d.calls ≤ count (is_put_page p) d.calls + 1)
Reach-put_bounds r p = let h = Reach-HeldInv r in omega (arith, h.owns.pages p, h.owns.once p)
