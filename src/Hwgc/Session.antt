-- ===== src/Hwgc/Session.antt =====
-- The driver with one process that waits for events, as the test programs do: what
-- `hwgc_wait_event_ioctl` of loongnix/qemu_dev/hwgc_driver/hwgc_driver_platform.c holds between its
-- critical sections, and the events that reached the process.
pub mod Fresh
pub mod Order
use jvm_gc_acclelerator.Common.{ℕ, zero, suc, ◌≡◌, Option, List, [], ◌∷◌, if◌then◌else◌}
use jvm_gc_acclelerator.Common.Int.{ℤ}
use jvm_gc_acclelerator.Dma.Kernel.{Process, Device, Mmu}
use jvm_gc_acclelerator.Hwgc.Types.{Parameters, Event, Hwgc, new_hwgc}
use jvm_gc_acclelerator.Hwgc.Events.{
  is_terminal, Taken, take_event, restore_event, finish_operation,
}
use jvm_gc_acclelerator.Hwgc.Irq.{irq_top, irq_thread}
use jvm_gc_acclelerator.Hwgc.Ioctl.{start_ioctl, reply_event_ioctl}
use jvm_gc_acclelerator.Hwgc.Remove.{announce_removal, stop_device}
use jvm_gc_acclelerator.Hwgc.Invariant.Blocks.{BlockStep}

-- Where the wait ioctl stands: outside, before its copy to the process, or before the end of the
-- operation.
pub data Waiter : Type 0 where
  outside : Waiter
  copying : Event → Waiter
  finishing : Waiter

-- `delivered` has the events that were copied to the process, the last one first.
pub record Session : Type 0 where
  pub driver : Hwgc
  pub waiter : Waiter
  pub delivered : List Event

abbrev with_driver : Hwgc → Session → Session
with_driver d s = record s { driver = d }

-- After a copy that succeeds.
abbrev pub after_copy : Event → Waiter
after_copy ev = if is_terminal ev.type then Waiter.finishing else Waiter.outside

-- A critical section of one of the threads, but for the interrupt thread.
pub data SessionStep (s : Session) : Session → Type 0 where
  interrupt : (dev : Device) → SessionStep s (with_driver (irq_top dev s.driver).0 s)
  start :
      (params : Option Parameters) (current : Process)
      → SessionStep s (with_driver (start_ioctl params current s.driver).0 s)
  reply : (ev : Option Event) → SessionStep s (with_driver (reply_event_ioctl ev s.driver).0 s)
  announce : SessionStep s (with_driver (announce_removal s.driver) s)
  stop : SessionStep s (with_driver (stop_device s.driver) s)
  take :
      (ev : Event)
      → s.waiter ≡ Waiter.outside
      → (take_event s.driver).1 ≡ Taken.taken ev
      → SessionStep s (record s { driver = (take_event s.driver).0; waiter = Waiter.copying ev })
  fail_copy :
      (ev : Event)
      → s.waiter ≡ Waiter.copying ev
      → SessionStep s (record s { driver = restore_event ev s.driver; waiter = Waiter.outside })
  copy :
      (ev : Event)
      → s.waiter ≡ Waiter.copying ev
      → SessionStep s (record s { waiter = after_copy ev; delivered = ev ∷ s.delivered })
  finish :
      s.waiter ≡ Waiter.finishing
      → SessionStep s (record s { driver = finish_operation s.driver; waiter = Waiter.outside })

-- The sessions with some number of runs of the interrupt thread, and of its blocks one by one.
pub data SessionReach : ℕ → Session → Type 0 where
  probed :
      (bar0 : Option ℕ) (irq dev_id : ℤ)
      → SessionReach zero
          (record { driver = new_hwgc bar0 irq dev_id; waiter = Waiter.outside; delivered = [] })
  later : {n : ℕ} {s s' : Session} → SessionReach n s → SessionStep s s' → SessionReach n s'
  thread :
      {n : ℕ} {s : Session} (dev : Device) (mmu : Mmu)
      → SessionReach n s
      → SessionReach (suc n) (with_driver (irq_thread dev mmu s.driver).0 s)
  block :
      {n : ℕ} {s : Session} {d' : Hwgc}
      → SessionReach n s
      → BlockStep s.driver d'
      → SessionReach (suc n) (with_driver d' s)
