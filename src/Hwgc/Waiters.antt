-- ===== src/Hwgc/Waiters.antt =====
-- The driver with any number of processes that wait for events at once: the events that calls of
-- `hwgc_wait_event_ioctl` of loongnix/qemu_dev/hwgc_driver/hwgc_driver_platform.c hold between their
-- critical sections, and those that reached a process.
pub mod Unique
pub mod Once
use jvm_gc_acclelerator.Common.{ℕ, zero, suc, ◌≡◌, Option, List, [], ◌∷◌, ◌++◌}
use jvm_gc_acclelerator.Common.Int.{ℤ}
use jvm_gc_acclelerator.Dma.Kernel.{Process, Device, Mmu}
use jvm_gc_acclelerator.Hwgc.Types.{Parameters, Event, Hwgc, new_hwgc}
use jvm_gc_acclelerator.Hwgc.Events.{Taken, take_event, restore_event, finish_operation}
use jvm_gc_acclelerator.Hwgc.Irq.{irq_top, irq_thread}
use jvm_gc_acclelerator.Hwgc.Ioctl.{start_ioctl, reply_event_ioctl}
use jvm_gc_acclelerator.Hwgc.Remove.{announce_removal, stop_device}
use jvm_gc_acclelerator.Hwgc.Invariant.Blocks.{BlockStep}

-- The events that were taken and wait for their copy, and those that were copied.
pub record Waiters : Type 0 where
  pub driver : Hwgc
  pub copying : List Event
  pub delivered : List Event

abbrev with_driver : Hwgc → Waiters → Waiters
with_driver d s = record s { driver = d }

-- A critical section of one of the threads, but for the interrupt thread, or the end of a copy. An
-- operation may be finished at any time, which is more than the code does.
pub data WaitersStep (s : Waiters) : Waiters → Type 0 where
  interrupt : (dev : Device) → WaitersStep s (with_driver (irq_top dev s.driver).0 s)
  start :
      (params : Option Parameters) (current : Process)
      → WaitersStep s (with_driver (start_ioctl params current s.driver).0 s)
  reply : (ev : Option Event) → WaitersStep s (with_driver (reply_event_ioctl ev s.driver).0 s)
  announce : WaitersStep s (with_driver (announce_removal s.driver) s)
  stop : WaitersStep s (with_driver (stop_device s.driver) s)
  finish : WaitersStep s (with_driver (finish_operation s.driver) s)
  take :
      (ev : Event)
      → (take_event s.driver).1 ≡ Taken.taken ev
      → WaitersStep s (record s { driver = (take_event s.driver).0; copying = ev ∷ s.copying })
  fail_copy :
      (before after : List Event) (ev : Event)
      → s.copying ≡ before ++ ev ∷ after
      → WaitersStep s (record s { driver = restore_event ev s.driver; copying = before ++ after })
  copy :
      (before after : List Event) (ev : Event)
      → s.copying ≡ before ++ ev ∷ after
      → WaitersStep s (record s { copying = before ++ after; delivered = ev ∷ s.delivered })

-- The states after some number of runs of the interrupt thread, and of its blocks one by one.
pub data WaitersReach : ℕ → Waiters → Type 0 where
  probed :
      (bar0 : Option ℕ) (irq dev_id : ℤ)
      → WaitersReach zero
          (record { driver = new_hwgc bar0 irq dev_id; copying = []; delivered = [] })
  later : {n : ℕ} {s s' : Waiters} → WaitersReach n s → WaitersStep s s' → WaitersReach n s'
  thread :
      {n : ℕ} {s : Waiters} (dev : Device) (mmu : Mmu)
      → WaitersReach n s
      → WaitersReach (suc n) (with_driver (irq_thread dev mmu s.driver).0 s)
  block :
      {n : ℕ} {s : Waiters} {d' : Hwgc}
      → WaitersReach n s
      → BlockStep s.driver d'
      → WaitersReach (suc n) (with_driver d' s)
