-- ===== src/Pci/Reach.antt =====
-- The critical sections of the PCI driver in any order.
use jvm_gc_acclelerator.Common.{ℕ, ◌≡◌, arith, true, Option, some, ◌||◌}
use jvm_gc_acclelerator.Common.Int.{ℤ}
use jvm_gc_acclelerator.Dma.Kernel.{Process, Device, Mmu, Call}
use jvm_gc_acclelerator.Dma.Ownership.{release_all-Owns, log-Holding}
use jvm_gc_acclelerator.Hwgc.Regs.{reg_cmd, cmd_reset}
use jvm_gc_acclelerator.Hwgc.Types.{Parameters, Event, Hwgc, new_hwgc}
use jvm_gc_acclelerator.Hwgc.Remove.{announce_removal}
use jvm_gc_acclelerator.Hwgc.Invariant.Defs.{HeldInv}
use jvm_gc_acclelerator.Hwgc.Invariant.Held.{
  blocks-HeldInv, irq_top-HeldInv, irq_thread-HeldInv, start_ioctl-HeldInv, take_event-HeldInv,
  restore_event-HeldInv, finish_operation-HeldInv, reply_event_ioctl-HeldInv,
  announce_removal-HeldInv,
}
use jvm_gc_acclelerator.Hwgc.Invariant.Reach.{new_hwgc-HeldInv}
use jvm_gc_acclelerator.Hwgc.Invariant.Blocks.{BlockStep, BlockStep-keeps}
use jvm_gc_acclelerator.Pci.{event_needs_reply, event_is_terminal, stop_device}
use jvm_gc_acclelerator.Pci.Core.{
  irq_top, irq_thread, start_ioctl, take_event, restore_event, finish_operation, reply_event_ioctl,
}

-- A section of one of the threads, as for the platform driver; an event of a known type may be
-- restored, and an operation finished, at any time.
pub data PciStep (d : Hwgc) : Hwgc → Type 0 where
  interrupt : (dev : Device) → PciStep d (irq_top dev d).0
  thread : (dev : Device) (mmu : Mmu) → PciStep d (irq_thread dev mmu d).0
  start :
      (params : Option Parameters) (current : Process) → PciStep d (start_ioctl params current d).0
  take : PciStep d (take_event d).0
  restore :
      (ev : Event)
      → (event_needs_reply ev.type || event_is_terminal ev.type) ≡ true
      → PciStep d (restore_event ev d)
  finish : PciStep d (finish_operation d)
  reply : (ev : Option Event) → PciStep d (reply_event_ioctl ev d).0
  announce : PciStep d (announce_removal d)
  stop : PciStep d (stop_device d)

-- From the structure that probe leaves; a block of the interrupt thread may also come alone.
pub data PciReach : Hwgc → Type 0 where
  probed : (bar0 : ℕ) (irq dev_id : ℤ) → PciReach (new_hwgc (some bar0) irq dev_id)
  later : {d d' : Hwgc} → PciReach d → PciStep d d' → PciReach d'
  block : {d d' : Hwgc} → PciReach d → BlockStep d d' → PciReach d'

pub stop_device-HeldInv : (d : Hwgc) → HeldInv d → HeldInv (stop_device d)
unfolding stop_device
stop_device-HeldInv d h =
    let reset = log-Holding (Call.write32 reg_cmd cmd_reset) (λ p. ground arith) h.owns in
    let quiet = log-Holding Call.synchronize_irq (λ p. ground arith) reset in
    let (owns, empty) = release_all-Owns _ quiet in record { owns = owns; idle_empty = λ _. empty }

PciStep-HeldInv : {d d' : Hwgc} → PciStep d d' → HeldInv d → HeldInv d'
PciStep-HeldInv {d} (interrupt dev) inv = irq_top-HeldInv dev d inv
PciStep-HeldInv {d} (thread dev mmu) inv = irq_thread-HeldInv dev mmu d inv
PciStep-HeldInv {d} (start params current) inv = start_ioctl-HeldInv params current d inv
PciStep-HeldInv {d} take inv = take_event-HeldInv d inv
PciStep-HeldInv {d} (restore ev known) inv = restore_event-HeldInv ev d inv
PciStep-HeldInv {d} finish inv = finish_operation-HeldInv d inv
PciStep-HeldInv {d} (reply ev) inv = reply_event_ioctl-HeldInv ev d inv
PciStep-HeldInv {d} announce inv = announce_removal-HeldInv d inv
PciStep-HeldInv {d} stop inv = stop_device-HeldInv d inv

pub PciReach-HeldInv : {d : Hwgc} → PciReach d → HeldInv d
PciReach-HeldInv (probed bar0 irq dev_id) = new_hwgc-HeldInv (some bar0) irq dev_id
PciReach-HeldInv (later r step) = PciStep-HeldInv step (PciReach-HeldInv r)
PciReach-HeldInv (block r step) =
    BlockStep-keeps HeldInv blocks-HeldInv (λ d h. h) step (PciReach-HeldInv r)
