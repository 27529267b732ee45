-- ===== src/Pci/Removed.antt =====
-- The end of a device of the PCI driver.
use jvm_gc_acclelerator.Common.{
  ◌+◌, ◌≡◌, refl, ap, ◌∙◌, arith, Bool, true, false, not, some, List, ◌∷◌, if_keeps, if◌then◌else◌,
}
use jvm_gc_acclelerator.Common.Int.{negsuc, is_neg}
use jvm_gc_acclelerator.Dma.Kernel.{Call}
use jvm_gc_acclelerator.Dma.Answer.{writes}
use jvm_gc_acclelerator.Dma.Missed.{released-writes}
use jvm_gc_acclelerator.Dma.Ownership.{AllPut, IsEmpty-AllPut}
use jvm_gc_acclelerator.Driver.{Resource, ResourceCall, released}
use jvm_gc_acclelerator.Hwgc.Regs.{reg_cmd, cmd_reset}
use jvm_gc_acclelerator.Hwgc.Types.{Hwgc, emit, reg_write32}
use jvm_gc_acclelerator.Hwgc.Remove.{announce_removal}
use jvm_gc_acclelerator.Hwgc.Invariant.Defs.{HeldInv}
use jvm_gc_acclelerator.Hwgc.Invariant.Held.{announce_removal-HeldInv}
use jvm_gc_acclelerator.Pci.{remove, stop_device}
use jvm_gc_acclelerator.Pci.Reach.{PciReach, PciReach-HeldInv, stop_device-HeldInv}

-- What the removal of a device releases: the identifier only if the device has one.
abbrev pub released_by : Hwgc → Resource → Bool
released_by d Resource.ida_id = not (is_neg d.dev_id)
released_by d _ = true

remove-released :
    (d : Hwgc) (resources : List ResourceCall) (x : Resource)
    → released x (remove (some d) resources).1
      ≡ released x resources + (if released_by d x then 1 else 0)
unfolding remove announce_removal
remove-released d resources Resource.memory = ground arith
remove-released d resources Resource.ida_id = ground arith
remove-released d resources _ = ground arith

-- The structure when it is freed: nothing is held for an operation, and since a state with the
-- register writes `before` the device has only been reset.
pub record IsRemoved (before : List Call) (d : Hwgc) : Type 0 where
  pub off : d.op_active ≡ false
  pub removing : d.removing ≡ true
  pub all_put : AllPut d.dma
  pub reset : writes d.calls ≡ Call.write32 reg_cmd cmd_reset ∷ before

-- The structure when `op_lock` is taken.
record IsAnnounced (before : List Call) (d : Hwgc) : Type 0 where
  held : HeldInv d
  removing : d.removing ≡ true
  no_write : writes d.calls ≡ before

announce_removal-IsAnnounced :
    (d : Hwgc) → HeldInv d → IsAnnounced (writes d.calls) (announce_removal d)
unfolding announce_removal
announce_removal-IsAnnounced d h = record {
  held = announce_removal-HeldInv d h;
  removing = refl;
  no_write = refl;
}

stop_device-off : (d : Hwgc) → (stop_device d).op_active ≡ false
unfolding stop_device
stop_device-off d = refl

stop_device-reset :
    (d : Hwgc) → writes (stop_device d).calls ≡ Call.write32 reg_cmd cmd_reset ∷ writes d.calls
unfolding stop_device
stop_device-reset d =
    released-writes (emit Call.synchronize_irq (reg_write32 d cmd_reset reg_cmd)).dma

stop_device-removing : (d : Hwgc) → (stop_device d).removing ≡ d.removing
unfolding stop_device
stop_device-removing d = refl

stop_device-IsRemoved :
    (before : List Call) (d : Hwgc) → IsAnnounced before d → IsRemoved before (stop_device d)
stop_device-IsRemoved before d h =
    let off = stop_device-off d in
    let at_end = stop_device-HeldInv d h.held in
    record {
      off = off;
      removing = stop_device-removing d ∙ h.removing;
      all_put = IsEmpty-AllPut at_end.owns (at_end.idle_empty off);
      reset = stop_device-reset d ∙ ap (λ calls. Call.write32 reg_cmd cmd_reset ∷ calls) h.no_write;
    }

-- The removal of a device by the PCI driver, in any state that its critical sections and the blocks of its
-- interrupt thread reach: when the structure is freed, it is being removed, no operation is active, and
-- each page, task and mm has been put as often as a reference to it was taken; of the device's registers
-- only CMD has been written, once, with CMD_RESET; and each of the ten resources of a device has been
-- released once, the identifier only if the device has one.
pub remove-IsRemoved :
    (d : Hwgc) (resources : List ResourceCall)
    → PciReach d
    → (last : Hwgc) × ((remove (some d) resources).0 ≡ some last)
      × IsRemoved (writes d.calls) last
      × ((x : Resource)
          → released x (remove (some d) resources).1
            ≡ released x resources + (if released_by d x then 1 else 0))
unfolding remove
remove-IsRemoved d resources reach =
    let before = writes d.calls in
    let announced = announce_removal d in
    let renamed = record announced { dev_id = negsuc 0 } in
    let h = announce_removal-IsAnnounced d (PciReach-HeldInv reach) in
    let kept =
      if_keeps (IsAnnounced before) (is_neg announced.dev_id) announced renamed h
        (record { held = h.held; removing = h.removing; no_write = h.no_write }) in
    let d' = if is_neg announced.dev_id then announced else renamed in
    (stop_device d', refl, stop_device-IsRemoved before d' kept, remove-released d resources)
