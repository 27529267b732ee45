-- ===== src/Pci.antt =====
-- `hwgc_probe` and `hwgc_remove` of loongnix/qemu_dev/hwgc_driver/hwgc_driver_pci.c, the PCI form of
-- the driver; and hwgc_event_needs_reply and hwgc_event_is_terminal of hwgc_ioctl.h beside it.
pub mod Lifetime
pub mod Core
pub mod Reach
pub mod Removed
pub mod Regs
pub mod Agree
use jvm_gc_acclelerator.Common.{
  ℕ, Bool, true, false, not, ◌||◌, Option, none, some, List, [], ◌∷◌, ◌==◌, if◌then◌else◌,
}
use jvm_gc_acclelerator.Common.Int.{ℤ, pos, negsuc, is_neg, is_nonzero}
use jvm_gc_acclelerator.Common.Errno.{enomem}
use jvm_gc_acclelerator.Dma.Kernel.{Call}
use jvm_gc_acclelerator.Dma.{unpin_all, release_process_context}
use jvm_gc_acclelerator.Pci.Regs.{
  event_done, event_grow, event_expand, event_allocate, event_wake, event_error, reg_cmd, cmd_reset,
}
use jvm_gc_acclelerator.Hwgc.Types.{Hwgc, new_hwgc, emit, reg_write32}
use jvm_gc_acclelerator.Hwgc.Remove.{announce_removal}
use jvm_gc_acclelerator.Driver.{Resource, ResourceCall, acquire, release, Probed, failed}

-- The header's form of the two tests.
unfoldable pub event_needs_reply : ℕ → Bool
event_needs_reply type =
    type == event_grow || type == event_expand || type == event_allocate || type == event_wake

unfoldable pub event_is_terminal : ℕ → Bool
event_is_terminal type = type == event_done || type == event_error

pub record ProbeEnv : Type 0 where
  pub kzalloc_ok : Bool
  pub enable_device : ℤ
  pub request_regions : ℤ
  pub iomap : Option ℕ
  pub alloc_irq_vectors : ℤ
  pub irq_vector : ℤ
  pub request_irq : ℤ
  pub ida_get : ℤ
  pub misc_register : ℤ

-- The labels of the unwinding, the last one first.
abbrev pub err_free : ℤ → List ResourceCall → Probed Hwgc
err_free ret r = failed ret (release Resource.memory ∷ release Resource.drvdata ∷ r)

abbrev pub err_disable : ℤ → List ResourceCall → Probed Hwgc
err_disable ret r = err_free ret (release Resource.pci_device ∷ r)

abbrev pub err_regions : ℤ → List ResourceCall → Probed Hwgc
err_regions ret r = err_disable ret (release Resource.regions ∷ release Resource.bus_master ∷ r)

abbrev pub err_iounmap : ℤ → List ResourceCall → Probed Hwgc
err_iounmap ret r = err_regions ret (release Resource.bar_mapping ∷ r)

abbrev pub err_irq_vectors : ℤ → List ResourceCall → Probed Hwgc
err_irq_vectors ret r = err_iounmap ret (release Resource.irq_vectors ∷ r)

abbrev pub err_free_irq : ℤ → List ResourceCall → Probed Hwgc
err_free_irq ret r = err_irq_vectors ret (release Resource.irq_line ∷ r)

abbrev pub err_free_id : ℤ → List ResourceCall → Probed Hwgc
err_free_id ret r = err_free_irq ret (release Resource.ida_id ∷ r)

-- From `ida_simple_get` on.
unfoldable pub probe_register : ProbeEnv → ℕ → List ResourceCall → Probed Hwgc
probe_register env bar0 r =
    if is_neg env.ida_get
    then err_free_irq env.ida_get r
    else let with_id = acquire Resource.ida_id ∷ r in
      if is_nonzero env.misc_register then err_free_id env.misc_register with_id else record {
        device = some (new_hwgc (some bar0) env.irq_vector env.ida_get);
        ret = pos 0;
        resources = acquire Resource.misc_device ∷ with_id;
      }

-- From `pci_alloc_irq_vectors` on.
unfoldable pub probe_irq : ProbeEnv → ℕ → List ResourceCall → Probed Hwgc
unfolding probe_register
probe_irq env bar0 r =
    if is_neg env.alloc_irq_vectors
    then err_iounmap env.alloc_irq_vectors r
    else let vectors = acquire Resource.irq_vectors ∷ r in
      if is_neg env.irq_vector
      then err_irq_vectors env.irq_vector vectors
      else if is_nonzero env.request_irq
      then err_irq_vectors env.request_irq vectors
      else probe_register env bar0 (acquire Resource.irq_line ∷ vectors)

-- From `pci_iomap` on.
unfoldable pub probe_map : ProbeEnv → Option ℕ → List ResourceCall → Probed Hwgc
unfolding probe_irq
probe_map env none r = err_regions enomem r
probe_map env (some bar0) r = probe_irq env bar0 (acquire Resource.bar_mapping ∷ r)

unfoldable pub probe : ProbeEnv → Probed Hwgc
unfolding probe_map
probe env =
    let r = acquire Resource.drvdata ∷ acquire Resource.memory ∷ [] in
    if not env.kzalloc_ok
    then failed enomem []
    else if is_nonzero env.enable_device
    then err_free env.enable_device r
    else let enabled = acquire Resource.pci_device ∷ r in
      if is_nonzero env.request_regions
      then err_disable env.request_regions enabled
      else probe_map env env.iomap
          (acquire Resource.bus_master ∷ acquire Resource.regions ∷ enabled)

-- The section of `hwgc_remove` under `op_lock`; here the reset is not guarded.
unfoldable pub stop_device : Hwgc → Hwgc
unfolding unpin_all release_process_context
stop_device d =
    let quiet = emit Call.synchronize_irq (reg_write32 d cmd_reset reg_cmd) in
    record quiet { dma = release_process_context (unpin_all quiet.dma); op_active = false }

unfoldable pub remove : Option Hwgc → List ResourceCall → Option Hwgc × List ResourceCall
unfolding announce_removal stop_device
remove none r = (none, r)
remove (some d) r =
    let announced = announce_removal d in
    let no_misc = release Resource.misc_device ∷ r in
    let no_id = if is_neg announced.dev_id then no_misc else release Resource.ida_id ∷ no_misc in
    let d' =
      if is_neg announced.dev_id then announced else record announced { dev_id = negsuc 0 } in
    (
      some (stop_device d'),
      release Resource.memory
          ∷ release Resource.drvdata
          ∷ release Resource.pci_device
          ∷ release Resource.regions
          ∷ release Resource.bus_master
          ∷ release Resource.bar_mapping
          ∷ release Resource.irq_vectors
          ∷ release Resource.irq_line
          ∷ no_id,
    )
