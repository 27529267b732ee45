-- ===== src/XorTlb/Probe.antt =====
-- `xor_probe` and `xor_remove` of loongnix/qemu_dev/test_device/xor_tlbdev_drv.c.
use jvm_gc_acclelerator.Common.{
  ℕ, Bool, false, not, Option, none, some, List, [], ◌∷◌, if◌then◌else◌,
}
use jvm_gc_acclelerator.Common.Int.{ℤ, pos, is_neg, is_nonzero}
use jvm_gc_acclelerator.Common.Errno.{enomem}
use jvm_gc_acclelerator.Dma.Kernel.{empty_slot}
use jvm_gc_acclelerator.Driver.{Resource, ResourceCall, acquire, release, Probed, failed}
use jvm_gc_acclelerator.XorTlb.{XorTlbdev, stop_device}

-- The structure that `kzalloc` clears, with its completion.
abbrev pub new_xor_tlbdev : XorTlbdev
new_xor_tlbdev = record {
  dma = record {
    active_task = none;
    active_mm = none;
    pinned = λ _. empty_slot;
    nr_pinned = 0;
    calls = [];
  };
  done = 0;
  op_active = false;
  op_status = pos 0;
  pending_irq = 0;
}

pub record ProbeEnv : Type 0 where
  pub kzalloc_ok : Bool
  pub enable_device : ℤ
  pub request_regions : ℤ
  pub iomap : Option ℕ
  pub alloc_irq_vectors : ℤ
  pub irq_vector : ℤ
  pub request_irq : ℤ
  pub misc_register : ℤ

-- The labels of the unwinding, the last one first.
abbrev pub err_free : ℤ → List ResourceCall → Probed XorTlbdev
err_free ret r = failed ret (release Resource.memory ∷ release Resource.drvdata ∷ r)

abbrev pub err_disable : ℤ → List ResourceCall → Probed XorTlbdev
err_disable ret r = err_free ret (release Resource.pci_device ∷ r)

abbrev pub err_regions : ℤ → List ResourceCall → Probed XorTlbdev
err_regions ret r = err_disable ret (release Resource.regions ∷ release Resource.bus_master ∷ r)

abbrev pub err_iounmap : ℤ → List ResourceCall → Probed XorTlbdev
err_iounmap ret r = err_regions ret (release Resource.bar_mapping ∷ r)

abbrev pub err_irq_vectors : ℤ → List ResourceCall → Probed XorTlbdev
err_irq_vectors ret r = err_iounmap ret (release Resource.irq_vectors ∷ r)

abbrev pub err_free_irq : ℤ → List ResourceCall → Probed XorTlbdev
err_free_irq ret r = err_irq_vectors ret (release Resource.irq_line ∷ r)

-- From `misc_register` on.
unfoldable pub probe_register : ProbeEnv → ℕ → List ResourceCall → Probed XorTlbdev
probe_register env bar0 r =
    if is_nonzero env.misc_register then err_free_irq env.misc_register r else record {
      device = some new_xor_tlbdev;
      ret = pos 0;
      resources = acquire Resource.misc_device ∷ r;
    }

-- From `pci_alloc_irq_vectors` on.
unfoldable pub probe_irq : ProbeEnv → ℕ → List ResourceCall → Probed XorTlbdev
unfolding probe_register
probe_irq env bar0 r =
    if is_neg env.alloc_irq_vectors
    then err_iounmap env.alloc_irq_vectors r
    else let vectors = acquire Resource.irq_vectors ∷ r in
      if is_neg env.irq_vector
      then err_irq_vectors env.irq_vector vectors
      else if is_nonzero env.request_irq
      then err_irq_vectors env.request_irq vectors
      else probe_register env bar0 (acquire Resource.irq_line ∷ vectors)

-- From `pci_iomap` on.
unfoldable pub probe_map : ProbeEnv → Option ℕ → List ResourceCall → Probed XorTlbdev
unfolding probe_irq
probe_map env none r = err_regions enomem r
probe_map env (some bar0) r = probe_irq env bar0 (acquire Resource.bar_mapping ∷ r)

unfoldable pub probe : ProbeEnv → Probed XorTlbdev
unfolding probe_map
probe env =
    let r = acquire Resource.drvdata ∷ acquire Resource.memory ∷ [] in
    if not env.kzalloc_ok
    then failed enomem []
    else if is_nonzero env.enable_device
    then err_free env.enable_device r
    else let enabled = acquire Resource.pci_device ∷ r in
      if is_nonzero env.request_regions
      then err_disable env.request_regions enabled
      else probe_map env env.iomap
          (acquire Resource.bus_master ∷ acquire Resource.regions ∷ enabled)

unfoldable pub remove : Option XorTlbdev → List ResourceCall → Option XorTlbdev × List ResourceCall
unfolding stop_device
remove none r = (none, r)
remove (some d) r = (
  some (stop_device d),
  release Resource.memory
      ∷ release Resource.drvdata
      ∷ release Resource.pci_device
      ∷ release Resource.regions
      ∷ release Resource.bus_master
      ∷ release Resource.bar_mapping
      ∷ release Resource.irq_vectors
      ∷ release Resource.irq_line
      ∷ release Resource.misc_device
      ∷ r,
)
