-- ===== src/Tests/Drivers.antt =====
-- Loading, probing and removing the drivers.
use jvm_gc_acclelerator.Common.{
  [], ◌+◌, ◌+◌, ◌≡◌, refl, arith, true, not, ◌&&◌, some, inr, is_some, if◌then◌else◌, ◌==◌, Option,
  ap, none, subst,
}
use jvm_gc_acclelerator.Common.Int.{ℤ, pos, negsuc, is_nonzero}
use jvm_gc_acclelerator.Driver.{Resource, ptr, err, acquired, released}
use jvm_gc_acclelerator.Hwgc.Types.{Hwgc, new_hwgc}
use jvm_gc_acclelerator.Platform.{platform_probe, platform_remove}
use jvm_gc_acclelerator.Platform.Lifetime.{owned, platform_remove-probe-balanced}
use jvm_gc_acclelerator.Platform
use jvm_gc_acclelerator.Pci
use jvm_gc_acclelerator.Pci.{event_needs_reply, event_is_terminal}
use jvm_gc_acclelerator.Pci.Lifetime.{remove-probe-balanced}
use jvm_gc_acclelerator.Pci.Core.{start_ioctl}
use jvm_gc_acclelerator.Dma.Answer.{writes}
use jvm_gc_acclelerator.Pci.Reach.{probed, later, start}
use jvm_gc_acclelerator.Pci.Removed.{released_by, IsRemoved, remove-IsRemoved}
use jvm_gc_acclelerator.Dma.Ownership.{}
use jvm_gc_acclelerator.Hwgc.Remove.{}
use jvm_gc_acclelerator.Hwgc.Invariant.Reach.{Step}
use jvm_gc_acclelerator.Hwgc.Invariant.Steps.{Steps, here, next}
use jvm_gc_acclelerator.Tests.Values.{process, parameters}
use jvm_gc_acclelerator.Module.{ModuleEnv, module_init, module_exit}
use jvm_gc_acclelerator.Module.Unwind.{
  IsBalanced, count_calls, registers_gsi, unregisters_gsi, module_exit-IsBalanced,
  module_init-unwinds, module_init-leaks_gsi, module_exit-foreign_gsi,
}

-- A probe whose every step succeeds.
abbrev platform_env : Platform.ProbeEnv
platform_env = record {
  kzalloc_ok = true;
  mem_resource = true;
  ioremap = ptr 4096;
  irq_resource = some (pos 5);
  request_irq = pos 0;
  ida_get = pos 0;
  misc_register = pos 0;
}

abbrev platform_device : Hwgc
platform_device = new_hwgc (some 4096) (pos 5) (pos 0)

-- The device with an operation started on it.
abbrev platform_started : Hwgc
platform_started = (start_ioctl (some parameters) process platform_device).0

abbrev device_of : Option Hwgc → Hwgc
device_of none = platform_device
device_of (some d) = d

-- That probe makes that device, and the operation is one step from it.
probed-Steps : (d : Hwgc) → (platform_probe platform_env).device ≡ some d → Steps d platform_started
unfolding platform_probe
probed-Steps d there =
    let same : platform_device ≡ d = ap (λ (o : Option Hwgc). device_of o) there in
    subst (λ d. Steps d platform_started) same (next here (Step.start (some parameters) process))

platform_remove-probe-balanced_example :
    let p = platform_probe platform_env in
    let after =
      if is_some p.device
      then (platform_remove (some platform_started) p.resources).1
      else p.resources in
    (is_some p.device ≡ not (is_nonzero p.ret))
    × (acquired Resource.irq_line p.resources
        ≡ released Resource.irq_line p.resources
          + (if is_some p.device && owned Resource.irq_line then 1 else 0))
    × (acquired Resource.irq_line after ≡ released Resource.irq_line after)
platform_remove-probe-balanced_example =
    platform_remove-probe-balanced platform_env Resource.irq_line platform_started probed-Steps

abbrev pci_env : Pci.ProbeEnv
pci_env = record {
  kzalloc_ok = true;
  enable_device = pos 0;
  request_regions = pos 0;
  iomap = some 4096;
  alloc_irq_vectors = pos 1;
  irq_vector = pos 5;
  request_irq = pos 0;
  ida_get = pos 0;
  misc_register = pos 0;
}

abbrev id_of : Option Hwgc → ℤ
id_of none = pos 0
id_of (some d) = d.dev_id

remove-probe-balanced_example :
    let p = Pci.probe pci_env in
    let after =
      if is_some p.device then (Pci.remove (some platform_device) p.resources).1 else p.resources in
    (is_some p.device ≡ not (is_nonzero p.ret))
    × (acquired Resource.regions after ≡ released Resource.regions after)
unfolding Pci.probe
remove-probe-balanced_example =
    remove-probe-balanced pci_env Resource.regions platform_device (λ probed there. ap id_of there)

-- Two devices, all registered.
abbrev module_env : ModuleEnv
module_env = record {
  num_devs = pos 2;
  num_gsis = pos 2;
  gsi = λ i. if i == 0 then pos 20 else pos 21;
  mmio_base = λ i. 0x10000000;
  mmio_size = 0x1000;
  driver_register_ret = pos 0;
  acpi_register_gsi = λ i. pos (40 + i);
  device_register_ret = λ i. ptr (100 + i);
}

module_exit-IsBalanced_example : IsBalanced (module_exit module_env (module_init module_env).0)
unfolding module_init
module_exit-IsBalanced_example = module_exit-IsBalanced module_env refl (refl, refl) refl

-- The second interrupt cannot be registered.
abbrev no_second_irq : ModuleEnv
no_second_irq = record module_env { acpi_register_gsi = λ i. if i == 0 then pos 40 else negsuc 21 }

module_init-unwinds_example : IsBalanced (module_init no_second_irq).0
unfolding module_init
module_init-unwinds_example =
    module_init-unwinds no_second_irq 100 101 (refl, refl) refl refl (λ e. ground arith)

-- The first platform device cannot be registered.
abbrev no_first_device : ModuleEnv
no_first_device = record module_env { device_register_ret = λ i. err 11 }

module_init-leaks_gsi_example :
    let (s, ret) = module_init no_first_device in
    (ret ≡ negsuc 11)
    × (count_calls (registers_gsi (pos 20)) s.calls ≡ 1)
    × (count_calls (unregisters_gsi (pos 20)) s.calls ≡ 0)
module_init-leaks_gsi_example =
    module_init-leaks_gsi no_first_device 2 11 (inr refl) refl refl refl refl refl

abbrev one_device : ModuleEnv
one_device = record module_env { num_devs = pos 1; num_gsis = pos 1 }

module_exit-foreign_gsi_example :
    let s = module_exit one_device (module_init one_device).0 in
    (count_calls (registers_gsi (pos 21)) s.calls ≡ 0)
    × (count_calls (unregisters_gsi (pos 21)) s.calls ≡ 1)
unfolding module_init
module_exit-foreign_gsi_example = module_exit-foreign_gsi one_device refl (refl, refl) refl refl

-- A device of the PCI driver that is started and then removed.
abbrev pci_started : Hwgc
pci_started = (start_ioctl (some parameters) process platform_device).0

remove-IsRemoved_example :
    (last : Hwgc) × ((Pci.remove (some pci_started) []).0 ≡ some last)
    × IsRemoved (writes pci_started.calls) last
    × ((x : Resource)
        → released x (Pci.remove (some pci_started) []).1
          ≡ 0 + (if released_by pci_started x then 1 else 0))
remove-IsRemoved_example =
    remove-IsRemoved pci_started []
      (later (probed 4096 (pos 5) (pos 0)) (start (some parameters) process))
