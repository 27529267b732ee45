-- ===== src/Edu/Probe.antt =====
-- `edu_probe` and `edu_remove` of loongnix/qemu_dev/edu_device/edu_driver.c. What is acquired by devm_ and
-- pcim_ functions the kernel puts back by itself; the probe has no calls for that.
use jvm_gc_acclelerator.Common.{Bool, not, Option, none, some, List, [], ◌∷◌, if◌then◌else◌}
use jvm_gc_acclelerator.Common.Int.{ℤ, pos, negsuc, is_nonzero}
use jvm_gc_acclelerator.Common.Errno.{enomem}
use jvm_gc_acclelerator.Driver.{ErrPtr, ptr, err}
use jvm_gc_acclelerator.Edu.{EduDev}

pub data Resource : Type 0 where
  memory : Resource  -- devm_kzalloc
  pci_device : Resource  -- pcim_enable_device
  regions : Resource  -- pcim_iomap_regions
  irq_line : Resource  -- devm_request_irq
  chrdev_region : Resource  -- alloc_chrdev_region
  char_device : Resource  -- cdev_add
  class : Resource  -- class_create
  device_node : Resource  -- device_create

pub data ResourceCall : Type 0 where
  acquire : Resource → ResourceCall
  release : Resource → ResourceCall

-- The end of a probe: the device structure if it lives on, the result, and the log, the last call
-- first.
pub record Probed : Type 0 where
  pub device : Option EduDev
  pub ret : ℤ
  pub resources : List ResourceCall

abbrev pub failed : ℤ → List ResourceCall → Probed
failed ret resources = record { device = none; ret = ret; resources = resources }

-- The structure that `devm_kzalloc` clears.
abbrev pub new_edu_dev : EduDev
new_edu_dev = record { fact_done = 0; fact_result = 0; writes = [] }

pub record ProbeEnv : Type 0 where
  pub kzalloc_ok : Bool
  pub enable_device : ℤ
  pub iomap_regions : ℤ
  pub request_irq : ℤ
  pub alloc_chrdev_region : ℤ
  pub cdev_add : ℤ
  pub class_create : ErrPtr
  pub device_create : ErrPtr

-- The labels of the unwinding, the last one first.
abbrev pub err_unregister : ℤ → List ResourceCall → Probed
err_unregister ret r = failed ret (release Resource.chrdev_region ∷ r)

abbrev pub err_cdev_del : ℤ → List ResourceCall → Probed
err_cdev_del ret r = err_unregister ret (release Resource.char_device ∷ r)

abbrev pub err_class_destroy : ℤ → List ResourceCall → Probed
err_class_destroy ret r = err_cdev_del ret (release Resource.class ∷ r)

-- From `device_create` on.
unfoldable pub probe_device : ErrPtr → List ResourceCall → Probed
probe_device (err e) r = err_class_destroy enomem r
probe_device (ptr p) r = record {
  device = some new_edu_dev;
  ret = pos 0;
  resources = acquire Resource.device_node ∷ r;
}

-- From `class_create` on.
unfoldable pub probe_class : ProbeEnv → ErrPtr → List ResourceCall → Probed
unfolding probe_device
probe_class env (err e) r = err_cdev_del (negsuc e) r
probe_class env (ptr p) r = probe_device env.device_create (acquire Resource.class ∷ r)

-- From `alloc_chrdev_region` on.
unfoldable pub probe_chrdev : ProbeEnv → List ResourceCall → Probed
unfolding probe_class
probe_chrdev env r =
    if is_nonzero env.alloc_chrdev_region
    then failed env.alloc_chrdev_region r
    else let region = acquire Resource.chrdev_region ∷ r in
      if is_nonzero env.cdev_add
      then err_unregister env.cdev_add region
      else probe_class env env.class_create (acquire Resource.char_device ∷ region)

unfoldable pub probe : ProbeEnv → Probed
unfolding probe_chrdev
probe env =
    let r = acquire Resource.memory ∷ [] in
    if not env.kzalloc_ok
    then failed enomem []
    else if is_nonzero env.enable_device
    then failed env.enable_device r
    else let enabled = acquire Resource.pci_device ∷ r in
      if is_nonzero env.iomap_regions
      then failed env.iomap_regions enabled
      else let mapped = acquire Resource.regions ∷ enabled in
        if is_nonzero env.request_irq
        then failed env.request_irq mapped
        else probe_chrdev env (acquire Resource.irq_line ∷ mapped)

unfoldable pub remove : List ResourceCall → List ResourceCall
remove r =
    release Resource.chrdev_region
    ∷ release Resource.char_device
    ∷ release Resource.class
    ∷ release Resource.device_node
    ∷ r
