-- ===== src/Platform.antt =====
-- `hwgc_platform_probe` and `hwgc_platform_remove` of
-- loongnix/qemu_dev/hwgc_driver/hwgc_driver_platform.c. The answers of the kernel are arguments.
pub mod Lifetime
use jvm_gc_acclelerator.Common.{
  ℕ, Bool, true, false, not, Option, none, some, List, [], ◌∷◌, if◌then◌else◌,
}
use jvm_gc_acclelerator.Common.Int.{ℤ, pos, negsuc, is_neg, is_nonzero}
use jvm_gc_acclelerator.Common.Errno.{enodev, enomem}
use jvm_gc_acclelerator.Hwgc.Types.{Hwgc, new_hwgc}
use jvm_gc_acclelerator.Hwgc.Remove.{announce_removal, stop_device}
use jvm_gc_acclelerator.Driver.{
  Resource, ResourceCall, acquire, release, Probed, failed, ErrPtr, ptr, err,
}

pub record ProbeEnv : Type 0 where
  pub kzalloc_ok : Bool
  pub mem_resource : Bool
  pub ioremap : ErrPtr
  pub irq_resource : Option ℤ
  pub request_irq : ℤ
  pub ida_get : ℤ
  pub misc_register : ℤ

-- The labels of the unwinding, the last one first.
abbrev pub err_free : ℤ → List ResourceCall → Probed Hwgc
err_free ret r = failed ret (release Resource.memory ∷ release Resource.drvdata ∷ r)

abbrev pub err_free_irq : ℤ → List ResourceCall → Probed Hwgc
err_free_irq ret r = err_free ret (release Resource.irq_line ∷ r)

abbrev pub err_free_id : ℤ → List ResourceCall → Probed Hwgc
err_free_id ret r = err_free_irq ret (release Resource.ida_id ∷ r)

-- From `ida_simple_get` on.
unfoldable pub probe_register : ProbeEnv → ℕ → ℤ → List ResourceCall → Probed Hwgc
probe_register env bar0 irq r =
    if is_neg env.ida_get
    then err_free_irq env.ida_get r
    else let with_id = acquire Resource.ida_id ∷ r in
      if is_nonzero env.misc_register then err_free_id env.misc_register with_id else record {
        device = some (new_hwgc (some bar0) irq env.ida_get);
        ret = pos 0;
        resources = acquire Resource.misc_device ∷ with_id;
      }

-- From the IRQ resource on.
unfoldable pub probe_irq : ProbeEnv → ℕ → Option ℤ → List ResourceCall → Probed Hwgc
unfolding probe_register
probe_irq env bar0 none r = err_free enodev r
probe_irq env bar0 (some irq) r =
    if is_nonzero env.request_irq
    then err_free env.request_irq r
    else probe_register env bar0 irq (acquire Resource.irq_line ∷ r)

-- From the mapping of the registers on. The mapping is managed: the kernel undoes it.
unfoldable pub probe_map : ProbeEnv → ErrPtr → List ResourceCall → Probed Hwgc
unfolding probe_irq
probe_map env (err e) r = err_free (negsuc e) r
probe_map env (ptr bar0) r = probe_irq env bar0 env.irq_resource r

unfoldable pub platform_probe : ProbeEnv → Probed Hwgc
unfolding probe_map
platform_probe env =
    let r = acquire Resource.drvdata ∷ acquire Resource.memory ∷ [] in
    if not env.kzalloc_ok
    then failed enomem []
    else if not env.mem_resource
    then err_free enodev r
    else probe_map env env.ioremap r

-- The structure as it is when it is freed, and the log. `none` is a device with no driver data.
unfoldable pub platform_remove : Option Hwgc → List ResourceCall → Option Hwgc × List ResourceCall
unfolding announce_removal stop_device
platform_remove none r = (none, r)
platform_remove (some d) r =
    let announced = announce_removal d in
    let no_misc = release Resource.misc_device ∷ r in
    let no_id = if is_neg announced.dev_id then no_misc else release Resource.ida_id ∷ no_misc in
    let d' =
      if is_neg announced.dev_id then announced else record announced { dev_id = negsuc 0 } in
    (
      some (stop_device d'),
      release Resource.memory ∷ release Resource.drvdata ∷ release Resource.irq_line ∷ no_id,
    )
