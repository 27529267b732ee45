-- ===== src/Module.antt =====
-- `hwgc_module_init` and `hwgc_module_exit` of
-- loongnix/qemu_dev/hwgc_driver/hwgc_driver_platform.c. The module parameters and the answers of the
-- kernel are arguments; a log holds the calls, the last one first.
pub mod Unwind
use jvm_gc_acclelerator.Common.{
  ℕ, zero, suc, ◌+◌, ◌-◌, ◌%◌, ◌^◌, Bool, true, false, not, ◌||◌, Option, none, some, List, [], ◌∷◌,
  leb, ltb, ◌==◌, if◌then◌else◌,
}
use jvm_gc_acclelerator.Common.Int.{ℤ, pos, negsuc, is_neg, is_nonzero}
use jvm_gc_acclelerator.Common.Errno.{einval}
use jvm_gc_acclelerator.Driver.{ErrPtr, ptr, err}

abbrev pub max_devs : ℕ
max_devs = 2

pub data ModuleCall : Type 0 where
  driver_register : ModuleCall
  driver_unregister : ModuleCall
  gsi_register : (gsi : ℤ) → ModuleCall
  gsi_unregister : (gsi : ℤ) → ModuleCall
  device_register : (id start end : ℕ) (irq : ℤ) (handle : ℕ) → ModuleCall
  device_unregister : (handle : ℕ) → ModuleCall
  ida_destroy : ModuleCall

-- The arrays `linux_irq` and `hwgc_pdevs`.
pub record ModuleState : Type 0 where
  pub linux_irq : ℕ → ℤ
  pub pdevs : ℕ → Option ℕ
  pub calls : List ModuleCall

-- The module parameters, and what each registration returns for the device of an index.
pub record ModuleEnv : Type 0 where
  pub num_devs : ℤ
  pub num_gsis : ℤ
  pub gsi : ℕ → ℤ
  pub mmio_base : ℕ → ℕ
  pub mmio_size : ℕ
  pub driver_register_ret : ℤ
  pub acpi_register_gsi : ℕ → ℤ
  pub device_register_ret : ℕ → ErrPtr

abbrev pub update {ℓ} : {A : Type ℓ} → (ℕ → A) → ℕ → A → ℕ → A
update f i a j = if i == j then a else f j

abbrev pub call : ModuleCall → ModuleState → ModuleState
call c s = record s { calls = c ∷ s.calls }

-- The body of the loop under `err_unregister_devices`, which is that of the exit, too.
abbrev pub unregister_device : ℕ → Option ℕ → ModuleState → ModuleState
unregister_device i none s = s
unregister_device i (some handle) s = record (call (ModuleCall.device_unregister handle) s) {
  pdevs = update s.pdevs i none;
}

unfoldable pub unregister_slot : ModuleEnv → ℕ → ModuleState → ModuleState
unregister_slot env i s =
    let s' = unregister_device i (s.pdevs i) s in
    if is_neg (env.gsi i) then s' else record (call (ModuleCall.gsi_unregister (env.gsi i)) s') {
      linux_irq = update s'.linux_irq i (negsuc 0);
    }

-- `while (--i >= 0)`
unfoldable pub unwind : ModuleEnv → ℕ → ModuleState → ModuleState
unfolding unregister_slot
unwind env zero s = s
unwind env (suc i) s = unwind env i (unregister_slot env i s)

abbrev pub err_unregister_devices : ModuleEnv → ℕ → ℤ → ModuleState → ModuleState × ℤ
err_unregister_devices env i ret s = (call ModuleCall.driver_unregister (unwind env i s), ret)

-- The loop over the devices, with the rounds left and the index.
unfoldable pub init_loop : ModuleEnv → ℕ → ℕ → ModuleState → ModuleState × ℤ
unfolding unwind
init_loop env zero i s = (s, pos 0)
init_loop env (suc left) i s =
    let irq = env.acpi_register_gsi i in
    let with_irq = record s { linux_irq = update s.linux_irq i irq } in
    let with_gsi = call (ModuleCall.gsi_register (env.gsi i)) with_irq in
    let start = env.mmio_base i in
    let end = (start + env.mmio_size + 2 ^ 64 - 1) % 2 ^ 64 in
    let next = λ (handle : ℕ).
      init_loop env left (suc i)
        (record (call (ModuleCall.device_register i start end irq handle) with_gsi) {
          pdevs = update with_gsi.pdevs i (some handle);
        }) in
    if is_neg irq
    then err_unregister_devices env i irq with_irq
    else elim (env.device_register_ret i) [
      | ptr handle ↦ next handle
      | err e ↦
          err_unregister_devices env i (negsuc e)
            (record with_gsi { pdevs = update with_gsi.pdevs i none })
    ]

abbrev pub same_int : ℤ → ℤ → Bool
same_int (pos a) (pos b) = a == b
same_int (negsuc a) (negsuc b) = a == b
same_int _ _ = false

-- From the two checks on: `num_devs` is `n`.
unfoldable pub init_devices : ModuleEnv → ℕ → ModuleState → ModuleState × ℤ
unfolding init_loop
init_devices env n s =
    let cleared = record s { linux_irq = λ _. negsuc 0; pdevs = λ _. none } in
    if is_nonzero env.driver_register_ret
    then (cleared, env.driver_register_ret)
    else init_loop env n 0 (call ModuleCall.driver_register cleared)

abbrev pub init_checked : ModuleEnv → ℤ → ModuleState → ModuleState × ℤ
init_checked env (negsuc n) s = (s, einval)
init_checked env (pos n) s =
    if n == 0 || ltb max_devs n
    then (s, einval)
    else if not (same_int env.num_gsis (pos n))
    then (s, einval)
    else init_devices env n s

-- Before the module is loaded the arrays are zero.
abbrev pub unloaded : ModuleState
unloaded = record { linux_irq = λ _. pos 0; pdevs = λ _. none; calls = [] }

unfoldable pub module_init : ModuleEnv → ModuleState × ℤ
unfolding init_devices
module_init env = init_checked env env.num_devs unloaded

unfoldable pub module_exit : ModuleEnv → ModuleState → ModuleState
unfolding unregister_slot
module_exit env s =
    call ModuleCall.ida_destroy
      (call ModuleCall.driver_unregister (unregister_slot env 1 (unregister_slot env 0 s)))
