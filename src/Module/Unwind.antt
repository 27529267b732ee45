-- ===== src/Module/Unwind.antt =====
-- What loading and unloading the module registers and unregisters.
use jvm_gc_acclelerator.Common.{
  ℕ, ◌+◌, ◌≡◌, ◌≢◌, arith, Bool, true, false, ◌⊎◌, List, [], ◌∷◌, ◌==◌, if◌then◌else◌,
}
use jvm_gc_acclelerator.Common.Int.{ℤ, pos, negsuc, is_neg}
use jvm_gc_acclelerator.Driver.{ptr, err}
use jvm_gc_acclelerator.Module.{
  ModuleCall, ModuleEnv, ModuleState, same_int, module_init, module_exit,
}

abbrev pub count_calls : (ModuleCall → Bool) → List ModuleCall → ℕ
count_calls is [] = 0
count_calls is (c ∷ calls) = (if is c then 1 else 0) + count_calls is calls

abbrev pub registers_gsi : ℤ → ModuleCall → Bool
registers_gsi g (ModuleCall.gsi_register h) = same_int h g
registers_gsi g _ = false

abbrev pub unregisters_gsi : ℤ → ModuleCall → Bool
unregisters_gsi g (ModuleCall.gsi_unregister h) = same_int h g
unregisters_gsi g _ = false

abbrev pub registers_device : ℕ → ModuleCall → Bool
registers_device p (ModuleCall.device_register _ _ _ _ h) = h == p
registers_device p _ = false

abbrev pub unregisters_device : ℕ → ModuleCall → Bool
unregisters_device p (ModuleCall.device_unregister h) = h == p
unregisters_device p _ = false

abbrev pub registers_driver : ModuleCall → Bool
registers_driver ModuleCall.driver_register = true
registers_driver _ = false

abbrev pub unregisters_driver : ModuleCall → Bool
unregisters_driver ModuleCall.driver_unregister = true
unregisters_driver _ = false

-- Every interrupt, device and driver was registered as often as it was unregistered.
pub record IsBalanced (s : ModuleState) : Type 0 where
  pub gsis :
      (g : ℤ) → count_calls (registers_gsi g) s.calls ≡ count_calls (unregisters_gsi g) s.calls
  pub devices :
      (p : ℕ)
      → count_calls (registers_device p) s.calls ≡ count_calls (unregisters_device p) s.calls
  pub drivers : count_calls registers_driver s.calls ≡ count_calls unregisters_driver s.calls

-- The interrupt numbers are not negative, so none is passed over.
abbrev pub GsisValid : ModuleEnv → Type 0
GsisValid env = (is_neg (env.gsi 0) ≡ false) × (is_neg (env.gsi 1) ≡ false)

-- Two devices with interrupt numbers that are not negative: after a load that succeeded, the
-- unload has unregistered each interrupt, device and driver as often as it was registered.
pub module_exit-IsBalanced :
    (env : ModuleEnv)
    → env.num_devs ≡ pos 2
    → GsisValid env
    → (module_init env).1 ≡ pos 0
    → IsBalanced (module_exit env (module_init env).0)
unfolding module_init module_exit
module_exit-IsBalanced env two valid loaded = record {
  gsis = λ g. ground arith;
  devices = λ p. ground arith;
  drivers = ground arith;
}

-- If a load fails, with interrupt numbers that are not negative and with every platform device
-- that it asks for registered, then it has unregistered each interrupt, device and driver as
-- often as it was registered.
pub module_init-unwinds :
    (env : ModuleEnv) (h0 h1 : ℕ)
    → GsisValid env
    → env.device_register_ret 0 ≡ ptr h0
    → env.device_register_ret 1 ≡ ptr h1
    → (module_init env).1 ≢ pos 0
    → IsBalanced (module_init env).0
unfolding module_init
module_init-unwinds env h0 h1 valid ok0 ok1 failed = record {
  gsis = λ g. ground arith;
  devices = λ p. ground arith;
  drivers = ground arith;
}

-- With one device or two, as many interrupt numbers, and the driver and the first interrupt
-- registered: if the first platform device cannot be registered, the load returns that error,
-- and has registered the first interrupt number once and never unregistered it.
pub module_init-leaks_gsi :
    (env : ModuleEnv) (n e : ℕ)
    → (n ≡ 1) ⊎ (n ≡ 2)
    → env.num_devs ≡ pos n
    → env.num_gsis ≡ pos n
    → env.driver_register_ret ≡ pos 0
    → is_neg (env.acpi_register_gsi 0) ≡ false
    → env.device_register_ret 0 ≡ err e
    → let (s, ret) = module_init env in
      (ret ≡ negsuc e)
      × (count_calls (registers_gsi (env.gsi 0)) s.calls ≡ 1)
      × (count_calls (unregisters_gsi (env.gsi 0)) s.calls ≡ 0)
unfolding module_init
module_init-leaks_gsi env n e few devs gsis driver irq device = ground arith

-- With one device and two different interrupt numbers that are not negative: a load that
-- succeeds and the unload after it never register the second number and unregister it once.
pub module_exit-foreign_gsi :
    (env : ModuleEnv)
    → env.num_devs ≡ pos 1
    → GsisValid env
    → same_int (env.gsi 0) (env.gsi 1) ≡ false
    → (module_init env).1 ≡ pos 0
    → let s = module_exit env (module_init env).0 in
      (count_calls (registers_gsi (env.gsi 1)) s.calls ≡ 0)
      × (count_calls (unregisters_gsi (env.gsi 1)) s.calls ≡ 1)
unfolding module_init module_exit
module_exit-foreign_gsi env one valid other loaded = ground arith
