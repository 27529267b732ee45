-- ===== src/Driver.antt =====
-- What the probe functions of the drivers acquire from the kernel and put back: a log of these calls,
-- the last one first.
use jvm_gc_acclelerator.Common.{
  ℕ, ◌+◌, Bool, true, false, Option, none, some, is_some, ◌≡◌, refl, List, [], ◌∷◌, if◌then◌else◌,
}
use jvm_gc_acclelerator.Common.Int.{ℤ}

pub data Resource : Type 0 where
  memory : Resource  -- kzalloc
  drvdata : Resource  -- …_set_drvdata
  pci_device : Resource  -- pci_enable_device
  regions : Resource  -- pci_request_regions
  bus_master : Resource  -- pci_set_master
  bar_mapping : Resource  -- pci_iomap
  irq_vectors : Resource  -- pci_alloc_irq_vectors
  irq_line : Resource  -- request_threaded_irq
  ida_id : Resource  -- ida_simple_get
  misc_device : Resource  -- misc_register

pub data ResourceCall : Type 0 where
  acquire : Resource → ResourceCall
  release : Resource → ResourceCall

-- The end of a probe: the device structure if it lives on, the result, and the log.
pub record Probed (D : Type 0) : Type 0 where
  pub device : Option D
  pub ret : ℤ
  pub resources : List ResourceCall

abbrev pub failed : {D : Type 0} → ℤ → List ResourceCall → Probed D
failed ret resources = record { device = none; ret = ret; resources = resources }

-- A pointer that may encode an error; `err n` stands for -(n + 1).
pub data ErrPtr : Type 0 where
  ptr : ℕ → ErrPtr
  err : ℕ → ErrPtr

abbrev same : Resource → Resource → Bool
same Resource.memory Resource.memory = true
same Resource.drvdata Resource.drvdata = true
same Resource.pci_device Resource.pci_device = true
same Resource.regions Resource.regions = true
same Resource.bus_master Resource.bus_master = true
same Resource.bar_mapping Resource.bar_mapping = true
same Resource.irq_vectors Resource.irq_vectors = true
same Resource.irq_line Resource.irq_line = true
same Resource.ida_id Resource.ida_id = true
same Resource.misc_device Resource.misc_device = true
same _ _ = false

abbrev pub acquired : Resource → List ResourceCall → ℕ
acquired r [] = 0
acquired r (ResourceCall.acquire s ∷ calls) = (if same s r then 1 else 0) + acquired r calls
acquired r (ResourceCall.release s ∷ calls) = acquired r calls

abbrev pub released : Resource → List ResourceCall → ℕ
released r [] = 0
released r (ResourceCall.acquire s ∷ calls) = released r calls
released r (ResourceCall.release s ∷ calls) = (if same s r then 1 else 0) + released r calls

-- From probe to the end: with no device the probe has put back what it acquired, and with a device the
-- removal has.
pub balanced_after {ℓ} :
    {A : Type ℓ} (x : Resource) (device : Option A) (probed removed : List ResourceCall)
    → (device ≡ none → acquired x probed ≡ released x probed)
    → ((a : A) → device ≡ some a → acquired x removed ≡ released x removed)
    → let after = if is_some device then removed else probed in
      (acquired x after ≡ released x after)
balanced_after x none probed removed without with_device = without refl
balanced_after x (some a) probed removed without with_device = with_device a refl
