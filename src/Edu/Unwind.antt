-- ===== src/Edu/Unwind.antt =====
-- The resources of the edu driver as a stack.
use jvm_gc_acclelerator.Common.{
  ◌≡◌, arith, Bool, true, false, not, Option, none, some, List, [], ◌∷◌, is_some, if◌then◌else◌,
}
use jvm_gc_acclelerator.Common.Int.{is_nonzero}
use jvm_gc_acclelerator.Edu.Probe.{
  Resource, ResourceCall, acquire, release, ProbeEnv, probe, remove,
}

-- What the kernel puts back by itself when the driver is detached from the device.
abbrev pub is_managed : Resource → Bool
is_managed Resource.memory = true
is_managed Resource.pci_device = true
is_managed Resource.regions = true
is_managed Resource.irq_line = true
is_managed _ = false

abbrev pub same : Resource → Resource → Bool
same Resource.memory Resource.memory = true
same Resource.pci_device Resource.pci_device = true
same Resource.regions Resource.regions = true
same Resource.irq_line Resource.irq_line = true
same Resource.chrdev_region Resource.chrdev_region = true
same Resource.char_device Resource.char_device = true
same Resource.class Resource.class = true
same Resource.device_node Resource.device_node = true
same _ _ = false

-- The resource is on the top.
abbrev pub pop : Resource → Option (List Resource) → Option (List Resource)
pop r none = none
pop r (some []) = none
pop r (some (top ∷ held)) = if same r top then some held else none

abbrev pub push : Resource → Option (List Resource) → Option (List Resource)
push r none = none
push r (some held) = if is_managed r then some held else some (r ∷ held)

-- What is held after the calls of a log, the last acquired first; `none` if a call puts back what is
-- not the last acquired of what is held.
abbrev pub held : List ResourceCall → Option (List Resource)
held [] = some []
held (acquire r ∷ calls) = push r (held calls)
held (release r ∷ calls) = pop r (held calls)

-- Whatever the kernel answers, probe reports 0 exactly if there is a device; it and the removal put
-- back only what is the last acquired of what is held; and nothing is held after probe alone if there
-- is no device, and after the removal if there is one, but for what the kernel puts back by itself.
pub probe-remove-unwound :
    (env : ProbeEnv)
    → let p = probe env in
      (is_some p.device ≡ not (is_nonzero p.ret))
      × (held (if is_some p.device then remove p.resources else p.resources) ≡ some [])
unfolding probe remove
probe-remove-unwound env = ground arith
