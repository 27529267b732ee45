-- ===== src/Platform/Lifetime.antt =====
-- What the platform driver acquires and puts back, from probe to remove.
use jvm_gc_acclelerator.Common.{
  ◌+◌, ◌≡◌, arith, Bool, true, false, not, ◌&&◌, some, is_some, if◌then◌else◌,
}
use jvm_gc_acclelerator.Common.Int.{is_nonzero}
use jvm_gc_acclelerator.Hwgc.Types.{Hwgc}
use jvm_gc_acclelerator.Hwgc.Invariant.Steps.{Steps, Steps-dev_id}
use jvm_gc_acclelerator.Driver.{Resource, acquired, released, balanced_after}
use jvm_gc_acclelerator.Platform.{ProbeEnv, platform_probe, platform_remove}

-- What a probed device owns.
abbrev pub owned : Resource → Bool
owned Resource.memory = true
owned Resource.drvdata = true
owned Resource.irq_line = true
owned Resource.ida_id = true
owned Resource.misc_device = true
owned _ = false

-- Whatever the kernel answers, probe reports 0 exactly if there is a device, and each resource
-- was put back as often as it was acquired, but for one of each that a probed device owns:
-- memory, driver data, interrupt line, identifier and misc device.
platform_probe-balanced :
    (env : ProbeEnv) (x : Resource)
    → let p = platform_probe env in
      (is_some p.device ≡ not (is_nonzero p.ret))
      × (acquired x p.resources
          ≡ released x p.resources + (if is_some p.device && owned x then 1 else 0))
unfolding platform_probe
platform_probe-balanced env Resource.memory = ground arith
platform_probe-balanced env _ = ground arith

-- After a probe that made a device, and any critical sections that ran on it, the removal has
-- put back each resource as often as it was acquired.
platform_remove-balanced :
    (env : ProbeEnv) (x : Resource) (probed d : Hwgc)
    → (platform_probe env).device ≡ some probed
    → Steps probed d
    → let resources = (platform_remove (some d) (platform_probe env).resources).1 in
      (acquired x resources ≡ released x resources)
unfolding platform_probe platform_remove
platform_remove-balanced env Resource.memory probed d ok steps = ground (arith, Steps-dev_id steps)
platform_remove-balanced env _ probed d ok steps = ground (arith, Steps-dev_id steps)

-- Whatever the kernel answers, the platform probe reports 0 exactly if there is a device, which then owns
-- its memory, driver data, interrupt line, identifier and misc device and nothing else; and each resource
-- has been put back as often as it was acquired: after probe alone if there is no device, and after the
-- removal that follows any critical sections of the probed device, if there is one.
pub platform_remove-probe-balanced :
    (env : ProbeEnv) (x : Resource) (d : Hwgc)
    → ((probed : Hwgc) → (platform_probe env).device ≡ some probed → Steps probed d)
    → let p = platform_probe env in
      let after =
        if is_some p.device then (platform_remove (some d) p.resources).1 else p.resources in
      (is_some p.device ≡ not (is_nonzero p.ret))
      × (acquired x p.resources
          ≡ released x p.resources + (if is_some p.device && owned x then 1 else 0))
      × (acquired x after ≡ released x after)
platform_remove-probe-balanced env x d steps =
    let (told, count) = platform_probe-balanced env x in
    (
      told,
      count,
      balanced_after x (platform_probe env).device (platform_probe env).resources
          (platform_remove (some d) (platform_probe env).resources).1
          (λ nothing. ground (arith, count, nothing))
          (λ probed there. platform_remove-balanced env x probed d there (steps probed there)),
    )
