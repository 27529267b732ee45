-- ===== src/Pci/Lifetime.antt =====
-- What the PCI driver acquires and puts back, from probe to remove.
use jvm_gc_acclelerator.Common.{◌+◌, ◌≡◌, arith, not, some, is_some, if◌then◌else◌}
use jvm_gc_acclelerator.Common.Int.{is_nonzero}
use jvm_gc_acclelerator.Hwgc.Types.{Hwgc}
use jvm_gc_acclelerator.Driver.{Resource, acquired, released, balanced_after}
use jvm_gc_acclelerator.Pci.{ProbeEnv, probe, remove}

-- Whatever the kernel answers, the PCI probe reports 0 exactly if there is a device, and each
-- resource was put back as often as it was acquired, but for one of each if there is a device.
probe-balanced :
    (env : ProbeEnv) (x : Resource)
    → let p = probe env in
      (is_some p.device ≡ not (is_nonzero p.ret))
      × (acquired x p.resources ≡ released x p.resources + (if is_some p.device then 1 else 0))
unfolding probe
probe-balanced env Resource.memory = ground arith
probe-balanced env _ = ground arith

-- After a probe that made a device, the removal, in any later state with the identifier that
-- the probe gave, has put back each resource as often as it was acquired.
remove-balanced :
    (env : ProbeEnv) (x : Resource) (probed d : Hwgc)
    → (probe env).device ≡ some probed
    → d.dev_id ≡ probed.dev_id
    → let resources = (remove (some d) (probe env).resources).1 in
      (acquired x resources ≡ released x resources)
unfolding probe remove
remove-balanced env Resource.memory probed d ok same = ground arith
remove-balanced env _ probed d ok same = ground arith

-- Whatever the kernel answers, the PCI probe reports 0 exactly if there is a device; and each resource has
-- been put back as often as it was acquired: after probe alone if there is no device, and after the
-- removal, in any later state with the identifier that the probe gave, if there is one.
pub remove-probe-balanced :
    (env : ProbeEnv) (x : Resource) (d : Hwgc)
    → ((probed : Hwgc) → (probe env).device ≡ some probed → d.dev_id ≡ probed.dev_id)
    → let p = probe env in
      let after = if is_some p.device then (remove (some d) p.resources).1 else p.resources in
      (is_some p.device ≡ not (is_nonzero p.ret)) × (acquired x after ≡ released x after)
remove-probe-balanced env x d same =
    let (told, count) = probe-balanced env x in
    (
      told,
      balanced_after x (probe env).device (probe env).resources
          (remove (some d) (probe env).resources).1 (λ nothing. ground (arith, count, nothing))
          (λ probed there. remove-balanced env x probed d there (same probed there)),
    )
