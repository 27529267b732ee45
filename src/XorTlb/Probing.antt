-- ===== src/XorTlb/Probing.antt =====
-- What the XOR driver acquires and puts back, from probe to remove.
use jvm_gc_acclelerator.Common.{◌≡◌, arith, not, some, is_some, if◌then◌else◌}
use jvm_gc_acclelerator.Common.Int.{is_nonzero}
use jvm_gc_acclelerator.Driver.{Resource, acquired, released}
use jvm_gc_acclelerator.XorTlb.{XorTlbdev}
use jvm_gc_acclelerator.XorTlb.Probe.{ProbeEnv, probe, remove}

-- Whatever the kernel answers, probe reports 0 exactly if there is a device, and each resource
-- has been put back as often as it was acquired: after probe alone if there is no device, and
-- after the removal in any state if there is one.
pub probe-remove-balanced :
    (env : ProbeEnv) (x : Resource) (d : XorTlbdev)
    → let p = probe env in
      let after = if is_some p.device then (remove (some d) p.resources).1 else p.resources in
      (is_some p.device ≡ not (is_nonzero p.ret)) × (acquired x after ≡ released x after)
unfolding probe remove
probe-remove-balanced env Resource.memory d = ground arith
probe-remove-balanced env _ d = ground arith
