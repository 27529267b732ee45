-- ===== src/Tests/Edu.antt =====
-- Runs of the edu device's driver.
use jvm_gc_acclelerator.Common.{
  ℕ, ◌+◌, ◌≡◌, ◌≢◌, refl, arith, true, not, none, some, [], ◌∷◌, is_some, if◌then◌else◌,
}
use jvm_gc_acclelerator.Common.Int.{pos, is_nonzero}
use jvm_gc_acclelerator.Common.Errno.{etimedout}
use jvm_gc_acclelerator.Driver.{ptr, err}
use jvm_gc_acclelerator.Dma.Kernel.{Device}
use jvm_gc_acclelerator.Edu.{Caller, edu_ioctl, interrupts, awaited, irq_handler}
use jvm_gc_acclelerator.Edu.Probe.{ProbeEnv, probe, remove, new_edu_dev}
use jvm_gc_acclelerator.Edu.Unwind.{held, probe-remove-unwound}
use jvm_gc_acclelerator.Edu.Outcome.{edu_ioctl-outcome}

-- The device that has computed a factorial.
abbrev computed : ℕ → Device
computed fact = record { read32 = λ off. fact; read64 = λ off. 0 }

-- 5! is asked for, and answered in time.
abbrev caller : Caller
caller = record {
  val = some 5;
  early = [];
  computing = computed 120 ∷ [];
  waited = 250;
  late = [];
  copied = true;
}

edu_ioctl-outcome_example :
    let (edu', ret, out) = edu_ioctl 0 caller new_edu_dev in
    ((0 + 1 ≡ 0) → (ret ≡ etimedout) × (out ≡ none))
    × ((0 + 1 ≢ 0) → (ret ≡ pos 0) × (out ≡ some 120))
unfolding awaited interrupts irq_handler
edu_ioctl-outcome_example =
    edu_ioctl-outcome caller 5 new_edu_dev refl refl
      (λ over. absurd (omega arith), λ none_done. absurd (omega arith))

-- The node cannot be created.
abbrev no_node : ProbeEnv
no_node = record {
  kzalloc_ok = true;
  enable_device = pos 0;
  iomap_regions = pos 0;
  request_irq = pos 0;
  alloc_chrdev_region = pos 0;
  cdev_add = pos 0;
  class_create = ptr 3;
  device_create = err 11;
}

probe-remove-unwound_example :
    let p = probe no_node in
    (is_some p.device ≡ not (is_nonzero p.ret))
    × (held (if is_some p.device then remove p.resources else p.resources) ≡ some [])
probe-remove-unwound_example = probe-remove-unwound no_node
