-- ===== src/Hwgc/Files/Stale.antt =====
-- An open file and the removal of its device.
use jvm_gc_acclelerator.Common.{◌≡◌, Bool, true, false, not}
use jvm_gc_acclelerator.Common.Int.{is_neg}
use jvm_gc_acclelerator.Dma.Ownership.{AllPut}
use jvm_gc_acclelerator.Driver.{Resource}
use jvm_gc_acclelerator.Hwgc.Types.{Hwgc}

-- What the removal of a device releases: the identifier only if the device has one.
abbrev pub released_by : Hwgc → Resource → Bool
released_by d Resource.misc_device = true
released_by d Resource.ida_id = not (is_neg d.dev_id)
released_by d Resource.irq_line = true
released_by d Resource.drvdata = true
released_by d Resource.memory = true
released_by d _ = false

-- A structure that is being removed holds nothing for an operation.
abbrev pub IsAtRest : Hwgc → Type 0
IsAtRest d = (d.op_active ≡ false) × (d.removing ≡ true) × AllPut d.dma
