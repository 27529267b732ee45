-- ===== src/Tests/Words.antt =====
-- The widths of the words, in a run of the driver.
use jvm_gc_acclelerator.Common.{◌*◌, ◌%◌, ◌^◌, arith, some, true}
use jvm_gc_acclelerator.Common.Int.{pos}
use jvm_gc_acclelerator.Dma.Kernel.{Mmu}
use jvm_gc_acclelerator.Hwgc.Irq.{irq_thread}
use jvm_gc_acclelerator.Hwgc.Params.Roundtrip.{FitsTypes}
use jvm_gc_acclelerator.Hwgc.Invariant.Reach.{Step}
use jvm_gc_acclelerator.Hwgc.Words.{DeviceFits, MmuFits, HwgcFits, TypedReach, probed, later}
use jvm_gc_acclelerator.Hwgc.Words.Typed.{TypedReach-HwgcFits}
use jvm_gc_acclelerator.Tests.Values.{process, parameters}
use jvm_gc_acclelerator.Tests.Service.{grow, raised}

-- Page `n` is at the physical address `n * 4096`, of 64 bits.
abbrev flat_mmu : Mmu
flat_mmu = record {
  page_shift = 12;
  get_user_pages_remote = λ task mm va write. record { ret = pos 1; page = some 21; locked = true };
  page_to_phys = λ page. page * 4096 % 2 ^ 64;
}

flat_mmu-MmuFits : MmuFits flat_mmu
flat_mmu-MmuFits page = omega arith

grow-DeviceFits : DeviceFits grow
grow-DeviceFits = record { read32 = λ off. ground arith; read64 = λ off. ground arith }

parameters-FitsTypes : FitsTypes parameters
parameters-FitsTypes = ground arith

-- The operation is started, and the device asks to grow the heap.
published-TypedReach : TypedReach (irq_thread grow flat_mmu raised).0
published-TypedReach =
    later
      (later
        (later (probed (some 0) (pos 5) (pos 0)) (Step.start (some parameters) process)
          parameters-FitsTypes)
        (Step.interrupt grow) grow-DeviceFits)
      (Step.thread grow flat_mmu) (grow-DeviceFits, flat_mmu-MmuFits)

TypedReach-HwgcFits_example : HwgcFits (irq_thread grow flat_mmu raised).0
TypedReach-HwgcFits_example = TypedReach-HwgcFits published-TypedReach
