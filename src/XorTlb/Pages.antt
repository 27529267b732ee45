-- ===== src/XorTlb/Pages.antt =====
-- The functions of loongnix/qemu_dev/test_device/xor_tlbdev_drv.c that it shares, but for the
-- registers and the size of its table, with the accelerator's drivers.
use jvm_gc_acclelerator.Common.{ℕ, Bool}
use jvm_gc_acclelerator.Common.Int.{ℤ}
use jvm_gc_acclelerator.Dma.Kernel.{DmaContext, Device, Mmu}
use jvm_gc_acclelerator.Dma
use jvm_gc_acclelerator.XorTlb.Regs.{xor_port, max_pinned}

abbrev pub unpin_all : DmaContext → DmaContext
unpin_all = Dma.unpin_all

abbrev pub remember_pinned : ℕ → Bool → DmaContext → DmaContext × ℤ
remember_pinned page write c = Dma.remember_pinned max_pinned page write c

abbrev pub release_process_context : DmaContext → DmaContext
release_process_context = Dma.release_process_context

abbrev pub fill_tlb_for_miss : Device → Mmu → DmaContext → DmaContext × ℤ
fill_tlb_for_miss dev mmu c = Dma.fill_tlb_for_miss xor_port dev mmu c
