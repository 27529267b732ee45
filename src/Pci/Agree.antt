-- ===== src/Pci/Agree.antt =====
-- The constants and the tests of loongnix/qemu_dev/hwgc_driver/hwgc_ioctl.h beside those of the
-- platform driver.
use jvm_gc_acclelerator.Common.{ℕ, ◌≡◌, refl, arith, List, [], ◌∷◌}
use jvm_gc_acclelerator.Hwgc
use jvm_gc_acclelerator.Hwgc.Events.{needs_reply, is_terminal}
use jvm_gc_acclelerator.Pci
use jvm_gc_acclelerator.Pci.{event_needs_reply, event_is_terminal}

abbrev header_constants : List ℕ
header_constants =
    Pci.Regs.reg_status ∷ Pci.Regs.reg_irq_status ∷ Pci.Regs.reg_irq_clear ∷ Pci.Regs.reg_cmd
    ∷ Pci.Regs.reg_par0 ∷ Pci.Regs.reg_par1 ∷ Pci.Regs.reg_par2 ∷ Pci.Regs.reg_par3
    ∷ Pci.Regs.reg_par4 ∷ Pci.Regs.reg_par5 ∷ Pci.Regs.reg_par6 ∷ Pci.Regs.reg_par7
    ∷ Pci.Regs.reg_par8 ∷ Pci.Regs.reg_par9 ∷ Pci.Regs.reg_par10 ∷ Pci.Regs.reg_par11
    ∷ Pci.Regs.reg_par12 ∷ Pci.Regs.reg_par13 ∷ Pci.Regs.reg_par14 ∷ Pci.Regs.reg_par15
    ∷ Pci.Regs.reg_par16 ∷ Pci.Regs.reg_par17 ∷ Pci.Regs.reg_par18 ∷ Pci.Regs.reg_par19
    ∷ Pci.Regs.reg_par20 ∷ Pci.Regs.reg_par21 ∷ Pci.Regs.reg_irq_par0 ∷ Pci.Regs.reg_irq_par1
    ∷ Pci.Regs.reg_irq_res0 ∷ Pci.Regs.reg_irq_res1 ∷ Pci.Regs.cmd_start ∷ Pci.Regs.cmd_continue
    ∷ Pci.Regs.cmd_reset ∷ Pci.Regs.st_irq_en ∷ Pci.Regs.irq_tlb_miss ∷ Pci.Regs.irq_done
    ∷ Pci.Regs.irq_grow ∷ Pci.Regs.irq_expand ∷ Pci.Regs.irq_allocate ∷ Pci.Regs.irq_wake
    ∷ Pci.Regs.irq_error ∷ Pci.Regs.irq_all ∷ Pci.Regs.access_read ∷ Pci.Regs.access_write
    ∷ Pci.Regs.max_pinned ∷ Pci.Regs.event_none ∷ Pci.Regs.event_done ∷ Pci.Regs.event_grow
    ∷ Pci.Regs.event_expand ∷ Pci.Regs.event_allocate ∷ Pci.Regs.event_wake ∷ Pci.Regs.event_error
    ∷ []

abbrev platform_constants : List ℕ
platform_constants =
    Hwgc.Regs.reg_status ∷ Hwgc.Regs.reg_irq_status ∷ Hwgc.Regs.reg_irq_clear ∷ Hwgc.Regs.reg_cmd
    ∷ Hwgc.Regs.reg_par0 ∷ Hwgc.Regs.reg_par1 ∷ Hwgc.Regs.reg_par2 ∷ Hwgc.Regs.reg_par3
    ∷ Hwgc.Regs.reg_par4 ∷ Hwgc.Regs.reg_par5 ∷ Hwgc.Regs.reg_par6 ∷ Hwgc.Regs.reg_par7
    ∷ Hwgc.Regs.reg_par8 ∷ Hwgc.Regs.reg_par9 ∷ Hwgc.Regs.reg_par10 ∷ Hwgc.Regs.reg_par11
    ∷ Hwgc.Regs.reg_par12 ∷ Hwgc.Regs.reg_par13 ∷ Hwgc.Regs.reg_par14 ∷ Hwgc.Regs.reg_par15
    ∷ Hwgc.Regs.reg_par16 ∷ Hwgc.Regs.reg_par17 ∷ Hwgc.Regs.reg_par18 ∷ Hwgc.Regs.reg_par19
    ∷ Hwgc.Regs.reg_par20 ∷ Hwgc.Regs.reg_par21 ∷ Hwgc.Regs.reg_irq_par0 ∷ Hwgc.Regs.reg_irq_par1
    ∷ Hwgc.Regs.reg_irq_res0 ∷ Hwgc.Regs.reg_irq_res1 ∷ Hwgc.Regs.cmd_start ∷ Hwgc.Regs.cmd_continue
    ∷ Hwgc.Regs.cmd_reset ∷ Hwgc.Regs.st_irq_en ∷ Hwgc.Regs.irq_tlb_miss ∷ Hwgc.Regs.irq_done
    ∷ Hwgc.Regs.irq_grow ∷ Hwgc.Regs.irq_expand ∷ Hwgc.Regs.irq_allocate ∷ Hwgc.Regs.irq_wake
    ∷ Hwgc.Regs.irq_error ∷ Hwgc.Regs.irq_all ∷ Hwgc.Regs.access_read ∷ Hwgc.Regs.access_write
    ∷ Hwgc.Regs.max_pinned ∷ Hwgc.Regs.event_none ∷ Hwgc.Regs.event_done ∷ Hwgc.Regs.event_grow
    ∷ Hwgc.Regs.event_expand ∷ Hwgc.Regs.event_allocate ∷ Hwgc.Regs.event_wake
    ∷ Hwgc.Regs.event_error ∷ []

-- Each constant of the header has the value that the platform driver gives it.
constants_agree : header_constants ≡ platform_constants
constants_agree = refl

-- The header's two tests and those of the platform driver agree on every event type.
pub event_tests_agree :
    (type : ℕ)
    → (event_needs_reply type ≡ needs_reply type) × (event_is_terminal type ≡ is_terminal type)
unfolding event_needs_reply event_is_terminal needs_reply is_terminal
event_tests_agree type = ground arith
