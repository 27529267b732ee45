-- ===== src/Pci/Core.antt =====
-- The core of loongnix/qemu_dev/hwgc_driver/hwgc_driver_pci.c and the helpers of hwgc_ioctl.h. But
-- for what they print, its functions are those of the platform driver, statement for statement.
use jvm_gc_acclelerator.Common.{ℕ, Bool, Option}
use jvm_gc_acclelerator.Common.Int.{ℤ}
use jvm_gc_acclelerator.Dma.Kernel.{PinnedPage, DmaContext, Process, Device, Mmu}
use jvm_gc_acclelerator.Dma
use jvm_gc_acclelerator.Hwgc.Regs.{hwgc_port, max_pinned}
use jvm_gc_acclelerator.Hwgc.Types.{Parameters, Event, Hwgc}
use jvm_gc_acclelerator.Hwgc.Types
use jvm_gc_acclelerator.Hwgc.Events.{Taken}
use jvm_gc_acclelerator.Hwgc.Events
use jvm_gc_acclelerator.Hwgc.Params
use jvm_gc_acclelerator.Hwgc.Irq.{IrqReturn}
use jvm_gc_acclelerator.Hwgc.Irq
use jvm_gc_acclelerator.Hwgc.Files.{PrivateData}
use jvm_gc_acclelerator.Hwgc.Files
use jvm_gc_acclelerator.Hwgc.Ioctl.{Caller}
use jvm_gc_acclelerator.Hwgc.Ioctl

-- The structures of hwgc_ioctl.h have the fields of those of the platform driver.
abbrev pub HeaderPinnedPage : Type 0
HeaderPinnedPage = PinnedPage

abbrev pub HeaderParameters : Type 0
HeaderParameters = Parameters

abbrev pub HeaderEvent : Type 0
HeaderEvent = Event

abbrev pub HeaderHwgc : Type 0
HeaderHwgc = Hwgc

abbrev pub field64 : ℕ → ℕ → ℕ
field64 = Params.field64

abbrev pub reg_write32 : Hwgc → ℕ → ℕ → Hwgc
reg_write32 = Types.reg_write32

abbrev pub reg_write64 : Hwgc → ℕ → ℕ → Hwgc
reg_write64 = Types.reg_write64

abbrev pub clear_event_state : Hwgc → Hwgc
clear_event_state = Events.clear_event_state

abbrev pub program_parameters : Parameters → Hwgc → Hwgc
program_parameters = Params.program_parameters

abbrev pub unpin_all : DmaContext → DmaContext
unpin_all = Dma.unpin_all

abbrev pub remember_pinned : ℕ → Bool → DmaContext → DmaContext × ℤ
remember_pinned page write c = Dma.remember_pinned max_pinned page write c

abbrev pub release_process_context : DmaContext → DmaContext
release_process_context = Dma.release_process_context

abbrev pub fill_tlb_for_miss : Device → Mmu → DmaContext → DmaContext × ℤ
fill_tlb_for_miss dev mmu c = Dma.fill_tlb_for_miss hwgc_port dev mmu c

abbrev pub publish_sw_event : ℕ → ℕ → ℕ → Hwgc → Hwgc × ℤ
publish_sw_event = Events.publish_sw_event

abbrev pub finish_operation : Hwgc → Hwgc
finish_operation = Events.finish_operation

abbrev pub abort_operation_from_irq : ℤ → Hwgc → Hwgc
abort_operation_from_irq = Events.abort_operation_from_irq

abbrev pub irq_top : Device → Hwgc → Hwgc × IrqReturn
irq_top = Irq.irq_top

abbrev pub irq_thread : Device → Mmu → Hwgc → Hwgc × IrqReturn
irq_thread = Irq.irq_thread

abbrev pub start_ioctl : Option Parameters → Process → Hwgc → Hwgc × ℤ
start_ioctl = Ioctl.start_ioctl

-- The two critical sections of the wait ioctl, and the whole.
abbrev pub take_event : Hwgc → Hwgc × Taken
take_event = Events.take_event

abbrev pub restore_event : Event → Hwgc → Hwgc
restore_event = Events.restore_event

abbrev pub wait_event_ioctl : ℤ → Bool → Hwgc → Hwgc × ℤ × Option Event
wait_event_ioctl = Ioctl.wait_event_ioctl

abbrev pub reply_event_ioctl : Option Event → Hwgc → Hwgc × ℤ
reply_event_ioctl = Ioctl.reply_event_ioctl

abbrev pub hwgc_ioctl : ℕ → Caller → Option Hwgc → Option Hwgc × ℤ × Option Event
hwgc_ioctl = Ioctl.hwgc_ioctl

abbrev pub hwgc_open : PrivateData → Option (PrivateData × ℤ)
hwgc_open = Files.hwgc_open
