-- ===== src/Hwgc/Regs.antt =====
-- The register map, the command, status and interrupt bits, the access codes and the event types of
-- loongnix/qemu_dev/hwgc_driver/hwgc_driver_platform.c.
use jvm_gc_acclelerator.Common.{ℕ, ◌*◌, bit_or}
use jvm_gc_acclelerator.Dma.Kernel.{TlbPort}

abbrev pub reg_status : ℕ
reg_status = 0x0

abbrev pub reg_irq_status : ℕ
reg_irq_status = 0x4

abbrev pub reg_irq_clear : ℕ
reg_irq_clear = 0x8

abbrev pub reg_cmd : ℕ
reg_cmd = 0xc

abbrev pub reg_par0 : ℕ
reg_par0 = 0x10

abbrev pub reg_par1 : ℕ
reg_par1 = 0x18

abbrev pub reg_par2 : ℕ
reg_par2 = 0x20

abbrev pub reg_par3 : ℕ
reg_par3 = 0x28

abbrev pub reg_par4 : ℕ
reg_par4 = 0x30

abbrev pub reg_par5 : ℕ
reg_par5 = 0x38

abbrev pub reg_par6 : ℕ
reg_par6 = 0x40

abbrev pub reg_par7 : ℕ
reg_par7 = 0x48

abbrev pub reg_par8 : ℕ
reg_par8 = 0x50

abbrev pub reg_par9 : ℕ
reg_par9 = 0x58

abbrev pub reg_par10 : ℕ
reg_par10 = 0x60

abbrev pub reg_par11 : ℕ
reg_par11 = 0x68

abbrev pub reg_par12 : ℕ
reg_par12 = 0x70

abbrev pub reg_par13 : ℕ
reg_par13 = 0x78

abbrev pub reg_par14 : ℕ
reg_par14 = 0x80

abbrev pub reg_par15 : ℕ
reg_par15 = 0x88

abbrev pub reg_par16 : ℕ
reg_par16 = 0x90

abbrev pub reg_par17 : ℕ
reg_par17 = 0x98

abbrev pub reg_par18 : ℕ
reg_par18 = 0xa0

abbrev pub reg_par19 : ℕ
reg_par19 = 0xa8

abbrev pub reg_par20 : ℕ
reg_par20 = 0xb0

abbrev pub reg_par21 : ℕ
reg_par21 = 0xb8

abbrev pub reg_irq_par0 : ℕ
reg_irq_par0 = 0xc0

abbrev pub reg_irq_par1 : ℕ
reg_irq_par1 = 0xc8

abbrev pub reg_irq_res0 : ℕ
reg_irq_res0 = 0xd0

abbrev pub reg_irq_res1 : ℕ
reg_irq_res1 = 0xd8

abbrev pub cmd_start : ℕ
cmd_start = 0x1

abbrev pub cmd_continue : ℕ
cmd_continue = 0x2

abbrev pub cmd_reset : ℕ
cmd_reset = 0x4

abbrev pub st_irq_en : ℕ
st_irq_en = 0x100

abbrev pub irq_tlb_miss : ℕ
irq_tlb_miss = 0x1

abbrev pub irq_done : ℕ
irq_done = 0x2

abbrev pub irq_grow : ℕ
irq_grow = 0x4

abbrev pub irq_expand : ℕ
irq_expand = 0x8

abbrev pub irq_allocate : ℕ
irq_allocate = 0x10

abbrev pub irq_wake : ℕ
irq_wake = 0x20

abbrev pub irq_error : ℕ
irq_error = 0x40

abbrev pub irq_all : ℕ
irq_all =
    bit_or
      (bit_or
        (bit_or (bit_or (bit_or (bit_or irq_error irq_wake) irq_allocate) irq_expand) irq_grow)
        irq_done)
      irq_tlb_miss

abbrev pub access_read : ℕ
access_read = 1

abbrev pub access_write : ℕ
access_write = 2

abbrev pub max_pinned : ℕ
max_pinned = 512 * 1024

abbrev pub event_none : ℕ
event_none = 0

abbrev pub event_done : ℕ
event_done = 1

abbrev pub event_grow : ℕ
event_grow = 2

abbrev pub event_expand : ℕ
event_expand = 3

abbrev pub event_allocate : ℕ
event_allocate = 4

abbrev pub event_wake : ℕ
event_wake = 5

abbrev pub event_error : ℕ
event_error = 6

-- How `hwgc_fill_tlb_for_miss` uses the registers.
abbrev pub hwgc_port : TlbPort
hwgc_port = record {
  miss_va = reg_irq_par0;
  miss_access = reg_irq_par1;
  fill_va = reg_irq_res0;
  fill_pa = reg_irq_res1;
  cmd = reg_cmd;
  cmd_continue = cmd_continue;
  access_read = access_read;
  access_write = access_write;
  max_pinned = max_pinned;
}
