-- ===== src/XorTlb/Regs.antt =====
-- The register map, the command, status and interrupt bits and the access codes of
-- loongnix/qemu_dev/test_device/xor_tlbdev_drv.c.
use jvm_gc_acclelerator.Common.{ℕ, ◌+◌, ◌*◌, ◌^◌, bit_or}
use jvm_gc_acclelerator.Dma.Kernel.{TlbPort}

abbrev pub reg_status : ℕ
reg_status = 0x00

abbrev pub reg_irq_status : ℕ
reg_irq_status = 0x04

abbrev pub reg_irq_clear : ℕ
reg_irq_clear = 0x08

abbrev pub reg_cmd : ℕ
reg_cmd = 0x0c

abbrev pub reg_a_va : ℕ
reg_a_va = 0x10

abbrev pub reg_b_va : ℕ
reg_b_va = 0x18

abbrev pub reg_out_va : ℕ
reg_out_va = 0x20

abbrev pub reg_miss_va : ℕ
reg_miss_va = 0x28

abbrev pub reg_miss_access : ℕ
reg_miss_access = 0x30

abbrev pub reg_tlb_fill_va : ℕ
reg_tlb_fill_va = 0x38

abbrev pub reg_tlb_fill_pa : ℕ
reg_tlb_fill_pa = 0x40

abbrev pub cmd_start : ℕ
cmd_start = 1

abbrev pub cmd_continue : ℕ
cmd_continue = 2

abbrev pub cmd_reset : ℕ
cmd_reset = 4

abbrev pub st_irq_en : ℕ
st_irq_en = 0x10

abbrev pub irq_tlb_miss : ℕ
irq_tlb_miss = 1

abbrev pub irq_done : ℕ
irq_done = 2

abbrev pub irq_error : ℕ
irq_error = 4

abbrev pub irq_all : ℕ
irq_all = bit_or (bit_or irq_tlb_miss irq_done) irq_error

abbrev pub access_read : ℕ
access_read = 1

abbrev pub access_write : ℕ
access_write = 2

abbrev pub max_pinned : ℕ
max_pinned = 16

-- `_IOWR('x', 1, struct xor_tlb_op)` of asm-generic/ioctl.h; the structure has 32 bytes.
abbrev pub xor_tlb_ioc_run : ℕ
xor_tlb_ioc_run = 3 * 2 ^ 30 + 32 * 2 ^ 16 + 0x78 * 2 ^ 8 + 1

-- How `xor_fill_tlb_for_miss` uses the registers.
abbrev pub xor_port : TlbPort
xor_port = record {
  miss_va = reg_miss_va;
  miss_access = reg_miss_access;
  fill_va = reg_tlb_fill_va;
  fill_pa = reg_tlb_fill_pa;
  cmd = reg_cmd;
  cmd_continue = cmd_continue;
  access_read = access_read;
  access_write = access_write;
  max_pinned = max_pinned;
}
