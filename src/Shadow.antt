-- ===== src/Shadow.antt =====
-- The memory that the programs share with the device: init_shadowChunks, shadow_addr and the accesses
-- of loongnix/qemu_dev/hwgc_driver/test.h. The machines that they are for store the low byte first.
pub mod Bytes
pub mod Access
pub mod Image
use jvm_gc_acclelerator.Common.{
  ℕ, zero, suc, ◌+◌, ◌-◌, ◌*◌, ◌/◌, ◌%◌, ◌^◌, Bool, ◌&&◌, Option, none, some, ltb, leb, ◌==◌,
  if◌then◌else◌,
}

abbrev pub shadow_size : ℕ
shadow_size = 0x200000000

abbrev pub shadow_va_base : ℕ
shadow_va_base = 0xfe00000000

-- The mapping: where it lies, and the byte at each address.
pub record Shadow : Type 0 where
  pub base : ℕ
  pub bytes : ℕ → ℕ

-- What `mmap` returned, which is not compared with what it was asked for; `none` is MAP_FAILED, and an
-- abort. Anonymous memory is zero.
abbrev pub init_shadow_chunks : Option ℕ → Option Shadow
init_shadow_chunks none = none
init_shadow_chunks (some base) = some (record { base = base; bytes = λ _. 0 })

-- `none` is an abort.
unfoldable pub shadow_addr : ℕ → Option ℕ
shadow_addr addr =
    if ltb addr shadow_va_base
    then none
    else if leb shadow_size (addr - shadow_va_base)
    then none
    else some addr

-- The end of an access: an abort by `shadow_addr`, an address that the mapping does not have, or the
-- access itself.
pub data Outcome (A : Type 0) : Type 0 where
  aborted : Outcome A
  unmapped : Outcome A
  accessed : A → Outcome A

abbrev pub is_mapped : Shadow → ℕ → ℕ → Bool
is_mapped s addr width = leb s.base addr && leb (addr + width) (s.base + shadow_size)

abbrev pub update : (ℕ → ℕ) → ℕ → ℕ → ℕ → ℕ
update bytes addr byte at = if at == addr then byte else bytes at

-- A little-endian word of some bytes.
unfoldable pub read_word : (ℕ → ℕ) → ℕ → ℕ → ℕ
read_word bytes addr zero = 0
read_word bytes addr (suc width) = bytes addr + 256 * read_word bytes (addr + 1) width

unfoldable pub write_word : (ℕ → ℕ) → ℕ → ℕ → ℕ → ℕ → ℕ
write_word bytes addr zero val = bytes
write_word bytes addr (suc width) val =
    update (write_word bytes (addr + 1) width (val / 256)) addr (val % 256)

-- The body that the loads share, for a width in bytes, and that of the stores.
unfoldable pub load : ℕ → Shadow → ℕ → Outcome ℕ
unfolding shadow_addr read_word
load width s addr = elim (shadow_addr addr) [
  | none ↦ aborted
  | some p ↦ if is_mapped s p width then accessed (read_word s.bytes p width) else unmapped
]

unfoldable pub store : ℕ → Shadow → ℕ → ℕ → Outcome Shadow
unfolding shadow_addr write_word
store width s addr val = elim (shadow_addr addr) [
  | none ↦ aborted
  | some p ↦
      if is_mapped s p width
      then accessed (record s { bytes = write_word s.bytes p width val })
      else unmapped
]

abbrev pub load64 : Shadow → ℕ → Outcome ℕ
load64 = load 8

abbrev pub load32 : Shadow → ℕ → Outcome ℕ
load32 = load 4

abbrev pub load16 : Shadow → ℕ → Outcome ℕ
load16 = load 2

abbrev pub load8 : Shadow → ℕ → Outcome ℕ
load8 = load 1

abbrev pub store64 : Shadow → ℕ → ℕ → Outcome Shadow
store64 s addr val = store 8 s addr (val % 2 ^ 64)

abbrev pub store32 : Shadow → ℕ → ℕ → Outcome Shadow
store32 s addr val = store 4 s addr (val % 2 ^ 32)

-- The parameter of `store16` has 8 bits.
abbrev pub store16 : Shadow → ℕ → ℕ → Outcome Shadow
store16 s addr val = store 2 s addr (val % 2 ^ 8)

abbrev pub store8 : Shadow → ℕ → ℕ → Outcome Shadow
store8 s addr val = store 1 s addr (val % 2 ^ 8)
