-- ===== src/Shadow/Image.antt =====
-- The statements that restore a memory image, in the main functions of
-- loongnix/qemu_dev/hwgc_driver/0_64_1_78.c, test_44.c and test_49.c.
pub mod Restored
pub mod Loads
use jvm_gc_acclelerator.Common.{ℕ, List, [], ◌∷◌, none, some}
use jvm_gc_acclelerator.Shadow.{
  Shadow, Outcome, aborted, unmapped, accessed, shadow_addr, store8, store16, store32, store64,
}

-- `shadow_addr(addr)`, the stores of a value, and `store64(addr, (uintptr_t)shadow_addr(target))`.
pub data Statement : Type 0 where
  translate : (addr : ℕ) → Statement
  put8 put16 put32 put64 : (addr val : ℕ) → Statement
  link : (addr target : ℕ) → Statement

unfoldable pub run_statement : Statement → Shadow → Outcome Shadow
unfolding shadow_addr
run_statement (Statement.translate addr) s = elim (shadow_addr addr) [
  | none ↦ aborted
  | some p ↦ accessed s
]
run_statement (Statement.put8 addr val) s = store8 s addr val
run_statement (Statement.put16 addr val) s = store16 s addr val
run_statement (Statement.put32 addr val) s = store32 s addr val
run_statement (Statement.put64 addr val) s = store64 s addr val
run_statement (Statement.link addr target) s = elim (shadow_addr target) [
  | none ↦ aborted
  | some p ↦ store64 s addr p
]

-- The first statement that does not end ends the program.
unfoldable pub run_image : List Statement → Shadow → Outcome Shadow
unfolding run_statement
run_image [] s = accessed s
run_image (st ∷ image) s = elim (run_statement st s) [
  | aborted ↦ aborted
  | unmapped ↦ unmapped
  | accessed s' ↦ run_image image s'
]
