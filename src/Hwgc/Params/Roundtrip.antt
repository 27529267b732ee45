-- ===== src/Hwgc/Params/Roundtrip.antt =====
-- The parameters that the process gave, and what the registers of the device hold.
use jvm_gc_acclelerator.Common.{
  ℕ, ◌+◌, ◌*◌, ◌/◌, ◌%◌, ◌^◌, ◌<◌, ◌≡◌, arith, List, [], ◌∷◌, ◌==◌, if◌then◌else◌,
}
use jvm_gc_acclelerator.Common.Bits.{bit_or_high_low, bit_or_low_high}
use jvm_gc_acclelerator.Dma.Kernel.{Call}
use jvm_gc_acclelerator.Hwgc.Regs.{
  reg_par0, reg_par1, reg_par2, reg_par3, reg_par4, reg_par5, reg_par6, reg_par7, reg_par8,
  reg_par9, reg_par10, reg_par11, reg_par12, reg_par13, reg_par14, reg_par15, reg_par16, reg_par17,
  reg_par18, reg_par19, reg_par20, reg_par21,
}
use jvm_gc_acclelerator.Hwgc.Types.{Parameters, Hwgc}
use jvm_gc_acclelerator.Hwgc.Params.{
  field64, flag_word, parameter_writes, emit_all, program_parameters,
}

-- The fields fit their C types.
pub record FitsTypes (p : Parameters) : Type 0 where
  pub chunk_size : p.chunk_size < 2 ^ 32
  pub age_threshold : p.age_threshold < 2 ^ 32
  pub heap_region_bias : p.heap_region_bias < 2 ^ 32
  pub heap_region_shift_by : p.heap_region_shift_by < 2 ^ 32
  pub region_attr_shift_by : p.region_attr_shift_by < 2 ^ 32
  pub log_of_hr_grain_bytes : p.log_of_hr_grain_bytes < 2 ^ 32
  pub stepper_offset : p.stepper_offset < 2 ^ 64
  pub young_words_base : p.young_words_base < 2 ^ 64
  pub region_attr_base : p.region_attr_base < 2 ^ 64
  pub plab_allocator_ptr : p.plab_allocator_ptr < 2 ^ 64
  pub region_attr_biased_base : p.region_attr_biased_base < 2 ^ 64
  pub heap_region_biased_base : p.heap_region_biased_base < 2 ^ 64
  pub pss : p.pss < 2 ^ 64
  pub local_bot : p.local_bot < 2 ^ 32
  pub task_queue_elems_base : p.task_queue_elems_base < 2 ^ 64
  pub humogous_reclaim_candidate_bool_base : p.humogous_reclaim_candidate_bool_base < 2 ^ 64
  pub card_table_ptr : p.card_table_ptr < 2 ^ 64
  pub g1h : p.g1h < 2 ^ 64
  pub int_array_klass_obj : p.int_array_klass_obj < 2 ^ 64
  pub object_klass : p.object_klass < 2 ^ 64
  pub lock_ptr : p.lock_ptr < 2 ^ 64
  pub thread : p.thread < 2 ^ 64
  pub dummy_region : p.dummy_region < 2 ^ 64
  pub compressed_oop_base : p.compressed_oop_base < 2 ^ 64
  pub compressed_klass_pointer_base : p.compressed_klass_pointer_base < 2 ^ 64
  pub compressed_oop_shift : p.compressed_oop_shift < 2 ^ 8
  pub compressed_klass_pointer_shift : p.compressed_klass_pointer_shift < 2 ^ 8
  pub use_compressed_oops : p.use_compressed_oops < 2 ^ 8
  pub use_compressed_klass_pointers : p.use_compressed_klass_pointers < 2 ^ 8

-- The value of a 64-bit register after the calls of a log, the last call first; 0 if none wrote it.
abbrev pub register64 : ℕ → List Call → ℕ
register64 off [] = 0
register64 off (Call.write64 at val ∷ calls) = if at == off then val else register64 off calls
register64 off (_ ∷ calls) = register64 off calls

abbrev low32 : ℕ → ℕ
low32 v = v % 2 ^ 32

abbrev pub high32 : ℕ → ℕ
high32 v = v / 2 ^ 32

abbrev pub byte : ℕ → ℕ → ℕ
byte i v = v / 2 ^ (8 * i) % 2 ^ 8

-- How the accelerator, hwgc_spinal/hw/spinal/hwgc_acc/GCAccTop.scala, reads its word CompressedFlag: bit 0,
-- bits 15 to 8, bit 1, and bits 23 to 16.
abbrev pub use_compressed_oops_of : ℕ → ℕ
use_compressed_oops_of flag = flag % 2

abbrev pub compressed_oop_shift_of : ℕ → ℕ
compressed_oop_shift_of flag = byte 1 flag

abbrev pub use_compressed_klass_pointers_of : ℕ → ℕ
use_compressed_klass_pointers_of flag = flag / 2 % 2

abbrev pub compressed_klass_pointer_shift_of : ℕ → ℕ
compressed_klass_pointer_shift_of flag = byte 2 flag

-- The parameters that the accelerator gets from the registers. Which register holds which word is
-- the layout of the driver, REG_PAR3 with CompressedFlag in its high half: the accelerator's own
-- registers are not in the repository.
abbrev pub device_view : (ℕ → ℕ) → Parameters
device_view read = record {
  chunk_size = low32 (read reg_par0);
  age_threshold = high32 (read reg_par0);
  heap_region_bias = low32 (read reg_par1);
  heap_region_shift_by = high32 (read reg_par1);
  region_attr_shift_by = low32 (read reg_par2);
  log_of_hr_grain_bytes = high32 (read reg_par2);
  stepper_offset = read reg_par4;
  young_words_base = read reg_par5;
  region_attr_base = read reg_par6;
  plab_allocator_ptr = read reg_par7;
  region_attr_biased_base = read reg_par8;
  heap_region_biased_base = read reg_par9;
  pss = read reg_par10;
  local_bot = low32 (read reg_par3);
  task_queue_elems_base = read reg_par11;
  humogous_reclaim_candidate_bool_base = read reg_par12;
  card_table_ptr = read reg_par13;
  g1h = read reg_par14;
  int_array_klass_obj = read reg_par15;
  object_klass = read reg_par16;
  lock_ptr = read reg_par17;
  thread = read reg_par18;
  dummy_region = read reg_par19;
  compressed_oop_base = read reg_par20;
  compressed_klass_pointer_base = read reg_par21;
  compressed_oop_shift = compressed_oop_shift_of (high32 (read reg_par3));
  compressed_klass_pointer_shift = compressed_klass_pointer_shift_of (high32 (read reg_par3));
  use_compressed_oops = use_compressed_oops_of (high32 (read reg_par3));
  use_compressed_klass_pointers = use_compressed_klass_pointers_of (high32 (read reg_par3));
}

pub field64-add : (lo hi : ℕ) → lo < 2 ^ 32 → hi < 2 ^ 32 → field64 lo hi ≡ lo + hi * 2 ^ 32
unfolding field64
field64-add lo hi p q =
    let shifted : hi * 2 ^ 32 % 2 ^ 64 ≡ hi * 2 ^ 32 = omega arith in
    rw shifted (bit_or_low_high 32 lo hi p)

pub flag_word-add :
    (p : Parameters)
    → FitsTypes p
    → flag_word p
      ≡ p.compressed_klass_pointer_shift * 2 ^ 24
        + p.use_compressed_klass_pointers * 2 ^ 16
        + p.compressed_oop_shift * 2 ^ 8
        + p.use_compressed_oops
unfolding flag_word
flag_word-add p fits =
    let a = p.compressed_klass_pointer_shift in
    let b = p.use_compressed_klass_pointers in
    let c = p.compressed_oop_shift in
    let shift_a : a * 2 ^ 24 % 2 ^ 32 ≡ a * 2 ^ 24 = omega arith in
    let shift_b : b * 2 ^ 16 % 2 ^ 32 ≡ b * 2 ^ 16 = omega arith in
    let shift_c : c * 2 ^ 8 % 2 ^ 32 ≡ c * 2 ^ 8 = omega arith in
    let ab : a * 2 ^ 24 + b * 2 ^ 16 ≡ (a * 2 ^ 8 + b) * 2 ^ 16 = omega arith in
    let abc : (a * 2 ^ 8 + b) * 2 ^ 16 + c * 2 ^ 8 ≡ (a * 2 ^ 16 + b * 2 ^ 8 + c) * 2 ^ 8 =
      omega arith in
    rw
      (
        shift_a,
        shift_b,
        shift_c,
        bit_or_high_low 24 a (b * 2 ^ 16) (omega arith),
        ab,
        bit_or_high_low 16 (a * 2 ^ 8 + b) (c * 2 ^ 8) (omega arith),
        abc,
        bit_or_high_low 8 (a * 2 ^ 16 + b * 2 ^ 8 + c) p.use_compressed_oops (omega arith),
      )
      (omega arith)

-- What the accelerator makes of the parameters: both of its flags come from the flag of the object pointers,
-- and its shift of class pointers from the flag of the class pointers.
abbrev pub as_read : Parameters → Parameters
as_read p = record p {
  use_compressed_oops = p.use_compressed_oops % 2;
  use_compressed_klass_pointers = p.use_compressed_oops / 2 % 2;
  compressed_klass_pointer_shift = p.use_compressed_klass_pointers;
}

-- If the parameters fit their C types, then from any state the accelerator reads from the registers that
-- were programmed every parameter but three as it was given: it takes the lowest bit of
-- useCompressedOops for that flag, the next bit of it for the flag of the class pointers, and
-- useCompressedKlassPointers for the shift of the class pointers; the shift that was given is in the bits
-- 31 to 24 of the word, which it does not read.
pub program_parameters-device_view :
    (p : Parameters) (d : Hwgc)
    → FitsTypes p
    → let read : ℕ → ℕ = λ off. register64 off (program_parameters p d).calls in
      (device_view read ≡ as_read p)
      × (byte 3 (high32 (read reg_par3)) ≡ p.compressed_klass_pointer_shift)
unfolding program_parameters parameter_writes emit_all
program_parameters-device_view p d fits = ground (
  arith,
  field64-add p.chunk_size p.age_threshold,
  field64-add p.heap_region_bias p.heap_region_shift_by,
  field64-add p.region_attr_shift_by p.log_of_hr_grain_bytes,
  field64-add p.local_bot (flag_word p),
  flag_word-add p fits,
)
