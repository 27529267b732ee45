-- ===== src/Hwgc/Params.antt =====
-- `hwgc_program_parameters` of loongnix/qemu_dev/hwgc_driver/hwgc_driver_platform.c.
pub mod Roundtrip
use jvm_gc_acclelerator.Common.{ℕ, ◌*◌, ◌%◌, ◌^◌, bit_or, List, [], ◌∷◌}
use jvm_gc_acclelerator.Dma.Kernel.{Call}
use jvm_gc_acclelerator.Hwgc.Regs.{
  reg_par0, reg_par1, reg_par2, reg_par3, reg_par4, reg_par5, reg_par6, reg_par7, reg_par8,
  reg_par9, reg_par10, reg_par11, reg_par12, reg_par13, reg_par14, reg_par15, reg_par16, reg_par17,
  reg_par18, reg_par19, reg_par20, reg_par21,
}
use jvm_gc_acclelerator.Hwgc.Types.{Parameters, Hwgc, emit}

-- `((u64)(lo)) | ((u64)(hi) << 32)`
unfoldable pub field64 : ℕ → ℕ → ℕ
field64 lo hi = bit_or lo (hi * 2 ^ 32 % 2 ^ 64)

-- The flags of REG_PAR3, as a `u32`.
unfoldable pub flag_word : Parameters → ℕ
flag_word p =
    bit_or
      (bit_or
        (bit_or (p.compressed_klass_pointer_shift * 2 ^ 24 % 2 ^ 32)
          (p.use_compressed_klass_pointers * 2 ^ 16 % 2 ^ 32))
        (p.compressed_oop_shift * 2 ^ 8 % 2 ^ 32))
      p.use_compressed_oops

-- The writes, in their order.
unfoldable pub parameter_writes : Parameters → List Call
parameter_writes p =
    Call.write64 reg_par0 (field64 p.chunk_size p.age_threshold)
    ∷ Call.write64 reg_par1 (field64 p.heap_region_bias p.heap_region_shift_by)
    ∷ Call.write64 reg_par2 (field64 p.region_attr_shift_by p.log_of_hr_grain_bytes)
    ∷ Call.write64 reg_par3 (field64 p.local_bot (flag_word p))
    ∷ Call.write64 reg_par4 p.stepper_offset
    ∷ Call.write64 reg_par5 p.young_words_base
    ∷ Call.write64 reg_par6 p.region_attr_base
    ∷ Call.write64 reg_par7 p.plab_allocator_ptr
    ∷ Call.write64 reg_par8 p.region_attr_biased_base
    ∷ Call.write64 reg_par9 p.heap_region_biased_base
    ∷ Call.write64 reg_par10 p.pss
    ∷ Call.write64 reg_par11 p.task_queue_elems_base
    ∷ Call.write64 reg_par12 p.humogous_reclaim_candidate_bool_base
    ∷ Call.write64 reg_par13 p.card_table_ptr
    ∷ Call.write64 reg_par14 p.g1h
    ∷ Call.write64 reg_par15 p.int_array_klass_obj
    ∷ Call.write64 reg_par16 p.object_klass
    ∷ Call.write64 reg_par17 p.lock_ptr
    ∷ Call.write64 reg_par18 p.thread
    ∷ Call.write64 reg_par19 p.dummy_region
    ∷ Call.write64 reg_par20 p.compressed_oop_base
    ∷ Call.write64 reg_par21 p.compressed_klass_pointer_base
    ∷ []

unfoldable pub emit_all : List Call → Hwgc → Hwgc
emit_all [] d = d
emit_all (call ∷ calls) d = emit_all calls (emit call d)

unfoldable pub program_parameters : Parameters → Hwgc → Hwgc
unfolding parameter_writes emit_all
program_parameters p d = emit_all (parameter_writes p) d
