-- ===== src/Hwgc/Words/Start.antt =====
-- The start ioctl and the widths of the words.
use jvm_gc_acclelerator.Common.{
  ℕ, ◌^◌, ◌<◌, arith, Bool, true, false, Option, none, some, List, [], ◌∷◌, if_keeps, Option-cases,
  inl, inr, if◌then◌else◌,
}
use jvm_gc_acclelerator.Common.Int.{ℤ}
use jvm_gc_acclelerator.Common.Errno.{enodev, ebusy}
use jvm_gc_acclelerator.Dma.Kernel.{DmaContext, Process, Call}
use jvm_gc_acclelerator.Dma.{hold_process_context}
use jvm_gc_acclelerator.Hwgc.Types.{Parameters, Hwgc, emit}
use jvm_gc_acclelerator.Hwgc.Events.{clear_event_state}
use jvm_gc_acclelerator.Hwgc.Params.{
  emit_all, program_parameters, parameter_writes, field64, flag_word,
}
use jvm_gc_acclelerator.Hwgc.Params.Roundtrip.{FitsTypes, field64-add, flag_word-add}
use jvm_gc_acclelerator.Hwgc.Ioctl.{start_ioctl, start_held, start_device, new_operation}
use jvm_gc_acclelerator.Hwgc.Words.{AllFitRegisters, HwgcFits, ParametersFit}
use jvm_gc_acclelerator.Hwgc.Words.Fits.{write32-HwgcFits, zero_event-EventFits}

field64-lt : (lo hi : ℕ) → lo < 2 ^ 32 → hi < 2 ^ 32 → field64 lo hi < 2 ^ 64
field64-lt lo hi p q = omega (arith, field64-add lo hi p q)

flag_word-lt : (p : Parameters) → FitsTypes p → flag_word p < 2 ^ 32
flag_word-lt p fits = omega (
  arith,
  flag_word-add p fits,
  fits.compressed_klass_pointer_shift,
  fits.use_compressed_klass_pointers,
  fits.compressed_oop_shift,
  fits.use_compressed_oops,
)

infixr 5 ◌and◌
◌and◌ : {A B : Type 0} → A → B → A × B
a and b = (a, b)

parameter_writes-AllFitRegisters :
    (p : Parameters) → FitsTypes p → AllFitRegisters (parameter_writes p)
unfolding parameter_writes
parameter_writes-AllFitRegisters p fits =
    field64-lt _ _ fits.chunk_size fits.age_threshold
    and field64-lt _ _ fits.heap_region_bias fits.heap_region_shift_by
    and field64-lt _ _ fits.region_attr_shift_by fits.log_of_hr_grain_bytes
    and field64-lt _ _ fits.local_bot (flag_word-lt p fits)
    and fits.stepper_offset
    and fits.young_words_base
    and fits.region_attr_base
    and fits.plab_allocator_ptr
    and fits.region_attr_biased_base
    and fits.heap_region_biased_base
    and fits.pss
    and fits.task_queue_elems_base
    and fits.humogous_reclaim_candidate_bool_base
    and fits.card_table_ptr
    and fits.g1h
    and fits.int_array_klass_obj
    and fits.object_klass
    and fits.lock_ptr
    and fits.thread
    and fits.dummy_region
    and fits.compressed_oop_base
    and fits.compressed_klass_pointer_base
    and tt

-- The log once some writes are made.
emit_all-HwgcFits :
    (writes : List Call) (d : Hwgc)
    → AllFitRegisters writes
    → HwgcFits d
    → HwgcFits (emit_all writes d)
unfolding emit_all
emit_all-HwgcFits [] d fits h = h
emit_all-HwgcFits (call ∷ writes) d (fit, fits) h =
    emit_all-HwgcFits writes (emit call d) fits (record {
      calls = (fit, h.calls);
      pending_irq = h.pending_irq;
      event_seq = h.event_seq;
      current_event = h.current_event;
    })

start_held-HwgcFits :
    (params : Parameters) (d : Hwgc) (held : DmaContext × Bool)
    → FitsTypes params
    → AllFitRegisters held.0.calls
    → HwgcFits d
    → HwgcFits (start_held params d held).0
unfolding start_held start_device new_operation clear_event_state program_parameters
start_held-HwgcFits params d (dma, false) fits all h = record {
  calls = all;
  pending_irq = h.pending_irq;
  event_seq = h.event_seq;
  current_event = h.current_event;
}
start_held-HwgcFits params d (dma, true) fits all h = write32-HwgcFits _ _ _ (omega arith) (
    emit_all-HwgcFits (parameter_writes params) _ (parameter_writes-AllFitRegisters params fits)
      (record {
        calls = (omega arith, (omega arith, (omega arith, all)));
        pending_irq = omega arith;
        event_seq = h.event_seq;
        current_event = zero_event-EventFits;
      }))

hold_process_context-AllFitRegisters :
    (current : Process) (c : DmaContext)
    → AllFitRegisters c.calls
    → AllFitRegisters (hold_process_context current c).0.calls
unfolding hold_process_context
hold_process_context-AllFitRegisters current c all = elim (Option-cases current.mm) [
  | inl none_there ↦ rw (none_there) (tt, (tt, all))
  | inr (mm, there) ↦ rw (there) (tt, (tt, all))
]

pub start_ioctl-HwgcFits :
    (params : Option Parameters) (current : Process) (d : Hwgc)
    → ParametersFit params
    → HwgcFits d
    → HwgcFits (start_ioctl params current d).0
unfolding start_ioctl
start_ioctl-HwgcFits none current d fits h = h
start_ioctl-HwgcFits (some params) current d fits h =
    let kept = if_keeps (λ (r : Hwgc × ℤ). HwgcFits r.0) in
    let held = start_held params d (hold_process_context current d.dma) in
    kept d.removing (d, enodev) (if d.op_active then (d, ebusy) else held) h
      (kept d.op_active (d, ebusy) held h
        (start_held-HwgcFits params d (hold_process_context current d.dma) fits
          (hold_process_context-AllFitRegisters current d.dma h.calls) h))
