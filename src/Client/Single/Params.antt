-- ===== src/Client/Single/Params.antt =====
-- The parameters that the main of loongnix/qemu_dev/hwgc_driver/test_44.c prepares.
use jvm_gc_acclelerator.Common.{Option, some}
use jvm_gc_acclelerator.Hwgc.Types.{Parameters}
use jvm_gc_acclelerator.Shadow.{shadow_addr}
use jvm_gc_acclelerator.Client.Trace.{◌>>=◌}

-- `par`; `none` is an abort.
unfoldable pub par : Option Parameters
unfolding shadow_addr
par = do
  young_words_base ← shadow_addr 0xffcc000e30
  region_attr_base ← shadow_addr 0xfff004ac40
  plab_allocator_ptr ← shadow_addr 0xffcc000f10
  region_attr_biased_base ← shadow_addr 0xffefe4b1b0
  heap_region_biased_base ← shadow_addr 0xffef845dc0
  pss ← shadow_addr 0xffcc000bf0
  task_queue_elems_base ← shadow_addr 0xfff418c010
  humogous_reclaim_candidate_bool_base ← shadow_addr 0xfff004ae40
  card_table_ptr ← shadow_addr 0xfff0043190
  g1h ← shadow_addr 0xfff003a940
  int_array_klass_obj ← shadow_addr 0xffb8000bd0
  object_klass ← shadow_addr 0xffb8001d30
  lock_ptr ← shadow_addr 0xfff0025160
  thread ← shadow_addr 0xfff004b020
  dummy_region ← shadow_addr 0xfff00daec0
  some (record {
    chunk_size = 50;
    age_threshold = 15;
    heap_region_bias = 1047880;
    region_attr_shift_by = 20;
    heap_region_shift_by = 20;
    log_of_hr_grain_bytes = 20;
    stepper_offset = 4294967297;
    young_words_base = young_words_base;
    region_attr_base = region_attr_base;
    plab_allocator_ptr = plab_allocator_ptr;
    region_attr_biased_base = region_attr_biased_base;
    heap_region_biased_base = heap_region_biased_base;
    pss = pss;
    local_bot = 68;
    task_queue_elems_base = task_queue_elems_base;
    humogous_reclaim_candidate_bool_base = humogous_reclaim_candidate_bool_base;
    card_table_ptr = card_table_ptr;
    g1h = g1h;
    int_array_klass_obj = int_array_klass_obj;
    object_klass = object_klass;
    lock_ptr = lock_ptr;
    thread = thread;
    dummy_region = dummy_region;
    compressed_oop_base = 0;
    compressed_klass_pointer_base = 0;
    compressed_oop_shift = 0;
    compressed_klass_pointer_shift = 0;
    use_compressed_oops = 0;
    use_compressed_klass_pointers = 0;
  })
