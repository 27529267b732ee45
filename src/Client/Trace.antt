-- ===== src/Client/Trace.antt =====
-- The parameters that the main of loongnix/qemu_dev/hwgc_driver/0_64_1_78.c prepares for its workers.
use jvm_gc_acclelerator.Common.{Option, none, some}
use jvm_gc_acclelerator.Hwgc.Types.{Parameters}
use jvm_gc_acclelerator.Shadow.{shadow_addr}

-- An abort of one step aborts the rest.
infixl 5 ◌>>=◌
abbrev pub ◌>>=◌ {ℓ κ} : {A : Type ℓ} {B : Type κ} → Option A → (A → Option B) → Option B
none >>= f = none
some a >>= f = f a

-- `pars[0]` and `pars[1]`; `none` is an abort.
unfoldable pub pars_0 : Option Parameters
unfolding shadow_addr
pars_0 = do
  young_words_base ← shadow_addr 0xff5c00cda0
  region_attr_base ← shadow_addr 0xfff0074480
  plab_allocator_ptr ← shadow_addr 0xff5c002a40
  region_attr_biased_base ← shadow_addr 0xffefe75800
  heap_region_biased_base ← shadow_addr 0xffef84d680
  pss ← shadow_addr 0xff5c002720
  task_queue_elems_base ← shadow_addr 0xfff5384010
  humogous_reclaim_candidate_bool_base ← shadow_addr 0xfff0075440
  card_table_ptr ← shadow_addr 0xfff00432c0
  g1h ← shadow_addr 0xfff003a8b0
  int_array_klass_obj ← shadow_addr 0xff48000bd0
  object_klass ← shadow_addr 0xff48001d30
  lock_ptr ← shadow_addr 0xfff0025080
  thread ← shadow_addr 0xfff0075d50
  dummy_region ← shadow_addr 0xfff00e8340
  some (record {
    chunk_size = 50;
    age_threshold = 2;
    heap_region_bias = 1046080;
    region_attr_shift_by = 20;
    heap_region_shift_by = 20;
    log_of_hr_grain_bytes = 20;
    stepper_offset = 8589934594;
    young_words_base = young_words_base;
    region_attr_base = region_attr_base;
    plab_allocator_ptr = plab_allocator_ptr;
    region_attr_biased_base = region_attr_biased_base;
    heap_region_biased_base = heap_region_biased_base;
    pss = pss;
    local_bot = 64;
    task_queue_elems_base = task_queue_elems_base;
    humogous_reclaim_candidate_bool_base = humogous_reclaim_candidate_bool_base;
    card_table_ptr = card_table_ptr;
    g1h = g1h;
    int_array_klass_obj = int_array_klass_obj;
    object_klass = object_klass;
    lock_ptr = lock_ptr;
    thread = thread;
    dummy_region = dummy_region;
    compressed_oop_base = 0;
    compressed_klass_pointer_base = 0;
    compressed_oop_shift = 0;
    compressed_klass_pointer_shift = 0;
    use_compressed_oops = 0;
    use_compressed_klass_pointers = 0;
  })

unfoldable pub pars_1 : Option Parameters
unfolding shadow_addr
pars_1 = do
  young_words_base ← shadow_addr 0xff040061c0
  region_attr_base ← shadow_addr 0xfff0074480
  plab_allocator_ptr ← shadow_addr 0xff5c004da0
  region_attr_biased_base ← shadow_addr 0xffefe75800
  heap_region_biased_base ← shadow_addr 0xffef84d680
  pss ← shadow_addr 0xff5c004aa0
  task_queue_elems_base ← shadow_addr 0xfff5280010
  humogous_reclaim_candidate_bool_base ← shadow_addr 0xfff0075440
  card_table_ptr ← shadow_addr 0xfff00432c0
  g1h ← shadow_addr 0xfff003a8b0
  int_array_klass_obj ← shadow_addr 0xff48000bd0
  object_klass ← shadow_addr 0xff48001d30
  lock_ptr ← shadow_addr 0xfff0025080
  thread ← shadow_addr 0xff400048e0
  dummy_region ← shadow_addr 0xfff00e8340
  some (record {
    chunk_size = 50;
    age_threshold = 2;
    heap_region_bias = 1046080;
    region_attr_shift_by = 20;
    heap_region_shift_by = 20;
    log_of_hr_grain_bytes = 20;
    stepper_offset = 8589934594;
    young_words_base = young_words_base;
    region_attr_base = region_attr_base;
    plab_allocator_ptr = plab_allocator_ptr;
    region_attr_biased_base = region_attr_biased_base;
    heap_region_biased_base = heap_region_biased_base;
    pss = pss;
    local_bot = 78;
    task_queue_elems_base = task_queue_elems_base;
    humogous_reclaim_candidate_bool_base = humogous_reclaim_candidate_bool_base;
    card_table_ptr = card_table_ptr;
    g1h = g1h;
    int_array_klass_obj = int_array_klass_obj;
    object_klass = object_klass;
    lock_ptr = lock_ptr;
    thread = thread;
    dummy_region = dummy_region;
    compressed_oop_base = 0;
    compressed_klass_pointer_base = 0;
    compressed_oop_shift = 0;
    compressed_klass_pointer_shift = 0;
    use_compressed_oops = 0;
    use_compressed_klass_pointers = 0;
  })
