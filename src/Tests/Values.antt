-- ===== src/Tests/Values.antt =====
-- The devices, processes and kernel answers of the examples.
use jvm_gc_acclelerator.Common.{ℕ, true, some, ◌==◌, if◌then◌else◌, ◌*◌}
use jvm_gc_acclelerator.Common.Int.{pos}
use jvm_gc_acclelerator.Dma.Kernel.{Process, Device, Mmu, TlbPort}
use jvm_gc_acclelerator.Hwgc.Types.{Parameters}

abbrev pub process : Process
process = record { task = 7; mm = some 8 }

-- The device reports `st`, a read miss at 0x5008, and the event parameters 3 and 4.
abbrev pub device : ℕ → TlbPort → Device
device st port = record {
  read32 = λ off. if off == port.miss_access then port.access_read else st;
  read64 = λ off. if off == port.miss_va then 0x5008 else 3;
}

-- The lookup finds page 21, at the physical address 0x15000, and keeps the lock.
abbrev pub mmu : Mmu
mmu = record {
  page_shift = 12;
  get_user_pages_remote = λ task mm va write. record { ret = pos 1; page = some 21; locked = true };
  page_to_phys = λ page. page * 4096;
}

abbrev pub parameters : Parameters
parameters = record {
  chunk_size = 32768;
  age_threshold = 15;
  heap_region_bias = 1984;
  heap_region_shift_by = 20;
  region_attr_shift_by = 20;
  log_of_hr_grain_bytes = 20;
  stepper_offset = 1;
  young_words_base = 2;
  region_attr_base = 3;
  plab_allocator_ptr = 4;
  region_attr_biased_base = 5;
  heap_region_biased_base = 6;
  pss = 7;
  local_bot = 8;
  task_queue_elems_base = 9;
  humogous_reclaim_candidate_bool_base = 10;
  card_table_ptr = 11;
  g1h = 12;
  int_array_klass_obj = 13;
  object_klass = 14;
  lock_ptr = 15;
  thread = 16;
  dummy_region = 17;
  compressed_oop_base = 18;
  compressed_klass_pointer_base = 19;
  compressed_oop_shift = 3;
  compressed_klass_pointer_shift = 3;
  use_compressed_oops = 1;
  use_compressed_klass_pointers = 1;
}
