-- ===== src/Hwgc/Types.antt =====
-- The records of loongnix/qemu_dev/hwgc_driver/hwgc_driver_platform.c. Words are natural numbers
-- below 2 ^ 8, 2 ^ 32 or 2 ^ 64. `struct hwgc` is left without its locks, wait queue, miscdevice,
-- device pointer and name.
use jvm_gc_acclelerator.Common.{ℕ, Bool, false, Option, none, []}
use jvm_gc_acclelerator.Common.Int.{ℤ, pos}
use jvm_gc_acclelerator.Dma.Kernel.{DmaContext, Call, log, empty_slot}

-- `struct HWGCParameters`
pub record Parameters : Type 0 where
  pub chunk_size : ℕ  -- u32
  pub age_threshold : ℕ  -- u32
  pub heap_region_bias : ℕ  -- u32
  pub heap_region_shift_by : ℕ  -- u32
  pub region_attr_shift_by : ℕ  -- u32
  pub log_of_hr_grain_bytes : ℕ  -- u32
  pub stepper_offset : ℕ  -- u64
  pub young_words_base : ℕ  -- u64
  pub region_attr_base : ℕ  -- u64
  pub plab_allocator_ptr : ℕ  -- u64
  pub region_attr_biased_base : ℕ  -- u64
  pub heap_region_biased_base : ℕ  -- u64
  pub pss : ℕ  -- u64
  pub local_bot : ℕ  -- u32
  pub task_queue_elems_base : ℕ  -- u64
  pub humogous_reclaim_candidate_bool_base : ℕ  -- u64
  pub card_table_ptr : ℕ  -- u64
  pub g1h : ℕ  -- u64
  pub int_array_klass_obj : ℕ  -- u64
  pub object_klass : ℕ  -- u64
  pub lock_ptr : ℕ  -- u64
  pub thread : ℕ  -- u64
  pub dummy_region : ℕ  -- u64
  pub compressed_oop_base : ℕ  -- u64
  pub compressed_klass_pointer_base : ℕ  -- u64
  pub compressed_oop_shift : ℕ  -- u8
  pub compressed_klass_pointer_shift : ℕ  -- u8
  pub use_compressed_oops : ℕ  -- u8
  pub use_compressed_klass_pointers : ℕ  -- u8

-- `struct HWGCEvent`
pub record Event : Type 0 where
  pub type : ℕ  -- u32
  pub reserved : ℕ  -- u32
  pub seq : ℕ  -- u64
  pub par0 : ℕ  -- u64
  pub par1 : ℕ  -- u64
  pub res0 : ℕ  -- u64
  pub res1 : ℕ  -- u64

-- `memset(&ev, 0, sizeof(ev))`
abbrev pub zero_event : Event
zero_event = record { type = 0; reserved = 0; seq = 0; par0 = 0; par1 = 0; res0 = 0; res1 = 0 }

-- `struct hwgc`; `dma` is its pinned pages and its process.
pub record Hwgc : Type 0 where
  pub dma : DmaContext
  pub open dma use *
  pub bar0 : Option ℕ
  pub irq : ℤ
  pub pending_irq : ℕ  -- u32
  pub current_event : Event
  pub event_pending : Bool
  pub event_in_service : Bool
  pub event_seq : ℕ  -- u64
  pub op_active : Bool
  pub op_status : ℤ
  pub removing : Bool
  pub dev_id : ℤ

-- A call that the driver makes.
abbrev pub emit : Call → Hwgc → Hwgc
emit call d = record d { dma = log call d.dma }

abbrev pub reg_write32 : Hwgc → ℕ → ℕ → Hwgc
reg_write32 d val off = emit (Call.write32 off val) d

abbrev pub reg_write64 : Hwgc → ℕ → ℕ → Hwgc
reg_write64 d val off = emit (Call.write64 off val) d

-- The structure from `kzalloc` on, with the fields that probe sets.
abbrev pub new_hwgc : Option ℕ → ℤ → ℤ → Hwgc
new_hwgc bar0 irq dev_id = record {
  dma = record {
    pinned = λ _. empty_slot;
    nr_pinned = 0;
    active_task = none;
    active_mm = none;
    calls = [];
  };
  bar0 = bar0;
  irq = irq;
  pending_irq = 0;
  current_event = zero_event;
  event_pending = false;
  event_in_service = false;
  event_seq = 0;
  op_active = false;
  op_status = pos 0;
  removing = false;
  dev_id = dev_id;
}
