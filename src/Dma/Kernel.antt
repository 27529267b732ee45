-- ===== src/Dma/Kernel.antt =====
-- The records of the drivers' pinned pages and process, and what the drivers use of the kernel: a
-- log of the calls that change something, and as parameters the values that the device registers
-- hold and the answers of the memory management.
use jvm_gc_acclelerator.Common.{ℕ, Bool, false, Option, none, List, ◌∷◌, ◌==◌, if◌then◌else◌}
use jvm_gc_acclelerator.Common.Int.{ℤ}

-- `struct hwgc_pinned_page`; a page is named by a number, and `none` is NULL.
pub record PinnedPage : Type 0 where
  pub page : Option ℕ
  pub write : Bool

abbrev pub empty_slot : PinnedPage
empty_slot = record { page = none; write = false }

-- A call into the kernel or a write to a register, with the arguments that matter here.
pub data Call : Type 0 where
  write32 : (off val : ℕ) → Call
  write64 : (off val : ℕ) → Call
  get_page : (page : ℕ) → Call  -- the reference that get_user_pages_remote takes
  put_page : (page : ℕ) → Call
  set_page_dirty_lock : (page : ℕ) → Call
  get_task_struct : (task : ℕ) → Call
  put_task_struct : (task : ℕ) → Call
  get_task_mm : (mm : ℕ) → Call
  mmput : (mm : ℕ) → Call
  down_read : (mm : ℕ) → Call
  up_read : (mm : ℕ) → Call
  synchronize_irq : Call
  wake_up : Call

-- The fields of the device structure that an operation owns. `nr_pinned` slots of `pinned` are in
-- use. `calls` is no field of the source: it is the log, the last call first.
pub record DmaContext : Type 0 where
  pub pinned : ℕ → PinnedPage
  pub nr_pinned : ℕ
  pub active_task : Option ℕ
  pub active_mm : Option ℕ
  pub calls : List Call

abbrev pub log : Call → DmaContext → DmaContext
log call c = record c { calls = call ∷ c.calls }

abbrev pub set_slot : (ℕ → PinnedPage) → ℕ → PinnedPage → ℕ → PinnedPage
set_slot f i slot j = if i == j then slot else f j

-- `current`, and what `get_task_mm(current)` returns.
pub record Process : Type 0 where
  pub task : ℕ
  pub mm : Option ℕ

-- What the device's registers read while a handler runs.
pub record Device : Type 0 where
  pub read32 : ℕ → ℕ
  pub read64 : ℕ → ℕ

-- The answer of `get_user_pages_remote`: its result, `*page` and `*locked`.
pub record GupResult : Type 0 where
  pub ret : ℤ
  pub page : Option ℕ
  pub locked : Bool

-- The arguments are the task, the mm, the address and whether FOLL_WRITE is given.
pub record Mmu : Type 0 where
  pub page_shift : ℕ
  pub get_user_pages_remote : ℕ → ℕ → ℕ → Bool → GupResult
  pub page_to_phys : ℕ → ℕ

-- The registers, codes and table size by which the drivers differ.
pub record TlbPort : Type 0 where
  pub miss_va : ℕ
  pub miss_access : ℕ
  pub fill_va : ℕ
  pub fill_pa : ℕ
  pub cmd : ℕ
  pub cmd_continue : ℕ
  pub access_read : ℕ
  pub access_write : ℕ
  pub max_pinned : ℕ
