-- ===== src/Dma.antt =====
-- What a driver holds for the running operation: the pinned pages of the process, its task and its
-- mm. loongnix/qemu_dev/hwgc_driver/hwgc_driver_platform.c; hwgc_driver_pci.c and
-- loongnix/qemu_dev/test_device/xor_tlbdev_drv.c have the same functions under their own names.
pub mod Kernel
pub mod Count
pub mod Unpin
pub mod Remember
pub mod Answer
pub mod Ownership
pub mod Grows
pub mod Hidden
pub mod Missed
use jvm_gc_acclelerator.Common.{
  ℕ, zero, suc, ◌+◌, ◌*◌, ◌/◌, ◌^◌, Bool, true, false, not, ◌&&◌, ◌||◌, Option, none, some, ◌∷◌,
  leb, ◌==◌, if◌then◌else◌, is_ptr,
}
use jvm_gc_acclelerator.Common.Int.{ℤ, pos, is_neg, is_nonzero, is_one, to_int}
use jvm_gc_acclelerator.Common.Errno.{efault, einval, enospc}
use jvm_gc_acclelerator.Dma.Kernel.{
  DmaContext, PinnedPage, Process, Device, Mmu, TlbPort, Call, log, empty_slot, set_slot,
}

-- The body of the loop of `hwgc_unpin_all` at slot `i`: a null page is skipped.
abbrev pub release_page : ℕ → Option ℕ → Bool → DmaContext → DmaContext
release_page i none write c = c
release_page i (some page) write c =
    let dirtied = if write then log (Call.set_page_dirty_lock page) c else c in
    let put = log (Call.put_page page) dirtied in
    record put { pinned = set_slot put.pinned i empty_slot }

unfoldable pub release_slot : ℕ → DmaContext → DmaContext
release_slot i c = release_page i (c.pinned i).page (c.pinned i).write c

-- `for (i = 0; i < d->nr_pinned; i++)`, with the rounds left and the index.
unfoldable pub unpin_loop : ℕ → ℕ → DmaContext → DmaContext
unpin_loop zero i c = c
unpin_loop (suc left) i c = unpin_loop left (suc i) (release_slot i c)

unfoldable pub unpin_all : DmaContext → DmaContext
unfolding unpin_loop release_slot
unpin_all c = record (unpin_loop c.nr_pinned 0 c) { nr_pinned = 0 }

-- The page is in slot `i`: the slot keeps its reference, and the second one is dropped.
abbrev pub merge_write : ℕ → ℕ → Bool → DmaContext → DmaContext
merge_write i page write c =
    let slot = c.pinned i in
    let merged = record slot { write = slot.write || write } in
    log (Call.put_page page) (record c { pinned = set_slot c.pinned i merged })

-- The loop of `hwgc_remember_pinned`. `some` is its early return of 0.
unfoldable pub remember_loop : ℕ → ℕ → ℕ → Bool → DmaContext → Option DmaContext
remember_loop zero i page write c = none
remember_loop (suc left) i page write c =
    let rest = remember_loop left (suc i) page write c in
    if is_ptr (c.pinned i).page page then some (merge_write i page write c) else rest

-- `max_pinned` is the length of the array `pinned`.
unfoldable pub remember_pinned : ℕ → ℕ → Bool → DmaContext → DmaContext × ℤ
unfolding remember_loop
remember_pinned max_pinned page write c = elim (remember_loop c.nr_pinned 0 page write c) [
  | some found ↦ (found, pos 0)
  | none ↦ if leb max_pinned c.nr_pinned then (c, enospc) else (
    record c {
      pinned = set_slot c.pinned c.nr_pinned (record { page = some page; write = write });
      nr_pinned = c.nr_pinned + 1;
    },
    pos 0,
  )
]

abbrev pub put_mm : Option ℕ → DmaContext → DmaContext
put_mm none c = c
put_mm (some mm) c = record (log (Call.mmput mm) c) { active_mm = none }

abbrev pub put_task : Option ℕ → DmaContext → DmaContext
put_task none c = c
put_task (some task) c = record (log (Call.put_task_struct task) c) { active_task = none }

unfoldable pub release_process_context : DmaContext → DmaContext
release_process_context c = let c' = put_mm c.active_mm c in put_task c'.active_task c'

-- The part of the start ioctl that takes the references: `false` is the return of -EINVAL, for a
-- process that has no mm any more.
unfoldable pub hold_process_context : Process → DmaContext → DmaContext × Bool
hold_process_context current c =
    let held = record (log (Call.get_task_struct current.task) c) {
      active_task = some current.task;
    } in
    elim current.mm [
      | some mm ↦ (record (log (Call.get_task_mm mm) held) { active_mm = some mm }, true)
      | none ↦ (
        record (log (Call.put_task_struct current.task) held) {
          active_task = none;
          active_mm = none;
        },
        false,
      )
    ]

-- `addr & PAGE_MASK`
abbrev pub page_align : Mmu → ℕ → ℕ
page_align mmu addr = addr / 2 ^ mmu.page_shift * 2 ^ mmu.page_shift

-- The end of `hwgc_fill_tlb_for_miss`, from the result of `hwgc_remember_pinned` on.
unfoldable pub answer_miss : TlbPort → Mmu → ℕ → ℕ → DmaContext × ℤ → DmaContext × ℤ
answer_miss port mmu page_va page (kept, ret) =
    if is_nonzero ret then (log (Call.put_page page) kept, to_int ret) else (
      log (Call.write32 port.cmd port.cmd_continue) (
          log (Call.write64 port.fill_pa (page_align mmu (mmu.page_to_phys page)))
            (log (Call.write64 port.fill_va page_va) kept)),
      pos 0,
    )

unfoldable pub install_page : TlbPort → Mmu → ℕ → Bool → ℕ → DmaContext → DmaContext × ℤ
unfolding answer_miss remember_pinned
install_page port mmu page_va write page c =
    answer_miss port mmu page_va page (remember_pinned port.max_pinned page write c)

-- A lookup that returns 1 has taken a reference to the page, if it gave one.
unfoldable pub use_page : TlbPort → Mmu → ℕ → Bool → Option ℕ → DmaContext → DmaContext × ℤ
unfolding install_page
use_page port mmu page_va write none c = (c, efault)
use_page port mmu page_va write (some page) c =
    install_page port mmu page_va write page (log (Call.get_page page) c)

-- `if (locked) up_read(&mm->mmap_sem)`
abbrev pub unlock_mm : Bool → ℕ → DmaContext → DmaContext
unlock_mm locked mm c = if locked then log (Call.up_read mm) c else c

-- The lookup of one page under `mmap_sem`.
unfoldable pub lookup_page : TlbPort → Mmu → ℕ → ℕ → ℕ → Bool → DmaContext → DmaContext × ℤ
unfolding use_page
lookup_page port mmu task mm page_va write c =
    let gup = mmu.get_user_pages_remote task mm page_va write in
    let unlocked = unlock_mm gup.locked mm (log (Call.down_read mm) c) in
    if not (is_one gup.ret)
    then (unlocked, if is_neg gup.ret then to_int gup.ret else efault)
    else use_page port mmu page_va write gup.page unlocked

unfoldable pub fill_with :
    TlbPort → Device → Mmu → Option ℕ → Option ℕ → DmaContext → DmaContext × ℤ
unfolding lookup_page
fill_with port dev mmu (some task) (some mm) c =
    let miss_va = dev.read64 port.miss_va in
    let access = dev.read32 port.miss_access in
    if not (access == port.access_read) && not (access == port.access_write)
    then (c, einval)
    else lookup_page port mmu task mm (page_align mmu miss_va) (access == port.access_write) c
fill_with port dev mmu _ _ c = (c, einval)

unfoldable pub fill_tlb_for_miss : TlbPort → Device → Mmu → DmaContext → DmaContext × ℤ
unfolding fill_with
fill_tlb_for_miss port dev mmu c = fill_with port dev mmu c.active_task c.active_mm c
