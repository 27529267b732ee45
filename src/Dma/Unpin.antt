-- ===== src/Dma/Unpin.antt =====
-- `hwgc_unpin_all`: what it puts back, and what it leaves alone.
use jvm_gc_acclelerator.Common.{
  ℕ, zero, suc, ◌+◌, ◌≡◌, refl, ◌∙◌, arith, Bool, true, false, Option, none, some,
}
use jvm_gc_acclelerator.Dma.Kernel.{DmaContext, PinnedPage, Call, empty_slot}
use jvm_gc_acclelerator.Dma.Count.{
  one_if, count, is_put_page, is_set_dirty, slots_from, has_page, has_written_page,
  slots_from-set_below,
}
use jvm_gc_acclelerator.Dma.{release_slot, release_page, unpin_loop, unpin_all}

release_page-slots :
    (sel : PinnedPage → Bool) (i k : ℕ) (o : Option ℕ) (w : Bool) (c : DmaContext)
    → slots_from sel (release_page i o w c).pinned (suc i) k ≡ slots_from sel c.pinned (suc i) k
release_page-slots sel i k none w c = refl
release_page-slots sel i k (some p) true c =
    slots_from-set_below sel c.pinned i empty_slot (suc i) k (omega arith)
release_page-slots sel i k (some p) false c =
    slots_from-set_below sel c.pinned i empty_slot (suc i) k (omega arith)

release_slot-slots :
    (sel : PinnedPage → Bool) (i k : ℕ) (c : DmaContext)
    → slots_from sel (release_slot i c).pinned (suc i) k ≡ slots_from sel c.pinned (suc i) k
unfolding release_slot
release_slot-slots sel i k c = release_page-slots sel i k (c.pinned i).page (c.pinned i).write c

release_slot-puts :
    (p i : ℕ) (c : DmaContext)
    → count (is_put_page p) (release_slot i c).calls
      ≡ one_if (has_page p (c.pinned i)) + count (is_put_page p) c.calls
unfolding release_slot
release_slot-puts p i c = ground arith

release_slot-dirties :
    (p i : ℕ) (c : DmaContext)
    → count (is_set_dirty p) (release_slot i c).calls
      ≡ one_if (has_written_page p (c.pinned i)) + count (is_set_dirty p) c.calls
unfolding release_slot
release_slot-dirties p i c = ground arith

-- The loop puts back each page as often as the slots hold it.
unpin_loop-puts :
    (p left i : ℕ) (c : DmaContext)
    → count (is_put_page p) (unpin_loop left i c).calls
      ≡ count (is_put_page p) c.calls + slots_from (has_page p) c.pinned i left
unfolding unpin_loop slots_from
unpin_loop-puts p zero i c = omega arith
unpin_loop-puts p (suc left) i c = omega (
  arith,
  unpin_loop-puts p left (suc i) (release_slot i c),
  release_slot-puts p i c,
  release_slot-slots (has_page p) i left c,
)

unpin_loop-dirties :
    (p left i : ℕ) (c : DmaContext)
    → count (is_set_dirty p) (unpin_loop left i c).calls
      ≡ count (is_set_dirty p) c.calls + slots_from (has_written_page p) c.pinned i left
unfolding unpin_loop slots_from
unpin_loop-dirties p zero i c = omega arith
unpin_loop-dirties p (suc left) i c = omega (
  arith,
  unpin_loop-dirties p left (suc i) (release_slot i c),
  release_slot-dirties p i c,
  release_slot-slots (has_written_page p) i left c,
)

-- The page table is emptied. A page is put back exactly as often as the slots in use hold it,
-- and marked dirty exactly as often as they hold it as written.
pub unpin_all_lem :
    (p : ℕ) (c : DmaContext)
    → ((unpin_all c).nr_pinned ≡ 0)
      × (count (is_put_page p) (unpin_all c).calls
          ≡ count (is_put_page p) c.calls + slots_from (has_page p) c.pinned 0 c.nr_pinned)
      × (count (is_set_dirty p) (unpin_all c).calls
          ≡ count (is_set_dirty p) c.calls + slots_from (has_written_page p) c.pinned 0 c.nr_pinned)
unfolding unpin_all
unpin_all_lem p c = (refl, unpin_loop-puts p c.nr_pinned 0 c, unpin_loop-dirties p c.nr_pinned 0 c)

-- A kind of call that neither puts a page back nor marks one dirty.
pub record IsOther (is : Call → Bool) : Type 0 where
  pub not_put : (p : ℕ) → is (Call.put_page p) ≡ false
  pub not_dirty : (p : ℕ) → is (Call.set_page_dirty_lock p) ≡ false

module _ (is : Call → Bool) (other : IsOther is) where
  open other use {not_put, not_dirty}

  release_page-count :
      (i : ℕ) (o : Option ℕ) (w : Bool) (c : DmaContext)
      → count is (release_page i o w c).calls ≡ count is c.calls
  release_page-count i none w c = refl
  release_page-count i (some p) true c = ground (arith, not_put p, not_dirty p)
  release_page-count i (some p) false c = ground (arith, not_put p)

  unpin_loop-count :
      (left i : ℕ) (c : DmaContext) → count is (unpin_loop left i c).calls ≡ count is c.calls
  unfolding unpin_loop release_slot
  unpin_loop-count zero i c = refl
  unpin_loop-count (suc left) i c =
      unpin_loop-count left (suc i) (release_slot i c)
      ∙ release_page-count i (c.pinned i).page (c.pinned i).write c

  pub unpin_all-count : (c : DmaContext) → count is (unpin_all c).calls ≡ count is c.calls
  unfolding unpin_all
  unpin_all-count c = unpin_loop-count c.nr_pinned 0 c

release_slot-active :
    (i : ℕ) (c : DmaContext)
    → ((release_slot i c).active_task ≡ c.active_task)
      × ((release_slot i c).active_mm ≡ c.active_mm)
unfolding release_slot
release_slot-active i c = ground arith

unpin_loop-active :
    (left i : ℕ) (c : DmaContext)
    → ((unpin_loop left i c).active_task ≡ c.active_task)
      × ((unpin_loop left i c).active_mm ≡ c.active_mm)
unfolding unpin_loop
unpin_loop-active zero i c = (refl, refl)
unpin_loop-active (suc left) i c =
    let later = unpin_loop-active left (suc i) (release_slot i c) in
    let now = release_slot-active i c in (later.0 ∙ now.0, later.1 ∙ now.1)

pub unpin_all-active :
    (c : DmaContext)
    → ((unpin_all c).active_task ≡ c.active_task) × ((unpin_all c).active_mm ≡ c.active_mm)
unfolding unpin_all
unpin_all-active c = unpin_loop-active c.nr_pinned 0 c
