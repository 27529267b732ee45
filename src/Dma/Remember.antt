-- ===== src/Dma/Remember.antt =====
-- `hwgc_remember_pinned`: the three ways it ends, and what each does to the references.
use jvm_gc_acclelerator.Common.{
  ℕ, zero, suc, ◌+◌, ◌≤◌, ◌<◌, ◌≡◌, refl, arith, Bool, none, some, ◌∷◌, inl, inr, ◌||◌, ◌==◌,
  Option-cases, Bool-cases, leb, is_ptr,
}
use jvm_gc_acclelerator.Common.Int.{ℤ, pos}
use jvm_gc_acclelerator.Common.Errno.{enospc}
use jvm_gc_acclelerator.Dma.Kernel.{DmaContext, PinnedPage, Call, set_slot}
use jvm_gc_acclelerator.Dma.Count.{
  one_if, slots_from, has_page, slots_from-set_same, slots_from-set_above, slots_from-last,
}
use mathlib.Core.Path.{subst}
use mathlib.Core.Option.{some-injective}
use jvm_gc_acclelerator.Dma.{merge_write, remember_loop, remember_pinned}

-- The page was in the table: one reference is put, and every slot keeps its page.
pub record Found (page : ℕ) (c c' : DmaContext) : Type 0 where
  pub same_slots :
      (q i left : ℕ)
      → slots_from (has_page q) c'.pinned i left ≡ slots_from (has_page q) c.pinned i left
  pub one_put : c'.calls ≡ Call.put_page page ∷ c.calls
  pub same_nr : c'.nr_pinned ≡ c.nr_pinned
  pub same_task : c'.active_task ≡ c.active_task
  pub same_mm : c'.active_mm ≡ c.active_mm

merge_write-Found : (i page : ℕ) (w : Bool) (c : DmaContext) → Found page c (merge_write i page w c)
merge_write-Found i page w c = record {
  same_slots = λ q j left.
      slots_from-set_same (has_page q) c.pinned i
        (record (c.pinned i) { write = (c.pinned i).write || w }) j left refl;
  one_put = refl;
  same_nr = refl;
  same_task = refl;
  same_mm = refl;
}

remember_loop-Found :
    (left i page : ℕ) (w : Bool) (c c' : DmaContext)
    → remember_loop left i page w c ≡ some c'
    → Found page c c'
unfolding remember_loop
remember_loop-Found zero i page w c c' h = cc
remember_loop-Found (suc left) i page w c c' h = elim (Bool-cases (is_ptr (c.pinned i).page page)) [
  | inl here ↦
      subst (Found page c) (some-injective _ _ (rw here at h)) (merge_write-Found i page w c)
  | inr there ↦ remember_loop-Found left (suc i) page w c c' (rw there at h)
]

remember_loop-none :
    (left i page : ℕ) (w : Bool) (c : DmaContext)
    → remember_loop left i page w c ≡ none
    → slots_from (has_page page) c.pinned i left ≡ 0
unfolding remember_loop slots_from
remember_loop-none zero i page w c h = refl
remember_loop-none (suc left) i page w c h =
    ground (arith, remember_loop-none left (suc i) page w c)

-- The table after a page that it did not hold.
abbrev pub add_page : ℕ → Bool → DmaContext → DmaContext
add_page page w c = record c {
  pinned = set_slot c.pinned c.nr_pinned (record { page = some page; write = w });
  nr_pinned = c.nr_pinned + 1;
}

-- How a call of `remember_pinned` ends.
pub data Outcome (max page : ℕ) (w : Bool) (c : DmaContext) (r : DmaContext × ℤ) : Type 0 where
  found : Found page c r.0 → r.1 ≡ pos 0 → Outcome max page w c r
  full : max ≤ c.nr_pinned → r ≡ (c, enospc) → Outcome max page w c r
  added :
      c.nr_pinned < max
      → slots_from (has_page page) c.pinned 0 c.nr_pinned ≡ 0
      → r ≡ (add_page page w c, pos 0)
      → Outcome max page w c r

pub remember_pinned-Outcome :
    (max page : ℕ) (w : Bool) (c : DmaContext) → Outcome max page w c (remember_pinned max page w c)
unfolding remember_pinned
remember_pinned-Outcome max page w c = elim (Option-cases (remember_loop c.nr_pinned 0 page w c)) [
  | inr (c', e) ↦
      rw (e, remember_pinned) (Outcome.found (remember_loop-Found c.nr_pinned 0 page w c c' e) refl)
  | inl e ↦
      rw (e, remember_pinned)
        (elim (Bool-cases (leb max c.nr_pinned)) [
          | inl no_room ↦ rw no_room (Outcome.full (ground arith) refl)
          | inr room ↦
              rw room
                (Outcome.added (ground arith) (remember_loop-none c.nr_pinned 0 page w c e) refl)
        ])
]

-- A page more in the table is one slot more for that page, and none for another.
pub add_page-slots :
    (page q : ℕ) (w : Bool) (c : DmaContext)
    → slots_from (has_page q) (add_page page w c).pinned 0 (suc c.nr_pinned)
      ≡ slots_from (has_page q) c.pinned 0 c.nr_pinned + one_if (page == q)
add_page-slots page q w c =
    let slot : PinnedPage = record { page = some page; write = w } in
    let after = set_slot c.pinned c.nr_pinned slot in
    ground (
      arith,
      slots_from-last (has_page q) after 0 c.nr_pinned,
      slots_from-set_above (has_page q) c.pinned c.nr_pinned slot 0 c.nr_pinned,
    )
