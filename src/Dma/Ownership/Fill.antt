-- ===== src/Dma/Ownership/Fill.antt =====
-- The balance of references in the service of a TLB miss.
use native.Mathlib.Numerals.{add-one}
use jvm_gc_acclelerator.Common.{
  ℕ, ◌<◌, ◌≡◌, refl, ◌∙◌, arith, Bool, true, false, not, ◌&&◌, Option, none, some, inl, inr, ◌==◌,
  Bool-cases,
}
use jvm_gc_acclelerator.Common.Int.{is_one}
use jvm_gc_acclelerator.Dma.Kernel.{DmaContext, Device, Mmu, TlbPort, Call, log}
use jvm_gc_acclelerator.Dma.Count.{
  one_if, slots_from, has_page, is_get_page, is_put_page, is_get_task, is_put_task, is_get_mm,
  is_put_mm,
}
use jvm_gc_acclelerator.Dma.Remember.{
  Found, found, full, added, remember_pinned-Outcome, add_page, add_page-slots,
}
use jvm_gc_acclelerator.Dma.Ownership.Defs.{Holding, Owns}
use jvm_gc_acclelerator.Dma.{
  answer_miss, install_page, use_page, unlock_mm, lookup_page, fill_with, fill_tlb_for_miss,
  page_align,
}

-- What stays as it was while a miss is served.
abbrev pub SameProcess : DmaContext → DmaContext → Type 0
SameProcess c c' = (c'.active_task ≡ c.active_task) × (c'.active_mm ≡ c.active_mm)

abbrev one_page : ℕ → ℕ → ℕ
one_page page q = one_if (page == q)

module _ {max page : ℕ} {c : DmaContext} (h : Holding max (one_page page) c) where
  Found-Owns : {c' : DmaContext} → Found page c c' → Owns max c'
  Found-Owns {c'} f = record {
    bounded = omega arith;
    once = λ p. ground (arith, f.same_slots p 0 c'.nr_pinned, h.once p);
    pages = λ p. ground (arith, f.same_slots p 0 c'.nr_pinned, h.pages p);
    tasks = λ t. ground (arith, h.tasks t);
    mms = λ m. ground (arith, h.mms m);
  }

  full-Owns : Owns max (log (Call.put_page page) c)
  full-Owns = record {
    bounded = h.bounded;
    once = h.once;
    pages = λ p. ground (arith, h.pages p);
    tasks = λ t. ground (arith, h.tasks t);
    mms = λ m. ground (arith, h.mms m);
  }

added-Owns :
    {max : ℕ} {c : DmaContext} (page : ℕ) (w : Bool)
    → Holding max (one_page page) c
    → c.nr_pinned < max
    → slots_from (has_page page) c.pinned 0 c.nr_pinned ≡ 0
    → Owns max (add_page page w c)
added-Owns {c} page w h room new = record {
  bounded = omega arith;
  once = λ p. rw add-one (ground (arith, add_page-slots page p w c, h.once p));
  pages = λ p. rw add-one (ground (arith, add_page-slots page p w c, h.pages p));
  tasks = λ t. ground (arith, h.tasks t);
  mms = λ m. ground (arith, h.mms m);
}

-- A call that moves no reference.
abbrev pub IsNeutral : Call → Type 0
IsNeutral call =
    (p : ℕ)
    → (is_get_page p call ≡ false)
      × (is_put_page p call ≡ false)
      × (is_get_task p call ≡ false)
      × (is_put_task p call ≡ false)
      × (is_get_mm p call ≡ false)
      × (is_put_mm p call ≡ false)

pub log-Holding :
    {max : ℕ} {extra : ℕ → ℕ} {c : DmaContext} (call : Call)
    → IsNeutral call
    → Holding max extra c
    → Holding max extra (log call c)
log-Holding call neutral h = record {
  bounded = h.bounded;
  once = h.once;
  pages = λ p. ground (arith, neutral p, h.pages p);
  tasks = λ t. ground (arith, neutral t, h.tasks t);
  mms = λ m. ground (arith, neutral m, h.mms m);
}

get_page-Holding :
    {max : ℕ} {c : DmaContext} (page : ℕ)
    → Owns max c
    → Holding max (one_page page) (log (Call.get_page page) c)
get_page-Holding page h = record {
  bounded = h.bounded;
  once = h.once;
  pages = λ p. ground (arith, h.pages p);
  tasks = λ t. ground (arith, h.tasks t);
  mms = λ m. ground (arith, h.mms m);
}

module _ (port : TlbPort) (mmu : Mmu) where
  install_page-Owns :
      (page_va : ℕ) (w : Bool) (page : ℕ) (c : DmaContext)
      → Holding port.max_pinned (one_page page) c
      → Owns port.max_pinned (install_page port mmu page_va w page c).0
        × SameProcess c (install_page port mmu page_va w page c).0
  unfolding install_page answer_miss
  install_page-Owns page_va w page c h = elim (remember_pinned-Outcome port.max_pinned page w c) [
    | found f e ↦
        rw (e, answer_miss)
          (
            log-Holding _ (λ p. ground arith)
                (log-Holding _ (λ p. ground arith)
                  (log-Holding _ (λ p. ground arith) (Found-Owns h f))),
            (f.same_task, f.same_mm),
          )
    | full m e ↦ rw e (full-Owns h, (refl, refl))
    | added m z e ↦ rw e (
      log-Holding _ (λ p. ground arith)
          (log-Holding _ (λ p. ground arith)
            (log-Holding _ (λ p. ground arith) (added-Owns page w h m z))),
      (refl, refl),
    )
  ]

  use_page-Owns :
      (page_va : ℕ) (w : Bool) (o : Option ℕ) (c : DmaContext)
      → Owns port.max_pinned c
      → Owns port.max_pinned (use_page port mmu page_va w o c).0
        × SameProcess c (use_page port mmu page_va w o c).0
  unfolding use_page
  use_page-Owns page_va w none c h = (h, (refl, refl))
  use_page-Owns page_va w (some page) c h =
      install_page-Owns page_va w page (log (Call.get_page page) c) (get_page-Holding page h)

  unlock_mm-Owns :
      (locked : Bool) (mm : ℕ) (c : DmaContext)
      → Owns port.max_pinned c
      → Owns port.max_pinned (unlock_mm locked mm c) × SameProcess c (unlock_mm locked mm c)
  unlock_mm-Owns true mm c h = (log-Holding _ (λ p. ground arith) h, (refl, refl))
  unlock_mm-Owns false mm c h = (h, (refl, refl))

  lookup_page-Owns :
      (task mm page_va : ℕ) (w : Bool) (c : DmaContext)
      → Owns port.max_pinned c
      → Owns port.max_pinned (lookup_page port mmu task mm page_va w c).0
        × SameProcess c (lookup_page port mmu task mm page_va w c).0
  unfolding lookup_page
  lookup_page-Owns task mm page_va w c h =
      let gup = mmu.get_user_pages_remote task mm page_va w in
      let started = log (Call.down_read mm) c in
      let (o, same) = unlock_mm-Owns gup.locked mm started (log-Holding _ (λ p. ground arith) h) in
      let after = use_page-Owns page_va w gup.page (unlock_mm gup.locked mm started) o in
      elim (Bool-cases (is_one gup.ret)) [
        | inl one ↦ rw one (after.0, (after.1.0 ∙ same.0, after.1.1 ∙ same.1))
        | inr other ↦ rw other (o, same)
      ]

  fill_with-Owns :
      (dev : Device) (t m : Option ℕ) (c : DmaContext)
      → Owns port.max_pinned c
      → Owns port.max_pinned (fill_with port dev mmu t m c).0
        × SameProcess c (fill_with port dev mmu t m c).0
  unfolding fill_with
  fill_with-Owns dev none m c h = (h, (refl, refl))
  fill_with-Owns dev (some task) none c h = (h, (refl, refl))
  fill_with-Owns dev (some task) (some mm) c h =
      let access = dev.read32 port.miss_access in
      elim (Bool-cases (not (access == port.access_read) && not (access == port.access_write))) [
        | inl bad ↦ rw bad (h, (refl, refl))
        | inr fine ↦ rw fine (
            lookup_page-Owns task mm (page_align mmu (dev.read64 port.miss_va))
              (access == port.access_write) c h)
      ]

  -- If each reference taken was put back or is held by the structure, then so it is after the
  -- service of a TLB miss, whatever the registers read and the kernel answers, and the task and
  -- the mm are the same.
  pub fill_tlb_for_miss-Owns :
      (dev : Device) (c : DmaContext)
      → Owns port.max_pinned c
      → Owns port.max_pinned (fill_tlb_for_miss port dev mmu c).0
        × SameProcess c (fill_tlb_for_miss port dev mmu c).0
  unfolding fill_tlb_for_miss
  fill_tlb_for_miss-Owns dev c h = fill_with-Owns dev c.active_task c.active_mm c h
