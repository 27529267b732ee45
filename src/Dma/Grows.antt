-- ===== src/Dma/Grows.antt =====
-- What the functions of Dma.antt may do to the log.
use jvm_gc_acclelerator.Common.{
  ℕ, zero, suc, ◌≡◌, refl, ◌++◌, Bool, true, false, not, ◌&&◌, Option, none, some, List, ◌∷◌, ◌==◌,
  if_keeps, subst, sym,
}
use jvm_gc_acclelerator.Common.Int.{ℤ, is_one, is_nonzero}
use jvm_gc_acclelerator.Common.Errno.{einval}
use jvm_gc_acclelerator.Dma.Kernel.{DmaContext, Device, Mmu, TlbPort, Call, log}
use jvm_gc_acclelerator.Dma.Remember.{Outcome, remember_pinned-Outcome, found, full, added}
use jvm_gc_acclelerator.Dma.Answer.{answer}
use jvm_gc_acclelerator.Dma.{
  release_page, release_slot, unpin_loop, unpin_all, remember_pinned, put_mm, put_task,
  release_process_context, answer_miss, install_page, use_page, unlock_mm, lookup_page, fill_with,
  fill_tlb_for_miss, page_align,
}

abbrev pub is_register_write : Call → Bool
is_register_write (Call.write32 off val) = true
is_register_write (Call.write64 off val) = true
is_register_write _ = false

module _ (P : List Call → Type 0)
    (one_more : (call : Call) (calls : List Call)
      → is_register_write call ≡ false
      → P calls
      → P (call ∷ calls)) where
  abbrev Kept : DmaContext → Type 0
  Kept c = P c.calls

  release_page-Kept :
      (i : ℕ) (page : Option ℕ) (write : Bool) (c : DmaContext)
      → Kept c
      → Kept (release_page i page write c)
  release_page-Kept i none write c h = h
  release_page-Kept i (some page) write c h =
      one_more _ _ refl (if_keeps Kept write _ c (one_more _ _ refl h) h)

  unpin_loop-Kept : (left i : ℕ) (c : DmaContext) → Kept c → Kept (unpin_loop left i c)
  unfolding unpin_loop release_slot
  unpin_loop-Kept zero i c h = h
  unpin_loop-Kept (suc left) i c h =
      unpin_loop-Kept left (suc i) (release_slot i c)
        (release_page-Kept i (c.pinned i).page (c.pinned i).write c h)

  put_mm-Kept : (mm : Option ℕ) (c : DmaContext) → Kept c → Kept (put_mm mm c)
  put_mm-Kept none c h = h
  put_mm-Kept (some mm) c h = one_more _ _ refl h

  put_task-Kept : (task : Option ℕ) (c : DmaContext) → Kept c → Kept (put_task task c)
  put_task-Kept none c h = h
  put_task-Kept (some task) c h = one_more _ _ refl h

  -- The end of an operation.
  pub release-keeps : (c : DmaContext) → P c.calls → P (release_process_context (unpin_all c)).calls
  unfolding release_process_context unpin_all
  release-keeps c h = put_task-Kept _ _ (put_mm-Kept _ _ (unpin_loop-Kept c.nr_pinned 0 c h))

  remember_pinned-Kept :
      (max page : ℕ) (w : Bool) (c : DmaContext) (r : DmaContext × ℤ)
      → Outcome max page w c r
      → Kept c
      → Kept r.0
  remember_pinned-Kept max page w c r (found f ok) h = subst P (sym f.one_put) (one_more _ _ refl h)
  remember_pinned-Kept max page w c r (full _ e) h = subst (λ r. Kept r.0) (sym e) h
  remember_pinned-Kept max page w c r (added _ _ e) h = subst (λ r. Kept r.0) (sym e) h

  -- The answer to a miss of `va` on any page.
  abbrev pub KeptByAnswer : TlbPort → Mmu → ℕ → Type 0
  KeptByAnswer port mmu va =
      (page : ℕ) (calls : List Call) → P calls → P (answer port mmu va page ++ calls)

  answer_miss-Kept :
      (port : TlbPort) (mmu : Mmu) (va page : ℕ) (r : DmaContext × ℤ)
      → KeptByAnswer port mmu va
      → Kept r.0
      → Kept (answer_miss port mmu (page_align mmu va) page r).0
  unfolding answer_miss
  answer_miss-Kept port mmu va page (c, ret) answered h =
      if_keeps (λ (r : DmaContext × ℤ). Kept r.0) (is_nonzero ret) _ _ (one_more _ _ refl h)
        (answered page _ h)

  use_page-Kept :
      (port : TlbPort) (mmu : Mmu) (va : ℕ) (w : Bool) (page : Option ℕ) (c : DmaContext)
      → KeptByAnswer port mmu va
      → Kept c
      → Kept (use_page port mmu (page_align mmu va) w page c).0
  unfolding use_page install_page
  use_page-Kept port mmu va w none c answered h = h
  use_page-Kept port mmu va w (some page) c answered h =
      let got = log (Call.get_page page) c in
      answer_miss-Kept port mmu va page (remember_pinned port.max_pinned page w got) answered (
        remember_pinned-Kept port.max_pinned page w got _
          (remember_pinned-Outcome port.max_pinned page w got) (one_more _ _ refl h))

  lookup_page-Kept :
      (port : TlbPort) (mmu : Mmu) (task mm va : ℕ) (w : Bool) (c : DmaContext)
      → KeptByAnswer port mmu va
      → Kept c
      → Kept (lookup_page port mmu task mm (page_align mmu va) w c).0
  unfolding lookup_page
  lookup_page-Kept port mmu task mm va w c answered h =
      let gup = mmu.get_user_pages_remote task mm (page_align mmu va) w in
      let locked = log (Call.down_read mm) c in
      let unlocked : Kept (unlock_mm gup.locked mm locked) =
        if_keeps Kept gup.locked _ locked (one_more _ _ refl (one_more _ _ refl h))
          (one_more _ _ refl h) in
      if_keeps (λ (r : DmaContext × ℤ). Kept r.0) (not (is_one gup.ret)) _ _ unlocked
        (use_page-Kept port mmu va w gup.page _ answered unlocked)

  fill_with-Kept :
      (port : TlbPort) (dev : Device) (mmu : Mmu) (task mm : Option ℕ) (c : DmaContext)
      → KeptByAnswer port mmu (dev.read64 port.miss_va)
      → Kept c
      → Kept (fill_with port dev mmu task mm c).0
  unfolding fill_with
  fill_with-Kept port dev mmu (some task) (some mm) c answered h =
      let access = dev.read32 port.miss_access in
      let va = dev.read64 port.miss_va in
      if_keeps (λ (r : DmaContext × ℤ). Kept r.0)
        (not (access == port.access_read) && not (access == port.access_write)) (c, einval)
        (lookup_page port mmu task mm (page_align mmu va) (access == port.access_write) c) h
        (lookup_page-Kept port mmu task mm va (access == port.access_write) c answered h)
  fill_with-Kept port dev mmu (some task) none c answered h = h
  fill_with-Kept port dev mmu none mm c answered h = h

  -- The service of a TLB miss.
  pub fill_tlb_for_miss-keeps :
      (port : TlbPort) (dev : Device) (mmu : Mmu) (c : DmaContext)
      → KeptByAnswer port mmu (dev.read64 port.miss_va)
      → P c.calls
      → P (fill_tlb_for_miss port dev mmu c).0.calls
  unfolding fill_tlb_for_miss
  fill_tlb_for_miss-keeps port dev mmu c answered h =
      fill_with-Kept port dev mmu c.active_task c.active_mm c answered h
