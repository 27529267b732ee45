-- ===== src/Dma/Answer.antt =====
-- What the device is told about a TLB miss.
use jvm_gc_acclelerator.Common.{
  ℕ, ◌≡◌, refl, sym, subst, arith, Bool, true, not, some, List, [], ◌∷◌, ◌++◌, ◌==◌, if◌then◌else◌,
  if_keeps, ap, ◌∙◌, ◌&&◌,
}
use jvm_gc_acclelerator.Common.Int.{ℤ, to_int, is_one, is_nonzero}
use jvm_gc_acclelerator.Common.Errno.{einval}
use jvm_gc_acclelerator.Dma.Kernel.{DmaContext, Device, Mmu, TlbPort, GupResult, Call, log}
use jvm_gc_acclelerator.Dma.Remember.{Outcome, remember_pinned-Outcome, found, full, added}
use jvm_gc_acclelerator.Dma.{
  remember_pinned, answer_miss, install_page, use_page, lookup_page, fill_with, fill_tlb_for_miss,
  page_align, unlock_mm,
}

-- The register writes of a log, the last one first.
abbrev pub writes : List Call → List Call
writes [] = []
writes (Call.write32 off val ∷ calls) = Call.write32 off val ∷ writes calls
writes (Call.write64 off val ∷ calls) = Call.write64 off val ∷ writes calls
writes (_ ∷ calls) = writes calls

-- The answer to a miss of `va` on `page`.
abbrev pub answer : TlbPort → Mmu → ℕ → ℕ → List Call
answer port mmu va page =
    Call.write32 port.cmd port.cmd_continue
    ∷ Call.write64 port.fill_pa (page_align mmu (mmu.page_to_phys page))
    ∷ Call.write64 port.fill_va (page_align mmu va)
    ∷ []

module _ (port : TlbPort) (mmu : Mmu) (va page : ℕ) where
  -- The device gets the answer if the result is 0, and nothing otherwise.
  abbrev pub Answered : List Call → DmaContext × ℤ → Type 0
  Answered before (c', ret) =
      writes c'.calls ≡ (if is_nonzero ret then [] else answer port mmu va page) ++ before

  answer_miss-Answered :
      (w : Bool) (c : DmaContext) (kept : DmaContext × ℤ)
      → Outcome port.max_pinned page w c kept
      → Answered (writes c.calls) (answer_miss port mmu (page_align mmu va) page kept)
  unfolding answer_miss to_int
  answer_miss-Answered w c (c', ret) (found f ok) = rw ok (ground (arith, f.one_put))
  answer_miss-Answered w c kept (full h e) =
      subst (λ r. Answered (writes c.calls) (answer_miss port mmu (page_align mmu va) page r))
        (sym e) refl
  answer_miss-Answered w c kept (added h n e) =
      subst (λ r. Answered (writes c.calls) (answer_miss port mmu (page_align mmu va) page r))
        (sym e) refl

  unlock_mm-writes :
      (locked : Bool) (mm : ℕ) (c : DmaContext)
      → writes (unlock_mm locked mm c).calls ≡ writes c.calls
  unlock_mm-writes locked mm c = ground arith

  lookup_page-Answered :
      (task mm : ℕ) (w : Bool) (c : DmaContext)
      → is_one (mmu.get_user_pages_remote task mm (page_align mmu va) w).ret ≡ true
      → (mmu.get_user_pages_remote task mm (page_align mmu va) w).page ≡ some page
      → Answered (writes c.calls) (lookup_page port mmu task mm (page_align mmu va) w c)
  unfolding lookup_page use_page install_page
  lookup_page-Answered task mm w c one gave =
      let locked = (mmu.get_user_pages_remote task mm (page_align mmu va) w).locked in
      let unlocked = unlock_mm locked mm (log (Call.down_read mm) c) in
      let got = log (Call.get_page page) unlocked in
      let answered =
        answer_miss-Answered w got (remember_pinned port.max_pinned page w got)
          (remember_pinned-Outcome port.max_pinned page w got) in
      rw (one, gave)
        (subst (λ before. Answered before (install_page port mmu (page_align mmu va) w page got))
          (unlock_mm-writes locked mm (log (Call.down_read mm) c)) answered)

module _ (port : TlbPort) (dev : Device) (mmu : Mmu) (task mm page : ℕ) where
  abbrev pub looked_up : GupResult
  looked_up =
      mmu.get_user_pages_remote task mm (page_align mmu (dev.read64 port.miss_va))
        (dev.read32 port.miss_access == port.access_write)

  fill_with-Answered :
      (c : DmaContext)
      → is_one looked_up.ret ≡ true
      → looked_up.page ≡ some page
      → Answered port mmu
          (dev.read64 port.miss_va)
          page
          (writes c.calls)
          (fill_with port dev mmu (some task) (some mm) c)
  unfolding fill_with
  fill_with-Answered c one gave =
      let va = dev.read64 port.miss_va in
      let access = dev.read32 port.miss_access in
      if_keeps (Answered port mmu va page (writes c.calls))
        (not (access == port.access_read) && not (access == port.access_write)) (c, einval)
        (lookup_page port mmu task mm (page_align mmu va) (access == port.access_write) c) refl
        (lookup_page-Answered port mmu va page task mm (access == port.access_write) c one gave)

  -- If the operation has a process and the lookup gives a page, then the device gets exactly
  -- the address of the missed page, that of the page found and CMD_CONTINUE if the result is 0,
  -- and no write otherwise.
  pub fill_tlb_for_miss-answer :
      (c : DmaContext)
      → c.active_task ≡ some task
      → c.active_mm ≡ some mm
      → is_one looked_up.ret ≡ true
      → looked_up.page ≡ some page
      → let (c', ret) = fill_tlb_for_miss port dev mmu c in
        writes c'.calls
        ≡ (if is_nonzero ret then [] else answer port mmu (dev.read64 port.miss_va) page)
          ++ writes c.calls
  unfolding fill_tlb_for_miss
  fill_tlb_for_miss-answer c at_task at_mm one gave =
      let same : fill_tlb_for_miss port dev mmu c ≡ fill_with port dev mmu (some task) (some mm) c =
        ap (λ t. fill_with port dev mmu t c.active_mm c) at_task
        ∙ ap (λ m. fill_with port dev mmu (some task) m c) at_mm in
      subst (Answered port mmu (dev.read64 port.miss_va) page (writes c.calls)) (sym same)
        (fill_with-Answered c one gave)
