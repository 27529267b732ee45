-- ===== src/Dma/Hidden.antt =====
-- The functions on the pinned pages when some calls of the log are hidden.
use jvm_gc_acclelerator.Common.{
  ℕ, zero, suc, ◌+◌, Bool, true, false, not, ◌&&◌, ◌≡◌, refl, sym, ap, ◌∙◌, Option, none, some,
  List, [], ◌∷◌, ◌==◌, leb, if◌then◌else◌, is_ptr, Option-cases, inl, inr,
}
use jvm_gc_acclelerator.Common.Int.{ℤ, pos, to_int, is_one, is_neg, is_nonzero}
use jvm_gc_acclelerator.Common.Errno.{einval, efault, enospc}
use jvm_gc_acclelerator.Dma.Kernel.{DmaContext, Device, Mmu, TlbPort, Call, log, set_slot}
use jvm_gc_acclelerator.Dma.{
  remember_loop, remember_pinned, answer_miss, install_page, use_page, unlock_mm, lookup_page,
  fill_with, fill_tlb_for_miss, page_align,
}

-- The log without the writes to one 32-bit register.
abbrev pub is_write_to : ℕ → Call → Bool
is_write_to reg (Call.write32 off val) = off == reg
is_write_to reg _ = false

abbrev pub without_writes : ℕ → List Call → List Call
without_writes reg [] = []
without_writes reg (call ∷ calls) =
    let rest = without_writes reg calls in if is_write_to reg call then rest else call ∷ rest

abbrev pub hide : ℕ → DmaContext → DmaContext
hide reg c = record c { calls = without_writes reg c.calls }

-- A function goes into both branches.
pub if_commutes {ℓ κ} :
    {A : Type ℓ} {B : Type κ} (f : A → B) (b : Bool) (x y : A)
    → f (if b then x else y) ≡ (if b then f x else f y)
if_commutes f true x y = refl
if_commutes f false x y = refl

pub if_congr {ℓ} :
    {A : Type ℓ} (b : Bool) {x x' y y' : A}
    → x ≡ x'
    → y ≡ y'
    → (if b then x else y) ≡ (if b then x' else y')
if_congr true p q = p
if_congr false p q = q

module _ (reg : ℕ) where
  abbrev hide_first : DmaContext × ℤ → DmaContext × ℤ
  hide_first (c, ret) = (hide reg c, ret)

  abbrev hide_found : Option DmaContext → Option DmaContext
  hide_found none = none
  hide_found (some c) = some (hide reg c)

  remember_loop-hide :
      (left i page : ℕ) (w : Bool) (c : DmaContext)
      → hide_found (remember_loop left i page w c) ≡ remember_loop left i page w (hide reg c)
  unfolding remember_loop
  remember_loop-hide zero i page w c = refl
  remember_loop-hide (suc left) i page w c =
      if_commutes hide_found (is_ptr (c.pinned i).page page) _ _
      ∙ if_congr (is_ptr (c.pinned i).page page) refl (remember_loop-hide left (suc i) page w c)

  -- From the result of the loop on.
  abbrev after_loop : ℕ → ℕ → Bool → DmaContext → Option DmaContext → DmaContext × ℤ
  after_loop max page w c (some found) = (found, pos 0)
  after_loop max page w c none = if leb max c.nr_pinned then (c, enospc) else (
    record c {
      pinned = set_slot c.pinned c.nr_pinned (record { page = some page; write = w });
      nr_pinned = c.nr_pinned + 1;
    },
    pos 0,
  )

  remember_pinned-after_loop :
      (max page : ℕ) (w : Bool) (c : DmaContext)
      → remember_pinned max page w c
        ≡ after_loop max page w c (remember_loop c.nr_pinned 0 page w c)
  unfolding remember_pinned
  remember_pinned-after_loop max page w c =
      elim (Option-cases (remember_loop c.nr_pinned 0 page w c)) [
        | inl e ↦ rw (remember_pinned, e) refl
        | inr (found, e) ↦ rw (remember_pinned, e) refl
      ]

  after_loop-hide :
      (max page : ℕ) (w : Bool) (c : DmaContext) (r : Option DmaContext)
      → hide_first (after_loop max page w c r) ≡ after_loop max page w (hide reg c) (hide_found r)
  after_loop-hide max page w c (some found) = refl
  after_loop-hide max page w c none = if_commutes hide_first (leb max c.nr_pinned) _ _

  remember_pinned-hide :
      (max page : ℕ) (w : Bool) (c : DmaContext)
      → hide_first (remember_pinned max page w c) ≡ remember_pinned max page w (hide reg c)
  remember_pinned-hide max page w c =
      ap hide_first (remember_pinned-after_loop max page w c)
      ∙ after_loop-hide max page w c (remember_loop c.nr_pinned 0 page w c)
      ∙ ap (after_loop max page w (hide reg c)) (remember_loop-hide c.nr_pinned 0 page w c)
      ∙ sym (remember_pinned-after_loop max page w (hide reg c))

module _ (reg : ℕ) (port : TlbPort) (other : (port.cmd == reg) ≡ false) where
  answer_miss-hide :
      (mmu : Mmu) (va page : ℕ) (r : DmaContext × ℤ)
      → hide_first reg (answer_miss port mmu va page r)
        ≡ answer_miss port mmu va page (hide_first reg r)
  unfolding answer_miss
  answer_miss-hide mmu va page (c, ret) =
      if_commutes (hide_first reg) (is_nonzero ret) _ _
      ∙ if_congr (is_nonzero ret) refl (rw other refl)

  use_page-hide :
      (mmu : Mmu) (va : ℕ) (w : Bool) (page : Option ℕ) (c : DmaContext)
      → hide_first reg (use_page port mmu va w page c) ≡ use_page port mmu va w page (hide reg c)
  unfolding use_page install_page
  use_page-hide mmu va w none c = refl
  use_page-hide mmu va w (some page) c =
      let got = log (Call.get_page page) c in
      answer_miss-hide mmu va page (remember_pinned port.max_pinned page w got)
      ∙ ap (answer_miss port mmu va page) (remember_pinned-hide reg port.max_pinned page w got)

  lookup_page-hide :
      (mmu : Mmu) (task mm va : ℕ) (w : Bool) (c : DmaContext)
      → hide_first reg (lookup_page port mmu task mm va w c)
        ≡ lookup_page port mmu task mm va w (hide reg c)
  unfolding lookup_page
  lookup_page-hide mmu task mm va w c =
      let gup = mmu.get_user_pages_remote task mm va w in
      let locked = log (Call.down_read mm) c in
      let unlocked : hide reg (unlock_mm gup.locked mm locked)
          ≡ unlock_mm gup.locked mm (log (Call.down_read mm) (hide reg c)) =
        if_commutes (hide reg) gup.locked _ _ in
      let code = if is_neg gup.ret then to_int gup.ret else efault in
      if_commutes (hide_first reg) (not (is_one gup.ret)) _ _
      ∙ if_congr (not (is_one gup.ret)) (ap (λ c. (c, code)) unlocked) (
          use_page-hide mmu va w gup.page (unlock_mm gup.locked mm locked)
          ∙ ap (use_page port mmu va w gup.page) unlocked)

  fill_with-hide :
      (dev : Device) (mmu : Mmu) (task mm : Option ℕ) (c : DmaContext)
      → hide_first reg (fill_with port dev mmu task mm c)
        ≡ fill_with port dev mmu task mm (hide reg c)
  unfolding fill_with
  fill_with-hide dev mmu (some task) (some mm) c =
      let access = dev.read32 port.miss_access in
      let va = page_align mmu (dev.read64 port.miss_va) in
      let refused = not (access == port.access_read) && not (access == port.access_write) in
      if_commutes (hide_first reg) refused (c, einval)
        (lookup_page port mmu task mm va (access == port.access_write) c)
      ∙ if_congr refused refl (lookup_page-hide mmu task mm va (access == port.access_write) c)
  fill_with-hide dev mmu (some task) none c = refl
  fill_with-hide dev mmu none mm c = refl

  -- The service of a TLB miss makes no write to the register.
  pub fill_tlb_for_miss-hide :
      (dev : Device) (mmu : Mmu) (c : DmaContext)
      → hide_first reg (fill_tlb_for_miss port dev mmu c)
        ≡ fill_tlb_for_miss port dev mmu (hide reg c)
  unfolding fill_tlb_for_miss
  fill_tlb_for_miss-hide dev mmu c = fill_with-hide dev mmu c.active_task c.active_mm c
