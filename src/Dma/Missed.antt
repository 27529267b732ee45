-- ===== src/Dma/Missed.antt =====
-- One miss of the device in a running operation, whose lookup succeeds, and what the device is sent.
use jvm_gc_acclelerator.Common.{
  ℕ, suc, ◌≤◌, ◌<◌, ◌≡◌, refl, sym, ◌∙◌, ap, subst, arith, Bool, true, false, some, ◌==◌, not, ◌&&◌,
  if_keeps, if_false, List, [], ◌∷◌, ◌++◌, if◌then◌else◌,
}
use jvm_gc_acclelerator.Common.Int.{ℤ, pos, is_one, is_nonzero}
use jvm_gc_acclelerator.Common.Errno.{einval}
use jvm_gc_acclelerator.Dma.Kernel.{DmaContext, Device, Mmu, TlbPort, Call, log}
use jvm_gc_acclelerator.Dma.Answer.{writes, answer, fill_tlb_for_miss-answer}
use jvm_gc_acclelerator.Dma.Grows.{release-keeps, is_register_write}
use jvm_gc_acclelerator.Dma.Remember.{Outcome, remember_pinned-Outcome, found, full, added}
use jvm_gc_acclelerator.Dma.{
  remember_pinned, answer_miss, install_page, use_page, unlock_mm, lookup_page, fill_with,
  fill_tlb_for_miss, page_align, unpin_all, release_process_context,
}

-- A page that the device's TLB does not have, and whether it wants to write it.
pub record Miss : Type 0 where
  pub va : ℕ
  pub write : Bool

-- The lookup of a page of the process succeeds.
pub record IsMapped (mmu : Mmu) (task mm : ℕ) (pages : ℕ → ℕ) (m : Miss) : Type 0 where
  pub one : is_one (mmu.get_user_pages_remote task mm (page_align mmu m.va) m.write).ret ≡ true
  pub gave :
      (mmu.get_user_pages_remote task mm (page_align mmu m.va) m.write).page
      ≡ some (pages (page_align mmu m.va))

-- A log, the last call first, after some more calls.
abbrev pub pushed : List Call → List Call → List Call
pushed [] log = log
pushed (call ∷ calls) log = pushed calls (call ∷ log)

pub pushed-++ : (a b log : List Call) → pushed (a ++ b) log ≡ pushed b (pushed a log)
pushed-++ [] b log = refl
pushed-++ (call ∷ a) b log = pushed-++ a b (call ∷ log)

writes-other :
    (call : Call) (calls : List Call)
    → is_register_write call ≡ false
    → writes (call ∷ calls) ≡ writes calls
writes-other call calls other = ground (arith, other)

-- The end of the operation sends nothing.
pub released-writes :
    (c : DmaContext) → writes (release_process_context (unpin_all c)).calls ≡ writes c.calls
released-writes c =
    release-keeps (λ calls. writes calls ≡ writes c.calls)
      (λ call calls other same. writes-other call calls other ∙ same) c refl

-- The operation's process stays, and one page more is pinned at most.
pub record IsGrown (c c' : DmaContext) : Type 0 where
  pub room : c'.nr_pinned ≤ suc c.nr_pinned
  pub task : c'.active_task ≡ c.active_task
  pub mm : c'.active_mm ≡ c.active_mm

-- The same table and the same process.
record IsSame (c c' : DmaContext) : Type 0 where
  nr : c'.nr_pinned ≡ c.nr_pinned
  task : c'.active_task ≡ c.active_task
  mm : c'.active_mm ≡ c.active_mm

same : (c : DmaContext) → IsSame c c
same c = record { nr = refl; task = refl; mm = refl }

abbrev pub IsFilled : DmaContext → DmaContext × ℤ → Type 0
IsFilled c r = (r.1 ≡ pos 0) × IsGrown c r.0

-- The answer to a miss when there is room for one more page.
module _ (port : TlbPort) (mmu : Mmu) (va page : ℕ) where
  answer_miss-IsFilled :
      (w : Bool) (c : DmaContext) (kept : DmaContext × ℤ)
      → c.nr_pinned < port.max_pinned
      → Outcome port.max_pinned page w c kept
      → IsFilled c (answer_miss port mmu va page kept)
  unfolding answer_miss
  answer_miss-IsFilled w c (c', ret) room (found f ok) =
      rw ok (
        refl,
        record { room = let e = f.same_nr in omega arith; task = f.same_task; mm = f.same_mm },
      )
  answer_miss-IsFilled w c kept room (full h e) = absurd (omega arith)
  answer_miss-IsFilled w c kept room (added h n e) =
      subst (λ r. IsFilled c (answer_miss port mmu va page r)) (sym e)
        (refl, record { room = omega arith; task = refl; mm = refl })

module _ (port : TlbPort) (mmu : Mmu) (task mm va page : ℕ) (w : Bool) where
  lookup_page-IsFilled :
      (c : DmaContext)
      → c.nr_pinned < port.max_pinned
      → is_one (mmu.get_user_pages_remote task mm va w).ret ≡ true
      → (mmu.get_user_pages_remote task mm va w).page ≡ some page
      → IsFilled c (lookup_page port mmu task mm va w c)
  unfolding lookup_page use_page install_page
  lookup_page-IsFilled c room one gave =
      let locked = (mmu.get_user_pages_remote task mm va w).locked in
      let down = log (Call.down_read mm) c in
      let got = log (Call.get_page page) (unlock_mm locked mm down) in
      let kept : IsSame c (unlock_mm locked mm down) =
        if_keeps (IsSame c) locked (log (Call.up_read mm) down) down
          (record { nr = refl; task = refl; mm = refl })
          (record { nr = refl; task = refl; mm = refl }) in
      let nr = kept.nr in
      let (ok, grown) =
        answer_miss-IsFilled port mmu va page w got (remember_pinned port.max_pinned page w got)
          (omega (arith, nr)) (remember_pinned-Outcome port.max_pinned page w got) in
      let more = grown.room in
      rw (one, gave)
        (
          ok,
          record {
            room = omega (arith, nr, more);
            task = grown.task ∙ kept.task;
            mm = grown.mm ∙ kept.mm;
          },
        )

-- A device that reports an access of one of the two kinds, in an operation with a process.
fill_tlb_for_miss-IsFilled :
    (port : TlbPort) (dev : Device) (mmu : Mmu) (task mm page : ℕ) (w : Bool) (c : DmaContext)
    → c.active_task ≡ some task
    → c.active_mm ≡ some mm
    → c.nr_pinned < port.max_pinned
    → (dev.read32 port.miss_access == port.access_write) ≡ w
    → (not (dev.read32 port.miss_access == port.access_read)
        && not (dev.read32 port.miss_access == port.access_write))
      ≡ false
    → let gup = mmu.get_user_pages_remote task mm (page_align mmu (dev.read64 port.miss_va)) w in
      is_one gup.ret ≡ true → gup.page ≡ some page → IsFilled c (fill_tlb_for_miss port dev mmu c)
unfolding fill_tlb_for_miss fill_with
fill_tlb_for_miss-IsFilled port dev mmu task mm page w c at_task at_mm room kind known one gave =
    let va = page_align mmu (dev.read64 port.miss_va) in
    let opened : lookup_page port mmu task mm va w c ≡ fill_tlb_for_miss port dev mmu c =
      ap (λ w'. lookup_page port mmu task mm va w' c) (sym kind)
      ∙ if_false
          (not (dev.read32 port.miss_access == port.access_read)
            && not (dev.read32 port.miss_access == port.access_write))
          (c, einval)
          (lookup_page port mmu task mm va (dev.read32 port.miss_access == port.access_write) c)
          known
      ∙ sym (
          ap (λ t. fill_with port dev mmu t c.active_mm c) at_task
          ∙ ap (λ m. fill_with port dev mmu (some task) m c) at_mm) in
    subst (IsFilled c) opened (lookup_page-IsFilled port mmu task mm va page w c room one gave)

-- A miss: 0 is reported, one page more is pinned at most, and the device gets the answer.
pub record IsInstalled (port : TlbPort) (mmu : Mmu) (pages : ℕ → ℕ) (m : Miss) (c : DmaContext)
    (r : DmaContext × ℤ) : Type 0 where
  pub ok : r.1 ≡ pos 0
  pub grown : IsGrown c r.0
  pub sent : writes r.0.calls ≡ answer port mmu m.va (pages (page_align mmu m.va)) ++ writes c.calls

-- The device reports a miss.
pub record IsReporting (port : TlbPort) (m : Miss) (dev : Device) : Type 0 where
  pub va : dev.read64 port.miss_va ≡ m.va
  pub kind : (dev.read32 port.miss_access == port.access_write) ≡ m.write
  pub known :
      (not (dev.read32 port.miss_access == port.access_read)
        && not (dev.read32 port.miss_access == port.access_write))
      ≡ false

pub fill_tlb_for_miss-IsInstalled :
    (port : TlbPort) (dev : Device) (mmu : Mmu) (task mm : ℕ) (pages : ℕ → ℕ) (m : Miss)
    (c : DmaContext)
    → c.active_task ≡ some task
    → c.active_mm ≡ some mm
    → c.nr_pinned < port.max_pinned
    → IsReporting port m dev
    → IsMapped mmu task mm pages m
    → IsInstalled port mmu pages m c (fill_tlb_for_miss port dev mmu c)
fill_tlb_for_miss-IsInstalled port dev mmu task mm pages m c at_task at_mm room reports mapped =
    let page = pages (page_align mmu m.va) in
    let gup = mmu.get_user_pages_remote task mm in
    let at_va = sym reports.va in
    let one = subst (λ va. is_one (gup (page_align mmu va) m.write).ret ≡ true) at_va mapped.one in
    let gave = subst (λ va. (gup (page_align mmu va) m.write).page ≡ some page) at_va mapped.gave in
    let va = page_align mmu (dev.read64 port.miss_va) in
    let filled =
      fill_tlb_for_miss-IsFilled port dev mmu task mm page m.write c at_task at_mm room reports.kind
        reports.known one gave in
    record {
      ok = filled.0;
      grown = filled.1;
      sent =
          fill_tlb_for_miss-answer port dev mmu task mm page c at_task at_mm
            (subst (λ w. is_one (gup va w).ret ≡ true) (sym reports.kind) one)
            (subst (λ w. (gup va w).page ≡ some page) (sym reports.kind) gave)
          ∙ ap
              (λ ret.
                (if is_nonzero ret then [] else answer port mmu (dev.read64 port.miss_va) page)
                ++ writes c.calls)
              filled.0
          ∙ ap (λ va. answer port mmu va page ++ writes c.calls) reports.va;
    }
