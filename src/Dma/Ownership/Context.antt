-- ===== src/Dma/Ownership/Context.antt =====
-- The balance of references when an operation takes and releases its references.
use jvm_gc_acclelerator.Common.{ℕ, ◌+◌, ◌≡◌, refl, ◌∙◌, arith, Bool, none, is_some}
use jvm_gc_acclelerator.Common.Errno.{einval}
use jvm_gc_acclelerator.Dma.Kernel.{DmaContext, PinnedPage, Process, Device, Mmu, TlbPort}
use jvm_gc_acclelerator.Dma.Count.{
  count, is_get_page, is_put_page, is_get_task, is_put_task, is_get_mm, is_put_mm, slots_from,
  has_page,
}
use jvm_gc_acclelerator.Dma.Unpin.{unpin_all_lem, unpin_all-count, unpin_all-active}
use jvm_gc_acclelerator.Dma.Ownership.Defs.{Owns}
use jvm_gc_acclelerator.Dma.{
  unpin_all, release_process_context, hold_process_context, fill_tlb_for_miss, fill_with,
}

-- Nothing is held: each reference taken has been put back.
pub record AllPut (c : DmaContext) : Type 0 where
  pub pages : (p : ℕ) → count (is_get_page p) c.calls ≡ count (is_put_page p) c.calls
  pub tasks : (t : ℕ) → count (is_get_task t) c.calls ≡ count (is_put_task t) c.calls
  pub mms : (m : ℕ) → count (is_get_mm m) c.calls ≡ count (is_put_mm m) c.calls

-- The device structure of a driver with no operation.
pub record IsEmpty (c : DmaContext) : Type 0 where
  pub no_pages : c.nr_pinned ≡ 0
  pub no_task : c.active_task ≡ none
  pub no_mm : c.active_mm ≡ none

empty-slots :
    (sel : PinnedPage → Bool) (c : DmaContext)
    → c.nr_pinned ≡ 0
    → slots_from sel c.pinned 0 c.nr_pinned ≡ 0
unfolding slots_from
empty-slots sel c e = rw e refl

pub IsEmpty-AllPut : {max : ℕ} {c : DmaContext} → Owns max c → IsEmpty c → AllPut c
IsEmpty-AllPut {c} h e = record {
  pages = λ p. omega (arith, h.pages p, empty-slots (has_page p) c e.no_pages);
  tasks = λ t. ground (arith, h.tasks t);
  mms = λ m. ground (arith, h.mms m);
}

-- What `unpin_all` does, with the empty table put in.
unpinned-pages :
    (p : ℕ) (c : DmaContext)
    → ((unpin_all c).nr_pinned ≡ 0)
      × (slots_from (has_page p) (unpin_all c).pinned 0 (unpin_all c).nr_pinned ≡ 0)
      × (count (is_put_page p) (unpin_all c).calls
          ≡ count (is_put_page p) c.calls + slots_from (has_page p) c.pinned 0 c.nr_pinned)
      × (count (is_get_page p) (unpin_all c).calls ≡ count (is_get_page p) c.calls)
unpinned-pages p c =
    let done = unpin_all_lem p c in
    (
      done.0,
      empty-slots (has_page p) (unpin_all c) done.0,
      done.1,
      unpin_all-count (is_get_page p) (ground arith) c,
    )

pub unpin_all-Owns : {max : ℕ} (c : DmaContext) → Owns max c → Owns max (unpin_all c)
unpin_all-Owns c h = record {
  bounded = omega (arith, unpinned-pages 0 c);
  once = λ p. omega (arith, unpinned-pages p c);
  pages = λ p. omega (arith, unpinned-pages p c, h.pages p);
  tasks = λ t. ground (
    arith,
    h.tasks t,
    unpin_all-active c,
    unpin_all-count (is_get_task t) (ground arith) c,
    unpin_all-count (is_put_task t) (ground arith) c,
  );
  mms = λ m. ground (
    arith,
    h.mms m,
    unpin_all-active c,
    unpin_all-count (is_get_mm m) (ground arith) c,
    unpin_all-count (is_put_mm m) (ground arith) c,
  );
}

release_process_context-Owns :
    {max : ℕ} (c : DmaContext)
    → Owns max c
    → Owns max (release_process_context c)
      × ((release_process_context c).nr_pinned ≡ c.nr_pinned)
      × ((release_process_context c).active_task ≡ none)
      × ((release_process_context c).active_mm ≡ none)
unfolding release_process_context
release_process_context-Owns c h = (
  record {
    bounded = ground (arith, h.bounded);
    once = λ p. ground (arith, h.once p);
    pages = λ p. ground (arith, h.pages p);
    tasks = λ t. ground (arith, h.tasks t);
    mms = λ m. ground (arith, h.mms m);
  },
  ground arith,
  ground arith,
  ground arith,
)

-- The end of every operation: nothing is held, and the balance is kept.
pub release_all-Owns :
    {max : ℕ} (c : DmaContext)
    → Owns max c
    → Owns max (release_process_context (unpin_all c))
      × IsEmpty (release_process_context (unpin_all c))
release_all-Owns c h =
    let (owns, nr, task, mm) = release_process_context-Owns (unpin_all c) (unpin_all-Owns c h) in
    (owns, record { no_pages = nr ∙ (unpin_all_lem 0 c).0; no_task = task; no_mm = mm })

-- With nothing held before, the start of an operation holds the process exactly if it succeeds.
pub hold_process_context-Owns :
    {max : ℕ} (current : Process) (c : DmaContext)
    → Owns max c
    → IsEmpty c
    → Owns max (hold_process_context current c).0
      × ((hold_process_context current c).0.nr_pinned ≡ 0)
      × ((hold_process_context current c).1 ≡ is_some current.mm)
      × ((current.mm ≡ none) → IsEmpty (hold_process_context current c).0)
unfolding hold_process_context
hold_process_context-Owns current c h e = (
  record {
    bounded = ground (arith, h.bounded);
    once = λ p. ground (arith, h.once p);
    pages = λ p. ground (arith, h.pages p);
    tasks = λ t. ground (arith, h.tasks t);
    mms = λ m. ground (arith, h.mms m);
  },
  ground arith,
  ground arith,
  λ no_mm. record { no_pages = ground arith; no_task = ground arith; no_mm = ground arith },
)

-- With no process a miss is refused, and nothing is touched.
pub fill_tlb_for_miss-no_task :
    (port : TlbPort) (dev : Device) (mmu : Mmu) (c : DmaContext)
    → c.active_task ≡ none
    → fill_tlb_for_miss port dev mmu c ≡ (c, einval)
unfolding fill_tlb_for_miss fill_with
fill_tlb_for_miss-no_task port dev mmu c e = rw (e, fill_with) refl
