-- ===== src/Hwgc/Works/Pinned.antt =====
-- The interrupt handler at a miss of the device, in a running operation.
use jvm_gc_acclelerator.Common.{
  ℕ, suc, ◌≤◌, ◌<◌, ◌≡◌, refl, sym, ◌∙◌, subst, arith, false, some, ◌==◌, ◌&&◌, not,
}
use jvm_gc_acclelerator.Common.Int.{pos}
use jvm_gc_acclelerator.Dma.Kernel.{DmaContext, Mmu}
use jvm_gc_acclelerator.Dma.Answer.{writes}
use jvm_gc_acclelerator.Dma.Missed.{
  Miss, IsMapped, IsReporting, IsInstalled, fill_tlb_for_miss-IsInstalled, pushed,
}
use jvm_gc_acclelerator.Dma.{fill_tlb_for_miss}
use jvm_gc_acclelerator.Hwgc.Regs.{hwgc_port, irq_tlb_miss, max_pinned}
use jvm_gc_acclelerator.Hwgc.Types.{Hwgc}
use jvm_gc_acclelerator.Hwgc.Irq.{handle_pending, fill_miss}
use jvm_gc_acclelerator.Hwgc.Service.{interrupted}
use jvm_gc_acclelerator.Hwgc.Service.Raised.{
  IsRunning, stage_off, error_off, stage_on, acknowledged, interrupted-thread,
}
use jvm_gc_acclelerator.Hwgc.Works.{Work, missing, access_of, work_sent}

-- An operation of the process runs, no event is on its way, and at most `k` pages are pinned.
pub record IsWorking (task mm k : ℕ) (d : Hwgc) : Type 0 where
  pub running : IsRunning d
  pub task_held : d.active_task ≡ some task
  pub mm_held : d.active_mm ≡ some mm
  pub room : d.nr_pinned ≤ k

handle_pending-miss :
    (m : Miss) (mmu : Mmu) (d : Hwgc)
    → (fill_miss (missing m) mmu d).1 ≡ pos 0
    → handle_pending (missing m) mmu irq_tlb_miss d ≡ (fill_miss (missing m) mmu d).0
unfolding handle_pending
handle_pending-miss m mmu d ok =
    simp (stage_off, error_off, stage_on (fill_miss (missing m) mmu) d ok)

interrupted-miss :
    (m : Miss) (mmu : Mmu) (d : Hwgc)
    → IsRunning d
    → (fill_miss (missing m) mmu (acknowledged irq_tlb_miss d)).1 ≡ pos 0
    → interrupted (missing m) mmu d ≡ (fill_miss (missing m) mmu (acknowledged irq_tlb_miss d)).0
interrupted-miss m mmu d h ok =
    interrupted-thread (missing m) mmu irq_tlb_miss d refl refl refl h.no_irq
    ∙ handle_pending-miss m mmu (acknowledged irq_tlb_miss d) ok

-- The access that the device reports is a read or a write.
access_of-known : (m : Miss) → (not (access_of m == 1) && not (access_of m == 2)) ≡ false
access_of-known m = ground arith

access_of-write : (m : Miss) → (access_of m == 2) ≡ m.write
access_of-write m = ground arith

-- A miss: the page is pinned, the device is told, and the operation goes on.
pub record IsTranslated (mmu : Mmu) (task mm : ℕ) (pages : ℕ → ℕ) (m : Miss) (k : ℕ) (d d' : Hwgc)
    : Type 0 where
  pub working : IsWorking task mm (suc k) d'
  pub sent : writes d'.calls ≡ pushed (work_sent mmu pages (Work.miss m)) (writes d.calls)
  pub seq : d'.event_seq ≡ d.event_seq

module _ (mmu : Mmu) (task mm : ℕ) (pages : ℕ → ℕ) (m : Miss) (k : ℕ) (d : Hwgc)
    (h : IsWorking task mm k d) (mapped : IsMapped mmu task mm pages m)
    (small : k < max_pinned) where
  abbrev started : DmaContext
  started = (acknowledged irq_tlb_miss d).dma

  missing-IsReporting : IsReporting hwgc_port m (missing m)
  missing-IsReporting = record { va = refl; kind = access_of-write m; known = access_of-known m }

  miss-IsInstalled :
      IsInstalled hwgc_port mmu pages m started
        (fill_tlb_for_miss hwgc_port (missing m) mmu started)
  miss-IsInstalled =
      let room = h.room in
      fill_tlb_for_miss-IsInstalled hwgc_port (missing m) mmu task mm pages m started h.task_held
        h.mm_held (omega (arith, room, small)) missing-IsReporting mapped

  pub interrupted-IsTranslated :
      IsTranslated mmu task mm pages m k d (interrupted (missing m) mmu d)
  unfolding fill_miss
  interrupted-IsTranslated =
      let installed = miss-IsInstalled in
      let ok = installed.ok in
      let grown = installed.grown in
      let filled = (fill_miss (missing m) mmu (acknowledged irq_tlb_miss d)).0 in
      subst (IsTranslated mmu task mm pages m k d) (sym (interrupted-miss m mmu d h.running ok))
        (record {
          working = record {
            running = record {
              active = h.running.active;
              present = h.running.present;
              not_pending = h.running.not_pending;
              not_in_service = h.running.not_in_service;
              no_irq = refl;
            };
            task_held = grown.task ∙ h.task_held;
            mm_held = grown.mm ∙ h.mm_held;
            room = let more = grown.room in let room = h.room in omega (arith, more, room);
          };
          sent = installed.sent;
          seq = refl;
        })
