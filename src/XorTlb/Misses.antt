-- ===== src/XorTlb/Misses.antt =====
-- The interrupts of an operation of the XOR device: TLB misses, and DONE at its end.
use jvm_gc_acclelerator.Common.{
  ℕ, suc, ◌+◌, ◌≤◌, ◌<◌, ◌≡◌, refl, sym, ◌∙◌, ap, subst, arith, false, not, ◌&&◌, some, List, [],
  ◌∷◌, length, ◌++◌, ◌==◌, if◌then◌else◌, bit_or,
}
use jvm_gc_acclelerator.Common.Int.{pos}
use jvm_gc_acclelerator.Dma.Kernel.{Device, Mmu, Call}
use jvm_gc_acclelerator.Dma.Answer.{writes}
use jvm_gc_acclelerator.Dma.Missed.{
  Miss, IsMapped, IsReporting, fill_tlb_for_miss-IsInstalled, pushed, pushed-++,
}
use jvm_gc_acclelerator.Dma.{page_align}
use jvm_gc_acclelerator.XorTlb.Pages.{fill_tlb_for_miss}
use jvm_gc_acclelerator.XorTlb.Regs.{
  xor_port, max_pinned, reg_irq_status, reg_irq_clear, reg_cmd, reg_tlb_fill_va, reg_tlb_fill_pa,
  reg_miss_access, cmd_continue, irq_tlb_miss, irq_done, access_read, access_write,
}
use jvm_gc_acclelerator.XorTlb.{
  XorTlbdev, Interrupt, irq_top, irq_thread, handle_pending, after_miss, run_interrupts, emit,
  complete,
}

abbrev pub access_of : Miss → ℕ
access_of m = if m.write then access_write else access_read

-- A device that reports a miss.
abbrev pub missing : Miss → Device
missing m = record {
  read32 = λ off.
      if off == reg_irq_status
      then irq_tlb_miss
      else if off == reg_miss_access
      then access_of m
      else 0;
  read64 = λ off. m.va;
}

-- A device that has ended its operation.
abbrev pub finished : Device
finished = record {
  read32 = λ off. if off == reg_irq_status then irq_done else 0;
  read64 = λ off. 0;
}

-- One interrupt for each miss, and the last one for DONE.
abbrev pub interrupts_of : Mmu → List Miss → List Interrupt
interrupts_of mmu [] = Interrupt.top finished ∷ Interrupt.thread finished mmu ∷ []
interrupts_of mmu (m ∷ misses) =
    Interrupt.top (missing m) ∷ Interrupt.thread (missing m) mmu ∷ interrupts_of mmu misses

-- What the device is sent for a miss, in the order in which it is sent.
abbrev pub miss_sent : Mmu → (ℕ → ℕ) → Miss → List Call
miss_sent mmu pages m =
    Call.write32 reg_irq_clear irq_tlb_miss
    ∷ Call.write64 reg_tlb_fill_va (page_align mmu m.va)
    ∷ Call.write64 reg_tlb_fill_pa (page_align mmu (mmu.page_to_phys (pages (page_align mmu m.va))))
    ∷ Call.write32 reg_cmd cmd_continue
    ∷ []

abbrev pub interrupts_sent : Mmu → (ℕ → ℕ) → List Miss → List Call
interrupts_sent mmu pages [] = Call.write32 reg_irq_clear irq_done ∷ []
interrupts_sent mmu pages (m ∷ misses) = miss_sent mmu pages m ++ interrupts_sent mmu pages misses

-- An operation of the process runs, nobody has completed it, and at most `k` pages are pinned.
pub record IsWorking (task mm k : ℕ) (d : XorTlbdev) : Type 0 where
  pub no_irq : d.pending_irq ≡ 0
  pub not_done : d.done ≡ 0
  pub task_held : d.active_task ≡ some task
  pub mm_held : d.active_mm ≡ some mm
  pub room : d.nr_pinned ≤ k

-- The interrupt `st` has been cleared and taken.
abbrev pub acknowledged : ℕ → XorTlbdev → XorTlbdev
acknowledged st d = record (emit (Call.write32 reg_irq_clear st) d) { pending_irq = 0 }

module _ (mmu : Mmu) (d : XorTlbdev) (no_irq : d.pending_irq ≡ 0) where
  irq_thread-miss :
      (m : Miss)
      → irq_thread (missing m) mmu (irq_top (missing m) d)
        ≡ after_miss false
            (acknowledged irq_tlb_miss d)
            (fill_tlb_for_miss (missing m) mmu (acknowledged irq_tlb_miss d).dma)
  unfolding irq_top irq_thread handle_pending
  irq_thread-miss m =
      ap (λ n. handle_pending (missing m) mmu (bit_or n irq_tlb_miss) (acknowledged irq_tlb_miss d))
        no_irq

  irq_thread-done :
      irq_thread finished mmu (irq_top finished d)
      ≡ complete (record (acknowledged irq_done d) { op_status = pos 0 })
  unfolding irq_top irq_thread handle_pending
  irq_thread-done =
      ap (λ n. handle_pending finished mmu (bit_or n irq_done) (acknowledged irq_done d)) no_irq

access_of-known : (m : Miss) → (not (access_of m == 1) && not (access_of m == 2)) ≡ false
access_of-known m = ground arith

access_of-write : (m : Miss) → (access_of m == 2) ≡ m.write
access_of-write m = ground arith

missing-IsReporting : (m : Miss) → IsReporting xor_port m (missing m)
missing-IsReporting m = record { va = refl; kind = access_of-write m; known = access_of-known m }

-- The operation goes on, and the device has been sent some writes.
record IsTranslated (mmu : Mmu) (task mm : ℕ) (pages : ℕ → ℕ) (m : Miss) (k : ℕ) (d d' : XorTlbdev)
    : Type 0 where
  working : IsWorking task mm (suc k) d'
  sent : writes d'.calls ≡ pushed (miss_sent mmu pages m) (writes d.calls)

-- The end of the operation: one completion, and a status of 0.
pub record IsFinished (d' : XorTlbdev) (sent : List Call) : Type 0 where
  pub one_done : d'.done ≡ 1
  pub status : d'.op_status ≡ pos 0
  pub sent_all : writes d'.calls ≡ sent

module _ (mmu : Mmu) (task mm : ℕ) (pages : ℕ → ℕ) where
  irq_thread-IsTranslated :
      (k : ℕ) (m : Miss) (d : XorTlbdev)
      → k < max_pinned
      → IsMapped mmu task mm pages m
      → IsWorking task mm k d
      → IsTranslated mmu task mm pages m k d (irq_thread (missing m) mmu (irq_top (missing m) d))
  unfolding after_miss
  irq_thread-IsTranslated k m d small mapped h =
      let started = acknowledged irq_tlb_miss d in
      let room = h.room in
      let installed =
        fill_tlb_for_miss-IsInstalled xor_port (missing m) mmu task mm pages m started.dma
          h.task_held h.mm_held (omega (arith, room, small)) (missing-IsReporting m) mapped in
      let filled = fill_tlb_for_miss (missing m) mmu started.dma in
      let opened : record started { dma = filled.0 } ≡ after_miss false started filled =
        ap (λ ret. after_miss false started (filled.0, ret)) (sym installed.ok) in
      subst (IsTranslated mmu task mm pages m k d) (opened ∙ sym (irq_thread-miss mmu d h.no_irq m))
        (record {
          working = record {
            no_irq = refl;
            not_done = h.not_done;
            task_held = installed.grown.task ∙ h.task_held;
            mm_held = installed.grown.mm ∙ h.mm_held;
            room = let more = installed.grown.room in omega (arith, more, room);
          };
          sent = installed.sent;
        })

  -- The lookup of each page that the device misses succeeds.
  abbrev pub AllMapped : List Miss → Type 0
  AllMapped [] = Unit
  AllMapped (m ∷ misses) = IsMapped mmu task mm pages m × AllMapped misses

  pub run_interrupts-IsFinished :
      (k : ℕ) (misses : List Miss) (d : XorTlbdev)
      → k + length misses ≤ max_pinned
      → AllMapped misses
      → IsWorking task mm k d
      → IsFinished
          (run_interrupts (interrupts_of mmu misses) d)
          (pushed (interrupts_sent mmu pages misses) (writes d.calls))
  unfolding run_interrupts
  run_interrupts-IsFinished k [] d small mapped h =
      let ended = complete (record (acknowledged irq_done d) { op_status = pos 0 }) in
      subst (λ d'. IsFinished d' (Call.write32 reg_irq_clear irq_done ∷ writes d.calls))
        (sym (irq_thread-done mmu d h.no_irq))
        (record { one_done = ap (λ n. n + 1) h.not_done; status = refl; sent_all = refl })
  run_interrupts-IsFinished k (m ∷ misses) d small mapped h =
      let one = irq_thread-IsTranslated k m d (omega (arith, small)) mapped.0 h in
      let next = irq_thread (missing m) mmu (irq_top (missing m) d) in
      let ended = run_interrupts (interrupts_of mmu misses) next in
      let rest =
        run_interrupts-IsFinished (suc k) misses next (omega (arith, small)) mapped.1 one.working in
      subst (IsFinished ended)
        (ap (pushed (interrupts_sent mmu pages misses)) one.sent
          ∙ sym (
              pushed-++ (miss_sent mmu pages m) (interrupts_sent mmu pages misses)
                (writes d.calls)))
        rest
