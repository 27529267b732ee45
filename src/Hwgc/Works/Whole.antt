-- ===== src/Hwgc/Works/Whole.antt =====
-- A whole operation with misses: its end, what is left behind, and what the device is sent.
use jvm_gc_acclelerator.Common.{
  ℕ, suc, ◌+◌, ◌≤◌, ◌≡◌, refl, sym, ◌∙◌, ap, subst, arith, true, false, some, List, [], ◌∷◌, ◌++◌,
  length,
}
use jvm_gc_acclelerator.Common.Int.{pos}
use jvm_gc_acclelerator.Dma.Kernel.{Process, Mmu, Call}
use jvm_gc_acclelerator.Dma.Answer.{writes}
use jvm_gc_acclelerator.Dma.Missed.{IsMapped, pushed, pushed-++}
use jvm_gc_acclelerator.Dma.Ownership.{AllPut}
use jvm_gc_acclelerator.Hwgc.Regs.{max_pinned, reg_irq_clear, irq_done}
use jvm_gc_acclelerator.Hwgc.Types.{Parameters, Hwgc}
use jvm_gc_acclelerator.Hwgc.Ioctl.{start_ioctl}
use jvm_gc_acclelerator.Hwgc.Params.{parameter_writes}
use jvm_gc_acclelerator.Hwgc.Invariant.Reach.{Reach, later, start, Reach-AllPut}
use jvm_gc_acclelerator.Hwgc.Service.{Served, interrupted, serve}
use jvm_gc_acclelerator.Hwgc.Service.Raised.{IsRunning}
use jvm_gc_acclelerator.Hwgc.Service.Cycle.{
  IsServedFrom, start_ioctl-IsRunning, serve-IsServed, complete-finish,
}
use jvm_gc_acclelerator.Hwgc.Service.Ends.{is_done, interrupted-Reach, serve-Reach, complete-Reach}
use jvm_gc_acclelerator.Hwgc.Works.{
  Work, missing, work_all, operate_works, start_sent, works_sent, work_sent, operation_sent,
  requests_of,
}
use jvm_gc_acclelerator.Hwgc.Works.Pinned.{IsWorking, interrupted-IsTranslated}
use jvm_gc_acclelerator.Hwgc.Works.Asked.{serve-IsHeld, start_ioctl-sent, complete-sent}

module _ (mmu : Mmu) (task mm : ℕ) (pages : ℕ → ℕ) where
  -- The lookup of each page that the device misses succeeds.
  abbrev pub AllMapped : List Work → Type 0
  AllMapped [] = Unit
  AllMapped (Work.ask r ∷ works) = AllMapped works
  AllMapped (Work.miss m ∷ works) = IsMapped mmu task mm pages m × AllMapped works

  record IsWorked (works : List Work) (d : Hwgc) (r : Hwgc × List Served) : Type 0 where
    running : IsRunning r.0
    served : IsServedFrom d.event_seq (requests_of works) r.1
    sent : writes r.0.calls ≡ pushed (works_sent mmu pages works) (writes d.calls)

  work_all-IsWorked :
      (k : ℕ) (works : List Work) (d : Hwgc)
      → k + length works ≤ max_pinned
      → AllMapped works
      → IsWorking task mm k d
      → IsWorked works d (work_all mmu works d)
  unfolding work_all
  work_all-IsWorked k [] d small mapped h = record { running = h.running; served = tt; sent = refl }
  work_all-IsWorked k (Work.ask r ∷ works) d small mapped h =
      let one = serve-IsServed mmu r d h.running in
      let held = serve-IsHeld mmu pages r d h.running in
      let next = (serve mmu r d).0 in
      let rest = work_all-IsWorked (suc k) works next (omega (arith, small)) mapped (record {
        running = one.running;
        task_held = held.task ∙ h.task_held;
        mm_held = held.mm ∙ h.mm_held;
        room = let nr = held.nr in let room = h.room in omega (arith, nr, room);
      }) in
      record {
        running = rest.running;
        served = (
          one.event,
          one.waited,
          one.replied,
          subst (λ seq. IsServedFrom seq (requests_of works) (work_all mmu works next).1) one.issued
              rest.served,
        );
        sent =
            rest.sent
            ∙ ap (pushed (works_sent mmu pages works)) held.writes_sent
            ∙ sym (
                pushed-++ (work_sent mmu pages (Work.ask r)) (works_sent mmu pages works)
                  (writes d.calls));
      }
  work_all-IsWorked k (Work.miss m ∷ works) d small mapped h =
      let next = interrupted (missing m) mmu d in
      let one =
        interrupted-IsTranslated mmu task mm pages m k d h mapped.0 (omega (arith, small)) in
      let rest = work_all-IsWorked (suc k) works next (omega (arith, small)) mapped.1 one.working in
      record {
        running = rest.running;
        served =
            subst (λ seq. IsServedFrom seq (requests_of works) (work_all mmu works next).1) one.seq
              rest.served;
        sent =
            rest.sent
            ∙ ap (pushed (works_sent mmu pages works)) one.sent
            ∙ sym (
                pushed-++ (work_sent mmu pages (Work.miss m)) (works_sent mmu pages works)
                  (writes d.calls));
      }

-- The parts of the operation one after the other.
operation_sent-pushed :
    (params : Parameters) (mmu : Mmu) (pages : ℕ → ℕ) (works : List Work) (log : List Call)
    → pushed (operation_sent params mmu pages works) log
      ≡ Call.write32 reg_irq_clear irq_done
        ∷ pushed (works_sent mmu pages works) (pushed (start_sent params) log)
unfolding parameter_writes
operation_sent-pushed params mmu pages works log =
    let done = Call.write32 reg_irq_clear irq_done ∷ [] in
    pushed-++ (start_sent params) (works_sent mmu pages works ++ done) log
    ∙ pushed-++ (works_sent mmu pages works) done (pushed (start_sent params) log)

work_all-Reach :
    (mmu : Mmu) (works : List Work) (d : Hwgc) → Reach d → Reach (work_all mmu works d).0
unfolding work_all
work_all-Reach mmu [] d reach = reach
work_all-Reach mmu (Work.ask r ∷ works) d reach =
    work_all-Reach mmu works (serve mmu r d).0 (serve-Reach mmu r d reach)
work_all-Reach mmu (Work.miss m ∷ works) d reach =
    work_all-Reach mmu works (interrupted (missing m) mmu d)
      (interrupted-Reach (missing m) mmu d reach)

-- In a reachable state with no operation and no removal, for a live process, an operation is run in which
-- the device makes requests and misses pages in any order, at most as many as pages can be pinned, and
-- each page that it misses can be looked up. Then every call of the process reports 0; the requests reach
-- it in their order, with numbers that follow each other, and DONE ends the operation, after which each
-- page, task and mm has been put as often as a reference to it was taken. The registers are written
-- exactly as follows: the writes of the start; for each request its acknowledgement, the two results of
-- the process and CMD_CONTINUE; for each miss its acknowledgement, the address that was missed, that of
-- the page of the process and CMD_CONTINUE; and the acknowledgement of DONE.
pub operate_works-AllPut :
    (params : Parameters) (current : Process) (mm : ℕ) (mmu : Mmu) (pages : ℕ → ℕ)
    (works : List Work) (d : Hwgc)
    → Reach d
    → d.op_active ≡ false
    → d.removing ≡ false
    → current.mm ≡ some mm
    → length works ≤ max_pinned
    → AllMapped mmu current.task mm pages works
    → let (d', o) = operate_works params current mmu works d in
      (o.start_ret ≡ pos 0)
      × IsServedFrom d.event_seq (requests_of works) o.served
      × (o.done_ret ≡ pos 0)
      × (is_done o.done ≡ true)
      × (d'.op_active ≡ false)
      × AllPut d'.dma
      × (writes d'.calls ≡ pushed (operation_sent params mmu pages works) (writes d.calls))
unfolding operate_works
operate_works-AllPut params current mm mmu pages works d reach idle present has few mapped =
    let (running, started, same) = start_ioctl-IsRunning params current mm d present idle has in
    let (nr, task, held, sent) = start_ioctl-sent params current mm d present idle has in
    let d1 = (start_ioctl (some params) current d).0 in
    let worked =
      work_all-IsWorked mmu current.task mm pages 0 works d1 (omega (arith, few)) mapped (record {
        running = running;
        task_held = task;
        mm_held = held;
        room = omega (arith, nr);
      }) in
    let d2 = (work_all mmu works d1).0 in
    let (off, kept, ret, out) = complete-finish mmu d2 worked.running in
    let at_end =
      complete-Reach mmu d2
        (work_all-Reach mmu works d1 (later reach (start (some params) current))) in
    (
      started,
      subst (λ seq. IsServedFrom seq (requests_of works) (work_all mmu works d1).1) same
          worked.served,
      ret,
      rw out refl,
      off,
      Reach-AllPut at_end off,
      complete-sent mmu d2 worked.running
          ∙ ap (λ log. Call.write32 reg_irq_clear irq_done ∷ log)
              (worked.sent ∙ ap (pushed (works_sent mmu pages works)) sent)
          ∙ sym (operation_sent-pushed params mmu pages works (writes d.calls)),
    )
