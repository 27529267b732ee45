-- ===== src/Hwgc/Service/Ends.antt =====
-- A whole operation: its end, and what is left behind.
use jvm_gc_acclelerator.Common.{
  ℕ, ◌≡◌, refl, Bool, true, false, Option, none, some, List, [], ◌∷◌, if_keeps, subst, ◌==◌,
}
use jvm_gc_acclelerator.Common.Int.{pos}
use jvm_gc_acclelerator.Dma.Kernel.{Process, Device, Mmu}
use jvm_gc_acclelerator.Dma.Ownership.{AllPut}
use jvm_gc_acclelerator.Hwgc.Regs.{irq_done, event_done}
use jvm_gc_acclelerator.Hwgc.Types.{Parameters, Event, Hwgc}
use jvm_gc_acclelerator.Hwgc.Events.{Taken, is_terminal, take_event, finish_operation}
use jvm_gc_acclelerator.Hwgc.Ioctl.{start_ioctl, wait_event_ioctl, deliver_event}
use jvm_gc_acclelerator.Hwgc.Invariant.Reach.{
  Reach, later, interrupt, thread, start, take, finish, reply, Reach-AllPut,
}
use jvm_gc_acclelerator.Hwgc.Service.{
  Request, raising, irq_of, interrupted, reply_to, serve, serve_all, complete, operate,
}
use jvm_gc_acclelerator.Hwgc.Service.Cycle.{
  IsServedFrom, start_ioctl-IsRunning, serve_all-IsServedFrom, complete-finish,
}

abbrev pub is_done : Option Event → Bool
is_done none = false
is_done (some ev) = ev.type == event_done

pub interrupted-Reach :
    (dev : Device) (mmu : Mmu) (d : Hwgc) → Reach d → Reach (interrupted dev mmu d)
unfolding interrupted
interrupted-Reach dev mmu d r = later (later r (interrupt dev)) (thread dev mmu)

deliver_event-Reach : (t : Hwgc × Taken) → Reach t.0 → Reach (deliver_event true t).0
unfolding deliver_event
deliver_event-Reach (d, Taken.refused ret) r = r
deliver_event-Reach (d, Taken.taken ev) r =
    if_keeps Reach (is_terminal ev.type) (finish_operation d) d (later r finish) r

wait_event_ioctl-Reach : (d : Hwgc) → Reach d → Reach (wait_event_ioctl (pos 0) true d).0
unfolding wait_event_ioctl
wait_event_ioctl-Reach d r = deliver_event-Reach (take_event d) (later r take)

pub serve-Reach : (mmu : Mmu) (r : Request) (d : Hwgc) → Reach d → Reach (serve mmu r d).0
unfolding serve
serve-Reach mmu r d reach =
    let raised = interrupted (raising (irq_of r.kind) r.par0 r.par1) mmu d in
    let waited =
      wait_event_ioctl-Reach raised
        (interrupted-Reach (raising (irq_of r.kind) r.par0 r.par1) mmu d reach) in
    later waited (reply (reply_to r (wait_event_ioctl (pos 0) true raised).2))

serve_all-Reach :
    (mmu : Mmu) (rs : List Request) (d : Hwgc) → Reach d → Reach (serve_all mmu rs d).0
unfolding serve_all
serve_all-Reach mmu [] d reach = reach
serve_all-Reach mmu (r ∷ rs) d reach =
    serve_all-Reach mmu rs (serve mmu r d).0 (serve-Reach mmu r d reach)

pub complete-Reach : (mmu : Mmu) (d : Hwgc) → Reach d → Reach (complete mmu d).0
unfolding complete
complete-Reach mmu d reach =
    wait_event_ioctl-Reach _ (interrupted-Reach (raising irq_done 0 0) mmu d reach)

-- In a reachable state with no operation and no removal, and for a process with an mm, an operation
-- with any list of requests is started, each request reaches the process in order and is replied to,
-- and DONE ends it: every call reports 0, the numbers of the requests follow each other, the last
-- event is DONE, and afterwards no operation runs, none is removed, and each page, task and mm has
-- been put as often as a reference to it was taken.
operate-AllPut :
    (params : Parameters) (current : Process) (mm : ℕ) (mmu : Mmu) (rs : List Request) (d : Hwgc)
    → Reach d
    → d.op_active ≡ false
    → d.removing ≡ false
    → current.mm ≡ some mm
    → let (d', o) = operate params current mmu rs d in
      (o.start_ret ≡ pos 0)
      × IsServedFrom d.event_seq rs o.served
      × (o.done_ret ≡ pos 0)
      × (is_done o.done ≡ true)
      × (d'.op_active ≡ false)
      × (d'.removing ≡ false)
      × AllPut d'.dma
unfolding operate
operate-AllPut params current mm mmu rs d reach idle present has =
    let (running, started, same) = start_ioctl-IsRunning params current mm d present idle has in
    let d1 = (start_ioctl (some params) current d).0 in
    let (still, served) = serve_all-IsServedFrom mmu rs d1 running in
    let d2 = (serve_all mmu rs d1).0 in
    let (off, kept, ret, out) = complete-finish mmu d2 still in
    let at_end =
      complete-Reach mmu d2
        (serve_all-Reach mmu rs d1 (later reach (start (some params) current))) in
    (
      started,
      subst (λ seq. IsServedFrom seq rs (serve_all mmu rs d1).1) same served,
      ret,
      rw out refl,
      off,
      kept,
      Reach-AllPut at_end off,
    )
