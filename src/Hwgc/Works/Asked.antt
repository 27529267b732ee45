-- ===== src/Hwgc/Works/Asked.antt =====
-- The start, a request and DONE: what stays pinned, and what the device is sent.
use jvm_gc_acclelerator.Common.{ℕ, ◌≡◌, arith, true, false, some, List, ◌∷◌}
use jvm_gc_acclelerator.Common.Int.{pos}
use jvm_gc_acclelerator.Dma.Kernel.{Process, Mmu, Call}
use jvm_gc_acclelerator.Dma.Answer.{writes}
use jvm_gc_acclelerator.Dma.Missed.{pushed, released-writes}
use jvm_gc_acclelerator.Dma.{hold_process_context}
use jvm_gc_acclelerator.Hwgc.Regs.{
  reg_cmd, cmd_continue, reg_irq_res0, reg_irq_res1, irq_done, reg_irq_clear,
}
use jvm_gc_acclelerator.Hwgc.Types.{Parameters, Hwgc, emit}
use jvm_gc_acclelerator.Hwgc.Events.{
  publish_sw_event, take_event, finish_operation, clear_event_state, needs_reply, is_terminal,
}
use jvm_gc_acclelerator.Hwgc.Params.{emit_all, program_parameters, parameter_writes}
use jvm_gc_acclelerator.Hwgc.Irq.{publish_done}
use jvm_gc_acclelerator.Hwgc.Ioctl.{
  start_ioctl, start_held, start_device, new_operation, wait_event_ioctl, deliver_event,
  reply_event_ioctl, accept_reply, write_reply,
}
use jvm_gc_acclelerator.Hwgc.Channel.Refine.{needs_reply-is_terminal}
use jvm_gc_acclelerator.Hwgc.Service.Raised.{
  IsRunning, acknowledged, interrupted-request, interrupted-done, event_of-needs_reply,
}
use jvm_gc_acclelerator.Hwgc.Service.Cycle.{acknowledged-IsRunning}
use jvm_gc_acclelerator.Hwgc.Service.{irq_of, event_of, Request, reply_to, serve, complete}
use jvm_gc_acclelerator.Hwgc.Works.{Work, work_sent, start_sent}

-- The operation holds what it held, and the device is sent some writes.
pub record IsHeld (sent : List Call) (d d' : Hwgc) : Type 0 where
  pub nr : d'.nr_pinned ≡ d.nr_pinned
  pub task : d'.active_task ≡ d.active_task
  pub mm : d'.active_mm ≡ d.active_mm
  pub writes_sent : writes d'.calls ≡ pushed sent (writes d.calls)

cycle-IsHeld :
    (type par0 par1 : ℕ) (r : Request) (d : Hwgc)
    → needs_reply type ≡ true
    → IsRunning d
    → let waited = wait_event_ioctl (pos 0) true (publish_sw_event type par0 par1 d).0 in
      let replied = (reply_event_ioctl (reply_to r waited.2) waited.0).0 in
      (replied.nr_pinned ≡ d.nr_pinned)
      × (replied.active_task ≡ d.active_task)
      × (replied.active_mm ≡ d.active_mm)
      × (writes replied.calls
          ≡ Call.write32 reg_cmd cmd_continue
            ∷ Call.write64 reg_irq_res1 r.res1
            ∷ Call.write64 reg_irq_res0 r.res0
            ∷ writes d.calls)
unfolding publish_sw_event wait_event_ioctl take_event deliver_event reply_event_ioctl accept_reply
    write_reply
cycle-IsHeld type par0 par1 r d wants h =
    ground (arith, needs_reply-is_terminal type wants, h.present, h.not_pending, h.not_in_service)

pub serve-IsHeld :
    (mmu : Mmu) (pages : ℕ → ℕ) (r : Request) (d : Hwgc)
    → IsRunning d
    → IsHeld (work_sent mmu pages (Work.ask r)) d (serve mmu r d).0
unfolding serve
serve-IsHeld mmu pages r d h =
    let (nr, task, mm, sent) =
      cycle-IsHeld (event_of r.kind) r.par0 r.par1 r (acknowledged (irq_of r.kind) d)
        (event_of-needs_reply r.kind) (acknowledged-IsRunning (irq_of r.kind) d h) in
    rw (interrupted-request mmu r.kind r.par0 r.par1 d h)
      (record { nr = nr; task = task; mm = mm; writes_sent = sent })

-- The start takes the process, and sends its writes.
pub start_ioctl-sent :
    (p : Parameters) (current : Process) (mm : ℕ) (d : Hwgc)
    → d.removing ≡ false
    → d.op_active ≡ false
    → current.mm ≡ some mm
    → let d' = (start_ioctl (some p) current d).0 in
      (d'.nr_pinned ≡ 0)
      × (d'.active_task ≡ some current.task)
      × (d'.active_mm ≡ some mm)
      × (writes d'.calls ≡ pushed (start_sent p) (writes d.calls))
unfolding start_ioctl hold_process_context start_held start_device program_parameters
    parameter_writes emit_all new_operation clear_event_state
start_ioctl-sent p current mm d present idle has = ground arith

done-sent :
    (d : Hwgc)
    → IsRunning d
    → writes (wait_event_ioctl (pos 0) true (publish_done d).0).0.calls ≡ writes d.calls
unfolding publish_done publish_sw_event wait_event_ioctl take_event deliver_event finish_operation
    clear_event_state needs_reply is_terminal
done-sent d h = ground (
  arith,
  h.present,
  h.not_pending,
  h.not_in_service,
  h.active,
  released-writes (emit Call.synchronize_irq (take_event (publish_done d).0).0).dma,
)

pub complete-sent :
    (mmu : Mmu) (d : Hwgc)
    → IsRunning d
    → writes (complete mmu d).0.calls ≡ Call.write32 reg_irq_clear irq_done ∷ writes d.calls
unfolding complete
complete-sent mmu d h =
    rw (interrupted-done mmu d h)
      (done-sent (acknowledged irq_done d) (acknowledged-IsRunning irq_done d h))
