-- ===== src/Hwgc/Service/Cycle.antt =====
-- The start, a request and DONE, in a running operation.
use jvm_gc_acclelerator.Common.{
  ℕ, ◌+◌, ◌%◌, ◌^◌, ◌≡◌, refl, subst, arith, true, false, some, List, [], ◌∷◌,
}
use jvm_gc_acclelerator.Common.Int.{pos}
use jvm_gc_acclelerator.Dma.Kernel.{Process, Mmu}
use jvm_gc_acclelerator.Dma.{hold_process_context}
use jvm_gc_acclelerator.Hwgc.Regs.{event_done, irq_done}
use jvm_gc_acclelerator.Hwgc.Types.{Parameters, Hwgc}
use jvm_gc_acclelerator.Hwgc.Events.{
  new_event, publish_sw_event, take_event, finish_operation, clear_event_state, needs_reply,
  is_terminal,
}
use jvm_gc_acclelerator.Hwgc.Params.{emit_all, program_parameters, parameter_writes}
use jvm_gc_acclelerator.Hwgc.Irq.{publish_done}
use jvm_gc_acclelerator.Hwgc.Ioctl.{
  start_ioctl, start_held, start_device, new_operation, wait_event_ioctl, deliver_event,
  reply_event_ioctl, accept_reply, write_reply,
}
use jvm_gc_acclelerator.Hwgc.Channel.Refine.{needs_reply-is_terminal}
use jvm_gc_acclelerator.Hwgc.Service.Raised.{
  IsRunning, request_event, acknowledged, interrupted-request, interrupted-done,
  event_of-needs_reply,
}
use jvm_gc_acclelerator.Hwgc.Service.{
  irq_of, event_of, Request, Served, reply_to, serve, serve_all, complete,
}

pub start_ioctl-IsRunning :
    (p : Parameters) (current : Process) (mm : ℕ) (d : Hwgc)
    → d.removing ≡ false
    → d.op_active ≡ false
    → current.mm ≡ some mm
    → let (d', ret) = start_ioctl (some p) current d in
      IsRunning d' × (ret ≡ pos 0) × (d'.event_seq ≡ d.event_seq)
unfolding start_ioctl hold_process_context start_held start_device program_parameters
    parameter_writes emit_all new_operation clear_event_state
start_ioctl-IsRunning p current mm d present idle has = ground arith

-- The process gets a published request, and replies.
cycle-IsRunning :
    (type par0 par1 : ℕ) (r : Request) (d : Hwgc)
    → needs_reply type ≡ true
    → IsRunning d
    → let waited = wait_event_ioctl (pos 0) true (publish_sw_event type par0 par1 d).0 in
      let replied = reply_event_ioctl (reply_to r waited.2) waited.0 in
      IsRunning replied.0
      × (waited.2 ≡ some (new_event type par0 par1 ((d.event_seq + 1) % 2 ^ 64)))
      × (waited.1 ≡ pos 0)
      × (replied.1 ≡ pos 0)
      × (replied.0.event_seq ≡ (d.event_seq + 1) % 2 ^ 64)
unfolding publish_sw_event wait_event_ioctl take_event deliver_event reply_event_ioctl accept_reply
    write_reply
cycle-IsRunning type par0 par1 r d wants h = ground (
  arith,
  needs_reply-is_terminal type wants,
  h.present,
  h.not_pending,
  h.not_in_service,
  h.active,
  h.no_irq,
)

pub acknowledged-IsRunning : (irq : ℕ) (d : Hwgc) → IsRunning d → IsRunning (acknowledged irq d)
acknowledged-IsRunning irq d h = record {
  active = h.active;
  present = h.present;
  not_pending = h.not_pending;
  not_in_service = h.not_in_service;
  no_irq = refl;
}

-- One request: the process gets it under the next number, and the operation goes on.
pub record IsServed (r : Request) (seq : ℕ) (d' : Hwgc) (s : Served) : Type 0 where
  pub running : IsRunning d'
  pub event : s.event ≡ some (request_event r seq)
  pub waited : s.wait_ret ≡ pos 0
  pub replied : s.reply_ret ≡ pos 0
  pub issued : d'.event_seq ≡ seq

abbrev pub next_seq : ℕ → ℕ
next_seq seq = (seq + 1) % 2 ^ 64

pub serve-IsServed :
    (mmu : Mmu) (r : Request) (d : Hwgc)
    → IsRunning d
    → IsServed r (next_seq d.event_seq) (serve mmu r d).0 (serve mmu r d).1
unfolding serve
serve-IsServed mmu r d h =
    let (running, event, waited, replied, issued) =
      cycle-IsRunning (event_of r.kind) r.par0 r.par1 r (acknowledged (irq_of r.kind) d)
        (event_of-needs_reply r.kind) (acknowledged-IsRunning (irq_of r.kind) d h) in
    rw (interrupted-request mmu r.kind r.par0 r.par1 d h) (record {
      running = running;
      event = event;
      waited = waited;
      replied = replied;
      issued = issued;
    })

-- Each served request, in order, with numbers from `seq` on.
abbrev pub IsServedFrom : ℕ → List Request → List Served → Type 0
IsServedFrom seq [] [] = Unit
IsServedFrom seq (r ∷ rs) (s ∷ ss) =
    (s.event ≡ some (request_event r (next_seq seq)))
    × (s.wait_ret ≡ pos 0)
    × (s.reply_ret ≡ pos 0)
    × IsServedFrom (next_seq seq) rs ss
IsServedFrom seq _ _ = ⊥

pub serve_all-IsServedFrom :
    (mmu : Mmu) (rs : List Request) (d : Hwgc)
    → IsRunning d
    → IsRunning (serve_all mmu rs d).0 × IsServedFrom d.event_seq rs (serve_all mmu rs d).1
unfolding serve_all
serve_all-IsServedFrom mmu [] d h = (h, tt)
serve_all-IsServedFrom mmu (r ∷ rs) d h =
    let one = serve-IsServed mmu r d h in
    let (running, rest) = serve_all-IsServedFrom mmu rs (serve mmu r d).0 one.running in
    (
      running,
      (
        one.event,
        one.waited,
        one.replied,
        subst (λ seq. IsServedFrom seq rs (serve_all mmu rs (serve mmu r d).0).1) one.issued rest,
      ),
    )

done-finish :
    (d : Hwgc)
    → IsRunning d
    → let (d', ret, out) = wait_event_ioctl (pos 0) true (publish_done d).0 in
      (d'.op_active ≡ false)
      × (d'.removing ≡ false)
      × (ret ≡ pos 0)
      × (out ≡ some (new_event event_done 0 0 (next_seq d.event_seq)))
unfolding publish_done publish_sw_event wait_event_ioctl take_event deliver_event finish_operation
    clear_event_state needs_reply is_terminal
done-finish d h = ground (arith, h.present, h.not_pending, h.not_in_service, h.active)

-- DONE ends the operation.
pub complete-finish :
    (mmu : Mmu) (d : Hwgc)
    → IsRunning d
    → let (d', ret, out) = complete mmu d in
      (d'.op_active ≡ false)
      × (d'.removing ≡ false)
      × (ret ≡ pos 0)
      × (out ≡ some (new_event event_done 0 0 (next_seq d.event_seq)))
unfolding complete
complete-finish mmu d h =
    rw (interrupted-done mmu d h)
      (done-finish (acknowledged irq_done d) (acknowledged-IsRunning irq_done d h))
