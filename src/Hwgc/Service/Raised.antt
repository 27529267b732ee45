-- ===== src/Hwgc/Service/Raised.antt =====
-- What the interrupt handler does with one request, or with DONE, in a running operation.
use jvm_gc_acclelerator.Common.{ℕ, ◌≡◌, refl, ◌∙◌, ap, Bool, true, false, ◌==◌, bit_or}
use jvm_gc_acclelerator.Common.Int.{ℤ, pos}
use jvm_gc_acclelerator.Dma.Kernel.{Device, Mmu, Call}
use jvm_gc_acclelerator.Hwgc.Regs.{
  event_done, event_grow, event_expand, event_allocate, event_wake, irq_grow, irq_expand,
  irq_allocate, irq_wake, irq_done, reg_irq_clear, reg_irq_status,
}
use jvm_gc_acclelerator.Hwgc.Types.{Event, Hwgc, emit}
use jvm_gc_acclelerator.Hwgc.Events.{new_event, publish_sw_event, needs_reply}
use jvm_gc_acclelerator.Hwgc.Irq.{
  IrqReturn, irq_top, irq_thread, handle_pending, handle_stage, error_stage, publish_request,
  publish_done,
}
use jvm_gc_acclelerator.Hwgc.Service.{Kind, irq_of, event_of, Request, raising, interrupted}

-- An operation runs, and no event is on its way.
pub record IsRunning (d : Hwgc) : Type 0 where
  pub active : d.op_active ≡ true
  pub present : d.removing ≡ false
  pub not_pending : d.event_pending ≡ false
  pub not_in_service : d.event_in_service ≡ false
  pub no_irq : d.pending_irq ≡ 0

-- The event of a request under a sequence number.
abbrev pub request_event : Request → ℕ → Event
request_event r seq = new_event (event_of r.kind) r.par0 r.par1 seq

-- A block whose interrupt is not raised does nothing.
pub stage_off : (handler : Hwgc → Hwgc × ℤ) (s : Hwgc × Bool) → handle_stage false handler s ≡ s
unfolding handle_stage
stage_off handler (d, false) = refl
stage_off handler (d, true) = refl

pub error_off : (s : Hwgc × Bool) → error_stage false s ≡ s.0
unfolding error_stage
error_off (d, false) = refl
error_off (d, true) = refl

-- A block whose interrupt is raised, and whose call succeeds.
pub stage_on :
    (handler : Hwgc → Hwgc × ℤ) (d : Hwgc)
    → (handler d).1 ≡ pos 0
    → handle_stage true handler (d, true) ≡ ((handler d).0, true)
unfolding handle_stage
stage_on handler d ok = rw ok refl

-- The thread with the interrupt of a request publishes the request, if it can.
handle_pending-request :
    (mmu : Mmu) (k : Kind) (par0 par1 : ℕ) (d : Hwgc)
    → (publish_sw_event (event_of k) par0 par1 d).1 ≡ pos 0
    → handle_pending (raising (irq_of k) par0 par1) mmu (irq_of k) d
      ≡ (publish_sw_event (event_of k) par0 par1 d).0
unfolding handle_pending publish_request
handle_pending-request mmu Kind.grow par0 par1 d ok =
    simp (
      stage_off,
      error_off,
      stage_on (publish_request (raising irq_grow par0 par1) event_grow) d ok,
    )
handle_pending-request mmu Kind.expand par0 par1 d ok = simp (
  stage_off,
  error_off,
  stage_on (publish_request (raising irq_expand par0 par1) event_expand) d ok,
)
handle_pending-request mmu Kind.allocate par0 par1 d ok = simp (
  stage_off,
  error_off,
  stage_on (publish_request (raising irq_allocate par0 par1) event_allocate) d ok,
)
handle_pending-request mmu Kind.wake par0 par1 d ok =
    simp (
      stage_off,
      error_off,
      stage_on (publish_request (raising irq_wake par0 par1) event_wake) d ok,
    )

handle_pending-done :
    (mmu : Mmu) (d : Hwgc)
    → (publish_done d).1 ≡ pos 0
    → handle_pending (raising irq_done 0 0) mmu irq_done d ≡ (publish_done d).0
unfolding handle_pending
handle_pending-done mmu d ok = simp (stage_off, error_off, stage_on publish_done d ok)

-- The structure that the thread works on, after the top half.
abbrev pub acknowledged : ℕ → Hwgc → Hwgc
acknowledged irq d = record (emit (Call.write32 reg_irq_clear irq) d) { pending_irq = 0 }

pub interrupted-thread :
    (dev : Device) (mmu : Mmu) (irq : ℕ) (d : Hwgc)
    → dev.read32 reg_irq_status ≡ irq
    → (irq == 0) ≡ false
    → bit_or 0 irq ≡ irq
    → d.pending_irq ≡ 0
    → interrupted dev mmu d ≡ handle_pending dev mmu irq (acknowledged irq d)
unfolding interrupted irq_top irq_thread
interrupted-thread dev mmu irq d raised some_irq same quiet =
    let top : irq_top dev d ≡ (
      record (emit (Call.write32 reg_irq_clear irq) d) { pending_irq = irq },
      IrqReturn.irq_wake_thread,
    ) =
      rw (raised, quiet, some_irq, same) refl in
    ap (λ (r : Hwgc × IrqReturn). (irq_thread dev mmu r.0).0) top

published :
    (type par0 par1 : ℕ) (d : Hwgc)
    → d.removing ≡ false
    → d.event_pending ≡ false
    → d.event_in_service ≡ false
    → (publish_sw_event type par0 par1 d).1 ≡ pos 0
unfolding publish_sw_event
published type par0 par1 d present free idle = rw (present, free, idle) refl

irq_of-nonzero : (k : Kind) → (irq_of k == 0) ≡ false
irq_of-nonzero Kind.grow = refl
irq_of-nonzero Kind.expand = refl
irq_of-nonzero Kind.allocate = refl
irq_of-nonzero Kind.wake = refl

irq_of-or : (k : Kind) → bit_or 0 (irq_of k) ≡ irq_of k
irq_of-or Kind.grow = refl
irq_of-or Kind.expand = refl
irq_of-or Kind.allocate = refl
irq_of-or Kind.wake = refl

pub event_of-needs_reply : (k : Kind) → needs_reply (event_of k) ≡ true
unfolding needs_reply
event_of-needs_reply Kind.grow = refl
event_of-needs_reply Kind.expand = refl
event_of-needs_reply Kind.allocate = refl
event_of-needs_reply Kind.wake = refl

-- A request is raised in a running operation.
pub interrupted-request :
    (mmu : Mmu) (k : Kind) (par0 par1 : ℕ) (d : Hwgc)
    → IsRunning d
    → interrupted (raising (irq_of k) par0 par1) mmu d
      ≡ (publish_sw_event (event_of k) par0 par1 (acknowledged (irq_of k) d)).0
interrupted-request mmu k par0 par1 d h =
    interrupted-thread (raising (irq_of k) par0 par1) mmu (irq_of k) d refl (irq_of-nonzero k)
      (irq_of-or k) h.no_irq
    ∙ handle_pending-request mmu k par0 par1 (acknowledged (irq_of k) d) (
        published (event_of k) par0 par1 (acknowledged (irq_of k) d) h.present h.not_pending
          h.not_in_service)

-- DONE is raised in a running operation.
pub interrupted-done :
    (mmu : Mmu) (d : Hwgc)
    → IsRunning d
    → interrupted (raising irq_done 0 0) mmu d ≡ (publish_done (acknowledged irq_done d)).0
unfolding publish_done
interrupted-done mmu d h =
    interrupted-thread (raising irq_done 0 0) mmu irq_done d refl refl refl h.no_irq
    ∙ handle_pending-done mmu (acknowledged irq_done d) (
        published event_done 0 0 (record (acknowledged irq_done d) { op_status = pos 0 }) h.present
          h.not_pending h.not_in_service)
