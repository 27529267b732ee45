-- ===== src/Hwgc/Invariant/Held.antt =====
-- The balance of the references in each critical section.
use mathlib.Core.Path.{subst}
use jvm_gc_acclelerator.Common.{
  ℕ, ◌≡◌, refl, arith, Bool, true, false, not, Option, none, some, if_keeps, List, [], ◌∷◌, ◌||◌,
  is_some, if◌then◌else◌, ◌==◌,
}
use jvm_gc_acclelerator.Common.Int.{ℤ, pos, is_nonzero, to_bits64}
use jvm_gc_acclelerator.Common.Errno.{ebusy}
use jvm_gc_acclelerator.Dma.Kernel.{DmaContext, Process, Device, Mmu, Call, log}
use jvm_gc_acclelerator.Dma.{hold_process_context, unpin_all, release_process_context}
use jvm_gc_acclelerator.Dma.Ownership.Defs.{Owns}
use jvm_gc_acclelerator.Dma.Ownership.{
  IsEmpty, IsNeutral, log-Holding, fill_tlb_for_miss-Owns, fill_tlb_for_miss-no_task,
  release_all-Owns, hold_process_context-Owns,
}
use jvm_gc_acclelerator.Hwgc.Regs.{
  hwgc_port, max_pinned, event_error, reg_cmd, cmd_reset, reg_irq_res0, reg_irq_res1, reg_irq_clear,
  irq_all, st_irq_en, reg_status,
}
use jvm_gc_acclelerator.Hwgc.Types.{Parameters, Event, Hwgc, emit, reg_write32}
use jvm_gc_acclelerator.Hwgc.Events.{
  publish_sw_event, abort_operation_from_irq, take_event, restore_event, finish_operation,
  clear_event_state, needs_reply,
}
use jvm_gc_acclelerator.Hwgc.Params.{emit_all, program_parameters, parameter_writes}
use jvm_gc_acclelerator.Hwgc.Irq.{irq_top, irq_thread, fill_miss, publish_done, publish_request}
use jvm_gc_acclelerator.Hwgc.Irq.Keeps.{KeptByBlocks, handle_pending-keeps}
use jvm_gc_acclelerator.Hwgc.Ioctl.{
  new_operation, start_ioctl, start_held, start_device, reply_event_ioctl, accept_reply,
  write_reply,
}
use jvm_gc_acclelerator.Hwgc.Remove.{announce_removal, stop_device}
use jvm_gc_acclelerator.Hwgc.Invariant.Defs.{HeldAt, HeldInv}

abbrev Kept : {A : Type 0} → Hwgc × A → Type 0
Kept r = HeldInv r.0

abbrev All {ℓ κ} : {A : Type ℓ} → (A → Type κ) → List A → Type κ
All P [] = Unit
All P (x ∷ xs) = P x × All P xs

log-HeldAt :
    {active : Bool} {c : DmaContext} (call : Call)
    → IsNeutral call
    → HeldAt active c
    → HeldAt active (log call c)
log-HeldAt call neutral h = record {
  owns = log-Holding call neutral h.owns;
  idle_empty = λ off. ground (arith, h.idle_empty off);
}

wake_up-HeldAt :
    {active : Bool} {c : DmaContext} → HeldAt active c → HeldAt active (log Call.wake_up c)
wake_up-HeldAt = log-HeldAt Call.wake_up (λ p. ground arith)

write32-HeldAt :
    {active : Bool} {c : DmaContext} (off val : ℕ)
    → HeldAt active c
    → HeldAt active (log (Call.write32 off val) c)
write32-HeldAt off val = log-HeldAt (Call.write32 off val) (λ p. ground arith)

write64-IsNeutral : (off val : ℕ) → IsNeutral (Call.write64 off val)
write64-IsNeutral off val p = ground arith

publish_sw_event-HeldInv :
    (type par0 par1 : ℕ) (d : Hwgc) → HeldInv d → HeldInv (publish_sw_event type par0 par1 d).0
unfolding publish_sw_event
publish_sw_event-HeldInv type par0 par1 d h =
    if_keeps (Kept {A = ℤ}) d.removing _ _ h
      (if_keeps (Kept {A = ℤ}) (d.event_pending || d.event_in_service) _ _ h (wake_up-HeldAt h))

abort_operation_from_irq-HeldInv :
    (status : ℤ) (d : Hwgc) → HeldInv d → HeldInv (abort_operation_from_irq status d)
unfolding abort_operation_from_irq
abort_operation_from_irq-HeldInv status d h =
    publish_sw_event-HeldInv event_error (to_bits64 status) 0
      (reg_write32 (record d { op_status = status }) cmd_reset reg_cmd)
      (write32-HeldAt reg_cmd cmd_reset h)

fill_miss-HeldInv :
    (dev : Device) (mmu : Mmu) (d : Hwgc) → HeldInv d → HeldInv (fill_miss dev mmu d).0
unfolding fill_miss
fill_miss-HeldInv dev mmu d h = record {
  owns = (fill_tlb_for_miss-Owns hwgc_port mmu dev d.dma h.owns).0;
  idle_empty = λ off.
      let e = h.idle_empty off in
      rw (fill_tlb_for_miss-no_task hwgc_port dev mmu d.dma e.no_task) e;
}

pub irq_top-HeldInv : (dev : Device) (d : Hwgc) → HeldInv d → HeldInv (irq_top dev d).0
unfolding irq_top
irq_top-HeldInv dev d h = if_keeps Kept (dev.read32 _ == 0) _ _ h (write32-HeldAt _ _ h)

pub blocks-HeldInv : (dev : Device) (mmu : Mmu) → KeptByBlocks HeldInv dev mmu
unfolding publish_done publish_request
blocks-HeldInv dev mmu = record {
  fill = fill_miss-HeldInv dev mmu;
  done = λ d k. publish_sw_event-HeldInv _ _ _ (record d { op_status = pos 0 }) k;
  grow = publish_sw_event-HeldInv _ _ _;
  expand = publish_sw_event-HeldInv _ _ _;
  allocate = publish_sw_event-HeldInv _ _ _;
  wake = publish_sw_event-HeldInv _ _ _;
  abort = abort_operation_from_irq-HeldInv;
}

pub irq_thread-HeldInv :
    (dev : Device) (mmu : Mmu) (d : Hwgc) → HeldInv d → HeldInv (irq_thread dev mmu d).0
unfolding irq_thread
irq_thread-HeldInv dev mmu d h =
    handle_pending-keeps HeldInv dev mmu d.pending_irq (record d { pending_irq = 0 })
      (blocks-HeldInv dev mmu) h

pub take_event-HeldInv : (d : Hwgc) → HeldInv d → HeldInv (take_event d).0
unfolding take_event
take_event-HeldInv d h =
    if_keeps Kept d.removing _ _ h (if_keeps Kept (not d.event_pending) _ _ h h)

pub restore_event-HeldInv : (ev : Event) (d : Hwgc) → HeldInv d → HeldInv (restore_event ev d)
unfolding restore_event
restore_event-HeldInv ev d h = wake_up-HeldAt (if_keeps HeldInv (not d.removing) _ d h h)

-- With the operation inactive the device structure is empty.
released-HeldAt :
    (active : Bool) (c : DmaContext)
    → Owns max_pinned c
    → HeldAt active (release_process_context (unpin_all c))
released-HeldAt active c h =
    let (owns, empty) = release_all-Owns c h in record { owns = owns; idle_empty = λ _. empty }

pub finish_operation-HeldInv : (d : Hwgc) → HeldInv d → HeldInv (finish_operation d)
unfolding finish_operation clear_event_state
finish_operation-HeldInv d h = if_keeps HeldInv (not d.op_active) d _ h (
    wake_up-HeldAt (
      released-HeldAt false (log Call.synchronize_irq d.dma)
        (log-Holding _ (λ p. ground arith) h.owns)))

pub announce_removal-HeldInv : (d : Hwgc) → HeldInv d → HeldInv (announce_removal d)
unfolding announce_removal clear_event_state
announce_removal-HeldInv d h = wake_up-HeldAt h

pub stop_device-HeldInv : (d : Hwgc) → HeldInv d → HeldInv (stop_device d)
unfolding stop_device
stop_device-HeldInv d h =
    let reset = if_keeps HeldInv (is_some d.bar0) _ d (write32-HeldAt _ _ h) h in
    released-HeldAt false _ (log-Holding Call.synchronize_irq (λ p. ground arith) reset.owns)

accept_reply-HeldInv : (ev : Event) (d : Hwgc) → HeldInv d → HeldInv (accept_reply ev d).0
unfolding accept_reply
accept_reply-HeldInv ev d h = if_keeps Kept d.removing _ _ h (
    if_keeps Kept (not d.event_in_service) _ _ h (
      if_keeps Kept (not (ev.seq == d.current_event.seq) || not (ev.type == d.current_event.type)) _
        _ h h))

write_reply-HeldInv : (ev : Event) (r : Hwgc × ℤ) → HeldInv r.0 → HeldInv (write_reply ev r).0
unfolding write_reply
write_reply-HeldInv ev (d, ret) h = if_keeps Kept (is_nonzero ret) _ _ h (
    write32-HeldAt _ _ (
      log-HeldAt _ (write64-IsNeutral reg_irq_res1 ev.res1)
        (log-HeldAt _ (write64-IsNeutral reg_irq_res0 ev.res0) h)))

pub reply_event_ioctl-HeldInv :
    (reply : Option Event) (d : Hwgc) → HeldInv d → HeldInv (reply_event_ioctl reply d).0
unfolding reply_event_ioctl
reply_event_ioctl-HeldInv none d h = h
reply_event_ioctl-HeldInv (some ev) d h =
    if_keeps Kept (not (needs_reply ev.type)) _ _ h
      (write_reply-HeldInv ev (accept_reply ev d) (accept_reply-HeldInv ev d h))

-- The writes of the parameters move no reference.
emit_all-HeldInv :
    (calls : List Call) (d : Hwgc) → All IsNeutral calls → HeldInv d → HeldInv (emit_all calls d)
unfolding emit_all
emit_all-HeldInv [] d neutral h = h
emit_all-HeldInv (call ∷ calls) d neutral h =
    emit_all-HeldInv calls (emit call d) neutral.1 (log-HeldAt call neutral.0 h)

parameter_writes-IsNeutral : (p : Parameters) → All IsNeutral (parameter_writes p)
unfolding parameter_writes
parameter_writes-IsNeutral p = assumption write64-IsNeutral

start_device-HeldInv : (p : Parameters) (d : Hwgc) → HeldInv d → HeldInv (start_device p d)
unfolding start_device program_parameters
start_device-HeldInv p d h =
    let reset = reg_write32 d cmd_reset reg_cmd in
    let enabled = reg_write32 (reg_write32 reset irq_all reg_irq_clear) st_irq_en reg_status in
    write32-HeldAt _ _ (
      emit_all-HeldInv (parameter_writes p) enabled (parameter_writes-IsNeutral p)
        (write32-HeldAt _ _ (write32-HeldAt _ _ (write32-HeldAt _ _ h))))

start_held-HeldInv :
    (p : Parameters) (d : Hwgc) (held : DmaContext × Bool)
    → Owns max_pinned held.0
    → held.0.nr_pinned ≡ 0
    → (held.1 ≡ false → IsEmpty held.0)
    → HeldInv (start_held p d held).0
unfolding start_held
start_held-HeldInv p d (dma, false) owns nr empty = record {
  owns = owns;
  idle_empty = λ _. empty refl;
}
start_held-HeldInv p d (dma, true) owns nr empty =
    let fresh : Owns max_pinned (record dma { nr_pinned = 0 }) =
      subst (λ (n : ℕ). Owns max_pinned (record dma { nr_pinned = n })) nr owns in
    start_device-HeldInv p (new_operation d dma) (record { owns = fresh; idle_empty = λ off. cc })

start_free-HeldInv :
    (p : Parameters) (current : Process) (d : Hwgc) (active : Bool)
    → HeldInv d
    → d.op_active ≡ active
    → HeldInv (if active then (d, ebusy) else start_held p d (hold_process_context current d.dma)).0
start_free-HeldInv p current d true h e = h
start_free-HeldInv p current d false h free =
    let held = hold_process_context-Owns current d.dma h.owns (h.idle_empty free) in
    start_held-HeldInv p d (hold_process_context current d.dma) held.0 held.1
      (λ failed. held.3 (ground (arith, held.2)))

pub start_ioctl-HeldInv :
    (params : Option Parameters) (current : Process) (d : Hwgc)
    → HeldInv d
    → HeldInv (start_ioctl params current d).0
unfolding start_ioctl
start_ioctl-HeldInv none current d h = h
start_ioctl-HeldInv (some p) current d h =
    if_keeps Kept d.removing _ _ h (start_free-HeldInv p current d d.op_active h refl)
