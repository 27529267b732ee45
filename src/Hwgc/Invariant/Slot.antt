-- ===== src/Hwgc/Invariant/Slot.antt =====
-- The event slot in each critical section.
use jvm_gc_acclelerator.Common.{
  ℕ, ◌≡◌, refl, arith, Bool, true, false, Option, none, some, if_keeps, List, [], ◌∷◌, ◌||◌,
}
use jvm_gc_acclelerator.Common.Int.{ℤ, pos}
use jvm_gc_acclelerator.Dma.Kernel.{DmaContext, Process, Device, Mmu, Call}
use jvm_gc_acclelerator.Dma.{hold_process_context}
use jvm_gc_acclelerator.Hwgc.Regs.{
  event_done, event_grow, event_expand, event_allocate, event_wake, event_error,
}
use jvm_gc_acclelerator.Hwgc.Types.{Parameters, Event, Hwgc, emit}
use jvm_gc_acclelerator.Hwgc.Events.{
  needs_reply, is_terminal, publish_sw_event, abort_operation_from_irq, take_event, restore_event,
  finish_operation,
}
use jvm_gc_acclelerator.Hwgc.Params.{emit_all, program_parameters, parameter_writes}
use jvm_gc_acclelerator.Hwgc.Irq.{irq_top, irq_thread, fill_miss, publish_done, publish_request}
use jvm_gc_acclelerator.Hwgc.Irq.Keeps.{KeptByBlocks, handle_pending-keeps}
use jvm_gc_acclelerator.Hwgc.Ioctl.{start_ioctl, start_held, start_device, reply_event_ioctl}
use jvm_gc_acclelerator.Hwgc.Remove.{announce_removal, stop_device}
use jvm_gc_acclelerator.Hwgc.Invariant.Defs.{SlotInv}

publish_sw_event-SlotInv :
    (type par0 par1 : ℕ) (d : Hwgc)
    → (needs_reply type || is_terminal type) ≡ true
    → SlotInv d
    → SlotInv (publish_sw_event type par0 par1 d).0
unfolding publish_sw_event
publish_sw_event-SlotInv type par0 par1 d known inv = ground arith

pub take_event-SlotInv : (d : Hwgc) → SlotInv d → SlotInv (take_event d).0
unfolding take_event
take_event-SlotInv d inv = ground arith

pub restore_event-SlotInv :
    (ev : Event) (d : Hwgc)
    → (needs_reply ev.type || is_terminal ev.type) ≡ true
    → SlotInv d
    → SlotInv (restore_event ev d)
unfolding restore_event
restore_event-SlotInv ev d known inv = ground arith

pub reply_event_ioctl-SlotInv :
    (reply : Option Event) (d : Hwgc) → SlotInv d → SlotInv (reply_event_ioctl reply d).0
unfolding reply_event_ioctl
reply_event_ioctl-SlotInv reply d inv = ground arith

pub finish_operation-SlotInv : (d : Hwgc) → SlotInv d → SlotInv (finish_operation d)
unfolding finish_operation
finish_operation-SlotInv d inv = ground arith

pub irq_top-SlotInv : (dev : Device) (d : Hwgc) → SlotInv d → SlotInv (irq_top dev d).0
unfolding irq_top
irq_top-SlotInv dev d inv = ground arith

pub announce_removal-SlotInv : (d : Hwgc) → SlotInv (announce_removal d)
unfolding announce_removal
announce_removal-SlotInv d = ground arith

pub stop_device-SlotInv : (d : Hwgc) → SlotInv d → SlotInv (stop_device d)
unfolding stop_device
stop_device-SlotInv d inv = ground arith

emit-SlotInv : (call : Call) (d : Hwgc) → SlotInv d → SlotInv (emit call d)
emit-SlotInv call d inv = ground arith

status-SlotInv : (status : ℤ) (d : Hwgc) → SlotInv d → SlotInv (record d { op_status = status })
status-SlotInv status d inv = ground arith

emit_all-SlotInv : (calls : List Call) (d : Hwgc) → SlotInv d → SlotInv (emit_all calls d)
unfolding emit_all
emit_all-SlotInv [] d inv = inv
emit_all-SlotInv (call ∷ calls) d inv =
    emit_all-SlotInv calls (emit call d) (emit-SlotInv call d inv)

start_device-SlotInv : (p : Parameters) (d : Hwgc) → SlotInv d → SlotInv (start_device p d)
unfolding start_device program_parameters
start_device-SlotInv p d inv = emit-SlotInv _ _ (
    emit_all-SlotInv (parameter_writes p) _
      (emit-SlotInv _ _ (emit-SlotInv _ _ (emit-SlotInv _ d inv))))

start_held-SlotInv :
    (p : Parameters) (d : Hwgc) (held : DmaContext × Bool)
    → SlotInv d
    → SlotInv (start_held p d held).0
unfolding start_held
start_held-SlotInv p d (dma, false) inv = ground arith
start_held-SlotInv p d (dma, true) inv = start_device-SlotInv p _ (ground arith)

pub start_ioctl-SlotInv :
    (params : Option Parameters) (current : Process) (d : Hwgc)
    → SlotInv d
    → SlotInv (start_ioctl params current d).0
unfolding start_ioctl
start_ioctl-SlotInv none current d inv = inv
start_ioctl-SlotInv (some p) current d inv = if_keeps kept d.removing _ _ inv (
    if_keeps kept d.op_active _ _ inv
      (start_held-SlotInv p d (hold_process_context current d.dma) inv))
  where
    kept : Hwgc × ℤ → Type 0
    kept r = SlotInv r.0

-- The types that the driver publishes are known.
known_types :
    ((needs_reply event_grow || is_terminal event_grow) ≡ true)
    × ((needs_reply event_expand || is_terminal event_expand) ≡ true)
    × ((needs_reply event_allocate || is_terminal event_allocate) ≡ true)
    × ((needs_reply event_wake || is_terminal event_wake) ≡ true)
    × ((needs_reply event_done || is_terminal event_done) ≡ true)
    × ((needs_reply event_error || is_terminal event_error) ≡ true)
unfolding needs_reply is_terminal
known_types = (refl, refl, refl, refl, refl, refl)

pub blocks-SlotInv : (dev : Device) (mmu : Mmu) → KeptByBlocks SlotInv dev mmu
unfolding fill_miss publish_done publish_request abort_operation_from_irq
blocks-SlotInv dev mmu = record {
  fill = λ d inv. ground arith;
  done = λ d inv.
      publish_sw_event-SlotInv event_done 0 0 _ known_types.4 (status-SlotInv (pos 0) d inv);
  grow = λ d inv. publish_sw_event-SlotInv event_grow _ _ d known_types.0 inv;
  expand = λ d inv. publish_sw_event-SlotInv event_expand _ _ d known_types.1 inv;
  allocate = λ d inv. publish_sw_event-SlotInv event_allocate _ _ d known_types.2 inv;
  wake = λ d inv. publish_sw_event-SlotInv event_wake _ _ d known_types.3 inv;
  abort = λ status d inv.
      publish_sw_event-SlotInv event_error _ _ _ known_types.5
        (emit-SlotInv _ _ (status-SlotInv status d inv));
}

pub irq_thread-SlotInv :
    (dev : Device) (mmu : Mmu) (d : Hwgc) → SlotInv d → SlotInv (irq_thread dev mmu d).0
unfolding irq_thread
irq_thread-SlotInv dev mmu d inv =
    handle_pending-keeps SlotInv dev mmu d.pending_irq _ (blocks-SlotInv dev mmu) (ground arith)
