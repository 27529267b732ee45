-- ===== src/Hwgc/Invariant/Steps.antt =====
-- The steps from a given state on, and the identifier of the device.
use jvm_gc_acclelerator.Common.{◌≡◌, refl, arith, ◌∙◌}
use jvm_gc_acclelerator.Common.Int.{ℤ}
use jvm_gc_acclelerator.Dma.Kernel.{Device, Mmu}
use jvm_gc_acclelerator.Hwgc.Types.{Hwgc}
use jvm_gc_acclelerator.Hwgc.Events.{
  take_event, restore_event, finish_operation, publish_sw_event, abort_operation_from_irq,
  clear_event_state,
}
use jvm_gc_acclelerator.Hwgc.Params.{emit_all, program_parameters, parameter_writes}
use jvm_gc_acclelerator.Hwgc.Irq.{irq_top, irq_thread, fill_miss, publish_done, publish_request}
use jvm_gc_acclelerator.Hwgc.Irq.Keeps.{KeptByBlocks, handle_pending-keeps}
use jvm_gc_acclelerator.Hwgc.Ioctl.{
  start_ioctl, start_held, start_device, new_operation, reply_event_ioctl, accept_reply,
  write_reply,
}
use jvm_gc_acclelerator.Hwgc.Remove.{announce_removal, stop_device}
use jvm_gc_acclelerator.Hwgc.Invariant.Reach.{
  Step, interrupt, thread, start, take, restore, finish, reply, announce, stop,
}

-- Any number of critical sections.
pub data Steps (d : Hwgc) : Hwgc → Type 0 where
  here : Steps d d
  next : {d1 d2 : Hwgc} → Steps d d1 → Step d1 d2 → Steps d d2

same_id : (id : ℤ) (dev : Device) (mmu : Mmu) → KeptByBlocks (λ d. d.dev_id ≡ id) dev mmu
unfolding fill_miss publish_done publish_request publish_sw_event abort_operation_from_irq
same_id id dev mmu = record {
  fill = λ d h. ground arith;
  done = λ d h. ground arith;
  grow = λ d h. ground arith;
  expand = λ d h. ground arith;
  allocate = λ d h. ground arith;
  wake = λ d h. ground arith;
  abort = λ status d h. ground arith;
}

Step-dev_id : {d d' : Hwgc} → Step d d' → d'.dev_id ≡ d.dev_id
unfolding irq_top irq_thread start_ioctl start_held start_device program_parameters parameter_writes
    emit_all new_operation clear_event_state take_event restore_event finish_operation
    reply_event_ioctl accept_reply write_reply announce_removal stop_device
Step-dev_id {d} (interrupt dev) = ground arith
Step-dev_id {d} (thread dev mmu) =
    handle_pending-keeps (λ d'. d'.dev_id ≡ d.dev_id) dev mmu d.pending_irq _
      (same_id d.dev_id dev mmu) refl
Step-dev_id {d} (start params current) = ground arith
Step-dev_id {d} take = ground arith
Step-dev_id {d} (restore ev known) = ground arith
Step-dev_id {d} finish = ground arith
Step-dev_id {d} (reply ev) = ground arith
Step-dev_id {d} announce = ground arith
Step-dev_id {d} stop = ground arith

pub Steps-dev_id : {d d' : Hwgc} → Steps d d' → d'.dev_id ≡ d.dev_id
Steps-dev_id here = refl
Steps-dev_id (next steps step) = Step-dev_id step ∙ Steps-dev_id steps
