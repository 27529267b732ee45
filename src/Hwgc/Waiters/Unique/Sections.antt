-- ===== src/Hwgc/Waiters/Unique/Sections.antt =====
-- The numbers that were given out, in the critical sections that give out none.
use jvm_gc_acclelerator.Common.{ℕ, ◌≡◌, ◌+◌, ◌==◌, arith, Option, if◌then◌else◌}
use jvm_gc_acclelerator.Common.Int.{}
use jvm_gc_acclelerator.Dma.Kernel.{Process, Device}
use jvm_gc_acclelerator.Hwgc.Regs.{}
use jvm_gc_acclelerator.Hwgc.Types.{Parameters, Event, Hwgc}
use jvm_gc_acclelerator.Hwgc.Events.{
  Taken, take_event, restore_event, finish_operation, clear_event_state,
}
use jvm_gc_acclelerator.Hwgc.Params.{emit_all, program_parameters, parameter_writes}
use jvm_gc_acclelerator.Hwgc.Irq.{irq_top}
use jvm_gc_acclelerator.Hwgc.Irq.Keeps.{}
use jvm_gc_acclelerator.Hwgc.Ioctl.{
  start_ioctl, start_held, start_device, new_operation, reply_event_ioctl, accept_reply,
  write_reply,
}
use jvm_gc_acclelerator.Hwgc.Invariant.Blocks.{}
use jvm_gc_acclelerator.Hwgc.Remove.{announce_removal, stop_device}
use jvm_gc_acclelerator.Hwgc.Waiters.Unique.{IsUnique, kept-IsUnique}

module _ {bound : ℕ} {elsewhere : ℕ → ℕ} where
  pub irq_top-IsUnique :
      (dev : Device) (d : Hwgc)
      → IsUnique bound elsewhere d
      → IsUnique bound elsewhere (irq_top dev d).0
  unfolding irq_top
  irq_top-IsUnique dev d h =
      kept-IsUnique bound elsewhere d (irq_top dev d).0 (ground arith)
        (λ n. ground (arith, h.one_slot)) (λ on. ground (arith, h.one_slot)) h

  pub start_ioctl-IsUnique :
      (params : Option Parameters) (current : Process) (d : Hwgc)
      → IsUnique bound elsewhere d
      → IsUnique bound elsewhere (start_ioctl params current d).0
  unfolding start_ioctl start_held start_device program_parameters parameter_writes emit_all
      new_operation clear_event_state
  start_ioctl-IsUnique params current d h =
      kept-IsUnique bound elsewhere d (start_ioctl params current d).0 (ground arith)
        (λ n. ground (arith, h.one_slot)) (λ on. ground (arith, h.one_slot)) h

  pub reply_event_ioctl-IsUnique :
      (ev : Option Event) (d : Hwgc)
      → IsUnique bound elsewhere d
      → IsUnique bound elsewhere (reply_event_ioctl ev d).0
  unfolding reply_event_ioctl accept_reply write_reply
  reply_event_ioctl-IsUnique ev d h =
      kept-IsUnique bound elsewhere d (reply_event_ioctl ev d).0 (ground arith)
        (λ n. ground (arith, h.one_slot)) (λ on. ground (arith, h.one_slot)) h

  pub finish_operation-IsUnique :
      (d : Hwgc) → IsUnique bound elsewhere d → IsUnique bound elsewhere (finish_operation d)
  unfolding finish_operation clear_event_state
  finish_operation-IsUnique d h =
      kept-IsUnique bound elsewhere d (finish_operation d) (ground arith)
        (λ n. ground (arith, h.one_slot)) (λ on. ground (arith, h.one_slot)) h

  pub announce_removal-IsUnique :
      (d : Hwgc) → IsUnique bound elsewhere d → IsUnique bound elsewhere (announce_removal d)
  unfolding announce_removal clear_event_state
  announce_removal-IsUnique d h =
      kept-IsUnique bound elsewhere d (announce_removal d) (ground arith)
        (λ n. ground (arith, h.one_slot)) (λ on. ground (arith, h.one_slot)) h

  pub stop_device-IsUnique :
      (d : Hwgc) → IsUnique bound elsewhere d → IsUnique bound elsewhere (stop_device d)
  unfolding stop_device
  stop_device-IsUnique d h =
      kept-IsUnique bound elsewhere d (stop_device d) (ground arith)
        (λ n. ground (arith, h.one_slot)) (λ on. ground (arith, h.one_slot)) h

-- Taking an event moves its number out of the slot; restoring it may move it back.
abbrev pub and_one : (ℕ → ℕ) → ℕ → ℕ → ℕ
and_one elsewhere seq n = (if seq == n then 1 else 0) + elsewhere n

pub take_event-IsUnique :
    (bound : ℕ) (elsewhere : ℕ → ℕ) (ev : Event) (d : Hwgc)
    → (take_event d).1 ≡ Taken.taken ev
    → IsUnique bound elsewhere d
    → IsUnique bound (and_one elsewhere ev.seq) (take_event d).0
unfolding take_event
take_event-IsUnique bound elsewhere ev d taken h = record {
  bounded = ground (arith, h.bounded);
  once = λ n. ground (arith, h.once n);
  unissued = λ n above. ground (arith, h.unissued n);
  one_slot = λ on. ground (arith, h.one_slot);
}

pub restore_event-IsUnique :
    (bound : ℕ) (elsewhere : ℕ → ℕ) (ev : Event) (d : Hwgc)
    → IsUnique bound (and_one elsewhere ev.seq) d
    → IsUnique bound elsewhere (restore_event ev d)
unfolding restore_event
restore_event-IsUnique bound elsewhere ev d h = record {
  bounded = ground (arith, h.bounded);
  once = λ n. ground (arith, h.once n);
  unissued = λ n above. ground (arith, h.unissued n);
  one_slot = λ on. ground (arith, h.one_slot);
}
