-- ===== src/Hwgc/Session/Fresh.antt =====
-- The numbers of the events against those delivered, in each critical section of the driver.
use jvm_gc_acclelerator.Common.{
  ℕ, suc, ◌^◌, ◌<◌, ◌≤◌, ◌≡◌, arith, Bool, true, false, Option, ◌||◌, ltb,
}
use jvm_gc_acclelerator.Common.Int.{pos}
use jvm_gc_acclelerator.Dma.Kernel.{Process, Device, Mmu}
use jvm_gc_acclelerator.Hwgc.Regs.{reg_cmd, cmd_reset}
use jvm_gc_acclelerator.Hwgc.Types.{Parameters, Event, Hwgc, reg_write32}
use jvm_gc_acclelerator.Hwgc.Events.{
  Taken, take_event, restore_event, finish_operation, publish_sw_event, abort_operation_from_irq,
  clear_event_state,
}
use jvm_gc_acclelerator.Hwgc.Params.{emit_all, program_parameters, parameter_writes}
use jvm_gc_acclelerator.Hwgc.Irq.{irq_top, irq_thread, fill_miss, publish_done, publish_request}
use jvm_gc_acclelerator.Hwgc.Irq.Keeps.{KeptByBlocks, handle_pending-keeps}
use jvm_gc_acclelerator.Hwgc.Ioctl.{
  start_ioctl, start_held, start_device, new_operation, reply_event_ioctl, accept_reply,
  write_reply,
}
use jvm_gc_acclelerator.Hwgc.Invariant.Blocks.{BlockStep, BlockStep-keeps}
use jvm_gc_acclelerator.Hwgc.Remove.{announce_removal, stop_device}

-- No event up to `floor` is pending, and later ones have later numbers, up to `bound`.
pub record FreshAt (bound floor issued current : ℕ) (pending in_service : Bool) : Type 0 where
  pub bounded : issued ≤ bound
  pub floor_issued : floor ≤ issued
  pub pending_above : pending ≡ true → floor < current
  pub pending_issued : pending ≡ true → current ≤ issued
  pub one_slot : pending ≡ true → in_service ≡ false

abbrev pub IsFresh : ℕ → ℕ → Hwgc → Type 0
IsFresh bound floor d =
    FreshAt bound floor d.event_seq d.current_event.seq d.event_pending d.event_in_service

-- With a free slot, there is a number left.
abbrev HasRoom : ℕ → Hwgc → Type 0
HasRoom bound d =
    (ltb d.event_seq bound || d.event_pending || d.event_in_service || d.removing) ≡ true

publish_sw_event-IsFresh :
    (bound floor type par0 par1 : ℕ) (d : Hwgc)
    → bound < 2 ^ 64
    → IsFresh bound floor d × HasRoom bound d
    → let d' = (publish_sw_event type par0 par1 d).0 in IsFresh bound floor d' × HasRoom bound d'
unfolding publish_sw_event
publish_sw_event-IsFresh bound floor type par0 par1 d small h =
    ground
      (arith, h.0.bounded, h.0.floor_issued, h.0.pending_above, h.0.pending_issued, h.0.one_slot)

blocks-IsFresh :
    (bound floor : ℕ) (dev : Device) (mmu : Mmu)
    → bound < 2 ^ 64
    → KeptByBlocks (λ d. IsFresh bound floor d × HasRoom bound d) dev mmu
unfolding fill_miss publish_done publish_request abort_operation_from_irq
blocks-IsFresh bound floor dev mmu small =
    let publish = λ (type par0 par1 : ℕ) (d : Hwgc) (h : IsFresh bound floor d × HasRoom bound d).
      publish_sw_event-IsFresh bound floor type par0 par1 d small h in
    record {
      fill = λ d h. ground (
        arith, h.0.bounded, h.0.floor_issued, h.0.pending_above, h.0.pending_issued, h.0.one_slot,
      );
      done = λ d h. publish _ _ _ (record d { op_status = pos 0 }) h;
      grow = publish _ _ _;
      expand = publish _ _ _;
      allocate = publish _ _ _;
      wake = publish _ _ _;
      abort = λ status d h.
          publish _ _ _ (reg_write32 (record d { op_status = status }) cmd_reset reg_cmd) h;
    }

-- One number more may be given out.
more_room :
    (n floor : ℕ) (d : Hwgc) → IsFresh n floor d → IsFresh (suc n) floor d × HasRoom (suc n) d
more_room n floor d h = (
  record {
    bounded = let b = h.bounded in omega arith;
    floor_issued = h.floor_issued;
    pending_above = h.pending_above;
    pending_issued = h.pending_issued;
    one_slot = h.one_slot;
  },
  ground (arith, h.bounded),
)

-- A run of the interrupt thread gives out one number at most.
pub irq_thread-IsFresh :
    (n floor : ℕ) (dev : Device) (mmu : Mmu) (d : Hwgc)
    → suc n < 2 ^ 64
    → IsFresh n floor d
    → IsFresh (suc n) floor (irq_thread dev mmu d).0
unfolding irq_thread
irq_thread-IsFresh n floor dev mmu d small h =
    (handle_pending-keeps (λ d'. IsFresh (suc n) floor d' × HasRoom (suc n) d') dev mmu
      d.pending_irq (record d { pending_irq = 0 }) (blocks-IsFresh (suc n) floor dev mmu small)
      (more_room n floor d h)).0

-- So does one of its blocks.
pub BlockStep-IsFresh :
    (n floor : ℕ) {d d' : Hwgc}
    → suc n < 2 ^ 64
    → BlockStep d d'
    → IsFresh n floor d
    → IsFresh (suc n) floor d'
BlockStep-IsFresh n floor {d} small step h =
    (BlockStep-keeps (λ d'. IsFresh (suc n) floor d' × HasRoom (suc n) d')
      (λ dev mmu. blocks-IsFresh (suc n) floor dev mmu small) (λ d' k. k) step
      (more_room n floor d h)).0

pub irq_top-IsFresh :
    (bound floor : ℕ) (dev : Device) (d : Hwgc)
    → IsFresh bound floor d
    → IsFresh bound floor (irq_top dev d).0
unfolding irq_top
irq_top-IsFresh bound floor dev d h =
    ground (arith, h.bounded, h.floor_issued, h.pending_above, h.pending_issued, h.one_slot)

pub start_ioctl-IsFresh :
    (bound floor : ℕ) (params : Option Parameters) (current : Process) (d : Hwgc)
    → IsFresh bound floor d
    → IsFresh bound floor (start_ioctl params current d).0
unfolding start_ioctl start_held start_device program_parameters parameter_writes emit_all
    new_operation clear_event_state
start_ioctl-IsFresh bound floor params current d h =
    ground (arith, h.bounded, h.floor_issued, h.pending_above, h.pending_issued, h.one_slot)

pub reply_event_ioctl-IsFresh :
    (bound floor : ℕ) (ev : Option Event) (d : Hwgc)
    → IsFresh bound floor d
    → IsFresh bound floor (reply_event_ioctl ev d).0
unfolding reply_event_ioctl accept_reply write_reply
reply_event_ioctl-IsFresh bound floor ev d h =
    ground (arith, h.bounded, h.floor_issued, h.pending_above, h.pending_issued, h.one_slot)

pub finish_operation-IsFresh :
    (bound floor : ℕ) (d : Hwgc) → IsFresh bound floor d → IsFresh bound floor (finish_operation d)
unfolding finish_operation clear_event_state
finish_operation-IsFresh bound floor d h =
    ground (arith, h.bounded, h.floor_issued, h.pending_above, h.pending_issued, h.one_slot)

pub announce_removal-IsFresh :
    (bound floor : ℕ) (d : Hwgc) → IsFresh bound floor d → IsFresh bound floor (announce_removal d)
unfolding announce_removal clear_event_state
announce_removal-IsFresh bound floor d h = ground (arith, h.bounded, h.floor_issued)

pub stop_device-IsFresh :
    (bound floor : ℕ) (d : Hwgc) → IsFresh bound floor d → IsFresh bound floor (stop_device d)
unfolding stop_device
stop_device-IsFresh bound floor d h =
    ground (arith, h.bounded, h.floor_issued, h.pending_above, h.pending_issued, h.one_slot)

-- Taking an event makes its number the floor; restoring it brings the old floor back.
pub take_event-IsFresh :
    (bound floor : ℕ) (ev : Event) (d : Hwgc)
    → (take_event d).1 ≡ Taken.taken ev
    → IsFresh bound floor d
    → (floor < ev.seq) × IsFresh bound ev.seq (take_event d).0
unfolding take_event
take_event-IsFresh bound floor ev d e h =
    ground (arith, h.bounded, h.floor_issued, h.pending_above, h.pending_issued, h.one_slot)

pub restore_event-IsFresh :
    (bound floor : ℕ) (ev : Event) (d : Hwgc)
    → floor < ev.seq
    → IsFresh bound ev.seq d
    → IsFresh bound floor (restore_event ev d)
unfolding restore_event
restore_event-IsFresh bound floor ev d above h =
    ground (arith, h.bounded, h.floor_issued, h.pending_above, h.pending_issued, h.one_slot)
