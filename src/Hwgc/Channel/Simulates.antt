-- ===== src/Hwgc/Channel/Simulates.antt =====
-- The critical sections of the driver as moves of the channel.
use jvm_gc_acclelerator.Common.{
  ℕ, ◌≡◌, refl, sym, ap, arith, subst, Bool, true, false, Option, none, some, ◌||◌, inl, inr, ◌⊎◌,
  not, if_keeps, Bool-cases, if◌then◌else◌,
}
use jvm_gc_acclelerator.Common.Int.{ℤ, pos}
use jvm_gc_acclelerator.Common.Errno.{enodev, ebusy}
use jvm_gc_acclelerator.Dma.Kernel.{DmaContext, Process, Device, Mmu}
use jvm_gc_acclelerator.Dma.{hold_process_context}
use jvm_gc_acclelerator.Hwgc.Regs.{reg_cmd, cmd_reset}
use jvm_gc_acclelerator.Hwgc.Types.{Parameters, Event, Hwgc, reg_write32}
use jvm_gc_acclelerator.Hwgc.Events.{
  needs_reply, is_terminal, new_event, publish_sw_event, abort_operation_from_irq, restore_event,
  Taken, finish_operation, clear_event_state,
}
use jvm_gc_acclelerator.Hwgc.Params.{emit_all, program_parameters, parameter_writes}
use jvm_gc_acclelerator.Hwgc.Irq.{irq_top, irq_thread, fill_miss, publish_done, publish_request}
use jvm_gc_acclelerator.Hwgc.Irq.Keeps.{KeptByBlocks, handle_pending-keeps}
use jvm_gc_acclelerator.Hwgc.Ioctl.{
  start_ioctl, start_held, start_device, new_operation, reply_event_ioctl,
}
use jvm_gc_acclelerator.Hwgc.Remove.{announce_removal, stop_device}
use jvm_gc_acclelerator.Hwgc.Channel.{Channel, channel_of, OneSlot}
use jvm_gc_acclelerator.Hwgc.Channel.Refine.{
  publish_sw_event-offer, take_event-consume, reply_event_ioctl-settle, next_seq,
}
use jvm_gc_acclelerator.Hwgc.Invariant.Reach.{
  Step, Reach, interrupt, thread, start, take, restore, finish, reply, announce, stop,
  Reach-one_slot,
}
use jvm_gc_acclelerator.Hwgc.Invariant.Blocks.{
  BlockStep, BlockStep-keeps, BlockReach, BlockReach-one_slot,
}
use jvm_gc_acclelerator.Hwgc.Channel.Machine.{
  Move, section, block, actor_of_move, Actor, put_back, clear, ChannelStep, ChannelSteps, still,
  more, actor_of,
}

one_move : {c c' : Channel} {a : Actor} → ChannelStep c a c' → ChannelSteps c a c'
one_move step = more still step

-- Moves to a channel that a section leaves.
moves_to : {c c' c'' : Channel} {a : Actor} → c' ≡ c'' → ChannelSteps c a c' → ChannelSteps c a c''
moves_to {c} {a = a} same steps = subst (ChannelSteps c a) same steps

publish_sw_event-ChannelSteps :
    (c : Channel) (type par0 par1 : ℕ) (d : Hwgc)
    → (needs_reply type || is_terminal type) ≡ true
    → ChannelSteps c Actor.device (channel_of d)
    → ChannelSteps c Actor.device (channel_of (publish_sw_event type par0 par1 d).0)
publish_sw_event-ChannelSteps c type par0 par1 d known steps =
    moves_to (sym (ap (λ (r : Channel × ℤ). r.0) (publish_sw_event-offer type par0 par1 d)))
      (more steps (ChannelStep.offered (new_event type par0 par1 (next_seq d)) known))

blocks-ChannelSteps :
    (c : Channel) (dev : Device) (mmu : Mmu)
    → KeptByBlocks (λ d. ChannelSteps c Actor.device (channel_of d)) dev mmu
unfolding fill_miss publish_done publish_request abort_operation_from_irq needs_reply is_terminal
blocks-ChannelSteps c dev mmu = record {
  fill = λ d h. h;
  done = λ d h. publish_sw_event-ChannelSteps c _ _ _ (record d { op_status = pos 0 }) refl h;
  grow = λ d h. publish_sw_event-ChannelSteps c _ _ _ d refl h;
  expand = λ d h. publish_sw_event-ChannelSteps c _ _ _ d refl h;
  allocate = λ d h. publish_sw_event-ChannelSteps c _ _ _ d refl h;
  wake = λ d h. publish_sw_event-ChannelSteps c _ _ _ d refl h;
  abort = λ status d h.
      publish_sw_event-ChannelSteps c _ _ _
        (reg_write32 (record d { op_status = status }) cmd_reset reg_cmd) refl h;
}

irq_thread-ChannelSteps :
    (dev : Device) (mmu : Mmu) (d : Hwgc)
    → ChannelSteps (channel_of d) Actor.device (channel_of (irq_thread dev mmu d).0)
unfolding irq_thread
irq_thread-ChannelSteps dev mmu d =
    handle_pending-keeps (λ d'. ChannelSteps (channel_of d) Actor.device (channel_of d')) dev mmu
      d.pending_irq (record d { pending_irq = 0 }) (blocks-ChannelSteps (channel_of d) dev mmu)
      still

irq_top-channel_of : (dev : Device) (d : Hwgc) → channel_of d ≡ channel_of (irq_top dev d).0
unfolding irq_top
irq_top-channel_of dev d = ground arith

-- A section that leaves the channel as it was, or clears it.
KeepsOrClears : Hwgc → Hwgc → Type 0
KeepsOrClears d d' = (channel_of d ≡ channel_of d') ⊎ (clear (channel_of d) ≡ channel_of d')

held-clear :
    (params : Parameters) (d : Hwgc) (held : DmaContext × Bool)
    → KeepsOrClears d (start_held params d held).0
unfolding KeepsOrClears start_held start_device program_parameters parameter_writes emit_all
    new_operation clear_event_state
held-clear params d (dma, false) = inl refl
held-clear params d (dma, true) = inr (ground arith)

start_ioctl-clear :
    (params : Option Parameters) (current : Process) (d : Hwgc)
    → KeepsOrClears d (start_ioctl params current d).0
unfolding KeepsOrClears start_ioctl
start_ioctl-clear none current d = inl refl
start_ioctl-clear (some params) current d =
    let held = start_held params d (hold_process_context current d.dma) in
    if_keeps (λ (r : Hwgc × ℤ). KeepsOrClears d r.0) d.removing (d, enodev)
      (if d.op_active then (d, ebusy) else held) (inl refl)
      (if_keeps (λ (r : Hwgc × ℤ). KeepsOrClears d r.0) d.op_active (d, ebusy) held (inl refl)
        (held-clear params d (hold_process_context current d.dma)))

finish_operation-clear : (d : Hwgc) → KeepsOrClears d (finish_operation d)
unfolding KeepsOrClears finish_operation clear_event_state
finish_operation-clear d =
    if_keeps (KeepsOrClears d) (not d.op_active) d _ (inl refl) (inr (ground arith))

stop_device-channel_of : (d : Hwgc) → channel_of d ≡ channel_of (stop_device d)
unfolding stop_device
stop_device-channel_of d = ground arith

announce_removal-closed : (d : Hwgc) → Channel.closed ≡ channel_of (announce_removal d)
unfolding announce_removal clear_event_state
announce_removal-closed d = refl

restore_event-put_back :
    (ev : Event) (d : Hwgc) → put_back ev (channel_of d) ≡ channel_of (restore_event ev d)
unfolding restore_event
restore_event-put_back ev d = ground arith

clears :
    (d d' : Hwgc) → KeepsOrClears d d' → ChannelSteps (channel_of d) Actor.operation (channel_of d')
unfolding KeepsOrClears
clears d d' (inl same) = moves_to same still
clears d d' (inr empty) = moves_to empty (one_move ChannelStep.cleared)

-- The whole reply ioctl settles, or does nothing.
reply_event_ioctl-ChannelSteps :
    (ev : Option Event) (d : Hwgc)
    → OneSlot d
    → ChannelSteps (channel_of d) Actor.process (channel_of (reply_event_ioctl ev d).0)
unfolding reply_event_ioctl
reply_event_ioctl-ChannelSteps none d one = still
reply_event_ioctl-ChannelSteps (some ev) d one = elim (Bool-cases (needs_reply ev.type)) [
  | inl wants ↦
      moves_to (ap (λ (r : Channel × ℤ). r.0) (sym (reply_event_ioctl-settle ev d one wants).0))
        (one_move (ChannelStep.settled ev wants))
  | inr other ↦ moves_to (rw other refl) still
]

-- A critical section from a state where no event is both pending and in service.
section-ChannelSteps :
    {d d' : Hwgc}
    → OneSlot d
    → (step : Step d d') → ChannelSteps (channel_of d) (actor_of step) (channel_of d')
section-ChannelSteps {d} one (interrupt dev) = moves_to (irq_top-channel_of dev d) still
section-ChannelSteps {d} one (thread dev mmu) = irq_thread-ChannelSteps dev mmu d
section-ChannelSteps {d} one (start params current) =
    clears d _ (start_ioctl-clear params current d)
section-ChannelSteps {d} one take =
    moves_to (ap (λ (r : Channel × Taken). r.0) (sym (take_event-consume d)))
      (one_move ChannelStep.consumed)
section-ChannelSteps {d} one (restore ev known) =
    moves_to (restore_event-put_back ev d) (one_move (ChannelStep.restored ev known))
section-ChannelSteps {d} one finish = clears d _ (finish_operation-clear d)
section-ChannelSteps {d} one (reply ev) = reply_event_ioctl-ChannelSteps ev d one
section-ChannelSteps {d} one announce =
    moves_to (announce_removal-closed d) (one_move ChannelStep.closing)
section-ChannelSteps {d} one stop = moves_to (stop_device-channel_of d) still

block-ChannelSteps :
    {d d' : Hwgc} → BlockStep d d' → ChannelSteps (channel_of d) Actor.device (channel_of d')
block-ChannelSteps {d} step =
    BlockStep-keeps (λ d'. ChannelSteps (channel_of d) Actor.device (channel_of d'))
      (blocks-ChannelSteps (channel_of d)) (λ d' h. h) step still

Step-ChannelSteps :
    {d d' : Hwgc}
    → Reach d
    → (step : Step d d') → ChannelSteps (channel_of d) (actor_of step) (channel_of d')
Step-ChannelSteps {d} r = section-ChannelSteps (let slot = Reach-one_slot r in ground (arith, slot))

-- In a state that critical sections and blocks of the interrupt thread reach in any order, every critical
-- section of the driver and every block takes the channel through moves of the one actor that it belongs
-- to: the interrupt handler only offers events that want a reply or end the operation, a process only
-- consumes, puts back or settles, an operation only clears the channel, and only a removal closes it.
pub Move-ChannelSteps :
    {d d' : Hwgc}
    → BlockReach d
    → (move : Move d d') → ChannelSteps (channel_of d) (actor_of_move move) (channel_of d')
Move-ChannelSteps {d} r (section step) =
    section-ChannelSteps (let slot = BlockReach-one_slot r in ground (arith, slot)) step
Move-ChannelSteps {d} r (block step) = block-ChannelSteps step
