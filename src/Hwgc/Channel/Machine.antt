-- ===== src/Hwgc/Channel/Machine.antt =====
-- The channel as a machine: its moves, who makes each, and whose a critical section of the driver is.
use jvm_gc_acclelerator.Common.{◌≡◌, Bool, true, ◌||◌}
use jvm_gc_acclelerator.Hwgc.Types.{Event, Hwgc}
use jvm_gc_acclelerator.Hwgc.Events.{needs_reply, is_terminal}
use jvm_gc_acclelerator.Hwgc.Channel.{Channel, offer, consume, settle}
use jvm_gc_acclelerator.Hwgc.Invariant.Reach.{
  Step, interrupt, thread, start, take, restore, finish, reply, announce, stop,
}
use jvm_gc_acclelerator.Hwgc.Invariant.Blocks.{BlockStep}

-- Who moves: the interrupt handler for the device, the process that has the events, the operations with
-- their start and end, and the removal.
pub data Actor : Type 0 where
  device process operation removal : Actor

-- An event that is put back takes the place of any other.
abbrev pub put_back : Event → Channel → Channel
put_back ev Channel.closed = Channel.closed
put_back ev _ = Channel.pending ev

abbrev pub clear : Channel → Channel
clear Channel.closed = Channel.closed
clear _ = Channel.idle

-- The event wants a reply or ends the operation.
abbrev pub is_known : Event → Bool
is_known ev = needs_reply ev.type || is_terminal ev.type

pub data ChannelStep (c : Channel) : Actor → Channel → Type 0 where
  offered : (ev : Event) → is_known ev ≡ true → ChannelStep c Actor.device (offer ev c).0
  consumed : ChannelStep c Actor.process (consume c).0
  restored : (ev : Event) → is_known ev ≡ true → ChannelStep c Actor.process (put_back ev c)
  settled : (ev : Event) → needs_reply ev.type ≡ true → ChannelStep c Actor.process (settle ev c).0
  cleared : ChannelStep c Actor.operation (clear c)
  closing : ChannelStep c Actor.removal Channel.closed

-- Some moves of one actor.
pub data ChannelSteps (c : Channel) (a : Actor) : Channel → Type 0 where
  still : ChannelSteps c a c
  more : {c' c'' : Channel} → ChannelSteps c a c' → ChannelStep c' a c'' → ChannelSteps c a c''

-- Who makes the critical section.
abbrev pub actor_of : {d d' : Hwgc} → Step d d' → Actor
actor_of (interrupt dev) = Actor.device
actor_of (thread dev mmu) = Actor.device
actor_of (start params current) = Actor.operation
actor_of take = Actor.process
actor_of (restore ev known) = Actor.process
actor_of finish = Actor.operation
actor_of (reply ev) = Actor.process
actor_of announce = Actor.removal
actor_of stop = Actor.removal

-- A critical section, or a block of the interrupt thread.
pub data Move (d d' : Hwgc) : Type 0 where
  section : Step d d' → Move d d'
  block : BlockStep d d' → Move d d'

abbrev pub actor_of_move : {d d' : Hwgc} → Move d d' → Actor
actor_of_move (section step) = actor_of step
actor_of_move (block step) = Actor.device
