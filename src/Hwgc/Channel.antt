-- ===== src/Hwgc/Channel.antt =====
-- The event channel as its clients see it: it is idle, or one event is pending or in service, or the
-- device has been removed. The fields of `struct hwgc` implement these four states.
pub mod Refine
pub mod Lost
pub mod Cycle
pub mod Machine
pub mod Simulates
use jvm_gc_acclelerator.Common.{
  ℕ, Bool, true, false, not, ◌&&◌, ◌≡◌, ◌==◌, if◌then◌else◌, Option, none, some,
}
use jvm_gc_acclelerator.Common.Int.{ℤ, pos, is_nonzero}
use jvm_gc_acclelerator.Common.Errno.{eagain, ebusy, efault, einval, enodev}
use jvm_gc_acclelerator.Hwgc.Types.{Event, Hwgc}
use jvm_gc_acclelerator.Hwgc.Events.{needs_reply, Taken}

pub data Channel : Type 0 where
  idle : Channel
  pending : Event → Channel
  in_service : Event → Channel
  closed : Channel

abbrev pub channel_of : Hwgc → Channel
channel_of d =
    if d.removing
    then Channel.closed
    else if d.event_pending
    then Channel.pending d.current_event
    else if d.event_in_service
    then Channel.in_service d.current_event
    else Channel.idle

-- One event at a time is offered.
abbrev pub offer : Event → Channel → Channel × ℤ
offer ev Channel.idle = (Channel.pending ev, pos 0)
offer ev (Channel.pending old) = (Channel.pending old, ebusy)
offer ev (Channel.in_service old) = (Channel.in_service old, ebusy)
offer ev Channel.closed = (Channel.closed, enodev)

-- An event that wants a reply stays in service until the reply.
abbrev pub consume : Channel → Channel × Taken
consume Channel.idle = (Channel.idle, Taken.refused eagain)
consume (Channel.pending ev) =
    (if needs_reply ev.type then Channel.in_service ev else Channel.idle, Taken.taken ev)
consume (Channel.in_service ev) = (Channel.in_service ev, Taken.refused eagain)
consume Channel.closed = (Channel.closed, Taken.refused enodev)

-- A wait that has been woken: the event is handed over, or kept for the next wait if it cannot be copied.
abbrev pub hand_over : Bool → Channel → Channel × ℤ × Option Event
hand_over copied Channel.idle = (Channel.idle, eagain, none)
hand_over true (Channel.pending ev) =
    (if needs_reply ev.type then Channel.in_service ev else Channel.idle, pos 0, some ev)
hand_over false (Channel.pending ev) = (Channel.pending ev, efault, none)
hand_over copied (Channel.in_service ev) = (Channel.in_service ev, eagain, none)
hand_over copied Channel.closed = (Channel.closed, enodev, none)

abbrev pub wait_for_event : ℤ → Bool → Channel → Channel × ℤ × Option Event
wait_for_event waited copied c = if is_nonzero waited then (c, waited, none) else hand_over copied c

-- The reply must name the event in service by its number and its type.
abbrev pub settle : Event → Channel → Channel × ℤ
settle ev Channel.idle = (Channel.idle, einval)
settle ev (Channel.pending old) = (Channel.pending old, einval)
settle ev (Channel.in_service old) =
    if ev.seq == old.seq && ev.type == old.type
    then (Channel.idle, pos 0)
    else (Channel.in_service old, einval)
settle ev Channel.closed = (Channel.closed, enodev)

-- An event is not both pending and in service.
abbrev pub OneSlot : Hwgc → Type 0
OneSlot d = d.event_pending ≡ true → d.event_in_service ≡ false
