-- ===== src/Hwgc/Session/Order.antt =====
-- The order in which one process gets the events.
use jvm_gc_acclelerator.Common.{
  ℕ, ◌^◌, ◌<◌, ◌≡◌, arith, Bool, true, false, List, [], ◌∷◌, if◌then◌else◌, subst,
}
use jvm_gc_acclelerator.Hwgc.Types.{Event, Hwgc}
use jvm_gc_acclelerator.Hwgc.Events.{Taken, take_event}
use jvm_gc_acclelerator.Hwgc.Session.{
  Waiter, Session, SessionStep, SessionReach, probed, later, interrupt, thread, block, start, reply,
  announce, stop, take, fail_copy, copy, finish,
}
use jvm_gc_acclelerator.Hwgc.Session.Fresh.{
  IsFresh, irq_thread-IsFresh, BlockStep-IsFresh, irq_top-IsFresh, start_ioctl-IsFresh,
  reply_event_ioctl-IsFresh, finish_operation-IsFresh, announce_removal-IsFresh,
  stop_device-IsFresh, take_event-IsFresh, restore_event-IsFresh,
}

-- The number of the newest event delivered.
abbrev pub last_seq : List Event → ℕ
last_seq [] = 0
last_seq (ev ∷ evs) = ev.seq

-- Newest first, the numbers fall.
abbrev pub IsOrdered : List Event → Type 0
IsOrdered [] = Unit
IsOrdered (ev ∷ evs) = (last_seq evs < ev.seq) × IsOrdered evs

-- The number up to which the process has, or is getting, the events.
abbrev pub floor_of : Waiter → List Event → ℕ
floor_of Waiter.outside evs = last_seq evs
floor_of (Waiter.copying ev) evs = ev.seq
floor_of Waiter.finishing evs = last_seq evs

-- An event on its way is newer than those delivered.
abbrev IsNewer : Waiter → List Event → Type 0
IsNewer Waiter.outside evs = Unit
IsNewer (Waiter.copying ev) evs = last_seq evs < ev.seq
IsNewer Waiter.finishing evs = Unit

record InvAt (bound : ℕ) (w : Waiter) (evs : List Event) (d : Hwgc) : Type 0 where
  fresh : IsFresh bound (floor_of w evs) d
  newer : IsNewer w evs
  ordered : IsOrdered evs

-- A section that does not move the waiter.
moved :
    {bound : ℕ} {w : Waiter} {evs : List Event} {d : Hwgc} (d' : Hwgc)
    → InvAt bound w evs d
    → IsFresh bound (floor_of w evs) d'
    → InvAt bound w evs d'
moved d' h fresh = record { fresh = fresh; newer = h.newer; ordered = h.ordered }

take-InvAt :
    (bound : ℕ) (ev : Event) (evs : List Event) (d : Hwgc)
    → (take_event d).1 ≡ Taken.taken ev
    → InvAt bound Waiter.outside evs d
    → InvAt bound (Waiter.copying ev) evs (take_event d).0
take-InvAt bound ev evs d taken h =
    let (above, fresh) = take_event-IsFresh bound (last_seq evs) ev d taken h.fresh in
    record { fresh = fresh; newer = above; ordered = h.ordered }

copy-InvAt :
    (bound : ℕ) (terminal : Bool) (ev : Event) (evs : List Event) (d : Hwgc)
    → InvAt bound (Waiter.copying ev) evs d
    → InvAt bound (if terminal then Waiter.finishing else Waiter.outside) (ev ∷ evs) d
copy-InvAt bound true ev evs d h = record {
  fresh = h.fresh;
  newer = tt;
  ordered = (h.newer, h.ordered);
}
copy-InvAt bound false ev evs d h = record {
  fresh = h.fresh;
  newer = tt;
  ordered = (h.newer, h.ordered);
}

SessionInv : ℕ → Session → Type 0
SessionInv bound s = InvAt bound s.waiter s.delivered s.driver

-- The invariant with the waiter where the step found it.
at :
    (bound : ℕ) {s : Session} {w : Waiter}
    → s.waiter ≡ w
    → SessionInv bound s
    → InvAt bound w s.delivered s.driver
unfolding SessionInv
at bound {s} e h = subst (λ w. InvAt bound w s.delivered s.driver) e h

SessionStep-Inv :
    (bound : ℕ) {s s' : Session} → SessionStep s s' → SessionInv bound s → SessionInv bound s'
unfolding SessionInv
SessionStep-Inv bound {s} (interrupt dev) h =
    moved _ h (irq_top-IsFresh bound _ dev s.driver h.fresh)
SessionStep-Inv bound {s} (start params current) h =
    moved _ h (start_ioctl-IsFresh bound _ params current s.driver h.fresh)
SessionStep-Inv bound {s} (reply ev) h =
    moved _ h (reply_event_ioctl-IsFresh bound _ ev s.driver h.fresh)
SessionStep-Inv bound {s} announce h = moved _ h (announce_removal-IsFresh bound _ s.driver h.fresh)
SessionStep-Inv bound {s} stop h = moved _ h (stop_device-IsFresh bound _ s.driver h.fresh)
SessionStep-Inv bound {s} (take ev out taken) h =
    take-InvAt bound ev s.delivered s.driver taken (at bound out h)
SessionStep-Inv bound {s} (fail_copy ev copying) h =
    let k = at bound copying h in
    record {
      fresh = restore_event-IsFresh bound (last_seq s.delivered) ev s.driver k.newer k.fresh;
      newer = tt;
      ordered = k.ordered;
    }
SessionStep-Inv bound {s} (copy ev copying) h =
    copy-InvAt bound _ ev s.delivered s.driver (at bound copying h)
SessionStep-Inv bound {s} (finish finishing) h =
    let k = at bound finishing h in
    record {
      fresh = finish_operation-IsFresh bound _ s.driver k.fresh;
      newer = tt;
      ordered = k.ordered;
    }

SessionReach-Inv : {n : ℕ} {s : Session} → SessionReach n s → n < 2 ^ 64 → SessionInv n s
unfolding SessionInv
SessionReach-Inv (probed bar0 irq dev_id) small = record {
  fresh = ground arith;
  newer = tt;
  ordered = tt;
}
SessionReach-Inv (later r step) small = SessionStep-Inv _ step (SessionReach-Inv r small)
SessionReach-Inv (thread {n} {s} dev mmu r) small =
    let h = SessionReach-Inv r (omega arith) in
    record {
      fresh = irq_thread-IsFresh n _ dev mmu s.driver small h.fresh;
      newer = h.newer;
      ordered = h.ordered;
    }
SessionReach-Inv (block {n} {s} r step) small =
    let h = SessionReach-Inv r (omega arith) in
    record {
      fresh = BlockStep-IsFresh n _ small step h.fresh;
      newer = h.newer;
      ordered = h.ordered;
    }

-- In every session with fewer than 2 ^ 64 runs of the interrupt thread and of its blocks, the numbers of the events that
-- reached the process rise from each one to the next, whatever copies failed and interrupts came in
-- between.
pub SessionReach-IsOrdered :
    {n : ℕ} {s : Session} → SessionReach n s → n < 2 ^ 64 → IsOrdered s.delivered
unfolding SessionInv
SessionReach-IsOrdered r small = (SessionReach-Inv r small).ordered
