-- ===== src/Hwgc/Waiters/Once.antt =====
-- The numbers of the events that any number of processes get.
use jvm_gc_acclelerator.Common.{
  ℕ, ◌+◌, ◌^◌, ◌<◌, ◌≤◌, ◌≡◌, Bool, arith, List, [], ◌∷◌, ◌++◌, ◌==◌, if◌then◌else◌,
}
use jvm_gc_acclelerator.Hwgc.Types.{Event}
use jvm_gc_acclelerator.Hwgc.Waiters.{
  Waiters, WaitersStep, WaitersReach, probed, later, interrupt, thread, block, start, reply,
  announce, stop, finish, take, fail_copy, copy,
}
use jvm_gc_acclelerator.Hwgc.Waiters.Unique.{
  UniqueAt, IsUnique, in_slot, irq_thread-IsUnique, BlockStep-IsUnique,
}
use jvm_gc_acclelerator.Hwgc.Waiters.Unique.Sections.{
  irq_top-IsUnique, start_ioctl-IsUnique, reply_event_ioctl-IsUnique, finish_operation-IsUnique,
  announce_removal-IsUnique, stop_device-IsUnique, take_event-IsUnique, restore_event-IsUnique,
}

-- How many of the events have the number `n`.
abbrev pub times : ℕ → List Event → ℕ
times n [] = 0
times n (ev ∷ evs) = (if ev.seq == n then 1 else 0) + times n evs

times-append : (n : ℕ) (xs ys : List Event) → times n (xs ++ ys) ≡ times n xs + times n ys
times-append n [] ys = omega arith
times-append n (x ∷ xs) ys = omega (arith, times-append n xs ys)

abbrev elsewhere_of : List Event → List Event → ℕ → ℕ
elsewhere_of copying delivered n = times n copying + times n delivered

WaitersInv : ℕ → Waiters → Type 0
WaitersInv bound s = IsUnique bound (elsewhere_of s.copying s.delivered) s.driver

-- Only the counts outside the slot matter.
recount :
    {bound issued current : ℕ} {pending in_service : Bool} {f g : ℕ → ℕ}
    → ((n : ℕ) → f n ≡ g n)
    → UniqueAt bound f issued current pending in_service
    → UniqueAt bound g issued current pending in_service
recount same h = record {
  bounded = h.bounded;
  once = λ n. omega (arith, same n, h.once n);
  unissued = λ n above. omega (arith, same n, h.unissued n above);
  one_slot = h.one_slot;
}

-- One event out of those that wait for their copy.
times-out :
    (n : ℕ) (copying before after : List Event) (ev : Event)
    → copying ≡ before ++ ev ∷ after
    → times n copying ≡ (if ev.seq == n then 1 else 0) + times n (before ++ after)
times-out n copying before after ev same =
    rw same (omega (arith, times-append n before (ev ∷ after), times-append n before after))

WaitersStep-Inv :
    (bound : ℕ) {s s' : Waiters} → WaitersStep s s' → WaitersInv bound s → WaitersInv bound s'
unfolding WaitersInv
WaitersStep-Inv bound {s} (interrupt dev) h = irq_top-IsUnique dev s.driver h
WaitersStep-Inv bound {s} (start params current) h = start_ioctl-IsUnique params current s.driver h
WaitersStep-Inv bound {s} (reply ev) h = reply_event_ioctl-IsUnique ev s.driver h
WaitersStep-Inv bound {s} announce h = announce_removal-IsUnique s.driver h
WaitersStep-Inv bound {s} stop h = stop_device-IsUnique s.driver h
WaitersStep-Inv bound {s} finish h = finish_operation-IsUnique s.driver h
WaitersStep-Inv bound {s} (take ev taken) h =
    recount (λ n. omega arith)
      (take_event-IsUnique bound (elsewhere_of s.copying s.delivered) ev s.driver taken h)
WaitersStep-Inv bound {s} (fail_copy before after ev same) h =
    restore_event-IsUnique bound (elsewhere_of (before ++ after) s.delivered) ev s.driver
      (recount (λ n. omega (arith, times-out n s.copying before after ev same)) h)
WaitersStep-Inv bound {s} (copy before after ev same) h =
    recount (λ n. omega (arith, times-out n s.copying before after ev same)) h

WaitersReach-Inv : {n : ℕ} {s : Waiters} → WaitersReach n s → n < 2 ^ 64 → WaitersInv n s
unfolding WaitersInv
WaitersReach-Inv (probed bar0 irq dev_id) small = record {
  bounded = omega arith;
  once = λ n. ground arith;
  unissued = λ n above. ground arith;
  one_slot = λ on. ground arith;
}
WaitersReach-Inv (later r step) small = WaitersStep-Inv _ step (WaitersReach-Inv r small)
WaitersReach-Inv (thread {n} {s} dev mmu r) small =
    irq_thread-IsUnique n (elsewhere_of s.copying s.delivered) dev mmu s.driver small
      (WaitersReach-Inv r (omega arith))
WaitersReach-Inv (block {n} {s} r step) small =
    BlockStep-IsUnique n (elsewhere_of s.copying s.delivered) small step
      (WaitersReach-Inv r (omega arith))

-- With any number of processes that wait at once, and fewer than 2 ^ 64 runs of the interrupt thread and of
-- its blocks, between which any section may come: of the events that reached a process, no two have the same number, and none of them is still on its way
-- to a process or in the slot, whatever copies failed and interrupts came in between.
pub WaitersReach-once :
    {k : ℕ} {s : Waiters}
    → WaitersReach k s
    → k < 2 ^ 64
    → (n : ℕ) → times n s.delivered + (times n s.copying + in_slot n s.driver) ≤ 1
unfolding WaitersInv
WaitersReach-once r small n = let h = (WaitersReach-Inv r small).once n in omega arith
