-- ===== src/Client/Single/Ends.antt =====
-- How the program test_44.c ends on a driver that is idle.
use jvm_gc_acclelerator.Common.{
  ℕ, ◌+◌, ◌%◌, ◌^◌, ◌≡◌, refl, ap, ◌∙◌, arith, true, false, some, Option, ◌==◌,
}
use jvm_gc_acclelerator.Common.Int.{ℤ, pos}
use jvm_gc_acclelerator.Common.Errno.{ebusy}
use jvm_gc_acclelerator.Dma.Kernel.{Process, Device, Mmu}
use jvm_gc_acclelerator.Dma.Ownership.{AllPut}
use jvm_gc_acclelerator.Hwgc.Regs.{irq_done, event_done, event_error}
use jvm_gc_acclelerator.Hwgc.Types.{Parameters, Event, Hwgc}
use jvm_gc_acclelerator.Hwgc.Events.{new_event, publish_sw_event}
use jvm_gc_acclelerator.Hwgc.Ioctl.{start_ioctl, wait_event_ioctl}
use jvm_gc_acclelerator.Hwgc.Invariant.Reach.{Reach, later, start, Reach-AllPut}
use jvm_gc_acclelerator.Hwgc.Service.Ends.{complete-Reach}
use jvm_gc_acclelerator.Hwgc.Service.{complete, Kind, irq_of, event_of, raising, interrupted}
use jvm_gc_acclelerator.Hwgc.Service.Raised.{
  acknowledged, interrupted-request, event_of-needs_reply,
}
use jvm_gc_acclelerator.Hwgc.Service.Cycle.{
  complete-finish, start_ioctl-IsRunning, acknowledged-IsRunning,
}
use jvm_gc_acclelerator.Shadow.{Shadow, accessed, shadow_va_base, shadow_addr}
use jvm_gc_acclelerator.Shadow.Image.{run_image}
use jvm_gc_acclelerator.Shadow.Image.Restored.{restored, run_image-good}
use jvm_gc_acclelerator.Client.Prepared.{IsStartedWith, start_ioctl-IsStartedWith}
use jvm_gc_acclelerator.Client.Work.{event_of-other, wait-request, start_ioctl-busy}
use jvm_gc_acclelerator.Client.Single.Image.{image}
use jvm_gc_acclelerator.Client.Single.Params.{par}
use jvm_gc_acclelerator.Client.Single.{
  Ending, SingleEnv, wait_once, operate, restore, prepare, main,
}

-- The mapping lies where it was asked for, the device is opened as `fd`, and the wait is not interrupted.
abbrev pub working : ℕ → Process → Device → Mmu → SingleEnv
working fd current device mmu = record {
  mmap = some shadow_va_base;
  opened = pos fd;
  current = current;
  device = device;
  mmu = mmu;
  waited = pos 0;
  copied = true;
}

-- The memory as it is mapped.
abbrev pub mapped : Shadow
mapped = record { base = shadow_va_base; bytes = λ _. 0 }

image-restored : run_image image mapped ≡ accessed (restored image mapped)
image-restored = run_image-good image mapped refl refl

wait_once-done :
    (waited : Hwgc × ℤ × Option Event) (ev : Event)
    → waited.1 ≡ pos 0
    → waited.2 ≡ some ev
    → (ev.type == event_done) ≡ true
    → wait_once waited ≡ (waited.0, Ending.completed)
unfolding wait_once
wait_once-done waited ev fine event done = rw (fine, event, done) refl

wait_once-request :
    (waited : Hwgc × ℤ × Option Event) (ev : Event)
    → waited.1 ≡ pos 0
    → waited.2 ≡ some ev
    → (ev.type == event_done) ≡ false
    → (ev.type == event_error) ≡ false
    → wait_once waited ≡ (waited.0, Ending.unknown_event)
unfolding wait_once
wait_once-request waited ev fine event other no_error = rw (fine, event, other, no_error) refl

event_of-no_error : (k : Kind) → (event_of k == event_error) ≡ false
event_of-no_error Kind.grow = refl
event_of-no_error Kind.expand = refl
event_of-no_error Kind.allocate = refl
event_of-no_error Kind.wake = refl

module _ (fd : ℕ) (current : Process) (mm : ℕ) (mmu : Mmu) (p : Parameters) (d : Hwgc)
    (prepared : par ≡ some p) where
  abbrev started : Hwgc
  started = (start_ioctl (some p) current d).0

  -- The program gets to its wait.
  main-wait_once :
      (dev : Device)
      → main (working fd current dev mmu) d
        ≡ wait_once (wait_event_ioctl (pos 0) true (interrupted dev mmu started))
  unfolding main prepare restore operate
  main-wait_once dev =
      let env = working fd current dev mmu in
      ap (λ q. prepare env mapped q d) prepared ∙ ap (λ after. restore env p after d) image-restored

  module _ (present : d.removing ≡ false) (idle : d.op_active ≡ false)
      (has : current.mm ≡ some mm) where
    main-completes :
        Reach d
        → let (d', ending) = main (working fd current (raising irq_done 0 0) mmu) d in
          (ending ≡ Ending.completed) × (d'.op_active ≡ false) × AllPut d'.dma
    unfolding complete
    main-completes reach =
        let (running, zero, same) = start_ioctl-IsRunning p current mm d present idle has in
        let (off, kept, ret, out) = complete-finish mmu started running in
        let at_end = complete-Reach mmu started (later reach (start (some p) current)) in
        rw
          (
            main-wait_once (raising irq_done 0 0),
            wait_once-done (complete mmu started)
                (new_event event_done 0 0 ((started.event_seq + 1) % 2 ^ 64)) ret out refl,
          )
          (refl, off, Reach-AllPut at_end off)

    main-abandons :
        (k : Kind) (par0 par1 : ℕ)
        → let (d', ending) = main (working fd current (raising (irq_of k) par0 par1) mmu) d in
          (ending ≡ Ending.unknown_event)
          × (d'.op_active ≡ true)
          × (d'.event_in_service ≡ true)
          × ((params' : Parameters) (current' : Process)
              → start_ioctl (some params') current' d' ≡ (d', ebusy))
    main-abandons k par0 par1 =
        let (running, zero, same) = start_ioctl-IsRunning p current mm d present idle has in
        let taken = acknowledged (irq_of k) started in
        let (active, kept, served, ret, event) =
          wait-request (event_of k) par0 par1 taken (event_of-needs_reply k)
            (acknowledged-IsRunning (irq_of k) started running) in
        let published = (publish_sw_event (event_of k) par0 par1 taken).0 in
        rw
          (
            main-wait_once (raising (irq_of k) par0 par1),
            interrupted-request mmu k par0 par1 started running,
            wait_once-request (wait_event_ioctl (pos 0) true published)
                (new_event (event_of k) par0 par1 ((started.event_seq + 1) % 2 ^ 64)) ret event
                (event_of-other k) (event_of-no_error k),
          )
          (
            refl,
            active,
            served,
            λ params' current'.
                start_ioctl-busy params' current' (wait_event_ioctl (pos 0) true published).0 kept
                  active,
          )

par-IsStartedWith :
    (current : Process) (mm : ℕ) (d : Hwgc)
    → current.mm ≡ some mm
    → d.removing ≡ false
    → d.op_active ≡ false
    → (p : Parameters) × (par ≡ some p) × IsStartedWith p current d
unfolding par shadow_addr
par-IsStartedWith current mm d alive there idle =
    (_, refl, start_ioctl-IsStartedWith _ current mm d (ground arith) refl alive there idle)

-- In a reachable state with no operation and no removal, and for a process with an mm, the program runs
-- with its mapping where it was asked for; it can open the device, its wait is not interrupted, and the
-- event can be copied to it; the device raises one interrupt after the start. Then the program restores
-- its memory image without an abort or a bad access, and its start makes the device read exactly its
-- parameters. If the interrupt is DONE, the program says so, no operation runs afterwards, and each page,
-- task and mm has been put as often as a reference to it was taken. If it is a request, the program ends
-- with the message of an unknown event; in the state that it leaves, the operation is still active with
-- the request in service, and a start, by any process, is refused with -EBUSY.
pub main-outcome :
    (fd : ℕ) (current : Process) (mm : ℕ) (mmu : Mmu) (d : Hwgc)
    → Reach d
    → d.removing ≡ false
    → d.op_active ≡ false
    → current.mm ≡ some mm
    → (s : Shadow) × (run_image image mapped ≡ accessed s)
      × ((p : Parameters) × (par ≡ some p) × IsStartedWith p current d)
      × (let (d', ending) = main (working fd current (raising irq_done 0 0) mmu) d in
          (ending ≡ Ending.completed) × (d'.op_active ≡ false) × AllPut d'.dma)
      × ((k : Kind) (par0 par1 : ℕ)
          → let (d', ending) = main (working fd current (raising (irq_of k) par0 par1) mmu) d in
            (ending ≡ Ending.unknown_event)
            × (d'.op_active ≡ true)
            × (d'.event_in_service ≡ true)
            × ((params' : Parameters) (current' : Process)
                → start_ioctl (some params') current' d' ≡ (d', ebusy)))
main-outcome fd current mm mmu d reach present idle has =
    let (p, prepared, begun) = par-IsStartedWith current mm d has present idle in
    (
      restored image mapped,
      image-restored,
      (p, prepared, begun),
      main-completes fd current mm mmu p d prepared present idle has reach,
      λ k par0 par1. main-abandons fd current mm mmu p d prepared present idle has k par0 par1,
    )
