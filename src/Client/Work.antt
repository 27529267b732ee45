-- ===== src/Client/Work.antt =====
-- A worker of loongnix/qemu_dev/hwgc_driver/0_64_1_78.c on the driver of
-- loongnix/qemu_dev/hwgc_driver/hwgc_driver_platform.c: its start ioctl, one interrupt of the device,
-- and its wait. The driver does nothing when the worker closes its file.
use jvm_gc_acclelerator.Common.{
  ℕ, ◌+◌, ◌%◌, ◌^◌, ◌≡◌, refl, arith, true, false, Option, none, some, ◌==◌,
}
use jvm_gc_acclelerator.Common.Int.{ℤ, pos, negsuc}
use jvm_gc_acclelerator.Common.Errno.{ebusy}
use jvm_gc_acclelerator.Dma.Kernel.{Process, Device, Mmu}
use jvm_gc_acclelerator.Dma.Ownership.{AllPut}
use jvm_gc_acclelerator.Hwgc.Regs.{event_done, irq_done}
use jvm_gc_acclelerator.Hwgc.Types.{Parameters, Event, zero_event, Hwgc}
use jvm_gc_acclelerator.Hwgc.Events.{new_event, publish_sw_event, take_event, needs_reply}
use jvm_gc_acclelerator.Hwgc.Ioctl.{start_ioctl, wait_event_ioctl, deliver_event}
use jvm_gc_acclelerator.Hwgc.Channel.Refine.{needs_reply-is_terminal}
use jvm_gc_acclelerator.Hwgc.Invariant.Reach.{Reach, later, start, Reach-AllPut}
use jvm_gc_acclelerator.Hwgc.Service.Ends.{complete-Reach}
use jvm_gc_acclelerator.Hwgc.Service.{complete, Kind, irq_of, event_of, raising, interrupted}
use jvm_gc_acclelerator.Hwgc.Service.Raised.{
  IsRunning, acknowledged, interrupted-request, event_of-needs_reply,
}
use jvm_gc_acclelerator.Hwgc.Service.Cycle.{
  complete-finish, start_ioctl-IsRunning, acknowledged-IsRunning,
}
use jvm_gc_acclelerator.Client.{WaitResult, wait_failed, got, Message, Ended, wait_loop, run_worker}

-- `errno` of an ioctl, if it fails.
abbrev errno_of : ℤ → Option ℕ
errno_of (pos n) = none
errno_of (negsuc n) = some (n + 1)

-- A wait of the worker, by what the driver answers: a cleared event, if nothing was copied.
abbrev as_wait : ℤ → Option Event → WaitResult
as_wait (negsuc n) event = wait_failed (n + 1)
as_wait (pos n) none = got zero_event
as_wait (pos n) (some ev) = got ev

-- How the worker that opened the device ends, by what its start and its wait give.
unfoldable ran : Hwgc × ℤ → Hwgc × ℤ × Option Event → Hwgc × Option Ended
unfolding run_worker
ran (started, start_ret) (waited, wait_ret, event) =
    let ended =
      run_worker
        (record {
          open_errno = none;
          start_errno = errno_of start_ret;
          wait = λ k. as_wait wait_ret event;
        })
        1 in
    elim (errno_of start_ret) [ some e ↦ (started, ended) | none ↦ (waited, ended) ]

-- The worker on a device that raises one interrupt after the start.
unfoldable pub work : Parameters → Process → Device → Mmu → Hwgc → Hwgc × Option Ended
unfolding ran start_ioctl interrupted wait_event_ioctl
work params current dev mmu d =
    let started = start_ioctl (some params) current d in
    ran started (wait_event_ioctl (pos 0) true (interrupted dev mmu started.0))

-- The worker has DONE.
ran-done :
    (started : Hwgc × ℤ) (waited : Hwgc × ℤ × Option Event) (ev : Event)
    → started.1 ≡ pos 0
    → waited.1 ≡ pos 0
    → waited.2 ≡ some ev
    → (ev.type == event_done) ≡ true
    → ran started waited ≡ (waited.0, some (record { result = 0; message = Message.done_message }))
unfolding ran run_worker wait_loop
ran-done started waited ev ok fine event done = rw (ok, fine, event, done) refl

-- The worker has a request.
ran-request :
    (started : Hwgc × ℤ) (waited : Hwgc × ℤ × Option Event) (ev : Event)
    → started.1 ≡ pos 0
    → waited.1 ≡ pos 0
    → waited.2 ≡ some ev
    → (ev.type == event_done) ≡ false
    → ran started waited ≡ (waited.0, some (record { result = 0; message = Message.wait_message }))
unfolding ran run_worker wait_loop
ran-request started waited ev ok fine event other = rw (ok, fine, event, other) refl

pub event_of-other : (k : Kind) → (event_of k == event_done) ≡ false
event_of-other Kind.grow = refl
event_of-other Kind.expand = refl
event_of-other Kind.allocate = refl
event_of-other Kind.wake = refl

pub wait-request :
    (type par0 par1 : ℕ) (d : Hwgc)
    → needs_reply type ≡ true
    → IsRunning d
    → let waited = wait_event_ioctl (pos 0) true (publish_sw_event type par0 par1 d).0 in
      (waited.0.op_active ≡ true)
      × (waited.0.removing ≡ false)
      × (waited.0.event_in_service ≡ true)
      × (waited.1 ≡ pos 0)
      × (waited.2 ≡ some (new_event type par0 par1 ((d.event_seq + 1) % 2 ^ 64)))
unfolding publish_sw_event wait_event_ioctl take_event deliver_event
wait-request type par0 par1 d wants h = ground (
  arith,
  needs_reply-is_terminal type wants,
  h.present,
  h.not_pending,
  h.not_in_service,
  h.active,
)

pub start_ioctl-busy :
    (params : Parameters) (current : Process) (d : Hwgc)
    → d.removing ≡ false
    → d.op_active ≡ true
    → start_ioctl (some params) current d ≡ (d, ebusy)
unfolding start_ioctl
start_ioctl-busy params current d present active = rw (present, active) refl

-- The device makes a request.
work-abandons :
    (params : Parameters) (current : Process) (mm : ℕ) (mmu : Mmu) (k : Kind) (par0 par1 : ℕ)
    (d : Hwgc)
    → d.removing ≡ false
    → d.op_active ≡ false
    → current.mm ≡ some mm
    → let (d', ended) = work params current (raising (irq_of k) par0 par1) mmu d in
      (ended ≡ some (record { result = 0; message = Message.wait_message }))
      × (d'.op_active ≡ true)
      × (d'.event_in_service ≡ true)
      × ((params' : Parameters) (current' : Process)
          → start_ioctl (some params') current' d' ≡ (d', ebusy))
unfolding work
work-abandons params current mm mmu k par0 par1 d present idle has =
    let (running, started, same) = start_ioctl-IsRunning params current mm d present idle has in
    let d1 = (start_ioctl (some params) current d).0 in
    let (active, kept, served, ret, event) =
      wait-request (event_of k) par0 par1 (acknowledged (irq_of k) d1) (event_of-needs_reply k)
        (acknowledged-IsRunning (irq_of k) d1 running) in
    let d2 = (publish_sw_event (event_of k) par0 par1 (acknowledged (irq_of k) d1)).0 in
    let ends =
      ran-request (start_ioctl (some params) current d) (wait_event_ioctl (pos 0) true d2)
        (new_event (event_of k) par0 par1 ((d1.event_seq + 1) % 2 ^ 64)) started ret event
        (event_of-other k) in
    rw (interrupted-request mmu k par0 par1 d1 running, ends)
      (
        refl,
        active,
        served,
        λ params' current'.
            start_ioctl-busy params' current' (wait_event_ioctl (pos 0) true d2).0 kept active,
      )

-- The device is done.
work-completes :
    (params : Parameters) (current : Process) (mm : ℕ) (mmu : Mmu) (d : Hwgc)
    → Reach d
    → d.removing ≡ false
    → d.op_active ≡ false
    → current.mm ≡ some mm
    → let (d', ended) = work params current (raising irq_done 0 0) mmu d in
      (ended ≡ some (record { result = 0; message = Message.done_message }))
      × (d'.op_active ≡ false)
      × AllPut d'.dma
unfolding work complete
work-completes params current mm mmu d reach present idle has =
    let (running, started, same) = start_ioctl-IsRunning params current mm d present idle has in
    let d1 = (start_ioctl (some params) current d).0 in
    let (off, kept, ret, out) = complete-finish mmu d1 running in
    let at_end = complete-Reach mmu d1 (later reach (start (some params) current)) in
    rw
      (ran-done (start_ioctl (some params) current d) (complete mmu d1)
        (new_event event_done 0 0 ((d1.event_seq + 1) % 2 ^ 64)) started ret out refl)
      (refl, off, Reach-AllPut at_end off)

-- In a reachable state with no operation and no removal, and for a process with an mm, a worker runs that
-- has opened the device, whose wait is not interrupted, and to which the event can be copied; the device
-- raises one interrupt after the start. If the interrupt is DONE, the worker ends with the result 0 and
-- the message that it is done, and afterwards no operation runs and each page, task and mm has been put as
-- often as a reference to it was taken. If it is a request, the worker ends with the result 0, too, and
-- with the text that a failed wait has; in the state that it leaves, the operation is still active with
-- the request in service, and a start, by any process, is refused with -EBUSY.
pub work-outcome :
    (params : Parameters) (current : Process) (mm : ℕ) (mmu : Mmu) (d : Hwgc)
    → Reach d
    → d.removing ≡ false
    → d.op_active ≡ false
    → current.mm ≡ some mm
    → (let (d', ended) = work params current (raising irq_done 0 0) mmu d in
        (ended ≡ some (record { result = 0; message = Message.done_message }))
        × (d'.op_active ≡ false)
        × AllPut d'.dma)
      × ((k : Kind) (par0 par1 : ℕ)
          → let (d', ended) = work params current (raising (irq_of k) par0 par1) mmu d in
            (ended ≡ some (record { result = 0; message = Message.wait_message }))
            × (d'.op_active ≡ true)
            × (d'.event_in_service ≡ true)
            × ((params' : Parameters) (current' : Process)
                → start_ioctl (some params') current' d' ≡ (d', ebusy)))
work-outcome params current mm mmu d reach present idle has = (
  work-completes params current mm mmu d reach present idle has,
  λ k par0 par1. work-abandons params current mm mmu k par0 par1 d present idle has,
)
