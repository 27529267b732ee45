-- ===== src/Client/Single.antt =====
-- The program loongnix/qemu_dev/hwgc_driver/test_44.c, which runs one operation on one device. What the
-- system calls return is an argument; so is the device, which raises one interrupt after the start.
pub mod Image
pub mod Params
pub mod Ends
use jvm_gc_acclelerator.Common.{ℕ, Bool, Option, none, some, ◌==◌, if◌then◌else◌}
use jvm_gc_acclelerator.Common.Int.{ℤ, pos, is_neg}
use jvm_gc_acclelerator.Dma.Kernel.{Process, Device, Mmu}
use jvm_gc_acclelerator.Hwgc.Regs.{event_done, event_error}
use jvm_gc_acclelerator.Hwgc.Types.{Parameters, Event, zero_event, Hwgc}
use jvm_gc_acclelerator.Hwgc.Ioctl.{start_ioctl, wait_event_ioctl}
use jvm_gc_acclelerator.Hwgc.Service.{interrupted}
use jvm_gc_acclelerator.Shadow.{Shadow, Outcome, aborted, unmapped, accessed, init_shadow_chunks}
use jvm_gc_acclelerator.Shadow.Image.{run_image}
use jvm_gc_acclelerator.Client.Single.Image.{image}
use jvm_gc_acclelerator.Client.Single.Params.{par}

-- How the program ends: by an abort, by an access outside the mapping, or with the exit status 0 after
-- one of its messages.
pub data Ending : Type 0 where
  abort crash not_open wait_error completed failed unknown_event : Ending

-- `waited` and `copied` are for the wait ioctl, `opened` is what `open` returns.
pub record SingleEnv : Type 0 where
  pub mmap : Option ℕ
  pub opened : ℤ
  pub current : Process
  pub device : Device
  pub mmu : Mmu
  pub waited : ℤ
  pub copied : Bool

-- The event that the program looks at; it has cleared it before the ioctl.
abbrev pub event_of_wait : Option Event → Event
event_of_wait none = zero_event
event_of_wait (some ev) = ev

-- `while (1)`, which no event continues.
unfoldable pub wait_once : Hwgc × ℤ × Option Event → Hwgc × Ending
wait_once (d, ret, event) =
    let type = (event_of_wait event).type in
    if is_neg ret
    then (d, Ending.wait_error)
    else if type == event_done
    then (d, Ending.completed)
    else if type == event_error
    then (d, Ending.failed)
    else (d, Ending.unknown_event)

-- From `open` on; the result of the start ioctl is not looked at.
unfoldable pub operate : SingleEnv → Parameters → Hwgc → Hwgc × Ending
unfolding start_ioctl interrupted wait_event_ioctl wait_once
operate env p d =
    let started = (start_ioctl (some p) env.current d).0 in
    if is_neg env.opened
    then (d, Ending.not_open)
    else wait_once (wait_event_ioctl env.waited env.copied (interrupted env.device env.mmu started))

-- From the restored memory on.
unfoldable pub restore : SingleEnv → Parameters → Outcome Shadow → Hwgc → Hwgc × Ending
unfolding operate
restore env p aborted d = (d, Ending.abort)
restore env p unmapped d = (d, Ending.crash)
restore env p (accessed s) d = operate env p d

-- From the parameters on; `none` is an abort of one of them.
unfoldable pub prepare : SingleEnv → Shadow → Option Parameters → Hwgc → Hwgc × Ending
unfolding restore run_image
prepare env s none d = (d, Ending.abort)
prepare env s (some p) d = restore env p (run_image image s) d

unfoldable pub main : SingleEnv → Hwgc → Hwgc × Ending
unfolding prepare
main env d = elim (init_shadow_chunks env.mmap) [
  | none ↦ (d, Ending.abort)
  | some s ↦ prepare env s par d
]
