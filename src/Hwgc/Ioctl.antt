-- ===== src/Hwgc/Ioctl.antt =====
-- The ioctls of loongnix/qemu_dev/hwgc_driver/hwgc_driver_platform.c. What the calling process
-- brings is an argument: `copy_from_user` gives `none` when it fails.
use jvm_gc_acclelerator.Common.{
  ℕ, ◌+◌, ◌*◌, ◌^◌, Bool, true, false, not, ◌||◌, Option, none, some, ◌==◌, if◌then◌else◌,
}
use jvm_gc_acclelerator.Common.Int.{ℤ, pos, is_nonzero}
use jvm_gc_acclelerator.Common.Errno.{ebusy, efault, einval, enodev, enotty}
use jvm_gc_acclelerator.Dma.Kernel.{Process, DmaContext}
use jvm_gc_acclelerator.Dma.{hold_process_context}
use jvm_gc_acclelerator.Hwgc.Regs.{
  reg_status, reg_irq_clear, reg_cmd, reg_irq_res0, reg_irq_res1, cmd_start, cmd_continue,
  cmd_reset, st_irq_en, irq_all,
}
use jvm_gc_acclelerator.Hwgc.Types.{Parameters, Event, zero_event, Hwgc, reg_write32, reg_write64}
use jvm_gc_acclelerator.Hwgc.Events.{
  needs_reply, is_terminal, clear_event_state, finish_operation, Taken, take_event, restore_event,
}
use jvm_gc_acclelerator.Hwgc.Params.{program_parameters}

-- The device is reset and cleared, given its parameters and started.
unfoldable pub start_device : Parameters → Hwgc → Hwgc
unfolding program_parameters
start_device params d =
    let reset = reg_write32 d cmd_reset reg_cmd in
    let cleared = reg_write32 reset irq_all reg_irq_clear in
    let enabled = reg_write32 cleared st_irq_en reg_status in
    reg_write32 (program_parameters params enabled) cmd_start reg_cmd

-- The fields of a new operation, before the device is touched.
unfoldable pub new_operation : Hwgc → DmaContext → Hwgc
unfolding clear_event_state
new_operation d dma =
    let fresh = record d {
      dma = record dma { nr_pinned = 0 };
      op_status = pos 0;
      pending_irq = 0;
    } in
    record (clear_event_state fresh) { op_active = true }

-- From the references to the process on, under `op_lock`.
unfoldable pub start_held : Parameters → Hwgc → DmaContext × Bool → Hwgc × ℤ
unfolding start_device new_operation
start_held params d (dma, false) = (record d { dma = dma }, einval)
start_held params d (dma, true) = (start_device params (new_operation d dma), pos 0)

unfoldable pub start_ioctl : Option Parameters → Process → Hwgc → Hwgc × ℤ
unfolding start_held hold_process_context
start_ioctl none current d = (d, efault)
start_ioctl (some params) current d =
    if d.removing
    then (d, enodev)
    else if d.op_active
    then (d, ebusy)
    else start_held params d (hold_process_context current d.dma)

-- The condition that `wait_event_interruptible` waits for.
unfoldable pub wait_condition : Hwgc → Bool
wait_condition d = d.event_pending || d.removing || not d.op_active

-- What follows the first critical section: the copy to the process, which may fail, and the end of
-- the operation after a terminal event. `some` is the event that reached the process.
unfoldable pub deliver_event : Bool → Hwgc × Taken → Hwgc × ℤ × Option Event
unfolding restore_event finish_operation is_terminal
deliver_event copied (d, Taken.refused ret) = (d, ret, none)
deliver_event copied (d, Taken.taken ev) =
    if not copied
    then (restore_event ev d, efault, none)
    else (if is_terminal ev.type then finish_operation d else d, pos 0, some ev)

-- `waited` is the result of `wait_event_interruptible`, and `d` the state when it returned.
unfoldable pub wait_event_ioctl : ℤ → Bool → Hwgc → Hwgc × ℤ × Option Event
unfolding take_event deliver_event
wait_event_ioctl waited copied d =
    if is_nonzero waited then (d, waited, none) else deliver_event copied (take_event d)

-- The critical section of `hwgc_reply_event_ioctl`.
unfoldable pub accept_reply : Event → Hwgc → Hwgc × ℤ
accept_reply ev d =
    if d.removing
    then (d, enodev)
    else if not d.event_in_service
    then (d, einval)
    else if not (ev.seq == d.current_event.seq) || not (ev.type == d.current_event.type)
    then (d, einval)
    else (record d { event_in_service = false; current_event = zero_event }, pos 0)

-- The results of the event go to the device, which goes on.
unfoldable pub write_reply : Event → Hwgc × ℤ → Hwgc × ℤ
write_reply ev (d, ret) =
    if is_nonzero ret
    then (d, ret)
    else let res0 = reg_write64 d ev.res0 reg_irq_res0 in
      let res1 = reg_write64 res0 ev.res1 reg_irq_res1 in
      (reg_write32 res1 cmd_continue reg_cmd, pos 0)

unfoldable pub reply_event_ioctl : Option Event → Hwgc → Hwgc × ℤ
unfolding accept_reply write_reply needs_reply
reply_event_ioctl none d = (d, efault)
reply_event_ioctl (some ev) d =
    if not (needs_reply ev.type) then (d, einval) else write_reply ev (accept_reply ev d)

-- `_IOC(dir, 'x', nr, size)` of asm-generic/ioctl.h, the fields being disjoint.
abbrev pub ioc : ℕ → ℕ → ℕ → ℕ
ioc dir nr size = dir * 2 ^ 30 + size * 2 ^ 16 + 0x78 * 2 ^ 8 + nr

-- `sizeof(struct HWGCParameters)` and `sizeof(struct HWGCEvent)`
abbrev pub sizeof_parameters : ℕ
sizeof_parameters = 184

abbrev pub sizeof_event : ℕ
sizeof_event = 48

abbrev pub hwgc_ioc_start : ℕ
hwgc_ioc_start = ioc 3 1 sizeof_parameters

abbrev pub hwgc_ioc_wait_event : ℕ
hwgc_ioc_wait_event = ioc 2 2 sizeof_event

abbrev pub hwgc_ioc_reply_event : ℕ
hwgc_ioc_reply_event = ioc 1 3 sizeof_event

-- What one call of `ioctl` brings from outside.
pub record Caller : Type 0 where
  pub current : Process
  pub params : Option Parameters
  pub waited : ℤ
  pub copied : Bool
  pub reply : Option Event

-- `switch (cmd)` of `hwgc_ioctl`; `none` is a file with no device.
unfoldable pub hwgc_ioctl : ℕ → Caller → Option Hwgc → Option Hwgc × ℤ × Option Event
unfolding start_ioctl wait_event_ioctl reply_event_ioctl
hwgc_ioctl cmd caller none = (none, enodev, none)
hwgc_ioctl cmd caller (some d) =
    let (started, start_ret) = start_ioctl caller.params caller.current d in
    let (waited, wait_ret, event) = wait_event_ioctl caller.waited caller.copied d in
    let (replied, reply_ret) = reply_event_ioctl caller.reply d in
    if cmd == hwgc_ioc_start
    then (some started, start_ret, none)
    else if cmd == hwgc_ioc_wait_event
    then (some waited, wait_ret, event)
    else if cmd == hwgc_ioc_reply_event
    then (some replied, reply_ret, none)
    else (some d, enotty, none)
