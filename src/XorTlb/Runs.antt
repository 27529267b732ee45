-- ===== src/XorTlb/Runs.antt =====
-- The XOR driver from probe to remove: calls of the ioctl, and interrupts between them.
use jvm_gc_acclelerator.Common.{
  ◌≡◌, refl, ◌∙◌, arith, true, false, not, ◌||◌, Option, none, some, if_keeps, if◌then◌else◌,
}
use jvm_gc_acclelerator.Common.Int.{ℤ}
use jvm_gc_acclelerator.Common.Errno.{einval, ebusy}
use jvm_gc_acclelerator.Dma.Kernel.{Device, Mmu}
use jvm_gc_acclelerator.Dma.{hold_process_context}
use jvm_gc_acclelerator.Dma.Count.{slots_from}
use jvm_gc_acclelerator.Dma.Ownership.{AllPut, IsEmpty-AllPut, hold_process_context-Owns}
use jvm_gc_acclelerator.XorTlb.Regs.{reg_cmd, cmd_reset}
use jvm_gc_acclelerator.XorTlb.{
  XorTlbdev, Operation, Caller, irq_top, irq_thread, handle_pending, after_miss, run_operation,
  xor_run, u64_user_addr_ok, end_operation, stop_device, synchronize, reset_device,
}
use jvm_gc_acclelerator.XorTlb.Probe.{new_xor_tlbdev}
use jvm_gc_acclelerator.XorTlb.Balance.{
  Kept, write32-KeptAt, irq_top-Kept, irq_thread-Kept, end_operation-Kept, synchronize-Kept,
  run_operation-Kept,
}

-- From the structure that probe leaves; each call of the ioctl runs whole under `op_lock`.
pub data Run : XorTlbdev → Type 0 where
  probed : Run new_xor_tlbdev
  interrupt : {d : XorTlbdev} (dev : Device) → Run d → Run (irq_top dev d)
  thread : {d : XorTlbdev} (dev : Device) (mmu : Mmu) → Run d → Run (irq_thread dev mmu d)
  ioctl :
      {d : XorTlbdev} (caller : Caller) (op : Option Operation)
      → Run d
      → Run (xor_run caller op d).0
  stop : {d : XorTlbdev} → Run d → Run (stop_device d)

abbrev KeptRun : XorTlbdev × ℤ × Option Operation → Type 0
KeptRun r = Kept true r.0

xor_run-Kept :
    (caller : Caller) (op : Option Operation) (d : XorTlbdev)
    → Kept true d
    → Kept true (xor_run caller op d).0
unfolding xor_run
xor_run-Kept caller none d h = h
xor_run-Kept caller (some op) d h =
    let addr_ok = u64_user_addr_ok caller.page_shift in
    let held = hold_process_context caller.current d.dma in
    let run = run_operation caller op d held in
    let at_hold = hold_process_context-Owns caller.current d.dma h.owns (h.idle_empty refl) in
    if_keeps KeptRun (not (addr_ok op.a) || not (addr_ok op.b) || not (addr_ok op.out))
      (d, einval, none) (if d.op_active then (d, ebusy, none) else run) h
      (if_keeps KeptRun d.op_active (d, ebusy, none) run h
        (run_operation-Kept caller op d held at_hold.0 at_hold.1
          (λ failed. at_hold.3 (ground (arith, at_hold.2)))))

stop_device-Kept : (d : XorTlbdev) → Kept true d → Kept true (stop_device d)
unfolding stop_device
stop_device-Kept d h =
    let reset = synchronize-Kept (reset_device d) (write32-KeptAt reg_cmd cmd_reset h) in
    end_operation-Kept (synchronize (reset_device d)) reset.owns

new_xor_tlbdev-Kept : Kept true new_xor_tlbdev
unfolding slots_from
new_xor_tlbdev-Kept = record {
  owns = record {
    bounded = omega arith;
    once = λ p. omega arith;
    pages = λ p. omega arith;
    tasks = λ t. omega arith;
    mms = λ m. omega arith;
  };
  idle_empty = λ _. ground arith;
}

Run-Kept : {d : XorTlbdev} → Run d → Kept true d
Run-Kept probed = new_xor_tlbdev-Kept
Run-Kept (interrupt {d} dev r) = irq_top-Kept dev d (Run-Kept r)
Run-Kept (thread {d} dev mmu r) = irq_thread-Kept dev mmu d (Run-Kept r)
Run-Kept (ioctl {d} caller op r) = xor_run-Kept caller op d (Run-Kept r)
Run-Kept (stop {d} r) = stop_device-Kept d (Run-Kept r)

irq_thread-active :
    (dev : Device) (mmu : Mmu) (d : XorTlbdev) → (irq_thread dev mmu d).op_active ≡ d.op_active
unfolding irq_thread handle_pending after_miss
irq_thread-active dev mmu d = ground arith

xor_run-active :
    (caller : Caller) (op : Option Operation) (d : XorTlbdev)
    → d.op_active ≡ false
    → (xor_run caller op d).0.op_active ≡ false
unfolding xor_run run_operation end_operation
xor_run-active caller op d idle = ground arith

Run-idle : {d : XorTlbdev} → Run d → d.op_active ≡ false
unfolding irq_top stop_device end_operation
Run-idle probed = refl
Run-idle (interrupt {d} dev r) = ground (arith, Run-idle r)
Run-idle (thread {d} dev mmu r) = irq_thread-active dev mmu d ∙ Run-idle r
Run-idle (ioctl {d} caller op r) = xor_run-active caller op d (Run-idle r)
Run-idle (stop {d} r) = refl

-- Between two calls of the ioctl, however the earlier ones ended (success, an error of the
-- device, a timeout, a signal, a failed copy) and whatever interrupts came, no operation is
-- active and each page, task and mm has been put as often as a reference to it was taken.
pub Run-AllPut : {d : XorTlbdev} → Run d → (d.op_active ≡ false) × AllPut d.dma
Run-AllPut r = let h = Run-Kept r in (Run-idle r, IsEmpty-AllPut h.owns (h.idle_empty refl))
