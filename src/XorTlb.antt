-- ===== src/XorTlb.antt =====
-- The driver of the XOR test device, loongnix/qemu_dev/test_device/xor_tlbdev_drv.c. Its ioctl runs
-- one operation from start to end; the interrupts that come while it waits are a list.
pub mod Regs
pub mod Pages
pub mod Probe
pub mod Address
pub mod Balance
pub mod Probing
pub mod Runs
pub mod Outcome
pub mod Misses
pub mod Serves
pub mod Program
use jvm_gc_acclelerator.Common.{
  ℕ, zero, suc, ◌+◌, ◌-◌, ◌^◌, Bool, true, false, not, ◌&&◌, ◌||◌, Option, none, some, List, [],
  ◌∷◌, bit_and, bit_or, leb, ltb, ◌==◌, if◌then◌else◌,
}
use jvm_gc_acclelerator.Common.Int.{ℤ, pos, negsuc, is_neg, is_nonzero, to_int}
use jvm_gc_acclelerator.Common.Errno.{ebusy, efault, einval, eio, enodev, enotty, etimedout}
use jvm_gc_acclelerator.Dma.Kernel.{DmaContext, Process, Device, Mmu, Call, log}
use jvm_gc_acclelerator.Dma.{hold_process_context}
use jvm_gc_acclelerator.XorTlb.Pages.{unpin_all, release_process_context, fill_tlb_for_miss}
use jvm_gc_acclelerator.XorTlb.Regs.{
  reg_status, reg_irq_status, reg_irq_clear, reg_cmd, reg_a_va, reg_b_va, reg_out_va, cmd_start,
  cmd_reset, st_irq_en, irq_tlb_miss, irq_done, irq_error, irq_all, xor_tlb_ioc_run,
}

-- `struct xor_tlbdev`; `done` counts the completions that nobody has waited for.
pub record XorTlbdev : Type 0 where
  pub dma : DmaContext
  pub open dma use *
  pub done : ℕ
  pub op_active : Bool
  pub op_status : ℤ
  pub pending_irq : ℕ

-- `struct xor_tlb_op`
pub record Operation : Type 0 where
  pub a : ℕ
  pub b : ℕ
  pub out : ℕ
  pub result : ℕ

abbrev pub emit : Call → XorTlbdev → XorTlbdev
emit call d = record d { dma = log call d.dma }

abbrev pub reset_device : XorTlbdev → XorTlbdev
reset_device d = emit (Call.write32 reg_cmd cmd_reset) d

abbrev pub complete : XorTlbdev → XorTlbdev
complete d = record d { done = d.done + 1 }

unfoldable pub irq_top : Device → XorTlbdev → XorTlbdev
irq_top dev d =
    let st = dev.read32 reg_irq_status in
    if st == 0
    then d
    else let cleared = emit (Call.write32 reg_irq_clear st) d in
      record cleared { pending_irq = bit_or cleared.pending_irq st }

abbrev pub has_irq : ℕ → ℕ → Bool
has_irq mask pending = not (bit_and pending mask == 0)

-- The operation fails with a status.
abbrev pub fail : ℤ → XorTlbdev → XorTlbdev
fail status d = complete (reset_device (record d { op_status = status }))

abbrev pub handle_done : Bool → XorTlbdev → XorTlbdev
handle_done raised d = if raised then complete (record d { op_status = pos 0 }) else d

-- After the service of a TLB miss.
unfoldable pub after_miss : Bool → XorTlbdev → DmaContext × ℤ → XorTlbdev
after_miss done d (dma, ret) =
    let d' = record d { dma = dma } in if is_nonzero ret then fail ret d' else handle_done done d'

-- The blocks of `xor_irq_thread`, for the interrupts that were pending.
unfoldable pub handle_pending : Device → Mmu → ℕ → XorTlbdev → XorTlbdev
unfolding after_miss
handle_pending dev mmu pending d =
    let done = has_irq irq_done pending in
    if has_irq irq_error pending
    then fail eio d
    else if has_irq irq_tlb_miss pending
    then after_miss done d (fill_tlb_for_miss dev mmu d.dma)
    else handle_done done d

unfoldable pub irq_thread : Device → Mmu → XorTlbdev → XorTlbdev
unfolding handle_pending
irq_thread dev mmu d = handle_pending dev mmu d.pending_irq (record d { pending_irq = 0 })

-- A half of the interrupt handler that runs while the ioctl waits.
pub data Interrupt : Type 0 where
  top : Device → Interrupt
  thread : Device → Mmu → Interrupt

unfoldable pub run_interrupts : List Interrupt → XorTlbdev → XorTlbdev
unfolding irq_top irq_thread
run_interrupts [] d = d
run_interrupts (Interrupt.top dev ∷ rest) d = run_interrupts rest (irq_top dev d)
run_interrupts (Interrupt.thread dev mmu ∷ rest) d = run_interrupts rest (irq_thread dev mmu d)

-- An operand is aligned, and lies in one page of `2 ^ page_shift` bytes.
unfoldable pub u64_user_addr_ok : ℕ → ℕ → Bool
u64_user_addr_ok page_shift addr =
    if addr == 0
    then false
    else if not (bit_and addr (8 - 1) == 0)
    then false
    else if ltb (2 ^ page_shift - 8) (bit_and addr (2 ^ page_shift - 1))
    then false
    else true

-- The device is reset, cleared, given the operands and started.
unfoldable pub start_device : Operation → XorTlbdev → XorTlbdev
start_device op d = emit (Call.write32 reg_cmd cmd_start) (
    emit (Call.write64 reg_out_va op.out) (
      emit (Call.write64 reg_b_va op.b) (
        emit (Call.write64 reg_a_va op.a) (
          emit (Call.write32 reg_status st_irq_en)
            (emit (Call.write32 reg_irq_clear irq_all) (reset_device d))))))

-- The fields of a new operation, whose references are held in `dma`.
abbrev pub new_operation : XorTlbdev → DmaContext → XorTlbdev
new_operation d dma = record d {
  dma = record dma { nr_pinned = 0 };
  op_active = true;
  op_status = pos 0;
  done = 0;
  pending_irq = 0;
}

-- What the wait returned: 0 after the time, negative for a signal; else it has consumed a completion.
unfoldable pub wait_result : ℤ → XorTlbdev → XorTlbdev × ℤ
wait_result (pos n) d =
    if n == 0 then (reset_device d, etimedout) else (record d { done = d.done - 1 }, d.op_status)
wait_result (negsuc n) d = (reset_device d, to_int (negsuc n))

-- The result is read from the process's memory and copied to it, if the operation succeeded.
unfoldable pub copy_result : Option ℕ → Bool → Operation → ℤ → ℤ × Option Operation
copy_result read copied op ret = if is_nonzero ret then (ret, none) else elim read [
  | none ↦ (efault, none)
  | some result ↦ if copied then (pos 0, some (record op { result = result })) else (efault, none)
]

-- `synchronize_irq`: the interrupt thread is done.
abbrev pub synchronize : XorTlbdev → XorTlbdev
synchronize d = emit Call.synchronize_irq d

-- The end of every operation: the references are put back.
unfoldable pub end_operation : XorTlbdev → XorTlbdev
end_operation d = record d { dma = release_process_context (unpin_all d.dma); op_active = false }

-- What one call of the ioctl brings from outside; `late` are the interrupts between the wait and
-- `synchronize_irq`.
pub record Caller : Type 0 where
  pub op : Option Operation
  pub current : Process
  pub page_shift : ℕ
  pub interrupts : List Interrupt
  pub waited : ℤ
  pub late : List Interrupt
  pub read : Option ℕ
  pub copied : Bool

-- From the references to the process on, under `op_lock`.
unfoldable pub run_operation :
    Caller → Operation → XorTlbdev → DmaContext × Bool → XorTlbdev × ℤ × Option Operation
unfolding start_device run_interrupts wait_result copy_result end_operation
run_operation caller op d (dma, false) = (record d { dma = dma }, einval, none)
run_operation caller op d (dma, true) =
    let started = start_device op (new_operation d dma) in
    let (waited, ret) = wait_result caller.waited (run_interrupts caller.interrupts started) in
    let (ret', out) = copy_result caller.read caller.copied op ret in
    (end_operation (synchronize (run_interrupts caller.late waited)), ret', out)

unfoldable pub xor_run : Caller → Option Operation → XorTlbdev → XorTlbdev × ℤ × Option Operation
unfolding run_operation u64_user_addr_ok hold_process_context
xor_run caller none d = (d, efault, none)
xor_run caller (some op) d =
    let addr_ok = u64_user_addr_ok caller.page_shift in
    if not (addr_ok op.a) || not (addr_ok op.b) || not (addr_ok op.out)
    then (d, einval, none)
    else if d.op_active
    then (d, ebusy, none)
    else run_operation caller op d (hold_process_context caller.current d.dma)

-- `none` is a `global_dev` that is NULL.
unfoldable pub xor_ioctl : ℕ → Caller → Option XorTlbdev → Option XorTlbdev × ℤ × Option Operation
unfolding xor_run
xor_ioctl cmd caller none = (none, enodev, none)
xor_ioctl cmd caller (some d) =
    if not (cmd == xor_tlb_ioc_run)
    then (some d, enotty, none)
    else let (d', ret, out) = xor_run caller caller.op d in (some d', ret, out)

-- The section of `xor_remove` under `op_lock`.
unfoldable pub stop_device : XorTlbdev → XorTlbdev
unfolding end_operation
stop_device d = end_operation (synchronize (reset_device d))
