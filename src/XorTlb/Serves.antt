-- ===== src/XorTlb/Serves.antt =====
-- A whole operation of the XOR device, from the ioctl's call to its return.
use jvm_gc_acclelerator.Common.{
  ℕ, suc, ◌-◌, ◌≤◌, ◌≡◌, refl, sym, ◌∙◌, ap, subst, arith, true, false, some, List, [], ◌∷◌, ◌++◌,
  Option, length,
}
use jvm_gc_acclelerator.Common.Int.{ℤ, pos}
use jvm_gc_acclelerator.Dma.Kernel.{DmaContext, Process, Mmu, Call}
use jvm_gc_acclelerator.Dma.Answer.{writes}
use jvm_gc_acclelerator.Dma.Missed.{Miss, pushed, pushed-++, released-writes}
use jvm_gc_acclelerator.Dma.Ownership.{AllPut}
use jvm_gc_acclelerator.Dma.{hold_process_context}
use jvm_gc_acclelerator.XorTlb.Regs.{
  max_pinned, reg_cmd, reg_irq_clear, reg_status, reg_a_va, reg_b_va, reg_out_va, cmd_reset,
  cmd_start, irq_all, st_irq_en,
}
use jvm_gc_acclelerator.XorTlb.{
  XorTlbdev, Operation, Caller, xor_run, run_operation, u64_user_addr_ok, start_device,
  new_operation, run_interrupts, wait_result, copy_result, end_operation, synchronize,
}
use jvm_gc_acclelerator.XorTlb.Misses.{
  interrupts_of, interrupts_sent, IsWorking, IsFinished, AllMapped, run_interrupts-IsFinished,
}
use jvm_gc_acclelerator.XorTlb.Runs.{Run, ioctl, Run-AllPut}

-- A call whose operation the device completes after some misses; `left` is the time left of the wait.
abbrev pub serving : Operation → Process → ℕ → Mmu → List Miss → ℕ → ℕ → Caller
serving op current page_shift mmu misses left result = record {
  op = some op;
  current = current;
  page_shift = page_shift;
  interrupts = interrupts_of mmu misses;
  waited = pos (suc left);
  late = [];
  read = some result;
  copied = true;
}

-- What the device is sent at the start, in the order in which it is sent.
abbrev pub start_sent : Operation → List Call
start_sent op =
    Call.write32 reg_cmd cmd_reset
    ∷ Call.write32 reg_irq_clear irq_all
    ∷ Call.write32 reg_status st_irq_en
    ∷ Call.write64 reg_a_va op.a
    ∷ Call.write64 reg_b_va op.b
    ∷ Call.write64 reg_out_va op.out
    ∷ Call.write32 reg_cmd cmd_start
    ∷ []

abbrev held : Process → ℕ → DmaContext → DmaContext
held current mm c = record c {
  active_task = some current.task;
  active_mm = some mm;
  calls = Call.get_task_mm mm ∷ Call.get_task_struct current.task ∷ c.calls;
}

hold_process_context-live :
    (current : Process) (mm : ℕ) (c : DmaContext)
    → current.mm ≡ some mm
    → hold_process_context current c ≡ (held current mm c, true)
unfolding hold_process_context
hold_process_context-live current mm c has = rw has refl

start_device-IsWorking :
    (op : Operation) (current : Process) (mm : ℕ) (d : XorTlbdev)
    → IsWorking current.task mm 0 (start_device op (new_operation d (held current mm d.dma)))
unfolding start_device
start_device-IsWorking op current mm d = record {
  no_irq = refl;
  not_done = refl;
  task_held = refl;
  mm_held = refl;
  room = omega arith;
}

start_device-sent :
    (op : Operation) (current : Process) (mm : ℕ) (d : XorTlbdev)
    → writes (start_device op (new_operation d (held current mm d.dma))).calls
      ≡ pushed (start_sent op) (writes d.calls)
unfolding start_device
start_device-sent op current mm d = refl

-- The ioctl's end, if the device has completed the operation.
record IsServed (op : Operation) (result : ℕ) (sent : List Call)
    (r : XorTlbdev × ℤ × Option Operation) : Type 0 where
  ret : r.1 ≡ pos 0
  out : r.2 ≡ some (record op { result = result })
  waited_for : r.0.done ≡ 0
  sent_all : writes r.0.calls ≡ sent

wait_result-woken :
    (left : ℕ) (d : XorTlbdev)
    → wait_result (pos (suc left)) d ≡ (record d { done = d.done - 1 }, d.op_status)
unfolding wait_result
wait_result-woken left d = ground arith

-- From the end of the wait on.
abbrev after_wait : Operation → ℕ → XorTlbdev × ℤ → XorTlbdev × ℤ × Option Operation
after_wait op result (d, ret) = (
  end_operation (synchronize (run_interrupts [] d)),
  (copy_result (some result) true op ret).0,
  (copy_result (some result) true op ret).1,
)

after_wait-IsServed :
    (op : Operation) (left result : ℕ) (sent : List Call) (d : XorTlbdev)
    → IsFinished d sent
    → IsServed op result sent (after_wait op result (wait_result (pos (suc left)) d))
unfolding copy_result run_interrupts end_operation
after_wait-IsServed op left result sent d h =
    let one = h.one_done in
    let status = h.status in
    rw (wait_result-woken left d, h.status)
      (record {
        ret = refl;
        out = refl;
        waited_for = omega (arith, one);
        sent_all = released-writes (synchronize d).dma ∙ h.sent_all;
      })

module _ (op : Operation) (current : Process) (mm page_shift : ℕ) (mmu : Mmu) (pages : ℕ → ℕ)
    (misses : List Miss) (left result : ℕ) (d : XorTlbdev) where
  abbrev caller : Caller
  caller = serving op current page_shift mmu misses left result

  abbrev sent : List Call
  sent = pushed (start_sent op ++ interrupts_sent mmu pages misses) (writes d.calls)

  run_operation-IsServed :
      current.mm ≡ some mm
      → length misses ≤ max_pinned
      → AllMapped mmu current.task mm pages misses
      → IsServed op result sent (run_operation caller op d (hold_process_context current d.dma))
  unfolding run_operation
  run_operation-IsServed has few mapped =
      let started = start_device op (new_operation d (held current mm d.dma)) in
      let finished =
        run_interrupts-IsFinished mmu current.task mm pages 0 misses started (omega (arith, few))
          mapped (start_device-IsWorking op current mm d) in
      let at_end =
        ap (pushed (interrupts_sent mmu pages misses)) (start_device-sent op current mm d)
        ∙ sym (pushed-++ (start_sent op) (interrupts_sent mmu pages misses) (writes d.calls)) in
      rw (hold_process_context-live current mm d.dma has) (
        after_wait-IsServed op left result sent (run_interrupts caller.interrupts started)
          (subst (IsFinished (run_interrupts caller.interrupts started)) at_end finished))

xor_run-accepted :
    (caller : Caller) (op : Operation) (d : XorTlbdev)
    → u64_user_addr_ok caller.page_shift op.a ≡ true
    → u64_user_addr_ok caller.page_shift op.b ≡ true
    → u64_user_addr_ok caller.page_shift op.out ≡ true
    → d.op_active ≡ false
    → run_operation caller op d (hold_process_context caller.current d.dma)
      ≡ xor_run caller (some op) d
unfolding xor_run
xor_run-accepted caller op d a_ok b_ok out_ok idle = rw (a_ok, b_ok, out_ok, idle) refl

-- Between two calls of the ioctl, for three addresses that the driver accepts and a live process, an
-- operation is run in which the device misses at most as many pages as can be pinned, the lookup of each
-- succeeds, the device then signals DONE, the wait ends in time, and the result can be read and copied.
-- Then the ioctl reports 0 and hands the operation over with the result that was read; the one
-- completion has been waited for, no operation is active, and each page, task and mm has been put as
-- often as a reference to it was taken. The registers are written exactly as follows: the writes of the
-- start; for each miss its acknowledgement, the address that was missed, that of the page of the process
-- and CMD_CONTINUE; and the acknowledgement of DONE.
pub xor_run-served :
    (op : Operation) (current : Process) (mm page_shift : ℕ) (mmu : Mmu) (pages : ℕ → ℕ)
    (misses : List Miss) (left result : ℕ) (d : XorTlbdev)
    → Run d
    → u64_user_addr_ok page_shift op.a ≡ true
    → u64_user_addr_ok page_shift op.b ≡ true
    → u64_user_addr_ok page_shift op.out ≡ true
    → current.mm ≡ some mm
    → length misses ≤ max_pinned
    → AllMapped mmu current.task mm pages misses
    → let (d', ret, out) =
        xor_run (serving op current page_shift mmu misses left result) (some op) d in
      (ret ≡ pos 0)
      × (out ≡ some (record op { result = result }))
      × (d'.done ≡ 0)
      × (d'.op_active ≡ false)
      × AllPut d'.dma
      × (writes d'.calls
          ≡ pushed (start_sent op ++ interrupts_sent mmu pages misses) (writes d.calls))
xor_run-served op current mm page_shift mmu pages misses left result d run a_ok b_ok out_ok has few
      mapped =
    let caller = serving op current page_shift mmu misses left result in
    let idle = (Run-AllPut run).0 in
    let sent = pushed (start_sent op ++ interrupts_sent mmu pages misses) (writes d.calls) in
    let served =
      subst (IsServed op result sent) (xor_run-accepted caller op d a_ok b_ok out_ok idle) (
        run_operation-IsServed op current mm page_shift mmu pages misses left result d has few
          mapped) in
    let (off, put) = Run-AllPut (ioctl caller (some op) run) in
    (served.ret, served.out, served.waited_for, off, put, served.sent_all)
