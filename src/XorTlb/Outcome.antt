-- ===== src/XorTlb/Outcome.antt =====
-- What the ioctl of the XOR driver reports.
use jvm_gc_acclelerator.Common.{◌≡◌, arith, true, false, some, is_some, not}
use jvm_gc_acclelerator.Common.Int.{pos, is_nonzero}
use jvm_gc_acclelerator.XorTlb.{
  XorTlbdev, Operation, Caller, xor_run, run_operation, u64_user_addr_ok, copy_result,
}

-- The ioctl reports 0 exactly if it hands an operation over to the process.
xor_run-ret :
    (caller : Caller) (op : Operation) (d : XorTlbdev)
    → let (d', ret, out) = xor_run caller (some op) d in is_some out ≡ not (is_nonzero ret)
unfolding xor_run run_operation copy_result
xor_run-ret caller op d = ground arith

-- If the ioctl hands an operation over, then it reports 0, the three addresses were accepted, no
-- operation was active, and what it hands over is the operation given, with the result that was read
-- from the process's memory.
xor_run-out :
    (caller : Caller) (op got : Operation) (d : XorTlbdev)
    → (xor_run caller (some op) d).2 ≡ some got
    → ((xor_run caller (some op) d).1 ≡ pos 0)
      × (u64_user_addr_ok caller.page_shift op.a ≡ true)
      × (u64_user_addr_ok caller.page_shift op.b ≡ true)
      × (u64_user_addr_ok caller.page_shift op.out ≡ true)
      × (d.op_active ≡ false)
      × (caller.read ≡ some got.result)
      × (got ≡ record op { result = got.result })
unfolding xor_run run_operation copy_result
xor_run-out caller op got d e = ground arith
