-- ===== src/XorTlb/Balance.antt =====
-- The balance of references in the operations of the XOR driver.
use jvm_gc_acclelerator.Common.{
  ℕ, ◌≡◌, refl, arith, Bool, true, false, if_keeps, List, [], ◌∷◌, ◌==◌, if◌then◌else◌, subst,
}
use jvm_gc_acclelerator.Common.Int.{ℤ, pos, negsuc, is_nonzero}
use jvm_gc_acclelerator.Common.Errno.{eio}
use jvm_gc_acclelerator.Dma.Kernel.{DmaContext, Device, Mmu, Call, log}
use jvm_gc_acclelerator.Dma.{fill_tlb_for_miss}
use jvm_gc_acclelerator.Dma.Ownership.Defs.{Owns}
use jvm_gc_acclelerator.Dma.Ownership.{
  IsEmpty, IsNeutral, log-Holding, fill_tlb_for_miss-Owns, fill_tlb_for_miss-no_task,
  release_all-Owns,
}
use jvm_gc_acclelerator.XorTlb.Regs.{
  xor_port, max_pinned, reg_cmd, cmd_reset, irq_done, irq_error, irq_tlb_miss,
}
use jvm_gc_acclelerator.XorTlb.{
  XorTlbdev, Operation, Interrupt, Caller, irq_top, irq_thread, handle_pending, handle_done,
  has_irq, after_miss, fail, run_interrupts, start_device, new_operation, wait_result,
  end_operation, run_operation, synchronize,
}

-- What a section keeps: the balance, and with `idle` that nothing is held.
pub record KeptAt (idle : Bool) (c : DmaContext) : Type 0 where
  pub owns : Owns max_pinned c
  pub idle_empty : idle ≡ true → IsEmpty c

abbrev pub Kept : Bool → XorTlbdev → Type 0
Kept idle d = KeptAt idle d.dma

module _ {idle : Bool} where
  log-KeptAt :
      {c : DmaContext} (call : Call) → IsNeutral call → KeptAt idle c → KeptAt idle (log call c)
  log-KeptAt call neutral h = record {
    owns = log-Holding call neutral h.owns;
    idle_empty = λ on. ground (arith, h.idle_empty on);
  }

  pub write32-KeptAt :
      {c : DmaContext} (off val : ℕ) → KeptAt idle c → KeptAt idle (log (Call.write32 off val) c)
  write32-KeptAt off val = log-KeptAt (Call.write32 off val) (λ p. ground arith)

  write64-KeptAt :
      {c : DmaContext} (off val : ℕ) → KeptAt idle c → KeptAt idle (log (Call.write64 off val) c)
  write64-KeptAt off val = log-KeptAt (Call.write64 off val) (λ p. ground arith)

  pub irq_top-Kept : (dev : Device) (d : XorTlbdev) → Kept idle d → Kept idle (irq_top dev d)
  unfolding irq_top
  irq_top-Kept dev d h = if_keeps (Kept idle) (dev.read32 _ == 0) _ _ h (write32-KeptAt _ _ h)

  fill-KeptAt :
      (dev : Device) (mmu : Mmu) (c : DmaContext)
      → KeptAt idle c
      → KeptAt idle (fill_tlb_for_miss xor_port dev mmu c).0
  fill-KeptAt dev mmu c h = record {
    owns = (fill_tlb_for_miss-Owns xor_port mmu dev c h.owns).0;
    idle_empty = λ on.
        let e = h.idle_empty on in rw (fill_tlb_for_miss-no_task xor_port dev mmu c e.no_task) e;
  }

  handle_done-Kept : (done : Bool) (d : XorTlbdev) → Kept idle d → Kept idle (handle_done done d)
  handle_done-Kept done d h = if_keeps (Kept idle) done _ d h h

  fail-Kept : (status : ℤ) (d : XorTlbdev) → Kept idle d → Kept idle (fail status d)
  fail-Kept status d h = write32-KeptAt reg_cmd cmd_reset h

  after_miss-Kept :
      (done : Bool) (d : XorTlbdev) (filled : DmaContext × ℤ)
      → KeptAt idle filled.0
      → Kept idle (after_miss done d filled)
  unfolding after_miss
  after_miss-Kept done d (dma, ret) h =
      if_keeps (Kept idle) (is_nonzero ret) _ _ (fail-Kept ret (record d { dma = dma }) h)
        (handle_done-Kept done (record d { dma = dma }) h)

  pub irq_thread-Kept :
      (dev : Device) (mmu : Mmu) (d : XorTlbdev) → Kept idle d → Kept idle (irq_thread dev mmu d)
  unfolding irq_thread handle_pending
  irq_thread-Kept dev mmu d h =
      let taken = record d { pending_irq = 0 } in
      let done = has_irq irq_done d.pending_irq in
      let filled = fill_tlb_for_miss xor_port dev mmu d.dma in
      if_keeps (Kept idle) (has_irq irq_error d.pending_irq) (fail eio taken)
        (if has_irq irq_tlb_miss d.pending_irq
          then after_miss done taken filled
          else handle_done done taken)
        (fail-Kept eio taken h)
        (if_keeps (Kept idle) (has_irq irq_tlb_miss d.pending_irq) (after_miss done taken filled)
          (handle_done done taken) (after_miss-Kept done taken filled (fill-KeptAt dev mmu d.dma h))
          (handle_done-Kept done taken h))

  run_interrupts-Kept :
      (interrupts : List Interrupt) (d : XorTlbdev)
      → Kept idle d
      → Kept idle (run_interrupts interrupts d)
  unfolding run_interrupts
  run_interrupts-Kept [] d h = h
  run_interrupts-Kept (Interrupt.top dev ∷ rest) d h =
      run_interrupts-Kept rest (irq_top dev d) (irq_top-Kept dev d h)
  run_interrupts-Kept (Interrupt.thread dev mmu ∷ rest) d h =
      run_interrupts-Kept rest (irq_thread dev mmu d) (irq_thread-Kept dev mmu d h)

  start_device-Kept : (op : Operation) (d : XorTlbdev) → Kept idle d → Kept idle (start_device op d)
  unfolding start_device
  start_device-Kept op d h = write32-KeptAt _ _ (
      write64-KeptAt _ _ (
        write64-KeptAt _ _
          (write64-KeptAt _ _ (write32-KeptAt _ _ (write32-KeptAt _ _ (write32-KeptAt _ _ h))))))

  wait_result-Kept : (waited : ℤ) (d : XorTlbdev) → Kept idle d → Kept idle (wait_result waited d).0
  unfolding wait_result
  wait_result-Kept (pos n) d h =
      if_keeps (λ (r : XorTlbdev × ℤ). Kept idle r.0) (n == 0) _ _
        (write32-KeptAt reg_cmd cmd_reset h) h
  wait_result-Kept (negsuc n) d h = write32-KeptAt reg_cmd cmd_reset h

pub end_operation-Kept : (d : XorTlbdev) → Owns max_pinned d.dma → Kept true (end_operation d)
unfolding end_operation
end_operation-Kept d h =
    let (owns, empty) = release_all-Owns d.dma h in record { owns = owns; idle_empty = λ _. empty }

pub synchronize-Kept : {idle : Bool} (d : XorTlbdev) → Kept idle d → Kept idle (synchronize d)
synchronize-Kept d = log-KeptAt Call.synchronize_irq (λ p. ground arith)

pub run_operation-Kept :
    (caller : Caller) (op : Operation) (d : XorTlbdev) (held : DmaContext × Bool)
    → Owns max_pinned held.0
    → held.0.nr_pinned ≡ 0
    → (held.1 ≡ false → IsEmpty held.0)
    → Kept true (run_operation caller op d held).0
unfolding run_operation
run_operation-Kept caller op d (dma, false) owns nr empty = record {
  owns = owns;
  idle_empty = λ _. empty refl;
}
run_operation-Kept caller op d (dma, true) owns nr empty =
    let fresh : Owns max_pinned (record dma { nr_pinned = 0 }) =
      subst (λ (n : ℕ). Owns max_pinned (record dma { nr_pinned = n })) nr owns in
    let started = start_device op (new_operation d dma) in
    let at_start : Kept false started =
      start_device-Kept op (new_operation d dma)
        (record { owns = fresh; idle_empty = λ off. absurd (cc) }) in
    let at_wait = run_interrupts-Kept caller.interrupts started at_start in
    let waited = wait_result caller.waited (run_interrupts caller.interrupts started) in
    let late =
      run_interrupts-Kept caller.late waited.0 (wait_result-Kept caller.waited _ at_wait) in
    end_operation-Kept (synchronize (run_interrupts caller.late waited.0))
      (synchronize-Kept (run_interrupts caller.late waited.0) late).owns
