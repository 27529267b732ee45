-- ===== src/Hwgc/Irq/Among/Quiet.antt =====
-- The interrupt thread, without the interrupts that wait.
use jvm_gc_acclelerator.Common.{
  ℕ, suc, ◌≡◌, refl, sym, ap, ◌∙◌, Bool, true, false, List, [], ◌∷◌, ◌==◌, if◌then◌else◌, inl, inr,
  Bool-cases, ◌||◌,
}
use jvm_gc_acclelerator.Common.Int.{ℤ, pos, to_bits64, is_nonzero}
use jvm_gc_acclelerator.Common.Errno.{eio}
use jvm_gc_acclelerator.Dma.Kernel.{DmaContext, Device, Mmu}
use jvm_gc_acclelerator.Dma.Hidden.{hide, if_commutes, if_congr, fill_tlb_for_miss-hide}
use jvm_gc_acclelerator.Hwgc.Regs.{
  hwgc_port, reg_irq_status, reg_irq_clear, irq_error, event_error, reg_cmd, cmd_reset, event_grow,
  event_expand, event_allocate, event_wake,
}
use jvm_gc_acclelerator.Hwgc.Types.{Hwgc, reg_write32}
use jvm_gc_acclelerator.Hwgc.Events.{publish_sw_event, abort_operation_from_irq}
use jvm_gc_acclelerator.Hwgc.Irq.{
  irq_top, has_irq, fill_miss, publish_done, publish_request, handle_stage, error_stage,
  handle_pending,
}
use jvm_gc_acclelerator.Hwgc.Irq.Among.{irq_tops, among, handle_pending_among}
use jvm_gc_acclelerator.Hwgc.Irq.Among.Blocks.{
  Block, run, run_among, blocks, handle_pending-run, handle_pending_among-run,
}

-- The structure without the interrupts that wait, and without their acknowledgements in the log.
abbrev pub quiet : Hwgc → Hwgc
quiet d = record d { pending_irq = 0; dma = hide reg_irq_clear d.dma }

abbrev quiet_stage : Hwgc × Bool → Hwgc × Bool
quiet_stage (d, going) = (quiet d, going)

abbrev quiet_ret : Hwgc × ℤ → Hwgc × ℤ
quiet_ret (d, ret) = (quiet d, ret)

irq_top-quiet : (dev : Device) (d : Hwgc) → quiet (irq_top dev d).0 ≡ quiet d
unfolding irq_top
irq_top-quiet dev d = elim (Bool-cases (dev.read32 reg_irq_status == 0)) [
  | inl none_raised ↦ rw none_raised refl
  | inr raised ↦ rw raised refl
]

irq_tops-quiet : (tops : List Device) (d : Hwgc) → quiet (irq_tops tops d) ≡ quiet d
unfolding irq_tops
irq_tops-quiet [] d = refl
irq_tops-quiet (dev ∷ rest) d = irq_tops-quiet rest (irq_top dev d).0 ∙ irq_top-quiet dev d

-- A handler that does the same whatever interrupts wait.
abbrev Commutes : (Hwgc → Hwgc × ℤ) → Type 0
Commutes handler = (d : Hwgc) → quiet_ret (handler d) ≡ handler (quiet d)

publish_sw_event-quiet : (type par0 par1 : ℕ) → Commutes (publish_sw_event type par0 par1)
unfolding publish_sw_event
publish_sw_event-quiet type par0 par1 d =
    if_commutes quiet_ret d.removing _ _
    ∙ if_congr d.removing refl (if_commutes quiet_ret (d.event_pending || d.event_in_service) _ _)

publish_done-quiet : Commutes publish_done
unfolding publish_done
publish_done-quiet d = publish_sw_event-quiet _ _ _ (record d { op_status = pos 0 })

publish_request-quiet : (dev : Device) (type : ℕ) → Commutes (publish_request dev type)
unfolding publish_request
publish_request-quiet dev type = publish_sw_event-quiet type _ _

fill_miss-quiet : (dev : Device) (mmu : Mmu) → Commutes (fill_miss dev mmu)
unfolding fill_miss
fill_miss-quiet dev mmu d =
    ap (λ (r : DmaContext × ℤ). (record d { pending_irq = 0; dma = r.0 }, r.1))
      (fill_tlb_for_miss-hide reg_irq_clear hwgc_port refl dev mmu d.dma)

abort-quiet :
    (status : ℤ) (d : Hwgc)
    → quiet (abort_operation_from_irq status d) ≡ abort_operation_from_irq status (quiet d)
unfolding abort_operation_from_irq
abort-quiet status d =
    ap (λ (r : Hwgc × ℤ). r.0)
      (publish_sw_event-quiet event_error (to_bits64 status) 0
        (reg_write32 (record d { op_status = status }) cmd_reset reg_cmd))

handle_stage-quiet :
    (raised : Bool) (handler : Hwgc → Hwgc × ℤ) (s : Hwgc × Bool)
    → Commutes handler
    → quiet_stage (handle_stage raised handler s) ≡ handle_stage raised handler (quiet_stage s)
unfolding handle_stage
handle_stage-quiet raised handler (d, false) commutes = refl
handle_stage-quiet false handler (d, true) commutes = refl
handle_stage-quiet true handler (d, true) commutes =
    if_commutes quiet_stage (is_nonzero (handler d).1) _ _
    ∙ if_congr (is_nonzero (handler d).1)
        (ap (λ d'. (d', false)) (abort-quiet (handler d).1 (handler d).0)) refl
    ∙ ap
        (λ (r : Hwgc × ℤ).
          if is_nonzero r.1 then (abort_operation_from_irq r.1 r.0, false) else (r.0, true))
        (commutes d)

error_stage-quiet :
    (raised : Bool) (s : Hwgc × Bool)
    → quiet (error_stage raised s) ≡ error_stage raised (quiet_stage s)
unfolding error_stage
error_stage-quiet raised (d, false) = refl
error_stage-quiet false (d, true) = refl
error_stage-quiet true (d, true) = abort-quiet eio d

among-quiet : (tops : List Device) (s : Hwgc × Bool) → quiet_stage (among tops s) ≡ quiet_stage s
among-quiet tops (d, going) = ap (λ d'. (d', going)) (irq_tops-quiet tops d)

-- A block after some top halves, against the block alone.
stage_among :
    (raised : Bool) (handler : Hwgc → Hwgc × ℤ) (tops : List Device) (s t : Hwgc × Bool)
    → Commutes handler
    → quiet_stage s ≡ t
    → quiet_stage (handle_stage raised handler (among tops s)) ≡ handle_stage raised handler t
stage_among raised handler tops s t commutes same =
    handle_stage-quiet raised handler (among tops s) commutes
    ∙ ap (handle_stage raised handler) (among-quiet tops s ∙ same)

AllCommute : List Block → Type 0
AllCommute [] = Unit
AllCommute ((raised, handler) ∷ rest) = Commutes handler × AllCommute rest

run_among-quiet :
    (tops : ℕ → List Device) (blocks : List Block) (s t : Hwgc × Bool)
    → AllCommute blocks
    → quiet_stage s ≡ t
    → quiet_stage (run_among tops blocks s) ≡ run blocks t
unfolding AllCommute
run_among-quiet tops [] s t commute same = among-quiet (tops 0) s ∙ same
run_among-quiet tops ((raised, handler) ∷ rest) s t commute same =
    run_among-quiet (λ k. tops (suc k)) rest (handle_stage raised handler (among (tops 0) s))
      (handle_stage raised handler t) commute.1
      (stage_among raised handler (tops 0) s t commute.0 same)

blocks-AllCommute : (dev : Device) (mmu : Mmu) (pending : ℕ) → AllCommute (blocks dev mmu pending)
unfolding AllCommute blocks
blocks-AllCommute dev mmu pending = (
  fill_miss-quiet dev mmu,
  (
    publish_done-quiet,
    (
      publish_request-quiet dev event_grow,
      (
        publish_request-quiet dev event_expand,
        (publish_request-quiet dev event_allocate, (publish_request-quiet dev event_wake, tt)),
      ),
    ),
  ),
)

-- Top halves among the blocks change nothing but what waits and its acknowledgement.
pub handle_pending_among-quiet :
    (dev : Device) (mmu : Mmu) (tops : ℕ → List Device) (pending : ℕ) (d : Hwgc)
    → quiet (handle_pending_among dev mmu tops pending d) ≡ handle_pending dev mmu pending (quiet d)
handle_pending_among-quiet dev mmu tops pending d =
    let error = has_irq irq_error pending in
    let all = blocks dev mmu pending in
    ap quiet (handle_pending_among-run dev mmu tops pending d)
    ∙ irq_tops-quiet (tops 7) (error_stage error (run_among tops all (d, true)))
    ∙ error_stage-quiet error (run_among tops all (d, true))
    ∙ ap (error_stage error) (
        run_among-quiet tops all (d, true) (quiet d, true) (blocks-AllCommute dev mmu pending) refl)
    ∙ sym (handle_pending-run dev mmu pending (quiet d))
