-- ===== src/Hwgc/Irq/Among/Atomic.antt =====
-- The run of the thread among top halves against the run without them.
use jvm_gc_acclelerator.Common.{
  ℕ, zero, suc, ◌^◌, ◌||◌, ◌≡◌, refl, sym, ap, ◌∙◌, Bool, true, false, arith, List, [], ◌∷◌, ◌||◌,
}
use jvm_gc_acclelerator.Common.Int.{ℤ, pos}
use jvm_gc_acclelerator.Dma.Kernel.{Device, Mmu}
use jvm_gc_acclelerator.Hwgc.Regs.{reg_irq_status, irq_error}
use jvm_gc_acclelerator.Hwgc.Types.{Hwgc}
use jvm_gc_acclelerator.Hwgc.Events.{publish_sw_event, abort_operation_from_irq}
use jvm_gc_acclelerator.Hwgc.Irq.{
  irq_top, irq_thread, has_irq, fill_miss, publish_done, publish_request, handle_stage, error_stage,
  handle_pending,
}
use jvm_gc_acclelerator.Hwgc.Irq.Keeps.{handle_stage-keeps, error_stage-keeps}
use jvm_gc_acclelerator.Hwgc.Irq.Among.{irq_tops, among, handle_pending_among, irq_thread_among}
use mathlib.Core.Bool.{or_assoc, or-false}
use jvm_gc_acclelerator.Hwgc.Irq.Pending.{irq_top-pending, has_irq-zero}
use jvm_gc_acclelerator.Hwgc.Irq.Among.Quiet.{quiet, handle_pending_among-quiet}
use jvm_gc_acclelerator.Hwgc.Irq.Among.Blocks.{Block, run_among, blocks, handle_pending_among-run}

module _ (k : ℕ) where
  -- Some top half found interrupt bit `k` reported.
  abbrev pub is_reported : List Device → Bool
  is_reported [] = false
  is_reported (dev ∷ rest) = has_irq (2 ^ k) (dev.read32 reg_irq_status) || is_reported rest

  -- At one of the places before place `n`.
  abbrev pub is_reported_before : ℕ → (ℕ → List Device) → Bool
  is_reported_before zero tops = false
  is_reported_before (suc n) tops = is_reported_before n tops || is_reported (tops n)

  abbrev pub waits : Hwgc → Bool
  waits d = has_irq (2 ^ k) d.pending_irq

  irq_tops-waits :
      (tops : List Device) (d : Hwgc) → waits (irq_tops tops d) ≡ (waits d || is_reported tops)
  unfolding irq_tops
  irq_tops-waits [] d = sym (or-false (waits d))
  irq_tops-waits (dev ∷ rest) d =
      irq_tops-waits rest (irq_top dev d).0
      ∙ ap (λ b. b || is_reported rest) (irq_top-pending k dev d).0
      ∙ or_assoc (waits d) (has_irq (2 ^ k) (dev.read32 reg_irq_status)) (is_reported rest)

  -- The first place apart.
  is_reported_before-first :
      (n : ℕ) (tops : ℕ → List Device)
      → is_reported_before (suc n) tops
        ≡ (is_reported (tops 0) || is_reported_before n (λ i. tops (suc i)))
  is_reported_before-first zero tops = sym (or-false (is_reported (tops 0)))
  is_reported_before-first (suc n) tops =
      ap (λ b. b || is_reported (tops (suc n))) (is_reported_before-first n tops)
      ∙ or_assoc (is_reported (tops 0)) (is_reported_before n (λ i. tops (suc i)))
          (is_reported (tops (suc n)))

-- A handler that leaves alone what waits.
abbrev LeavesPending : (Hwgc → Hwgc × ℤ) → Type 0
LeavesPending handler = (d : Hwgc) → (handler d).0.pending_irq ≡ d.pending_irq

abort-pending :
    (status : ℤ) (d : Hwgc) → (abort_operation_from_irq status d).pending_irq ≡ d.pending_irq
unfolding abort_operation_from_irq publish_sw_event
abort-pending status d = ground arith

handle_stage-pending :
    (raised : Bool) (handler : Hwgc → Hwgc × ℤ) (s : Hwgc × Bool)
    → LeavesPending handler
    → (handle_stage raised handler s).0.pending_irq ≡ s.0.pending_irq
handle_stage-pending raised handler s leaves =
    handle_stage-keeps (λ d. d.pending_irq ≡ s.0.pending_irq)
      (λ status d same. abort-pending status d ∙ same) raised handler s (λ d same. leaves d ∙ same)
      refl

error_stage-pending :
    (raised : Bool) (s : Hwgc × Bool) → (error_stage raised s).pending_irq ≡ s.0.pending_irq
error_stage-pending raised s =
    error_stage-keeps (λ d. d.pending_irq ≡ s.0.pending_irq)
      (λ status d same. abort-pending status d ∙ same) raised s refl

AllLeavePending : List Block → Type 0
AllLeavePending [] = Unit
AllLeavePending ((raised, handler) ∷ rest) = LeavesPending handler × AllLeavePending rest

publish_sw_event-pending : (type par0 par1 : ℕ) → LeavesPending (publish_sw_event type par0 par1)
unfolding publish_sw_event
publish_sw_event-pending type par0 par1 d = ground arith

blocks-AllLeavePending :
    (dev : Device) (mmu : Mmu) (pending : ℕ) → AllLeavePending (blocks dev mmu pending)
unfolding AllLeavePending blocks fill_miss publish_done publish_request publish_sw_event
blocks-AllLeavePending dev mmu pending =
    let publishes = λ (type par0 par1 : ℕ) (d : Hwgc). publish_sw_event-pending type par0 par1 d in
    (
      λ d. refl,
      (
        λ d. publishes _ _ _ (record d { op_status = pos 0 }),
        (publishes _ _ _, (publishes _ _ _, (publishes _ _ _, (publishes _ _ _, tt)))),
      ),
    )

-- The places among which some blocks run.
abbrev places : List Block → ℕ
places [] = 1
places (block ∷ rest) = suc (places rest)

run_among-waits :
    (k : ℕ) (tops : ℕ → List Device) (all : List Block) (s : Hwgc × Bool)
    → AllLeavePending all
    → waits k (run_among tops all s).0 ≡ (waits k s.0 || is_reported_before k (places all) tops)
unfolding AllLeavePending
run_among-waits k tops [] s leave = irq_tops-waits k (tops 0) s.0
run_among-waits k tops ((raised, handler) ∷ rest) s leave =
    let first = among (tops 0) s in
    run_among-waits k (λ i. tops (suc i)) rest (handle_stage raised handler first) leave.1
    ∙ ap (λ n. has_irq (2 ^ k) n || is_reported_before k (places rest) (λ i. tops (suc i)))
        (handle_stage-pending raised handler first leave.0)
    ∙ ap (λ b. b || is_reported_before k (places rest) (λ i. tops (suc i)))
        (irq_tops-waits k (tops 0) s.0)
    ∙ or_assoc (waits k s.0) (is_reported k (tops 0))
        (is_reported_before k (places rest) (λ i. tops (suc i)))
    ∙ ap (λ b. waits k s.0 || b) (sym (is_reported_before-first k (places rest) tops))

handle_pending_among-waits :
    (k : ℕ) (dev : Device) (mmu : Mmu) (tops : ℕ → List Device) (pending : ℕ) (d : Hwgc)
    → waits k (handle_pending_among dev mmu tops pending d)
      ≡ (waits k d || is_reported_before k 8 tops)
unfolding blocks
handle_pending_among-waits k dev mmu tops pending d =
    let all = blocks dev mmu pending in
    let error = has_irq irq_error pending in
    let run_all = run_among tops all (d, true) in
    ap (waits k) (handle_pending_among-run dev mmu tops pending d)
    ∙ irq_tops-waits k (tops 7) (error_stage error run_all)
    ∙ ap (λ n. has_irq (2 ^ k) n || is_reported k (tops 7)) (error_stage-pending error run_all)
    ∙ ap (λ b. b || is_reported k (tops 7))
        (run_among-waits k tops all (d, true) (blocks-AllLeavePending dev mmu pending))
    ∙ or_assoc (waits k d) (is_reported_before k 7 tops) (is_reported k (tops 7))

no_tops :
    (dev : Device) (mmu : Mmu) (pending : ℕ) (d : Hwgc)
    → handle_pending_among dev mmu (λ _. []) pending d ≡ handle_pending dev mmu pending d
unfolding handle_pending_among handle_pending irq_tops
no_tops dev mmu pending d = refl

-- However top halves of further interrupts come before, between and after the blocks of a run of the
-- interrupt thread: but for what waits and for its acknowledgements in the log, the run does what it does
-- without them, and each interrupt bit waits after the run exactly if one of those top halves found it
-- reported.
pub irq_thread_among-atomic :
    (dev : Device) (mmu : Mmu) (tops : ℕ → List Device) (d : Hwgc) (k : ℕ)
    → (quiet (irq_thread_among dev mmu tops d) ≡ quiet (irq_thread dev mmu d).0)
      × (waits k (irq_thread_among dev mmu tops d) ≡ is_reported_before k 8 tops)
unfolding irq_thread_among irq_thread
irq_thread_among-atomic dev mmu tops d k =
    let taken = record d { pending_irq = 0 } in
    (
      handle_pending_among-quiet dev mmu tops d.pending_irq taken
          ∙ sym (handle_pending_among-quiet dev mmu (λ _. []) d.pending_irq taken)
          ∙ ap quiet (no_tops dev mmu d.pending_irq taken),
      handle_pending_among-waits k dev mmu tops d.pending_irq taken
          ∙ ap (λ b. b || is_reported_before k 8 tops) (has_irq-zero k),
    )
