-- ===== src/Hwgc/Irq/Among/Blocks.antt =====
-- The interrupt thread as a list of blocks.
use jvm_gc_acclelerator.Common.{ℕ, suc, ◌≡◌, refl, Bool, true, List, [], ◌∷◌}
use jvm_gc_acclelerator.Common.Int.{ℤ}
use jvm_gc_acclelerator.Dma.Kernel.{Device, Mmu}
use jvm_gc_acclelerator.Hwgc.Regs.{
  irq_tlb_miss, irq_done, irq_grow, irq_expand, irq_allocate, irq_wake, irq_error, event_grow,
  event_expand, event_allocate, event_wake,
}
use jvm_gc_acclelerator.Hwgc.Types.{Hwgc}
use jvm_gc_acclelerator.Hwgc.Irq.{
  has_irq, fill_miss, publish_done, publish_request, handle_stage, error_stage, handle_pending,
}
use jvm_gc_acclelerator.Hwgc.Irq.Among.{irq_tops, among, handle_pending_among}

-- The blocks of the thread, as a list of tests and handlers.
abbrev pub Block : Type 0
Block = Bool × (Hwgc → Hwgc × ℤ)

abbrev pub run : List Block → Hwgc × Bool → Hwgc × Bool
run [] s = s
run ((raised, handler) ∷ rest) s = run rest (handle_stage raised handler s)

abbrev pub run_among : (ℕ → List Device) → List Block → Hwgc × Bool → Hwgc × Bool
run_among tops [] s = among (tops 0) s
run_among tops ((raised, handler) ∷ rest) s =
    run_among (λ k. tops (suc k)) rest (handle_stage raised handler (among (tops 0) s))

unfoldable pub blocks : Device → Mmu → ℕ → List Block
blocks dev mmu pending =
    (has_irq irq_tlb_miss pending, fill_miss dev mmu)
    ∷ (has_irq irq_done pending, publish_done)
    ∷ (has_irq irq_grow pending, publish_request dev event_grow)
    ∷ (has_irq irq_expand pending, publish_request dev event_expand)
    ∷ (has_irq irq_allocate pending, publish_request dev event_allocate)
    ∷ (has_irq irq_wake pending, publish_request dev event_wake)
    ∷ []

pub handle_pending-run :
    (dev : Device) (mmu : Mmu) (pending : ℕ) (d : Hwgc)
    → handle_pending dev mmu pending d
      ≡ error_stage (has_irq irq_error pending) (run (blocks dev mmu pending) (d, true))
unfolding handle_pending blocks
handle_pending-run dev mmu pending d = refl

pub handle_pending_among-run :
    (dev : Device) (mmu : Mmu) (tops : ℕ → List Device) (pending : ℕ) (d : Hwgc)
    → handle_pending_among dev mmu tops pending d
      ≡ irq_tops (tops 7) (
          error_stage
            (has_irq irq_error pending)
            (run_among tops (blocks dev mmu pending) (d, true)))
unfolding handle_pending_among blocks
handle_pending_among-run dev mmu tops pending d = refl
