-- ===== src/Hwgc/Invariant/Defs.antt =====
-- The invariant: the event slot, and the references that the driver holds.
use jvm_gc_acclelerator.Common.{◌≡◌, Bool, true, false, ◌||◌}
use jvm_gc_acclelerator.Dma.Kernel.{DmaContext}
use jvm_gc_acclelerator.Dma.Ownership.Defs.{Owns}
use jvm_gc_acclelerator.Dma.Ownership.{IsEmpty}
use jvm_gc_acclelerator.Hwgc.Regs.{max_pinned}
use jvm_gc_acclelerator.Hwgc.Types.{Hwgc}
use jvm_gc_acclelerator.Hwgc.Events.{needs_reply, is_terminal}

-- An event is not both pending and in service; one in service wants a reply; a pending one wants a
-- reply or ends the operation.
pub record SlotInv (d : Hwgc) : Type 0 where
  pub one_slot : d.event_pending ≡ true → d.event_in_service ≡ false
  pub service_type : d.event_in_service ≡ true → needs_reply d.current_event.type ≡ true
  pub pending_type :
      d.event_pending ≡ true
      → (needs_reply d.current_event.type || is_terminal d.current_event.type) ≡ true

-- Every reference taken is put back or held, and with no operation nothing is held.
pub record HeldAt (active : Bool) (c : DmaContext) : Type 0 where
  pub owns : Owns max_pinned c
  pub idle_empty : active ≡ false → IsEmpty c

abbrev pub HeldInv : Hwgc → Type 0
HeldInv d = HeldAt d.op_active d.dma
