-- ===== src/Hwgc/Invariant/Blocks.antt =====
-- The blocks of the interrupt thread as steps of their own, so that any critical section may come between
-- two of them, and each block may read other values from the device's registers.
use jvm_gc_acclelerator.Common.{ℕ, ◌+◌, ◌≤◌, ◌≡◌, arith, true, false, not, ◌&&◌, ◌||◌, Option, none}
use jvm_gc_acclelerator.Common.Int.{ℤ, pos}
use jvm_gc_acclelerator.Dma.Kernel.{Device, Mmu}
use jvm_gc_acclelerator.Dma.Count.{count, is_get_page, is_put_page}
use jvm_gc_acclelerator.Dma.Ownership.{AllPut, IsEmpty-AllPut}
use jvm_gc_acclelerator.Hwgc.Regs.{event_grow, event_expand, event_allocate, event_wake}
use jvm_gc_acclelerator.Hwgc.Types.{Hwgc, new_hwgc}
use jvm_gc_acclelerator.Hwgc.Events.{needs_reply, is_terminal, abort_operation_from_irq}
use jvm_gc_acclelerator.Hwgc.Irq.{irq_thread, fill_miss, publish_done, publish_request}
use jvm_gc_acclelerator.Hwgc.Irq.Keeps.{KeptByBlocks, handle_pending-keeps}
use jvm_gc_acclelerator.Hwgc.Invariant.Defs.{SlotInv, HeldInv}
use jvm_gc_acclelerator.Hwgc.Invariant.Slot.{blocks-SlotInv}
use jvm_gc_acclelerator.Hwgc.Invariant.Held.{blocks-HeldInv}
use jvm_gc_acclelerator.Hwgc.Invariant.Reach.{Step, Step-SlotInv, Step-HeldInv, new_hwgc-HeldInv}

-- A block of the thread: it takes what is pending, serves one interrupt, or aborts the operation.
pub data BlockStep (d : Hwgc) : Hwgc → Type 0 where
  pending : BlockStep d (record d { pending_irq = 0 })
  fill : (dev : Device) (mmu : Mmu) → BlockStep d (fill_miss dev mmu d).0
  done : BlockStep d (publish_done d).0
  grow : (dev : Device) → BlockStep d (publish_request dev event_grow d).0
  expand : (dev : Device) → BlockStep d (publish_request dev event_expand d).0
  allocate : (dev : Device) → BlockStep d (publish_request dev event_allocate d).0
  wake : (dev : Device) → BlockStep d (publish_request dev event_wake d).0
  abort : (status : ℤ) → BlockStep d (abort_operation_from_irq status d)

pub data BlockSteps (d : Hwgc) : Hwgc → Type 0 where
  none_yet : BlockSteps d d
  then_block : {d' d'' : Hwgc} → BlockSteps d d' → BlockStep d' d'' → BlockSteps d d''

-- A run of the thread is a sequence of its blocks.
irq_thread-BlockSteps :
    (dev : Device) (mmu : Mmu) (d : Hwgc) → BlockSteps d (irq_thread dev mmu d).0
unfolding irq_thread
irq_thread-BlockSteps dev mmu d =
    handle_pending-keeps (BlockSteps d) dev mmu d.pending_irq (record d { pending_irq = 0 })
      (record {
        fill = λ d' steps. then_block steps (BlockStep.fill dev mmu);
        done = λ d' steps. then_block steps BlockStep.done;
        grow = λ d' steps. then_block steps (BlockStep.grow dev);
        expand = λ d' steps. then_block steps (BlockStep.expand dev);
        allocate = λ d' steps. then_block steps (BlockStep.allocate dev);
        wake = λ d' steps. then_block steps (BlockStep.wake dev);
        abort = λ status d' steps. then_block steps (BlockStep.abort status);
      })
      (then_block none_yet BlockStep.pending)

-- The states that blocks and critical sections reach, in any order.
pub data BlockReach : Hwgc → Type 0 where
  probed : (bar0 : Option ℕ) (irq dev_id : ℤ) → BlockReach (new_hwgc bar0 irq dev_id)
  section : {d d' : Hwgc} → BlockReach d → Step d d' → BlockReach d'
  block : {d d' : Hwgc} → BlockReach d → BlockStep d d' → BlockReach d'

-- A block that reads no register, or looks no page up, is that of any device and any lookup.
abbrev pub any_device : Device
any_device = record { read32 = λ off. 0; read64 = λ off. 0 }

abbrev pub any_mmu : Mmu
any_mmu = record {
  page_shift = 12;
  get_user_pages_remote = λ task mm va write. record { ret = pos 0; page = none; locked = true };
  page_to_phys = λ page. 0;
}

pub BlockStep-keeps :
    (P : Hwgc → Type 0)
    → ((dev : Device) (mmu : Mmu) → KeptByBlocks P dev mmu)
    → ((d : Hwgc) → P d → P (record d { pending_irq = 0 }))
    → {d d' : Hwgc} → BlockStep d d'
    → P d
    → P d'
BlockStep-keeps P kept taken {d} BlockStep.pending h = taken d h
BlockStep-keeps P kept taken {d} (BlockStep.fill dev mmu) h = (kept dev mmu).fill d h
BlockStep-keeps P kept taken {d} BlockStep.done h = (kept any_device any_mmu).done d h
BlockStep-keeps P kept taken {d} (BlockStep.grow dev) h = (kept dev any_mmu).grow d h
BlockStep-keeps P kept taken {d} (BlockStep.expand dev) h = (kept dev any_mmu).expand d h
BlockStep-keeps P kept taken {d} (BlockStep.allocate dev) h = (kept dev any_mmu).allocate d h
BlockStep-keeps P kept taken {d} (BlockStep.wake dev) h = (kept dev any_mmu).wake d h
BlockStep-keeps P kept taken {d} (BlockStep.abort status) h =
    (kept any_device any_mmu).abort status d h

BlockReach-SlotInv : {d : Hwgc} → BlockReach d → SlotInv d
BlockReach-SlotInv (probed bar0 irq dev_id) = ground arith
BlockReach-SlotInv (section r step) = Step-SlotInv step (BlockReach-SlotInv r)
BlockReach-SlotInv (block r step) =
    BlockStep-keeps SlotInv blocks-SlotInv (λ d inv. ground arith) step (BlockReach-SlotInv r)

pub BlockReach-HeldInv : {d : Hwgc} → BlockReach d → HeldInv d
BlockReach-HeldInv (probed bar0 irq dev_id) = new_hwgc-HeldInv bar0 irq dev_id
BlockReach-HeldInv (section r step) = Step-HeldInv step (BlockReach-HeldInv r)
BlockReach-HeldInv (block r step) =
    BlockStep-keeps HeldInv blocks-HeldInv (λ d h. h) step (BlockReach-HeldInv r)

-- In every state that is reached by critical sections and blocks of the interrupt thread in any order, no
-- event is both pending and in service; an event in service wants a reply; a pending one wants a reply or
-- ends the operation.
pub BlockReach-one_slot :
    {d : Hwgc}
    → BlockReach d
    → ((d.event_pending && d.event_in_service) ≡ false)
      × ((not d.event_in_service || needs_reply d.current_event.type) ≡ true)
      × ((not d.event_pending
            || needs_reply d.current_event.type
            || is_terminal d.current_event.type)
          ≡ true)
BlockReach-one_slot r =
    let inv = BlockReach-SlotInv r in
    ground (arith, inv.one_slot, inv.service_type, inv.pending_type)

-- In every state with no operation that is reached by critical sections and blocks of the interrupt thread
-- in any order, each page, task and mm has been put as often as a reference to it was taken.
pub BlockReach-AllPut : {d : Hwgc} → BlockReach d → d.op_active ≡ false → AllPut d.dma
BlockReach-AllPut r off = let h = BlockReach-HeldInv r in IsEmpty-AllPut h.owns (h.idle_empty off)

-- In every state that is reached by critical sections and blocks of the interrupt thread in any order, each
-- page has been put at most as often as a reference to it was taken, and at most one reference more was
-- taken than put.
pub BlockReach-put_bounds :
    {d : Hwgc}
    → BlockReach d
    → (p : ℕ)
    → (count (is_put_page p) d.calls ≤ count (is_get_page p) d.calls)
      × (count (is_get_page p) d.calls ≤ count (is_put_page p) d.calls + 1)
BlockReach-put_bounds r p =
    let h = BlockReach-HeldInv r in omega (arith, h.owns.pages p, h.owns.once p)
