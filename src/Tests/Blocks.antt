-- ===== src/Tests/Blocks.antt =====
-- A run in which critical sections of the process fall between the blocks of the interrupt thread.
use jvm_gc_acclelerator.Common.{◌+◌, ◌≤◌, ◌≡◌, true, false, not, ◌&&◌, ◌||◌, some, arith}
use jvm_gc_acclelerator.Common.Int.{pos}
use jvm_gc_acclelerator.Dma.Kernel.{Device}
use jvm_gc_acclelerator.Dma.Count.{count, is_get_page, is_put_page}
use jvm_gc_acclelerator.Dma.Ownership.{AllPut}
use jvm_gc_acclelerator.Hwgc.Regs.{hwgc_port, irq_tlb_miss, event_grow}
use jvm_gc_acclelerator.Hwgc.Types.{Hwgc, new_hwgc}
use jvm_gc_acclelerator.Hwgc.Events.{needs_reply, is_terminal, take_event, finish_operation}
use jvm_gc_acclelerator.Hwgc.Irq.{irq_top, fill_miss, publish_done, publish_request}
use jvm_gc_acclelerator.Hwgc.Ioctl.{start_ioctl}
use jvm_gc_acclelerator.Hwgc.Invariant.Reach.{Step}
use jvm_gc_acclelerator.Hwgc.Invariant.Blocks.{
  BlockStep, BlockReach, probed, section, block, BlockReach-AllPut, BlockReach-put_bounds,
  BlockReach-one_slot,
}
use jvm_gc_acclelerator.Tests.Values.{process, device, mmu, parameters}

abbrev pub miss : Device
miss = device irq_tlb_miss hwgc_port

abbrev fresh : Hwgc
fresh = new_hwgc (some 0) (pos 5) (pos 0)

-- The start, the interrupt of a miss, and the block that pins page 21.
abbrev pub filled : Hwgc
filled =
    let raised = (irq_top miss (start_ioctl (some parameters) process fresh).0).0 in
    (fill_miss miss mmu (record raised { pending_irq = 0 })).0

pub filled-BlockReach : BlockReach filled
filled-BlockReach =
    block
      (block
        (section (section (probed (some 0) (pos 5) (pos 0)) (Step.start (some parameters) process))
          (Step.interrupt miss))
        BlockStep.pending)
      (BlockStep.fill miss mmu)

-- A request, which the process takes before the next block of the same run publishes DONE.
abbrev taken : Hwgc
taken = (take_event (publish_request miss event_grow filled).0).0

taken-BlockReach : BlockReach taken
taken-BlockReach = section (block filled-BlockReach (BlockStep.grow miss)) Step.take

BlockReach-AllPut_example : AllPut (finish_operation (publish_done taken).0).dma
unfolding finish_operation
BlockReach-AllPut_example =
    BlockReach-AllPut (section (block taken-BlockReach BlockStep.done) Step.finish) (ground arith)

BlockReach-put_bounds_example :
    (count (is_put_page 21) taken.calls ≤ count (is_get_page 21) taken.calls)
    × (count (is_get_page 21) taken.calls ≤ count (is_put_page 21) taken.calls + 1)
BlockReach-put_bounds_example = BlockReach-put_bounds taken-BlockReach 21

BlockReach-one_slot_example :
    ((taken.event_pending && taken.event_in_service) ≡ false)
    × ((not taken.event_in_service || needs_reply taken.current_event.type) ≡ true)
    × ((not taken.event_pending
          || needs_reply taken.current_event.type
          || is_terminal taken.current_event.type)
        ≡ true)
BlockReach-one_slot_example = BlockReach-one_slot taken-BlockReach
