-- ===== src/Tests/Interleave.antt =====
-- The critical sections as moves of the channel, and top halves among the thread's blocks.
use jvm_gc_acclelerator.Common.{ℕ, ◌≡◌, List, [], ◌∷◌, ◌==◌, if◌then◌else◌}
use jvm_gc_acclelerator.Dma.Kernel.{Device}
use jvm_gc_acclelerator.Hwgc.Irq.{irq_thread, publish_request}
use jvm_gc_acclelerator.Hwgc.Irq.Among.{irq_thread_among}
use jvm_gc_acclelerator.Hwgc.Irq.Among.Quiet.{quiet}
use jvm_gc_acclelerator.Hwgc.Irq.Among.Atomic.{waits, is_reported_before, irq_thread_among-atomic}
use jvm_gc_acclelerator.Hwgc.Channel.{channel_of}
use jvm_gc_acclelerator.Hwgc.Channel.Machine.{Actor, ChannelSteps, Move}
use jvm_gc_acclelerator.Hwgc.Channel.Simulates.{Move-ChannelSteps}
use jvm_gc_acclelerator.Hwgc.Invariant.Blocks.{BlockStep}
use jvm_gc_acclelerator.Hwgc.Regs.{event_grow}
use jvm_gc_acclelerator.Tests.Blocks.{filled, miss, filled-BlockReach}
use jvm_gc_acclelerator.Tests.Values.{mmu}
use jvm_gc_acclelerator.Tests.Service.{grow, wake, raised}

-- After the block that pins a page, the block of a request to grow the heap.
Move-ChannelSteps_example :
    ChannelSteps
      (channel_of filled)
      Actor.device
      (channel_of (publish_request miss event_grow filled).0)
Move-ChannelSteps_example = Move-ChannelSteps filled-BlockReach (Move.block (BlockStep.grow miss))

-- While its thread runs, the interrupt of a request to wake a thread comes after the block of `IRQ_DONE`.
abbrev tops : ℕ → List Device
tops place = if place == 2 then wake ∷ [] else []

irq_thread_among-atomic_example :
    (quiet (irq_thread_among grow mmu tops raised) ≡ quiet (irq_thread grow mmu raised).0)
    × (waits 5 (irq_thread_among grow mmu tops raised) ≡ is_reported_before 5 8 tops)
irq_thread_among-atomic_example = irq_thread_among-atomic grow mmu tops raised 5
