-- ===== src/Hwgc/Words/Fits.antt =====
-- The critical sections and the widths of the words.
use jvm_gc_acclelerator.Common.{ℕ, ◌^◌, ◌<◌, ◌≡◌, arith, false, List, ◌∷◌, ◌||◌, if_keeps, ◌==◌}
use jvm_gc_acclelerator.Common.Int.{ℤ, pos, negsuc, to_bits64}
use jvm_gc_acclelerator.Common.Bits.{bit_or-lt}
use jvm_gc_acclelerator.Common.Errno.{enodev, ebusy}
use native.Mathlib.Nat.{div-mul-le_self}
use jvm_gc_acclelerator.Dma.Kernel.{Device, Mmu, Call}
use jvm_gc_acclelerator.Dma.Grows.{is_register_write, fill_tlb_for_miss-keeps}
use jvm_gc_acclelerator.Dma.{page_align}
use jvm_gc_acclelerator.Hwgc.Regs.{
  hwgc_port, reg_cmd, cmd_reset, event_done, event_error, event_grow, event_expand, event_allocate,
  event_wake, reg_irq_status, reg_irq_par0, reg_irq_par1,
}
use jvm_gc_acclelerator.Hwgc.Types.{Hwgc, reg_write32, zero_event}
use jvm_gc_acclelerator.Hwgc.Events.{publish_sw_event, abort_operation_from_irq}
use jvm_gc_acclelerator.Hwgc.Irq.{irq_top, irq_thread, fill_miss, publish_done, publish_request}
use jvm_gc_acclelerator.Hwgc.Irq.Keeps.{KeptByBlocks, handle_pending-keeps}
use jvm_gc_acclelerator.Hwgc.Words.{
  FitsRegister, AllFitRegisters, EventFits, HwgcFits, DeviceFits, MmuFits,
}

other-FitsRegister : (call : Call) → is_register_write call ≡ false → FitsRegister call
other-FitsRegister (Call.write32 off val) other = absurd (cc)
other-FitsRegister (Call.write64 off val) other = absurd (cc)
other-FitsRegister (Call.get_page page) other = tt
other-FitsRegister (Call.put_page page) other = tt
other-FitsRegister (Call.set_page_dirty_lock page) other = tt
other-FitsRegister (Call.get_task_struct task) other = tt
other-FitsRegister (Call.put_task_struct task) other = tt
other-FitsRegister (Call.get_task_mm mm) other = tt
other-FitsRegister (Call.mmput mm) other = tt
other-FitsRegister (Call.down_read mm) other = tt
other-FitsRegister (Call.up_read mm) other = tt
other-FitsRegister Call.synchronize_irq other = tt
other-FitsRegister Call.wake_up other = tt

pub one_more :
    (call : Call) (calls : List Call)
    → is_register_write call ≡ false
    → AllFitRegisters calls
    → AllFitRegisters (call ∷ calls)
one_more call calls other h = (other-FitsRegister call other, h)

publish_sw_event-HwgcFits :
    (type par0 par1 : ℕ) (d : Hwgc)
    → type < 2 ^ 32
    → par0 < 2 ^ 64
    → par1 < 2 ^ 64
    → HwgcFits d
    → HwgcFits (publish_sw_event type par0 par1 d).0
unfolding publish_sw_event
publish_sw_event-HwgcFits type par0 par1 d p q r h =
    let kept = if_keeps (λ (r : Hwgc × ℤ). HwgcFits r.0) in
    kept d.removing (d, enodev) _ h
      (kept (d.event_pending || d.event_in_service) (d, ebusy) _ h
        (record {
          calls = (tt, h.calls);
          pending_irq = h.pending_irq;
          event_seq = omega arith;
          current_event = record {
            type = p;
            reserved = omega arith;
            seq = omega arith;
            par0 = q;
            par1 = r;
            res0 = omega arith;
            res1 = omega arith;
          };
        }))

page_align-lt : (mmu : Mmu) (n bound : ℕ) → n < bound → page_align mmu n < bound
page_align-lt mmu n bound h = omega (arith, div-mul-le_self n (2 ^ mmu.page_shift))

fill_miss-HwgcFits :
    (dev : Device) (mmu : Mmu) (d : Hwgc)
    → DeviceFits dev
    → MmuFits mmu
    → HwgcFits d
    → HwgcFits (fill_miss dev mmu d).0
unfolding fill_miss
fill_miss-HwgcFits dev mmu d read phys h = record {
  calls =
      fill_tlb_for_miss-keeps AllFitRegisters one_more hwgc_port dev mmu d.dma
        (λ page calls more. (
          omega arith,
          (
            page_align-lt mmu _ (2 ^ 64) (phys page),
            (page_align-lt mmu _ (2 ^ 64) (read.read64 hwgc_port.miss_va), more),
          ),
        ))
        h.calls;
  pending_irq = h.pending_irq;
  event_seq = h.event_seq;
  current_event = h.current_event;
}

to_bits64-lt : (n : ℤ) → to_bits64 n < 2 ^ 64
to_bits64-lt (pos n) = omega arith
to_bits64-lt (negsuc n) = omega arith

pub blocks-HwgcFits :
    (dev : Device) (mmu : Mmu) → DeviceFits dev → MmuFits mmu → KeptByBlocks HwgcFits dev mmu
unfolding publish_done publish_request abort_operation_from_irq
blocks-HwgcFits dev mmu read phys =
    let request = λ (type : ℕ) (p : type < 2 ^ 32) (d : Hwgc) (h : HwgcFits d).
      publish_sw_event-HwgcFits type _ _ d p (read.read64 reg_irq_par0) (read.read64 reg_irq_par1)
        h in
    record {
      fill = λ d. fill_miss-HwgcFits dev mmu d read phys;
      done = λ d h.
          publish_sw_event-HwgcFits event_done 0 0 (record d { op_status = pos 0 }) (omega arith)
            (omega arith) (omega arith)
            (record {
              calls = h.calls;
              pending_irq = h.pending_irq;
              event_seq = h.event_seq;
              current_event = h.current_event;
            });
      grow = request event_grow (omega arith);
      expand = request event_expand (omega arith);
      allocate = request event_allocate (omega arith);
      wake = request event_wake (omega arith);
      abort = λ status d h.
          publish_sw_event-HwgcFits event_error (to_bits64 status) 0
            (reg_write32 (record d { op_status = status }) cmd_reset reg_cmd) (omega arith)
            (to_bits64-lt status) (omega arith)
            (record {
              calls = (omega arith, h.calls);
              pending_irq = h.pending_irq;
              event_seq = h.event_seq;
              current_event = h.current_event;
            });
    }

pub irq_top-HwgcFits :
    (dev : Device) (d : Hwgc) → DeviceFits dev → HwgcFits d → HwgcFits (irq_top dev d).0
unfolding irq_top
irq_top-HwgcFits dev d read h =
    let st = dev.read32 reg_irq_status in
    if_keeps (λ (r : Hwgc × _). HwgcFits r.0) (st == 0) _ _ h
      (record {
        calls = (read.read32 reg_irq_status, h.calls);
        pending_irq = bit_or-lt 32 d.pending_irq st h.pending_irq (read.read32 reg_irq_status);
        event_seq = h.event_seq;
        current_event = h.current_event;
      })

pub irq_thread-HwgcFits :
    (dev : Device) (mmu : Mmu) (d : Hwgc)
    → DeviceFits dev
    → MmuFits mmu
    → HwgcFits d
    → HwgcFits (irq_thread dev mmu d).0
unfolding irq_thread
irq_thread-HwgcFits dev mmu d read phys h =
    handle_pending-keeps HwgcFits dev mmu d.pending_irq (record d { pending_irq = 0 })
      (blocks-HwgcFits dev mmu read phys)
      (record {
        calls = h.calls;
        pending_irq = omega arith;
        event_seq = h.event_seq;
        current_event = h.current_event;
      })

pub write32-HwgcFits :
    (d : Hwgc) (val off : ℕ) → val < 2 ^ 32 → HwgcFits d → HwgcFits (reg_write32 d val off)
write32-HwgcFits d val off fit h = record {
  calls = (fit, h.calls);
  pending_irq = h.pending_irq;
  event_seq = h.event_seq;
  current_event = h.current_event;
}

pub zero_event-EventFits : EventFits zero_event
zero_event-EventFits = record {
  type = omega arith;
  reserved = omega arith;
  seq = omega arith;
  par0 = omega arith;
  par1 = omega arith;
  res0 = omega arith;
  res1 = omega arith;
}
