-- ===== src/Hwgc/Works.antt =====
-- A whole operation in which the device misses pages of the process between its requests. The functions
-- are those of loongnix/qemu_dev/hwgc_driver/hwgc_driver_platform.c, in the order in which a device, its
-- interrupts and one process run them.
pub mod Whole
pub mod Asked
pub mod Pinned
use jvm_gc_acclelerator.Common.{
  ℕ, Bool, true, Option, none, some, List, [], ◌∷◌, ◌++◌, ◌==◌, if◌then◌else◌,
}
use jvm_gc_acclelerator.Common.Int.{ℤ, pos}
use jvm_gc_acclelerator.Dma.Kernel.{Process, Device, Mmu, Call}
use jvm_gc_acclelerator.Dma.{page_align}
use jvm_gc_acclelerator.Dma.Missed.{Miss}
use jvm_gc_acclelerator.Hwgc.Regs.{
  reg_irq_status, reg_irq_clear, reg_irq_par0, reg_irq_par1, reg_irq_res0, reg_irq_res1, reg_cmd,
  reg_status, cmd_reset, cmd_start, cmd_continue, st_irq_en, irq_all, irq_tlb_miss, irq_done,
  access_read, access_write,
}
use jvm_gc_acclelerator.Hwgc.Types.{Parameters, Hwgc}
use jvm_gc_acclelerator.Hwgc.Params.{parameter_writes}
use jvm_gc_acclelerator.Hwgc.Ioctl.{start_ioctl}
use jvm_gc_acclelerator.Hwgc.Service.{
  Request, irq_of, interrupted, Served, serve, complete, Operated,
}

abbrev pub access_of : Miss → ℕ
access_of m = if m.write then access_write else access_read

-- A device that reports a miss.
abbrev pub missing : Miss → Device
missing m = record {
  read32 = λ off.
      if off == reg_irq_status
      then irq_tlb_miss
      else if off == reg_irq_par1
      then access_of m
      else 0;
  read64 = λ off. m.va;
}

pub data Work : Type 0 where
  ask : Request → Work
  miss : Miss → Work

unfoldable pub work_all : Mmu → List Work → Hwgc → Hwgc × List Served
unfolding serve interrupted
work_all mmu [] d = (d, [])
work_all mmu (Work.ask r ∷ works) d =
    let (d', served) = serve mmu r d in
    let (d'', rest) = work_all mmu works d' in (d'', served ∷ rest)
work_all mmu (Work.miss m ∷ works) d = work_all mmu works (interrupted (missing m) mmu d)

-- The start, the requests and misses in their order, and DONE.
unfoldable pub operate_works : Parameters → Process → Mmu → List Work → Hwgc → Hwgc × Operated
unfolding start_ioctl work_all complete
operate_works params current mmu works d =
    let (started, start_ret) = start_ioctl (some params) current d in
    let (running, served) = work_all mmu works started in
    let (ended, done_ret, done) = complete mmu running in
    (ended, record { start_ret = start_ret; served = served; done_ret = done_ret; done = done })

-- What the device is sent, in the order in which it is sent; `pages` are the pages of the process.
abbrev pub start_sent : Parameters → List Call
start_sent params =
    Call.write32 reg_cmd cmd_reset
    ∷ Call.write32 reg_irq_clear irq_all
    ∷ Call.write32 reg_status st_irq_en
    ∷ (parameter_writes params ++ Call.write32 reg_cmd cmd_start ∷ [])

abbrev pub work_sent : Mmu → (ℕ → ℕ) → Work → List Call
work_sent mmu pages (Work.ask r) =
    Call.write32 reg_irq_clear (irq_of r.kind)
    ∷ Call.write64 reg_irq_res0 r.res0
    ∷ Call.write64 reg_irq_res1 r.res1
    ∷ Call.write32 reg_cmd cmd_continue
    ∷ []
work_sent mmu pages (Work.miss m) =
    Call.write32 reg_irq_clear irq_tlb_miss
    ∷ Call.write64 reg_irq_res0 (page_align mmu m.va)
    ∷ Call.write64 reg_irq_res1 (page_align mmu (mmu.page_to_phys (pages (page_align mmu m.va))))
    ∷ Call.write32 reg_cmd cmd_continue
    ∷ []

abbrev pub works_sent : Mmu → (ℕ → ℕ) → List Work → List Call
works_sent mmu pages [] = []
works_sent mmu pages (w ∷ works) = work_sent mmu pages w ++ works_sent mmu pages works

abbrev pub operation_sent : Parameters → Mmu → (ℕ → ℕ) → List Work → List Call
operation_sent params mmu pages works =
    start_sent params ++ works_sent mmu pages works ++ Call.write32 reg_irq_clear irq_done ∷ []

abbrev pub requests_of : List Work → List Request
requests_of [] = []
requests_of (Work.ask r ∷ works) = r ∷ requests_of works
requests_of (Work.miss m ∷ works) = requests_of works
