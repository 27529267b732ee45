-- ===== src/Hwgc/Service.antt =====
-- A whole operation: the start ioctl, the requests of the device that the process answers, and the
-- end. The functions are those of loongnix/qemu_dev/hwgc_driver/hwgc_driver_platform.c, composed in
-- the order in which a device, its interrupts and one process run them.
pub mod Raised
pub mod Cycle
pub mod Ends
use jvm_gc_acclelerator.Common.{ℕ, true, Option, none, some, List, [], ◌∷◌, ◌==◌, if◌then◌else◌}
use jvm_gc_acclelerator.Common.Int.{ℤ, pos}
use jvm_gc_acclelerator.Dma.Kernel.{Process, Device, Mmu}
use jvm_gc_acclelerator.Hwgc.Regs.{
  reg_irq_status, reg_irq_par0, irq_done, irq_grow, irq_expand, irq_allocate, irq_wake, event_grow,
  event_expand, event_allocate, event_wake,
}
use jvm_gc_acclelerator.Hwgc.Types.{Parameters, Event, Hwgc}
use jvm_gc_acclelerator.Hwgc.Irq.{irq_top, irq_thread}
use jvm_gc_acclelerator.Hwgc.Ioctl.{start_ioctl, wait_event_ioctl, reply_event_ioctl}

-- What a device may ask of the JVM.
pub data Kind : Type 0 where
  grow expand allocate wake : Kind

abbrev pub irq_of : Kind → ℕ
irq_of Kind.grow = irq_grow
irq_of Kind.expand = irq_expand
irq_of Kind.allocate = irq_allocate
irq_of Kind.wake = irq_wake

abbrev pub event_of : Kind → ℕ
event_of Kind.grow = event_grow
event_of Kind.expand = event_expand
event_of Kind.allocate = event_allocate
event_of Kind.wake = event_wake

-- A request with its parameters, and the results that the process will reply.
pub record Request : Type 0 where
  pub kind : Kind
  pub par0 : ℕ
  pub par1 : ℕ
  pub res0 : ℕ
  pub res1 : ℕ

-- A device that raises one interrupt, with its parameters.
abbrev pub raising : ℕ → ℕ → ℕ → Device
raising irq par0 par1 = record {
  read32 = λ off. if off == reg_irq_status then irq else 0;
  read64 = λ off. if off == reg_irq_par0 then par0 else par1;
}

-- Both halves of the interrupt handler.
unfoldable pub interrupted : Device → Mmu → Hwgc → Hwgc
unfolding irq_top irq_thread
interrupted dev mmu d = (irq_thread dev mmu (irq_top dev d).0).0

-- The event that the process got, and the results of its two calls.
pub record Served : Type 0 where
  pub event : Option Event
  pub wait_ret : ℤ
  pub reply_ret : ℤ

-- The reply of the process to the event that it got.
abbrev pub reply_to : Request → Option Event → Option Event
reply_to r (some ev) = some (record ev { res0 = r.res0; res1 = r.res1 })
reply_to r none = none

unfoldable pub serve : Mmu → Request → Hwgc → Hwgc × Served
unfolding interrupted wait_event_ioctl reply_event_ioctl
serve mmu r d =
    let raised = interrupted (raising (irq_of r.kind) r.par0 r.par1) mmu d in
    let (waited, wait_ret, event) = wait_event_ioctl (pos 0) true raised in
    let (replied, reply_ret) = reply_event_ioctl (reply_to r event) waited in
    (replied, record { event = event; wait_ret = wait_ret; reply_ret = reply_ret })

unfoldable pub serve_all : Mmu → List Request → Hwgc → Hwgc × List Served
unfolding serve
serve_all mmu [] d = (d, [])
serve_all mmu (r ∷ rs) d =
    let (d', served) = serve mmu r d in
    let (d'', rest) = serve_all mmu rs d' in (d'', served ∷ rest)

-- The end of an operation, by DONE.
unfoldable pub complete : Mmu → Hwgc → Hwgc × ℤ × Option Event
unfolding interrupted wait_event_ioctl
complete mmu d = wait_event_ioctl (pos 0) true (interrupted (raising irq_done 0 0) mmu d)

-- What the process got from an operation.
pub record Operated : Type 0 where
  pub start_ret : ℤ
  pub served : List Served
  pub done_ret : ℤ
  pub done : Option Event

-- The start, the requests in their order, and DONE.
unfoldable pub operate : Parameters → Process → Mmu → List Request → Hwgc → Hwgc × Operated
unfolding start_ioctl serve_all complete
operate params current mmu rs d =
    let (started, start_ret) = start_ioctl (some params) current d in
    let (running, served) = serve_all mmu rs started in
    let (ended, done_ret, done) = complete mmu running in
    (ended, record { start_ret = start_ret; served = served; done_ret = done_ret; done = done })
