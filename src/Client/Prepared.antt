-- ===== src/Client/Prepared.antt =====
-- From the parameters that the program prepares to the registers of the device.
use jvm_gc_acclelerator.Common.{
  ℕ, ◌≡◌, refl, subst, if_false, ◌∙◌, arith, Bool, true, false, some, if◌then◌else◌,
}
use jvm_gc_acclelerator.Common.Int.{ℤ, pos}
use jvm_gc_acclelerator.Common.Errno.{ebusy, enodev}
use jvm_gc_acclelerator.Hwgc.Regs.{
  reg_cmd, reg_status, reg_irq_clear, cmd_reset, irq_all, st_irq_en,
}
use jvm_gc_acclelerator.Dma.Kernel.{Process, DmaContext}
use jvm_gc_acclelerator.Dma.{hold_process_context}
use jvm_gc_acclelerator.Hwgc.Types.{Parameters, Hwgc, reg_write32}
use jvm_gc_acclelerator.Hwgc.Params.Roundtrip.{
  FitsTypes, register64, device_view, as_read, program_parameters-device_view,
}
use jvm_gc_acclelerator.Hwgc.Ioctl.{start_ioctl, start_held, start_device, new_operation}
use jvm_gc_acclelerator.Shadow.{shadow_addr}
use jvm_gc_acclelerator.Client.Trace.{pars_0, pars_1}

-- The start ioctl accepts the parameters, and the accelerator then reads them from its registers.
abbrev pub IsStartedWith : Parameters → Process → Hwgc → Type 0
IsStartedWith p current d =
    let (d', ret) = start_ioctl (some p) current d in
    (ret ≡ pos 0) × (device_view (λ off. register64 off d'.calls) ≡ p)

-- The same of a run of its last part.
abbrev Starts : Parameters → Hwgc × ℤ → Type 0
Starts p (d', ret) = (ret ≡ pos 0) × (device_view (λ off. register64 off d'.calls) ≡ p)

start_held-Starts :
    (p : Parameters) (d : Hwgc) (held : DmaContext × Bool)
    → FitsTypes p
    → as_read p ≡ p
    → held.1 ≡ true
    → Starts p (start_held p d held)
unfolding start_held start_device
start_held-Starts p d (dma, false) fits same taken = absurd (cc)
start_held-Starts p d (dma, true) fits same taken =
    let reset = reg_write32 (new_operation d dma) cmd_reset reg_cmd in
    let enabled = reg_write32 (reg_write32 reset irq_all reg_irq_clear) st_irq_en reg_status in
    (refl, (program_parameters-device_view p enabled fits).0 ∙ same)

hold_process_context-true :
    (current : Process) (mm : ℕ) (c : DmaContext)
    → current.mm ≡ some mm
    → (hold_process_context current c).1 ≡ true
unfolding hold_process_context
hold_process_context-true current mm c alive = rw alive refl

pub start_ioctl-IsStartedWith :
    (p : Parameters) (current : Process) (mm : ℕ) (d : Hwgc)
    → FitsTypes p
    → as_read p ≡ p
    → current.mm ≡ some mm
    → d.removing ≡ false
    → d.op_active ≡ false
    → IsStartedWith p current d
unfolding start_ioctl
start_ioctl-IsStartedWith p current mm d fits same alive there idle =
    let held = start_held p d (hold_process_context current d.dma) in
    let busy = if d.op_active then (d, ebusy) else held in
    subst (Starts p)
      (if_false d.op_active (d, ebusy) held idle ∙ if_false d.removing (d, enodev) busy there)
      (start_held-Starts p d (hold_process_context current d.dma) fits same
        (hold_process_context-true current mm d.dma alive))

-- The main of the program does not abort at the parameters of its two workers, and an idle device that has
-- not been removed, started by a live process with the parameters of either worker, reports 0 and then
-- reads exactly those parameters from its registers.
pub pars-IsStartedWith :
    (current : Process) (mm : ℕ) (d : Hwgc)
    → current.mm ≡ some mm
    → d.removing ≡ false
    → d.op_active ≡ false
    → (p : Parameters) × (q : Parameters) × (pars_0 ≡ some p)
      × (pars_1 ≡ some q)
      × IsStartedWith p current d
      × IsStartedWith q current d
unfolding pars_0 pars_1 shadow_addr
pars-IsStartedWith current mm d alive there idle = (
  _,
  _,
  refl,
  refl,
  start_ioctl-IsStartedWith _ current mm d (ground arith) refl alive there idle,
  start_ioctl-IsStartedWith _ current mm d (ground arith) refl alive there idle,
)
