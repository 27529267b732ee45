-- ===== src/Edu.antt =====
-- The driver of QEMU's edu device, loongnix/qemu_dev/edu_device/edu_driver.c: the interrupt handler and
-- the ioctl, which computes a factorial. The interrupts that come during an ioctl are lists.
pub mod Probe
pub mod Unwind
pub mod Outcome
pub mod Program
use jvm_gc_acclelerator.Common.{
  ℕ, zero, suc, ◌+◌, ◌-◌, ◌^◌, Bool, true, false, not, Option, none, some, List, [], ◌∷◌, ◌==◌,
  if◌then◌else◌,
}
use jvm_gc_acclelerator.Common.Int.{ℤ, pos}
use jvm_gc_acclelerator.Common.Errno.{efault, enotty, etimedout}
use jvm_gc_acclelerator.Dma.Kernel.{Device}

abbrev pub reg_fact : ℕ
reg_fact = 0x08

abbrev pub reg_status : ℕ
reg_status = 0x20

abbrev pub reg_clear_irq : ℕ
reg_clear_irq = 0x64

abbrev pub irq_fact : ℕ
irq_fact = 0x1

-- BIT(7)
abbrev pub status_irqfact : ℕ
status_irqfact = 2 ^ 7

-- `iowrite32(val, mmio + off)`
pub data Write : Type 0 where
  iowrite32 : (val off : ℕ) → Write

-- `struct edu_dev`: `fact_done` counts the completions that nobody has waited for. `writes` is no field
-- of the source: it is the log, the last write first.
pub record EduDev : Type 0 where
  pub fact_done : ℕ
  pub fact_result : ℕ
  pub writes : List Write

abbrev pub write : ℕ → ℕ → EduDev → EduDev
write val off edu = record edu { writes = Write.iowrite32 val off ∷ edu.writes }

abbrev pub reinit_completion : EduDev → EduDev
reinit_completion edu = record edu { fact_done = 0 }

unfoldable pub irq_handler : Device → EduDev → EduDev
irq_handler dev edu =
    let cleared = write irq_fact reg_clear_irq edu in
    let read = record cleared { fact_result = dev.read32 reg_fact } in
    record read { fact_done = read.fact_done + 1 }

-- One interrupt for each device state.
unfoldable pub interrupts : List Device → EduDev → EduDev
unfolding irq_handler
interrupts [] edu = edu
interrupts (dev ∷ rest) edu = interrupts rest (irq_handler dev edu)

-- What one call of the ioctl brings from outside: the interrupts come after `reinit_completion`, after
-- the operand is written, and after the wait, which returns `waited`.
pub record Caller : Type 0 where
  pub val : Option ℕ
  pub early : List Device
  pub computing : List Device
  pub waited : ℕ
  pub late : List Device
  pub copied : Bool

-- The device when the wait ends.
unfoldable pub awaited : Caller → ℕ → EduDev → EduDev
unfolding interrupts
awaited caller val edu =
    let ready = interrupts caller.early (reinit_completion edu) in
    interrupts caller.computing (write val reg_fact (write status_irqfact reg_status ready))

-- `case 0`, from `reinit_completion` on.
unfoldable pub factorial : Caller → ℕ → EduDev → EduDev × ℤ × Option ℕ
unfolding awaited interrupts
factorial caller val edu =
    let computed = awaited caller val edu in
    let woken = interrupts caller.late (record computed { fact_done = computed.fact_done - 1 }) in
    if caller.waited == 0
    then (computed, etimedout, none)
    else if not caller.copied
    then (woken, efault, none)
    else (woken, pos 0, some woken.fact_result)

unfoldable pub edu_ioctl : ℕ → Caller → EduDev → EduDev × ℤ × Option ℕ
unfolding factorial
edu_ioctl cmd caller edu =
    if not (cmd == 0)
    then (edu, enotty, none)
    else elim caller.val [ none ↦ (edu, efault, none) | some val ↦ factorial caller val edu ]
