-- ===== src/Hwgc/Words.antt =====
-- The widths of the words of loongnix/qemu_dev/hwgc_driver/hwgc_driver_platform.c: what a register write,
-- an event and the fields of `struct hwgc` may hold, and the inputs of a section at their C types.
pub mod Fits
pub mod Start
pub mod Typed
use jvm_gc_acclelerator.Common.{ℕ, ◌<◌, ◌^◌, Option, none, some, List, [], ◌∷◌}
use jvm_gc_acclelerator.Common.Int.{ℤ}
use jvm_gc_acclelerator.Dma.Kernel.{Call, Device, Mmu}
use jvm_gc_acclelerator.Hwgc.Types.{Parameters, Event, Hwgc, new_hwgc}
use jvm_gc_acclelerator.Hwgc.Params.Roundtrip.{FitsTypes}
use jvm_gc_acclelerator.Hwgc.Invariant.Reach.{
  Step, interrupt, thread, start, take, restore, finish, reply, announce, stop,
}
use jvm_gc_acclelerator.Hwgc.Invariant.Blocks.{
  BlockStep, pending, fill, done, grow, expand, allocate, wake, abort,
}

-- The value of a register write is a word of the register's width.
abbrev pub FitsRegister : Call → Type 0
FitsRegister (Call.write32 off val) = val < 2 ^ 32
FitsRegister (Call.write64 off val) = val < 2 ^ 64
FitsRegister _ = Unit

abbrev pub AllFitRegisters : List Call → Type 0
AllFitRegisters [] = Unit
AllFitRegisters (call ∷ calls) = FitsRegister call × AllFitRegisters calls

-- `struct HWGCEvent`
pub record EventFits (ev : Event) : Type 0 where
  pub type : ev.type < 2 ^ 32
  pub reserved : ev.reserved < 2 ^ 32
  pub seq : ev.seq < 2 ^ 64
  pub par0 : ev.par0 < 2 ^ 64
  pub par1 : ev.par1 < 2 ^ 64
  pub res0 : ev.res0 < 2 ^ 64
  pub res1 : ev.res1 < 2 ^ 64

-- `struct hwgc`, with the log.
pub record HwgcFits (d : Hwgc) : Type 0 where
  pub calls : AllFitRegisters d.calls
  pub pending_irq : d.pending_irq < 2 ^ 32
  pub event_seq : d.event_seq < 2 ^ 64
  pub current_event : EventFits d.current_event

-- The device's registers, and physical addresses.
pub record DeviceFits (dev : Device) : Type 0 where
  pub read32 : (off : ℕ) → dev.read32 off < 2 ^ 32
  pub read64 : (off : ℕ) → dev.read64 off < 2 ^ 64

abbrev pub MmuFits : Mmu → Type 0
MmuFits mmu = (page : ℕ) → mmu.page_to_phys page < 2 ^ 64

abbrev pub ParametersFit : Option Parameters → Type 0
ParametersFit none = Unit
ParametersFit (some params) = FitsTypes params

abbrev pub ReplyFits : Option Event → Type 0
ReplyFits none = Unit
ReplyFits (some ev) = EventFits ev

abbrev pub InputFits : {d d' : Hwgc} → Step d d' → Type 0
InputFits (interrupt dev) = DeviceFits dev
InputFits (thread dev mmu) = DeviceFits dev × MmuFits mmu
InputFits (start params current) = ParametersFit params
InputFits (restore ev known) = EventFits ev
InputFits (reply ev) = ReplyFits ev
InputFits take = Unit
InputFits finish = Unit
InputFits announce = Unit
InputFits stop = Unit

abbrev pub BlockInputFits : {d d' : Hwgc} → BlockStep d d' → Type 0
BlockInputFits (fill dev mmu) = DeviceFits dev × MmuFits mmu
BlockInputFits (grow dev) = DeviceFits dev
BlockInputFits (expand dev) = DeviceFits dev
BlockInputFits (allocate dev) = DeviceFits dev
BlockInputFits (wake dev) = DeviceFits dev
BlockInputFits pending = Unit
BlockInputFits done = Unit
BlockInputFits (abort status) = Unit

-- The states that sections and blocks with such inputs reach.
pub data TypedReach : Hwgc → Type 0 where
  probed : (bar0 : Option ℕ) (irq dev_id : ℤ) → TypedReach (new_hwgc bar0 irq dev_id)
  later : {d d' : Hwgc} → TypedReach d → (step : Step d d') → InputFits step → TypedReach d'
  block :
      {d d' : Hwgc} → TypedReach d → (step : BlockStep d d') → BlockInputFits step → TypedReach d'
