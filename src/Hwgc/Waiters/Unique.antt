-- ===== src/Hwgc/Waiters/Unique.antt =====
-- The numbers that were given out, and the critical sections that give one out.
pub mod Sections
use jvm_gc_acclelerator.Common.{
  ℕ, suc, ◌^◌, ◌<◌, ◌≤◌, ◌≡◌, ◌+◌, ◌%◌, ◌&&◌, ◌⊎◌, inl, inr, Bool-cases, refl, sym, subst, ◌==◌,
  arith, Bool, true, false, Option, ◌||◌, ltb, if◌then◌else◌,
}
use jvm_gc_acclelerator.Common.Int.{pos}
use jvm_gc_acclelerator.Dma.Kernel.{Call, Process, Device, Mmu}
use jvm_gc_acclelerator.Hwgc.Regs.{reg_cmd, cmd_reset}
use jvm_gc_acclelerator.Hwgc.Types.{emit, Parameters, Event, Hwgc, reg_write32}
use jvm_gc_acclelerator.Hwgc.Events.{
  new_event, Taken, take_event, restore_event, finish_operation, publish_sw_event,
  abort_operation_from_irq, clear_event_state,
}
use jvm_gc_acclelerator.Hwgc.Params.{emit_all, program_parameters, parameter_writes}
use jvm_gc_acclelerator.Hwgc.Irq.{irq_top, irq_thread, fill_miss, publish_done, publish_request}
use jvm_gc_acclelerator.Hwgc.Irq.Keeps.{KeptByBlocks, handle_pending-keeps}
use jvm_gc_acclelerator.Hwgc.Ioctl.{
  start_ioctl, start_held, start_device, new_operation, reply_event_ioctl, accept_reply,
  write_reply,
}
use jvm_gc_acclelerator.Hwgc.Invariant.Blocks.{BlockStep, BlockStep-keeps}
use jvm_gc_acclelerator.Hwgc.Remove.{announce_removal, stop_device}

-- How often the number of the event in the slot is `n`.
abbrev pub slot_at : (current : ℕ) (pending : Bool) (n : ℕ) → ℕ
slot_at current pending n = if pending && (current == n) then 1 else 0

abbrev pub in_slot : ℕ → Hwgc → ℕ
in_slot n d = slot_at d.current_event.seq d.event_pending n

-- No number is given out twice, where `elsewhere` counts it outside the slot; and none is from above
-- those that were issued, up to `bound`.
pub record UniqueAt (bound : ℕ) (elsewhere : ℕ → ℕ) (issued current : ℕ) (pending in_service : Bool)
    : Type 0 where
  pub bounded : issued ≤ bound
  pub once : (n : ℕ) → elsewhere n + slot_at current pending n ≤ 1
  pub unissued : (n : ℕ) → issued < n → elsewhere n + slot_at current pending n ≡ 0
  pub one_slot : pending ≡ true → in_service ≡ false

abbrev pub IsUnique : ℕ → (ℕ → ℕ) → Hwgc → Type 0
IsUnique bound elsewhere d =
    UniqueAt bound elsewhere d.event_seq d.current_event.seq d.event_pending d.event_in_service

-- With a free slot, there is a number left.
abbrev HasRoom : ℕ → Hwgc → Type 0
HasRoom bound d =
    (ltb d.event_seq bound || d.event_pending || d.event_in_service || d.removing) ≡ true

-- A section that keeps the numbers, and the slot or empties it.
pub kept-IsUnique :
    (bound : ℕ) (elsewhere : ℕ → ℕ) (d d' : Hwgc)
    → d'.event_seq ≡ d.event_seq
    → ((n : ℕ) → in_slot n d' ≤ in_slot n d)
    → (d'.event_pending ≡ true → d'.event_in_service ≡ false)
    → IsUnique bound elsewhere d
    → IsUnique bound elsewhere d'
kept-IsUnique bound elsewhere d d' same less apart h = record {
  one_slot = apart;
  bounded = let b = h.bounded in omega arith;
  once = λ n. omega (arith, less n, h.once n);
  unissued =
      λ n above. let was : d.event_seq < n = omega arith in omega (arith, less n, h.unissued n was);
}

-- A new number goes to the slot.
new_number-UniqueAt :
    (bound : ℕ) (elsewhere : ℕ → ℕ) (issued current : ℕ)
    → suc issued ≤ bound
    → UniqueAt bound elsewhere issued current false false
    → UniqueAt bound elsewhere (suc issued) (suc issued) true false
new_number-UniqueAt bound elsewhere issued current room h = record {
  bounded = room;
  one_slot = λ on. refl;
  once = λ n. ground (arith, h.once n, h.unissued (suc issued) (omega arith));
  unissued =
      λ n above. let was : issued < n = omega arith in ground (arith, h.unissued n was, above);
}

-- A publication is refused, or fills the free slot.
abbrev filled : ℕ → ℕ → ℕ → Hwgc → Hwgc
filled type par0 par1 d =
    let seq = (d.event_seq + 1) % 2 ^ 64 in
    emit Call.wake_up (record d {
      event_seq = seq;
      current_event = new_event type par0 par1 seq;
      event_pending = true;
    })

abbrev IsFree : Hwgc → Type 0
IsFree d = (d.event_pending ≡ false) × (d.event_in_service ≡ false) × (d.removing ≡ false)

publish_sw_event-cases :
    (type par0 par1 : ℕ) (d : Hwgc)
    → ((publish_sw_event type par0 par1 d).0 ≡ d)
      ⊎ (IsFree d × ((publish_sw_event type par0 par1 d).0 ≡ filled type par0 par1 d))
unfolding publish_sw_event
publish_sw_event-cases type par0 par1 d = elim (Bool-cases d.removing) [
  | inl gone ↦ inl (rw gone refl)
  | inr present ↦ elim (Bool-cases (d.event_pending || d.event_in_service)) [
    | inl busy ↦ inl (rw (present, busy) refl)
    | inr free ↦ inr ((grind arith, grind arith, present), rw (present, free) refl)
  ]
]

next_number :
    (issued bound : ℕ) → issued < bound → bound < 2 ^ 64 → (issued + 1) % 2 ^ 64 ≡ suc issued
next_number issued bound room small = omega arith

module _ (bound : ℕ) (elsewhere : ℕ → ℕ) where
  filled-IsUnique :
      (type par0 par1 : ℕ) (d : Hwgc)
      → bound < 2 ^ 64
      → IsFree d
      → IsUnique bound elsewhere d × HasRoom bound d
      → IsUnique bound elsewhere (filled type par0 par1 d) × HasRoom bound (filled type par0 par1 d)
  filled-IsUnique type par0 par1 d small (empty, idle, present) h =
      let room : d.event_seq < bound = grind (arith, h.1, empty, idle, present) in
      let quiet =
        subst (λ p. UniqueAt bound elsewhere d.event_seq d.current_event.seq p d.event_in_service)
          empty h.0 in
      let calm =
        subst (λ s. UniqueAt bound elsewhere d.event_seq d.current_event.seq false s) idle quiet in
      rw (next_number d.event_seq bound room small, idle)
        (new_number-UniqueAt bound elsewhere d.event_seq d.current_event.seq room calm, grind arith)

  publish_sw_event-IsUnique :
      (type par0 par1 : ℕ) (d : Hwgc)
      → bound < 2 ^ 64
      → IsUnique bound elsewhere d × HasRoom bound d
      → let d' = (publish_sw_event type par0 par1 d).0 in
        IsUnique bound elsewhere d' × HasRoom bound d'
  unfolding publish_sw_event
  publish_sw_event-IsUnique type par0 par1 d small h =
      elim (publish_sw_event-cases type par0 par1 d) [
        | inl same ↦ subst (λ d'. IsUnique bound elsewhere d' × HasRoom bound d') (sym same) h
        | inr (free, new) ↦
            subst (λ d'. IsUnique bound elsewhere d' × HasRoom bound d') (sym new)
              (filled-IsUnique type par0 par1 d small free h)
      ]

blocks-IsUnique :
    (bound : ℕ) (elsewhere : ℕ → ℕ) (dev : Device) (mmu : Mmu)
    → bound < 2 ^ 64
    → KeptByBlocks (λ d. IsUnique bound elsewhere d × HasRoom bound d) dev mmu
unfolding fill_miss publish_done publish_request abort_operation_from_irq
blocks-IsUnique bound elsewhere dev mmu small =
    let publish =
      λ (type par0 par1 : ℕ) (d : Hwgc) (h : IsUnique bound elsewhere d × HasRoom bound d).
        publish_sw_event-IsUnique bound elsewhere type par0 par1 d small h in
    record {
      fill = λ d h. h;
      done = λ d h. publish _ _ _ (record d { op_status = pos 0 }) h;
      grow = publish _ _ _;
      expand = publish _ _ _;
      allocate = publish _ _ _;
      wake = publish _ _ _;
      abort = λ status d h.
          publish _ _ _ (reg_write32 (record d { op_status = status }) cmd_reset reg_cmd) h;
    }

-- One number more may be given out.
more_room :
    (n : ℕ) (elsewhere : ℕ → ℕ) (d : Hwgc)
    → IsUnique n elsewhere d
    → IsUnique (suc n) elsewhere d × HasRoom (suc n) d
more_room n elsewhere d h = (
  record {
    bounded = let b = h.bounded in omega arith;
    once = h.once;
    unissued = h.unissued;
    one_slot = h.one_slot;
  },
  ground (arith, h.bounded),
)

-- A run of the interrupt thread gives out one number at most.
pub irq_thread-IsUnique :
    (n : ℕ) (elsewhere : ℕ → ℕ) (dev : Device) (mmu : Mmu) (d : Hwgc)
    → suc n < 2 ^ 64
    → IsUnique n elsewhere d
    → IsUnique (suc n) elsewhere (irq_thread dev mmu d).0
unfolding irq_thread
irq_thread-IsUnique n elsewhere dev mmu d small h =
    (handle_pending-keeps (λ d'. IsUnique (suc n) elsewhere d' × HasRoom (suc n) d') dev mmu
      d.pending_irq (record d { pending_irq = 0 }) (blocks-IsUnique (suc n) elsewhere dev mmu small)
      (more_room n elsewhere d h)).0

-- So does one of its blocks.
pub BlockStep-IsUnique :
    (n : ℕ) (elsewhere : ℕ → ℕ) {d d' : Hwgc}
    → suc n < 2 ^ 64
    → BlockStep d d'
    → IsUnique n elsewhere d
    → IsUnique (suc n) elsewhere d'
BlockStep-IsUnique n elsewhere {d} small step h =
    (BlockStep-keeps (λ d'. IsUnique (suc n) elsewhere d' × HasRoom (suc n) d')
      (λ dev mmu. blocks-IsUnique (suc n) elsewhere dev mmu small) (λ d' k. k) step
      (more_room n elsewhere d h)).0
