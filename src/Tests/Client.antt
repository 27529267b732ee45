-- ===== src/Tests/Client.antt =====
-- Runs of the program that drives the accelerator.
use jvm_gc_acclelerator.Common.{
  ℕ, zero, suc, ◌≤◌, ◌≡◌, ◌≢◌, refl, arith, true, false, some, [], ◌∷◌,
}
use jvm_gc_acclelerator.Common.Int.{pos}
use jvm_gc_acclelerator.Common.Errno.{ebusy}
use jvm_gc_acclelerator.Dma.Kernel.{Process}
use jvm_gc_acclelerator.Dma.Ownership.{AllPut}
use jvm_gc_acclelerator.Hwgc.Invariant.Reach.{probed}
use jvm_gc_acclelerator.Hwgc.Regs.{irq_done}
use jvm_gc_acclelerator.Hwgc.Types.{Parameters, Hwgc, new_hwgc}
use jvm_gc_acclelerator.Hwgc.Events.{}
use jvm_gc_acclelerator.Hwgc.Ioctl.{start_ioctl}
use jvm_gc_acclelerator.Hwgc.Service.{Kind, irq_of, raising}
use jvm_gc_acclelerator.Client.{ReadResult, read_failed, read_bytes, read_exact, eintr_no, Message}
use jvm_gc_acclelerator.Client.Returns.{IsRead, Returns, read_exact-Returns}
use jvm_gc_acclelerator.Client.Work.{work, work-outcome}
use jvm_gc_acclelerator.Client.Trace.{pars_0, pars_1}
use jvm_gc_acclelerator.Client.Prepared.{IsStartedWith, pars-IsStartedWith}
use jvm_gc_acclelerator.Shadow.{Shadow, accessed}
use jvm_gc_acclelerator.Shadow.Image.{run_image}
use jvm_gc_acclelerator.Client.Single.Image.{image}
use jvm_gc_acclelerator.Client.Single.Params.{par}
use jvm_gc_acclelerator.Client.Single.{Ending, main}
use jvm_gc_acclelerator.Client.Single.Ends.{working, mapped, main-outcome}
use jvm_gc_acclelerator.Tests.Values.{process, mmu, parameters}

-- A read that is interrupted once, and then gives one byte a call, and none when none are asked for.
abbrev read : ℕ → ℕ → ReadResult
read zero count = read_failed eintr_no
read (suc k) zero = read_bytes []
read (suc k) (suc count) = read_bytes (k ∷ [])

read-IsRead : IsRead read
read-IsRead zero count bs given = absurd (cc)
read-IsRead (suc k) zero bs given = grind arith
read-IsRead (suc k) (suc count) bs given = grind arith

read-quiet : (j n : ℕ) → 1 ≤ j → read j n ≢ read_failed eintr_no
read-quiet zero n later = absurd (omega arith)
read-quiet (suc k) zero later = λ failed. absurd (cc)
read-quiet (suc k) (suc n) later = λ failed. absurd (cc)

read_exact-Returns_example : Returns 3 (read_exact read 5 0 3 [])
read_exact-Returns_example =
    read_exact-Returns read 1 5 3 read-IsRead read-quiet (omega arith) (omega arith)

abbrev fresh : Hwgc
fresh = new_hwgc (some 0) (pos 5) (pos 0)

work-outcome_example :
    (let (d', ended) = work parameters process (raising irq_done 0 0) mmu fresh in
      (ended ≡ some (record { result = 0; message = Message.done_message }))
      × (d'.op_active ≡ false)
      × AllPut d'.dma)
    × ((k : Kind) (par0 par1 : ℕ)
        → let (d', ended) = work parameters process (raising (irq_of k) par0 par1) mmu fresh in
          (ended ≡ some (record { result = 0; message = Message.wait_message }))
          × (d'.op_active ≡ true)
          × (d'.event_in_service ≡ true)
          × ((params' : Parameters) (current' : Process)
              → start_ioctl (some params') current' d' ≡ (d', ebusy)))
work-outcome_example =
    work-outcome parameters process 8 mmu fresh (probed (some 0) (pos 5) (pos 0)) refl refl refl

-- The parameters of the two workers, on a device that has just been probed.
abbrev idle_device : Hwgc
idle_device = new_hwgc (some 0) (pos 5) (pos 0)

pars-IsStartedWith_example :
    (p : Parameters) × (q : Parameters) × (pars_0 ≡ some p)
    × (pars_1 ≡ some q)
    × IsStartedWith p process idle_device
    × IsStartedWith q process idle_device
pars-IsStartedWith_example = pars-IsStartedWith process 8 idle_device refl refl refl

main-outcome_example :
    (s : Shadow) × (run_image image mapped ≡ accessed s)
    × ((p : Parameters) × (par ≡ some p) × IsStartedWith p process idle_device)
    × (let (d', ending) = main (working 3 process (raising irq_done 0 0) mmu) idle_device in
        (ending ≡ Ending.completed) × (d'.op_active ≡ false) × AllPut d'.dma)
    × ((k : Kind) (par0 par1 : ℕ)
        → let (d', ending) =
            main (working 3 process (raising (irq_of k) par0 par1) mmu) idle_device in
          (ending ≡ Ending.unknown_event)
          × (d'.op_active ≡ true)
          × (d'.event_in_service ≡ true)
          × ((params' : Parameters) (current' : Process)
              → start_ioctl (some params') current' d' ≡ (d', ebusy)))
main-outcome_example =
    main-outcome 3 process 8 mmu idle_device (probed (some 0) (pos 5) (pos 0)) refl refl refl
