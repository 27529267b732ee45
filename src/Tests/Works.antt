-- ===== src/Tests/Works.antt =====
-- An operation in which the device misses pages between its requests.
use jvm_gc_acclelerator.Common.{ℕ, ◌≡◌, refl, arith, true, false, some, List, [], ◌∷◌}
use jvm_gc_acclelerator.Common.Int.{pos}
use jvm_gc_acclelerator.Dma.Answer.{writes}
use jvm_gc_acclelerator.Dma.Missed.{Miss, pushed}
use jvm_gc_acclelerator.Dma.Ownership.{AllPut}
use jvm_gc_acclelerator.Hwgc.Types.{Hwgc, new_hwgc}
use jvm_gc_acclelerator.Hwgc.Invariant.Reach.{probed}
use jvm_gc_acclelerator.Hwgc.Service.{Kind}
use jvm_gc_acclelerator.Hwgc.Service.Cycle.{IsServedFrom}
use jvm_gc_acclelerator.Hwgc.Service.Ends.{is_done}
use jvm_gc_acclelerator.Hwgc.Works.{Work, operate_works, operation_sent, requests_of}
use jvm_gc_acclelerator.Hwgc.Works.Whole.{AllMapped, operate_works-AllPut}
use jvm_gc_acclelerator.Tests.Values.{process, mmu, parameters}

abbrev fresh : Hwgc
fresh = new_hwgc (some 0) (pos 5) (pos 0)

abbrev read_miss : Miss
read_miss = record { va = 0x5008; write = false }

abbrev write_miss : Miss
write_miss = record { va = 0x5010; write = true }

-- A read of a page, a request to grow the heap, and a write of the same page.
abbrev works : List Work
works =
    Work.miss read_miss
    ∷ Work.ask (record { kind = Kind.grow; par0 = 1; par1 = 2; res0 = 3; res1 = 4 })
    ∷ Work.miss write_miss
    ∷ []

-- Every lookup gives page 21.
abbrev pages : ℕ → ℕ
pages va = 21

works-AllMapped : AllMapped mmu 7 8 pages works
works-AllMapped = (record { one = refl; gave = refl }, (record { one = refl; gave = refl }, tt))

operate_works-AllPut_example :
    let (d', o) = operate_works parameters process mmu works fresh in
    (o.start_ret ≡ pos 0)
    × IsServedFrom 0 (requests_of works) o.served
    × (o.done_ret ≡ pos 0)
    × (is_done o.done ≡ true)
    × (d'.op_active ≡ false)
    × AllPut d'.dma
    × (writes d'.calls ≡ pushed (operation_sent parameters mmu pages works) [])
operate_works-AllPut_example =
    operate_works-AllPut parameters process 8 mmu pages works fresh
      (probed (some 0) (pos 5) (pos 0)) refl refl refl (omega arith) works-AllMapped
