-- ===== src/Client/Single/Image/Part2.antt =====
-- Lines 342 to 491 of loongnix/qemu_dev/hwgc_driver/test_44.c.
use jvm_gc_acclelerator.Common.{List, [], ◌∷◌}
use jvm_gc_acclelerator.Shadow.Image.{Statement, link, put64, translate}

abbrev pub image_2 : List Statement
image_2 =
    translate 0xffe0539490
    ∷ link 0xffe070f8c8 0xffd48e9df8
    ∷ translate 0xffe0539498
    ∷ translate 0xffe05011c8
    ∷ link 0xffe0539490 0xffe070f320
    ∷ translate 0xffe0539490
    ∷ link 0xffe0501140 0xffe070ef28
    ∷ link 0xffe070ef28 0xffe051542b
    ∷ translate 0xffe0501140
    ∷ link 0xffe05010d8 0xffe07100d0
    ∷ put64 0xffe07100d0 0x9
    ∷ link 0xffe07100d8 0xffb835b6c0
    ∷ translate 0xffcc000fc0
    ∷ translate 0xffe07100d0
    ∷ translate 0xffcc001cb0
    ∷ translate 0xffe05394a0
    ∷ translate 0xffe05394a8
    ∷ link 0xffe07100e0 0xffe070ef28
    ∷ translate 0xffe05394b0
    ∷ link 0xffe07100e8 0xffd48e9df8
    ∷ translate 0xffe05394b8
    ∷ translate 0xffe05010d8
    ∷ link 0xffe05394b0 0xffe070ef28
    ∷ translate 0xffe05394b0
    ∷ link 0xffe0501080 0xffe0711ce8
    ∷ link 0xffe0711ce8 0xffe0517723
    ∷ translate 0xffe0501080
    ∷ link 0xffe0501018 0xffe07120a8
    ∷ put64 0xffe07120a8 0x9
    ∷ link 0xffe07120b0 0xffb835b6c0
    ∷ translate 0xffcc000fc0
    ∷ translate 0xffe07120a8
    ∷ translate 0xffcc001cb0
    ∷ translate 0xffe05394c0
    ∷ translate 0xffe05394c8
    ∷ link 0xffe07120b8 0xffe0711ce8
    ∷ translate 0xffe05394d0
    ∷ link 0xffe07120c0 0xffd48e9df8
    ∷ translate 0xffe05394d8
    ∷ translate 0xffe0501018
    ∷ link 0xffe05394d0 0xffe0711ce8
    ∷ translate 0xffe05394d0
    ∷ link 0xffe0500fc0 0xffe0701580
    ∷ link 0xffe0701580 0xffe0516b23
    ∷ translate 0xffe0500fc0
    ∷ link 0xffe0500f58 0xffe071a778
    ∷ put64 0xffe071a778 0x9
    ∷ link 0xffe071a780 0xffb835b6c0
    ∷ translate 0xffcc000fc0
    ∷ translate 0xffe071a778
    ∷ translate 0xffcc001cb0
    ∷ translate 0xffe05394e0
    ∷ translate 0xffe05394e8
    ∷ link 0xffe071a788 0xffe0701580
    ∷ translate 0xffe05394f0
    ∷ link 0xffe071a790 0xffd48e9df8
    ∷ translate 0xffe05394f8
    ∷ translate 0xffe0500f58
    ∷ link 0xffe05394f0 0xffe0701580
    ∷ translate 0xffe05394f0
    ∷ link 0xffe0500ee0 0xffe0710bb0
    ∷ link 0xffe0710bb0 0xffe0517213
    ∷ translate 0xffe0500ee0
    ∷ link 0xffe0500e78 0xffe071a798
    ∷ put64 0xffe071a798 0x9
    ∷ link 0xffe071a7a0 0xffb835b6c0
    ∷ translate 0xffcc000fc0
    ∷ translate 0xffe071a798
    ∷ translate 0xffcc001cb0
    ∷ translate 0xffe0539500
    ∷ translate 0xffe0539508
    ∷ link 0xffe071a7a8 0xffe0710bb0
    ∷ translate 0xffe0539510
    ∷ link 0xffe071a7b0 0xffd48e9df8
    ∷ translate 0xffe0539518
    ∷ translate 0xffe0500e78
    ∷ link 0xffe0539510 0xffe0710bb0
    ∷ translate 0xffe0539510
    ∷ link 0xffe0500e20 0xffe0703388
    ∷ link 0xffe0703388 0xffe050cbeb
    ∷ translate 0xffe0500e20
    ∷ link 0xffe0500db8 0xffe071a7b8
    ∷ put64 0xffe071a7b8 0x9
    ∷ link 0xffe071a7c0 0xffb835b6c0
    ∷ translate 0xffcc000fc0
    ∷ translate 0xffe071a7b8
    ∷ translate 0xffcc001cb0
    ∷ translate 0xffe0539520
    ∷ translate 0xffe0539528
    ∷ link 0xffe071a7c8 0xffe0703388
    ∷ translate 0xffe0539530
    ∷ link 0xffe071a7d0 0xffd48e9df8
    ∷ translate 0xffe0539538
    ∷ translate 0xffe0500db8
    ∷ link 0xffe0539530 0xffe0703388
    ∷ translate 0xffe0539530
    ∷ link 0xffe0500d28 0xffe07103c0
    ∷ link 0xffe07103c0 0xffe0516453
    ∷ translate 0xffe0500d28
    ∷ link 0xffe0500cc0 0xffe071a7d8
    ∷ put64 0xffe071a7d8 0x9
    ∷ link 0xffe071a7e0 0xffb835b6c0
    ∷ translate 0xffcc000fc0
    ∷ translate 0xffe071a7d8
    ∷ translate 0xffcc001cb0
    ∷ translate 0xffe0539540
    ∷ translate 0xffe0539548
    ∷ link 0xffe071a7e8 0xffe07103c0
    ∷ translate 0xffe0539550
    ∷ link 0xffe071a7f0 0xffd48e9df8
    ∷ translate 0xffe0539558
    ∷ translate 0xffe0500cc0
    ∷ link 0xffe0539550 0xffe07103c0
    ∷ translate 0xffe0539550
    ∷ link 0xffe0500c68 0xffe07038a0
    ∷ link 0xffe07038a0 0xffe050b9fb
    ∷ translate 0xffe0500c68
    ∷ link 0xffe0500c00 0xffe071a7f8
    ∷ put64 0xffe071a7f8 0x9
    ∷ link 0xffe071a800 0xffb835b6c0
    ∷ translate 0xffcc000fc0
    ∷ translate 0xffe071a7f8
    ∷ translate 0xffcc001cb0
    ∷ translate 0xffe0539560
    ∷ translate 0xffe0539568
    ∷ link 0xffe071a808 0xffe07038a0
    ∷ translate 0xffe0539570
    ∷ link 0xffe071a810 0xffd48e9df8
    ∷ translate 0xffe0539578
    ∷ translate 0xffe0500c00
    ∷ link 0xffe0539570 0xffe07038a0
    ∷ translate 0xffe0539570
    ∷ link 0xffe0500b70 0xffe07127e8
    ∷ link 0xffe07127e8 0xffe0518143
    ∷ translate 0xffe0500b70
    ∷ link 0xffe0500b08 0xffe071a818
    ∷ put64 0xffe071a818 0x9
    ∷ link 0xffe071a820 0xffb835b6c0
    ∷ translate 0xffcc000fc0
    ∷ translate 0xffe071a818
    ∷ translate 0xffcc001cb0
    ∷ translate 0xffe0539580
    ∷ translate 0xffe0539588
    ∷ link 0xffe071a828 0xffe07127e8
    ∷ translate 0xffe0539590
    ∷ link 0xffe071a830 0xffd48e9df8
    ∷ translate 0xffe0539598
    ∷ translate 0xffe0500b08
    ∷ link 0xffe0539590 0xffe07127e8
    ∷ translate 0xffe0539590
    ∷ []
