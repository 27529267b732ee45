-- ===== src/Client/Single/Image/Part1.antt =====
-- Lines 192 to 341 of loongnix/qemu_dev/hwgc_driver/test_44.c.
use jvm_gc_acclelerator.Common.{List, [], ◌∷◌}
use jvm_gc_acclelerator.Shadow.Image.{Statement, link, put32, put64, put8, translate}

abbrev pub image_1 : List Statement
image_1 =
    link 0xffe0539378 0xffe0706d10
    ∷ translate 0xffe0539378
    ∷ link 0xffe0539388 0xffe0722080
    ∷ link 0xffe0722080 0xffe05375eb
    ∷ translate 0xffe0539388
    ∷ link 0xffd49d4088 0xffe0721948
    ∷ put64 0xffe0721948 0x9
    ∷ link 0xffe0721950 0xffb8011a30
    ∷ put64 0xffb8011a38 0x20
    ∷ translate 0xffcc000fc0
    ∷ translate 0xffe0721948
    ∷ translate 0xffcc001cb0
    ∷ translate 0xffe0539390
    ∷ translate 0xffe0539398
    ∷ put64 0xffe0721958 0x0
    ∷ translate 0xffe05393a0
    ∷ link 0xffe0721960 0xffe0721968
    ∷ translate 0xffe05393a8
    ∷ put32 0xffb8011ad0 0x5
    ∷ put32 0xffb8011b5c 0x14
    ∷ put32 0xffb8011b58 0x1
    ∷ put64 0xffb8011cc8 0x100000018
    ∷ translate 0xffd49d4088
    ∷ translate 0xff90001458
    ∷ translate 0xffcc000c38
    ∷ translate 0xffcc000da0
    ∷ link 0xffe05393a8 0xffe0721968
    ∷ put64 0xffe0721968 0x9
    ∷ link 0xffe0721970 0xffb80007e0
    ∷ put64 0xffb80007e8 0x4c0180800
    ∷ put32 0xffe0721978 0x15
    ∷ translate 0xffcc000fc0
    ∷ translate 0xffe0721968
    ∷ translate 0xffcc001cb0
    ∷ translate 0xffe05393b0
    ∷ translate 0xffe05393b8
    ∷ translate 0xffe05393c0
    ∷ put64 0xffe0721980 0x6e616c2e6176616a
    ∷ translate 0xffe05393c8
    ∷ put64 0xffe0721988 0x4c7373616c432e67
    ∷ translate 0xffe05393d0
    ∷ put64 0xffe0721990 0x726564616f
    ∷ translate 0xffe05393d8
    ∷ translate 0xffe05393a8
    ∷ link 0xffe05015f8 0xffe070e3c8
    ∷ put64 0xffe070e3c8 0x9
    ∷ link 0xffe070e3d0 0xffb835b6c0
    ∷ put64 0xffb835b6c8 0x20
    ∷ translate 0xffcc000fc0
    ∷ translate 0xffe070e3c8
    ∷ translate 0xffcc001cb0
    ∷ translate 0xffe05393e0
    ∷ translate 0xffe05393e8
    ∷ link 0xffe070e3d8 0xffe070da78
    ∷ translate 0xffe05393f0
    ∷ link 0xffe070e3e0 0xffd48e9df8
    ∷ translate 0xffe05393f8
    ∷ put32 0xffb835b760 0x25
    ∷ put32 0xffb835b7ec 0x3b
    ∷ put32 0xffb835b7e8 0x1
    ∷ put64 0xffb835bb90 0x200000010
    ∷ put8 0xfff004ac41 0xffffffff
    ∷ translate 0xffe05015f8
    ∷ link 0xffe05393f0 0xffe070da78
    ∷ link 0xffe070da78 0xffe0512ed3
    ∷ translate 0xffe05393f0
    ∷ link 0xffe0501578 0xffe070e450
    ∷ link 0xffe070e450 0xffe0514b13
    ∷ translate 0xffe0501578
    ∷ link 0xffe0501510 0xffe070e8c8
    ∷ put64 0xffe070e8c8 0x9
    ∷ link 0xffe070e8d0 0xffb835b6c0
    ∷ translate 0xffcc000fc0
    ∷ translate 0xffe070e8c8
    ∷ translate 0xffcc001cb0
    ∷ translate 0xffe0539400
    ∷ translate 0xffe0539408
    ∷ link 0xffe070e8d8 0xffe070e450
    ∷ translate 0xffe0539410
    ∷ link 0xffe070e8e0 0xffd48e9df8
    ∷ translate 0xffe0539418
    ∷ translate 0xffe0501510
    ∷ link 0xffe0539410 0xffe070e450
    ∷ translate 0xffe0539410
    ∷ link 0xffe0501490 0xffe070e950
    ∷ link 0xffe070e950 0xffe0514f33
    ∷ translate 0xffe0501490
    ∷ link 0xffe0501428 0xffe070eea0
    ∷ put64 0xffe070eea0 0x9
    ∷ link 0xffe070eea8 0xffb835b6c0
    ∷ translate 0xffcc000fc0
    ∷ translate 0xffe070eea0
    ∷ translate 0xffcc001cb0
    ∷ translate 0xffe0539420
    ∷ translate 0xffe0539428
    ∷ link 0xffe070eeb0 0xffe070e950
    ∷ translate 0xffe0539430
    ∷ link 0xffe070eeb8 0xffd48e9df8
    ∷ translate 0xffe0539438
    ∷ translate 0xffe0501428
    ∷ link 0xffe0539430 0xffe070e950
    ∷ translate 0xffe0539430
    ∷ link 0xffe05013b0 0xffe07070c0
    ∷ link 0xffe07070c0 0xffe0512483
    ∷ translate 0xffe05013b0
    ∷ link 0xffe0501348 0xffe070d148
    ∷ put64 0xffe070d148 0x9
    ∷ link 0xffe070d150 0xffb835b6c0
    ∷ translate 0xffcc000fc0
    ∷ translate 0xffe070d148
    ∷ translate 0xffcc001cb0
    ∷ translate 0xffe0539440
    ∷ translate 0xffe0539448
    ∷ link 0xffe070d158 0xffe07070c0
    ∷ translate 0xffe0539450
    ∷ link 0xffe070d160 0xffd48e9df8
    ∷ translate 0xffe0539458
    ∷ translate 0xffe0501348
    ∷ link 0xffe0539450 0xffe07070c0
    ∷ translate 0xffe0539450
    ∷ link 0xffe05012f0 0xffe0705440
    ∷ link 0xffe0705440 0xffe050db7b
    ∷ translate 0xffe05012f0
    ∷ link 0xffe0501288 0xffe0705770
    ∷ put64 0xffe0705770 0x9
    ∷ link 0xffe0705778 0xffb835b6c0
    ∷ translate 0xffcc000fc0
    ∷ translate 0xffe0705770
    ∷ translate 0xffcc001cb0
    ∷ translate 0xffe0539460
    ∷ translate 0xffe0539468
    ∷ link 0xffe0705780 0xffe0705440
    ∷ translate 0xffe0539470
    ∷ link 0xffe0705788 0xffd48e9df8
    ∷ translate 0xffe0539478
    ∷ translate 0xffe0501288
    ∷ link 0xffe0539470 0xffe0705440
    ∷ translate 0xffe0539470
    ∷ link 0xffe0501230 0xffe070f320
    ∷ link 0xffe070f320 0xffe0515823
    ∷ translate 0xffe0501230
    ∷ link 0xffe05011c8 0xffe070f8b0
    ∷ put64 0xffe070f8b0 0x9
    ∷ link 0xffe070f8b8 0xffb835b6c0
    ∷ translate 0xffcc000fc0
    ∷ translate 0xffe070f8b0
    ∷ translate 0xffcc001cb0
    ∷ translate 0xffe0539480
    ∷ translate 0xffe0539488
    ∷ link 0xffe070f8c0 0xffe070f320
    ∷ []
