-- ===== src/Client/Single/Image/Part3.antt =====
-- Lines 492 to 641 of loongnix/qemu_dev/hwgc_driver/test_44.c.
use jvm_gc_acclelerator.Common.{List, [], ◌∷◌}
use jvm_gc_acclelerator.Shadow.Image.{Statement, link, put64, translate}

abbrev pub image_3 : List Statement
image_3 =
    link 0xffe0500ab0 0xffe0706330
    ∷ link 0xffe0706330 0xffe0507a13
    ∷ translate 0xffe0500ab0
    ∷ link 0xffe0500a48 0xffe071a838
    ∷ put64 0xffe071a838 0x9
    ∷ link 0xffe071a840 0xffb835b6c0
    ∷ translate 0xffcc000fc0
    ∷ translate 0xffe071a838
    ∷ translate 0xffcc001cb0
    ∷ translate 0xffe05395a0
    ∷ translate 0xffe05395a8
    ∷ link 0xffe071a848 0xffe0706330
    ∷ translate 0xffe05395b0
    ∷ link 0xffe071a850 0xffd48e9df8
    ∷ translate 0xffe05395b8
    ∷ translate 0xffe0500a48
    ∷ link 0xffe05395b0 0xffe0706330
    ∷ translate 0xffe05395b0
    ∷ link 0xffe05009f0 0xffe0711528
    ∷ link 0xffe0711528 0xffe05085ab
    ∷ translate 0xffe05009f0
    ∷ link 0xffe0500988 0xffe071a858
    ∷ put64 0xffe071a858 0x9
    ∷ link 0xffe071a860 0xffb835b6c0
    ∷ translate 0xffcc000fc0
    ∷ translate 0xffe071a858
    ∷ translate 0xffcc001cb0
    ∷ translate 0xffe05395c0
    ∷ translate 0xffe05395c8
    ∷ link 0xffe071a868 0xffe0711528
    ∷ translate 0xffe05395d0
    ∷ link 0xffe071a870 0xffd48e9df8
    ∷ translate 0xffe05395d8
    ∷ translate 0xffe0500988
    ∷ link 0xffe05395d0 0xffe0711528
    ∷ translate 0xffe05395d0
    ∷ link 0xffe0500910 0xffe0710e48
    ∷ link 0xffe0710e48 0xffe05174ab
    ∷ translate 0xffe0500910
    ∷ link 0xffe05008a8 0xffe071a878
    ∷ put64 0xffe071a878 0x9
    ∷ link 0xffe071a880 0xffb835b6c0
    ∷ translate 0xffcc000fc0
    ∷ translate 0xffe071a878
    ∷ translate 0xffcc001cb0
    ∷ translate 0xffe05395e0
    ∷ translate 0xffe05395e8
    ∷ link 0xffe071a888 0xffe0710e48
    ∷ translate 0xffe05395f0
    ∷ link 0xffe071a890 0xffd48e9df8
    ∷ translate 0xffe05395f8
    ∷ translate 0xffe05008a8
    ∷ link 0xffe05395f0 0xffe0710e48
    ∷ translate 0xffe05395f0
    ∷ link 0xffe0500850 0xffe0703de0
    ∷ link 0xffe0703de0 0xffe0504a53
    ∷ translate 0xffe0500850
    ∷ link 0xffe05007e8 0xffe071a898
    ∷ put64 0xffe071a898 0x9
    ∷ link 0xffe071a8a0 0xffb835b6c0
    ∷ translate 0xffcc000fc0
    ∷ translate 0xffe071a898
    ∷ translate 0xffcc001cb0
    ∷ translate 0xffe0539600
    ∷ translate 0xffe0539608
    ∷ link 0xffe071a8a8 0xffe0703de0
    ∷ translate 0xffe0539610
    ∷ link 0xffe071a8b0 0xffd48e9df8
    ∷ translate 0xffe0539618
    ∷ translate 0xffe05007e8
    ∷ link 0xffe0539610 0xffe0703de0
    ∷ translate 0xffe0539610
    ∷ link 0xffe0500790 0xffe0702610
    ∷ link 0xffe0702610 0xffe0508c73
    ∷ translate 0xffe0500790
    ∷ link 0xffe0500728 0xffe071a8b8
    ∷ put64 0xffe071a8b8 0x9
    ∷ link 0xffe071a8c0 0xffb835b6c0
    ∷ translate 0xffcc000fc0
    ∷ translate 0xffe071a8b8
    ∷ translate 0xffcc001cb0
    ∷ translate 0xffe0539620
    ∷ translate 0xffe0539628
    ∷ link 0xffe071a8c8 0xffe0702610
    ∷ translate 0xffe0539630
    ∷ link 0xffe071a8d0 0xffd48e9df8
    ∷ translate 0xffe0539638
    ∷ translate 0xffe0500728
    ∷ link 0xffe0539630 0xffe0702610
    ∷ translate 0xffe0539630
    ∷ link 0xffe0500690 0xffe0712f40
    ∷ link 0xffe0712f40 0xffe051889b
    ∷ translate 0xffe0500690
    ∷ link 0xffe0500628 0xffe071a8d8
    ∷ put64 0xffe071a8d8 0x9
    ∷ link 0xffe071a8e0 0xffb835b6c0
    ∷ translate 0xffcc000fc0
    ∷ translate 0xffe071a8d8
    ∷ translate 0xffcc001cb0
    ∷ translate 0xffe0539640
    ∷ translate 0xffe0539648
    ∷ link 0xffe071a8e8 0xffe0712f40
    ∷ translate 0xffe0539650
    ∷ link 0xffe071a8f0 0xffd48e9df8
    ∷ translate 0xffe0539658
    ∷ translate 0xffe0500628
    ∷ link 0xffe0539650 0xffe0712f40
    ∷ translate 0xffe0539650
    ∷ link 0xffe05005d0 0xffe0704350
    ∷ link 0xffe0704350 0xffe0504fc3
    ∷ translate 0xffe05005d0
    ∷ link 0xffe0500568 0xffe071a8f8
    ∷ put64 0xffe071a8f8 0x9
    ∷ link 0xffe071a900 0xffb835b6c0
    ∷ translate 0xffcc000fc0
    ∷ translate 0xffe071a8f8
    ∷ translate 0xffcc001cb0
    ∷ translate 0xffe0539660
    ∷ translate 0xffe0539668
    ∷ link 0xffe071a908 0xffe0704350
    ∷ translate 0xffe0539670
    ∷ link 0xffe071a910 0xffd48e9df8
    ∷ translate 0xffe0539678
    ∷ translate 0xffe0500568
    ∷ link 0xffe0539670 0xffe0704350
    ∷ translate 0xffe0539670
    ∷ link 0xffe05004c8 0xffe0713758
    ∷ link 0xffe0713758 0xffe05191bb
    ∷ translate 0xffe05004c8
    ∷ link 0xffe0500460 0xffe071a918
    ∷ put64 0xffe071a918 0x9
    ∷ link 0xffe071a920 0xffb835b6c0
    ∷ translate 0xffcc000fc0
    ∷ translate 0xffe071a918
    ∷ translate 0xffcc001cb0
    ∷ translate 0xffe0539680
    ∷ translate 0xffe0539688
    ∷ link 0xffe071a928 0xffe0713758
    ∷ translate 0xffe0539690
    ∷ link 0xffe071a930 0xffd48e9df8
    ∷ translate 0xffe0539698
    ∷ translate 0xffe0500460
    ∷ link 0xffe0539690 0xffe0713758
    ∷ translate 0xffe0539690
    ∷ link 0xffe0500408 0xffe0703190
    ∷ link 0xffe0703190 0xffe0536763
    ∷ translate 0xffe0500408
    ∷ link 0xffe05003a0 0xffe071a938
    ∷ put64 0xffe071a938 0x9
    ∷ link 0xffe071a940 0xffb835b6c0
    ∷ []
