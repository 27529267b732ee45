-- ===== src/Client/Single/Image/Part4.antt =====
-- Lines 642 to 791 of loongnix/qemu_dev/hwgc_driver/test_44.c.
use jvm_gc_acclelerator.Common.{List, [], ◌∷◌}
use jvm_gc_acclelerator.Shadow.Image.{Statement, link, put32, put64, put8, translate}

abbrev pub image_4 : List Statement
image_4 =
    translate 0xffcc000fc0
    ∷ translate 0xffe071a938
    ∷ translate 0xffcc001cb0
    ∷ translate 0xffe05396a0
    ∷ translate 0xffe05396a8
    ∷ link 0xffe071a948 0xffe0703190
    ∷ translate 0xffe05396b0
    ∷ link 0xffe071a950 0xffd48e9df8
    ∷ translate 0xffe05396b8
    ∷ translate 0xffe05003a0
    ∷ link 0xffe05396b0 0xffe0703190
    ∷ translate 0xffe05396b0
    ∷ link 0xffe0500328 0xffe0719880
    ∷ link 0xffe0719880 0xffe0537d63
    ∷ translate 0xffe0500328
    ∷ link 0xffe05002c0 0xffe071a958
    ∷ put64 0xffe071a958 0x9
    ∷ link 0xffe071a960 0xffb835b6c0
    ∷ translate 0xffcc000fc0
    ∷ translate 0xffe071a958
    ∷ translate 0xffcc001cb0
    ∷ translate 0xffe05396c0
    ∷ translate 0xffe05396c8
    ∷ link 0xffe071a968 0xffe0719880
    ∷ translate 0xffe05396d0
    ∷ link 0xffe071a970 0xffd48e9df8
    ∷ translate 0xffe05396d8
    ∷ translate 0xffe05002c0
    ∷ link 0xffe05396d0 0xffe0719880
    ∷ translate 0xffe05396d0
    ∷ link 0xffe05001e8 0xffe071a978
    ∷ put64 0xffe071a978 0x9
    ∷ link 0xffe071a980 0xffb807c168
    ∷ put64 0xffb807c170 0x80
    ∷ translate 0xffcc000fc0
    ∷ translate 0xffe071a978
    ∷ translate 0xffcc001cb0
    ∷ translate 0xffe05396e0
    ∷ translate 0xffe05396e8
    ∷ put64 0xffe071a988 0x1
    ∷ translate 0xffe05396f0
    ∷ link 0xffe071a990 0xffe071a9f8
    ∷ translate 0xffe05396f8
    ∷ put64 0xffe071a998 0x0
    ∷ translate 0xffe0539700
    ∷ put64 0xffe071a9a0 0x0
    ∷ translate 0xffe0539708
    ∷ put64 0xffe071a9a8 0x1
    ∷ translate 0xffe0539710
    ∷ link 0xffe071a9b0 0xffe0700770
    ∷ translate 0xffe0539718
    ∷ link 0xffe071a9b8 0xffd494c9f0
    ∷ translate 0xffe0539720
    ∷ link 0xffe071a9c0 0xffd494c9f0
    ∷ translate 0xffe0539728
    ∷ put64 0xffe071a9c8 0x0
    ∷ translate 0xffe0539730
    ∷ put64 0xffe071a9d0 0x0
    ∷ translate 0xffe0539738
    ∷ put64 0xffe071a9d8 0x0
    ∷ translate 0xffe0539740
    ∷ put64 0xffe071a9e0 0x0
    ∷ translate 0xffe0539748
    ∷ link 0xffe071a9e8 0xffe071aa28
    ∷ translate 0xffe0539750
    ∷ link 0xffe071a9f0 0xffe071aa40
    ∷ translate 0xffe0539758
    ∷ put32 0xffb807c208 0x38
    ∷ put32 0xffb807c294 0x17
    ∷ put32 0xffb807c290 0x2
    ∷ put64 0xffb807c5b8 0x900000038
    ∷ put8 0xfff004ac43 0xffffffff
    ∷ put64 0xffb807c5b0 0x300000018
    ∷ translate 0xffe05001e8
    ∷ link 0xffe05396f8 0xffe071a9f8
    ∷ put64 0xffe071a9f8 0x9
    ∷ link 0xffe071aa00 0xffb8046ea0
    ∷ put64 0xffb8046ea8 0x100000030
    ∷ translate 0xffcc000fc0
    ∷ translate 0xffe071a9f8
    ∷ translate 0xffcc001cb0
    ∷ translate 0xffe0539760
    ∷ translate 0xffe0539768
    ∷ link 0xffe071aa08 0xffe071d8d0
    ∷ translate 0xffe0539770
    ∷ link 0xffe071aa10 0xffd494cbf8
    ∷ translate 0xffe0539778
    ∷ put64 0xffe071aa18 0x0
    ∷ translate 0xffe0539780
    ∷ put64 0xffe071aa20 0x0
    ∷ translate 0xffe0539788
    ∷ put32 0xffb8046f40 0xc
    ∷ put32 0xffb8046fcc 0x2
    ∷ put32 0xffb8046fc8 0x1
    ∷ put64 0xffb80470e0 0x200000018
    ∷ translate 0xffe05396f8
    ∷ link 0xffe0539770 0xffe071d8d0
    ∷ link 0xffe071d8d0 0xffe0503563
    ∷ translate 0xffe0539770
    ∷ link 0xffe0539718 0xffe0700770
    ∷ link 0xffe0700770 0xffe05001bb
    ∷ translate 0xffe0539718
    ∷ link 0xffe0539750 0xffe071aa28
    ∷ put64 0xffe071aa28 0x9
    ∷ link 0xffe071aa30 0xffb88b8118
    ∷ put64 0xffb88b8120 0x18
    ∷ translate 0xffcc000fc0
    ∷ translate 0xffe071aa28
    ∷ translate 0xffcc001cb0
    ∷ translate 0xffe0539790
    ∷ translate 0xffe0539798
    ∷ link 0xffe071aa38 0xffe071aa40
    ∷ translate 0xffe05397a0
    ∷ put32 0xffb88b81b8 0x6
    ∷ put32 0xffb88b8244 0x5
    ∷ put32 0xffb88b8240 0x1
    ∷ put64 0xffb88b8340 0x100000010
    ∷ translate 0xffe0539750
    ∷ link 0xffe05397a0 0xffe071aa40
    ∷ put64 0xffe071aa40 0x9
    ∷ link 0xffe071aa48 0xffb807c168
    ∷ translate 0xffcc000fc0
    ∷ translate 0xffe071aa40
    ∷ translate 0xffcc001cb0
    ∷ translate 0xffe05397a8
    ∷ translate 0xffe05397b0
    ∷ put64 0xffe071aa50 0x0
    ∷ translate 0xffe05397b8
    ∷ put64 0xffe071aa58 0x0
    ∷ translate 0xffe05397c0
    ∷ put64 0xffe071aa60 0x0
    ∷ translate 0xffe05397c8
    ∷ put64 0xffe071aa68 0x0
    ∷ translate 0xffe05397d0
    ∷ put64 0xffe071aa70 0x1
    ∷ translate 0xffe05397d8
    ∷ link 0xffe071aa78 0xffe0700770
    ∷ translate 0xffe05397e0
    ∷ link 0xffe071aa80 0xffd494c9f0
    ∷ translate 0xffe05397e8
    ∷ link 0xffe071aa88 0xffd494c9f0
    ∷ translate 0xffe05397f0
    ∷ put64 0xffe071aa90 0x0
    ∷ translate 0xffe05397f8
    ∷ put64 0xffe071aa98 0x0
    ∷ translate 0xffe0539800
    ∷ put64 0xffe071aaa0 0x0
    ∷ translate 0xffe0539808
    ∷ put64 0xffe071aaa8 0x0
    ∷ translate 0xffe0539810
    ∷ []
