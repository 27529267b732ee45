-- ===== src/Client/Single/Image/Part6.antt =====
-- Lines 942 to 1091 of loongnix/qemu_dev/hwgc_driver/test_44.c.
use jvm_gc_acclelerator.Common.{List, [], ◌∷◌}
use jvm_gc_acclelerator.Shadow.Image.{Statement, link, put32, put64, translate}

abbrev pub image_6 : List Statement
image_6 =
    put64 0xffe071ac18 0x0
    ∷ translate 0xffe0539980
    ∷ put64 0xffe071ac20 0x0
    ∷ translate 0xffe0539988
    ∷ put64 0xffe071ac28 0x0
    ∷ translate 0xffe0539990
    ∷ put64 0xffe071ac30 0x0
    ∷ translate 0xffe0539998
    ∷ put64 0xffe071ac38 0x0
    ∷ translate 0xffe05399a0
    ∷ put64 0xffe071ac40 0x0
    ∷ translate 0xffe05399a8
    ∷ put64 0xffe071ac48 0x0
    ∷ translate 0xffe05399b0
    ∷ put64 0xffe071ac50 0x0
    ∷ translate 0xffe05399b8
    ∷ put64 0xffe071ac58 0x0
    ∷ translate 0xffe05399c0
    ∷ put32 0xffb810a600 0x43
    ∷ put32 0xffb810a68c 0x36
    ∷ put32 0xffb810a688 0x2
    ∷ put64 0xffb810ab00 0x600000038
    ∷ put64 0xffb810aaf8 0x200000010
    ∷ translate 0xffe0500110
    ∷ link 0xffe0500118 0xffe071ac60
    ∷ put64 0xffe071ac60 0x9
    ∷ link 0xffe071ac68 0xffb8117970
    ∷ put64 0xffb8117978 0x20
    ∷ translate 0xffcc000fc0
    ∷ translate 0xffe071ac60
    ∷ translate 0xffcc001cb0
    ∷ translate 0xffe05399c8
    ∷ translate 0xffe05399d0
    ∷ put64 0xffe071ac70 0x100000001
    ∷ translate 0xffe05399d8
    ∷ link 0xffe071ac78 0xffe071ac80
    ∷ translate 0xffe05399e0
    ∷ put32 0xffb8117a10 0x2f
    ∷ put32 0xffb8117a9c 0x3b
    ∷ put32 0xffb8117a98 0x1
    ∷ put64 0xffb8117e90 0x100000018
    ∷ translate 0xffe0500118
    ∷ link 0xffe05399e0 0xffe071ac80
    ∷ put64 0xffe071ac80 0x9
    ∷ link 0xffe071ac88 0xffb8146e70
    ∷ put64 0xffb8146e78 0x580180c03
    ∷ put32 0xffe071ac90 0xa
    ∷ translate 0xffcc000fc0
    ∷ translate 0xffe071ac80
    ∷ translate 0xffcc001cb0
    ∷ translate 0xffe05399e8
    ∷ translate 0xffe05399f0
    ∷ translate 0xffe05399f8
    ∷ link 0xffe071ac98 0xffe0700770
    ∷ translate 0xffe0539a00
    ∷ put64 0xffe071aca0 0x0
    ∷ translate 0xffe0539a08
    ∷ put64 0xffe071aca8 0x0
    ∷ translate 0xffe0539a10
    ∷ put64 0xffe071acb0 0x0
    ∷ translate 0xffe0539a18
    ∷ put64 0xffe071acb8 0x0
    ∷ translate 0xffe0539a20
    ∷ put64 0xffe071acc0 0x0
    ∷ translate 0xffe0539a28
    ∷ put64 0xffe071acc8 0x0
    ∷ translate 0xffe0539a30
    ∷ put64 0xffe071acd0 0x0
    ∷ translate 0xffe0539a38
    ∷ put64 0xffe071acd8 0x0
    ∷ translate 0xffe0539a40
    ∷ put64 0xffe071ace0 0x0
    ∷ translate 0xffe0539a48
    ∷ translate 0xffe05399f8
    ∷ translate 0xffe05399e0
    ∷ link 0xffe0539a00 0xffe0700770
    ∷ translate 0xffe0539a00
    ∷ link 0xffe0500120 0xffe071ace8
    ∷ put64 0xffe071ace8 0x9
    ∷ link 0xffe071acf0 0xffb8039380
    ∷ put64 0xffb8039388 0x40
    ∷ translate 0xffcc000fc0
    ∷ translate 0xffe071ace8
    ∷ translate 0xffcc001cb0
    ∷ translate 0xffe0539a50
    ∷ translate 0xffe0539a58
    ∷ put64 0xffe071acf8 0x0
    ∷ translate 0xffe0539a60
    ∷ link 0xffe071ad00 0xffe071ad28
    ∷ translate 0xffe0539a68
    ∷ link 0xffe071ad08 0xffe0700680
    ∷ translate 0xffe0539a70
    ∷ link 0xffe071ad10 0xffe071ad68
    ∷ translate 0xffe0539a78
    ∷ put64 0xffe071ad18 0x0
    ∷ translate 0xffe0539a80
    ∷ link 0xffe071ad20 0xffe071ad80
    ∷ translate 0xffe0539a88
    ∷ put32 0xffb8039420 0x7
    ∷ put32 0xffb80394ac 0x2
    ∷ put32 0xffb80394a8 0x1
    ∷ put64 0xffb8039598 0x500000018
    ∷ translate 0xffe0500120
    ∷ link 0xffe0539a68 0xffe071ad28
    ∷ put64 0xffe071ad28 0x9
    ∷ link 0xffe071ad30 0xffb80fae58
    ∷ put64 0xffb80fae60 0x40
    ∷ translate 0xffcc000fc0
    ∷ translate 0xffe071ad28
    ∷ translate 0xffcc001cb0
    ∷ translate 0xffe0539a90
    ∷ translate 0xffe0539a98
    ∷ put64 0xffe071ad38 0x0
    ∷ translate 0xffe0539aa0
    ∷ put64 0xffe071ad40 0x0
    ∷ translate 0xffe0539aa8
    ∷ put64 0xffe071ad48 0x0
    ∷ translate 0xffe0539ab0
    ∷ put64 0xffe071ad50 0x0
    ∷ translate 0xffe0539ab8
    ∷ put64 0xffe071ad58 0x0
    ∷ translate 0xffe0539ac0
    ∷ put64 0xffe071ad60 0x0
    ∷ translate 0xffe0539ac8
    ∷ put32 0xffb80faef8 0x8
    ∷ put32 0xffb80faf84 0x2
    ∷ put32 0xffb80faf80 0x1
    ∷ put64 0xffb80fb078 0x600000010
    ∷ translate 0xffe0539a68
    ∷ link 0xffe0539a70 0xffe0700680
    ∷ translate 0xffe0539a70
    ∷ link 0xffe0539a78 0xffe071ad68
    ∷ put64 0xffe071ad68 0x9
    ∷ link 0xffe071ad70 0xffb8320ea8
    ∷ put64 0xffb8320eb0 0x580180c03
    ∷ put32 0xffe071ad78 0x0
    ∷ translate 0xffcc000fc0
    ∷ translate 0xffe071ad68
    ∷ translate 0xffcc001cb0
    ∷ translate 0xffe0539ad0
    ∷ translate 0xffe0539ad8
    ∷ translate 0xffe0539ae0
    ∷ translate 0xffe0539ae0
    ∷ translate 0xffe0539a78
    ∷ link 0xffe0539a88 0xffe071ad80
    ∷ put64 0xffe071ad80 0x9
    ∷ link 0xffe071ad88 0xffb8320548
    ∷ put64 0xffb8320550 0x10
    ∷ translate 0xffcc000fc0
    ∷ translate 0xffe071ad80
    ∷ []
