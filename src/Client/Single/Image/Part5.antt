-- ===== src/Client/Single/Image/Part5.antt =====
-- Lines 792 to 941 of loongnix/qemu_dev/hwgc_driver/test_44.c.
use jvm_gc_acclelerator.Common.{List, [], ◌∷◌}
use jvm_gc_acclelerator.Shadow.Image.{Statement, link, put32, put64, translate}

abbrev pub image_5 : List Statement
image_5 =
    link 0xffe071aab0 0xffe071aa28
    ∷ translate 0xffe0539818
    ∷ put64 0xffe071aab8 0x0
    ∷ translate 0xffe0539820
    ∷ translate 0xffe05397a0
    ∷ link 0xffe05397e0 0xffe0700770
    ∷ translate 0xffe05397e0
    ∷ link 0xffe0539818 0xffe071aa28
    ∷ translate 0xffe0539818
    ∷ link 0xffe0539758 0xffe071aa40
    ∷ translate 0xffe0539758
    ∷ link 0xffe0500200 0xffe0700680
    ∷ link 0xffe0700680 0xffe05000cb
    ∷ translate 0xffe0500200
    ∷ link 0xffe0500220 0xffe071aac0
    ∷ put64 0xffe071aac0 0x9
    ∷ link 0xffe071aac8 0xffb8046940
    ∷ put64 0xffb8046948 0x100000038
    ∷ translate 0xffcc000fc0
    ∷ translate 0xffe071aac0
    ∷ translate 0xffcc001cb0
    ∷ translate 0xffe0539828
    ∷ translate 0xffe0539830
    ∷ link 0xffe071aad0 0xffe071aaf8
    ∷ translate 0xffe0539838
    ∷ link 0xffe071aad8 0xffd494cbf8
    ∷ translate 0xffe0539840
    ∷ put64 0xffe071aae0 0x0
    ∷ translate 0xffe0539848
    ∷ put64 0xffe071aae8 0x0
    ∷ translate 0xffe0539850
    ∷ put64 0xffe071aaf0 0x173b89718
    ∷ translate 0xffe0539858
    ∷ put32 0xffb80469e0 0xc
    ∷ put32 0xffb8046a6c 0x2
    ∷ put32 0xffb8046a68 0x1
    ∷ put64 0xffb8046b80 0x200000018
    ∷ translate 0xffe0500220
    ∷ link 0xffe0539838 0xffe071aaf8
    ∷ put64 0xffe071aaf8 0x9
    ∷ link 0xffe071ab00 0xffb85d9128
    ∷ put64 0xffb85d9130 0x70
    ∷ translate 0xffcc000fc0
    ∷ translate 0xffe071aaf8
    ∷ translate 0xffcc001cb0
    ∷ translate 0xffe0539860
    ∷ translate 0xffe0539868
    ∷ put64 0xffe071ab08 0x0
    ∷ translate 0xffe0539870
    ∷ put64 0xffe071ab10 0x0
    ∷ translate 0xffe0539878
    ∷ put64 0xffe071ab18 0x0
    ∷ translate 0xffe0539880
    ∷ put64 0xffe071ab20 0x0
    ∷ translate 0xffe0539888
    ∷ put64 0xffe071ab28 0x0
    ∷ translate 0xffe0539890
    ∷ link 0xffe071ab30 0xffe071ab68
    ∷ translate 0xffe0539898
    ∷ put64 0xffe071ab38 0x0
    ∷ translate 0xffe05398a0
    ∷ put64 0xffe071ab40 0x0
    ∷ translate 0xffe05398a8
    ∷ put64 0xffe071ab48 0x0
    ∷ translate 0xffe05398b0
    ∷ put64 0xffe071ab50 0x0
    ∷ translate 0xffe05398b8
    ∷ put64 0xffe071ab58 0x0
    ∷ translate 0xffe05398c0
    ∷ put64 0xffe071ab60 0x0
    ∷ translate 0xffe05398c8
    ∷ put32 0xffb85d91c8 0x5
    ∷ put32 0xffb85d9254 0x2
    ∷ put32 0xffb85d9250 0x1
    ∷ put64 0xffb85d9330 0xb00000018
    ∷ translate 0xffe0539838
    ∷ link 0xffe0539898 0xffe071ab68
    ∷ put64 0xffe071ab68 0x9
    ∷ link 0xffe071ab70 0xffb85ed420
    ∷ put64 0xffb85ed428 0x580180c03
    ∷ put32 0xffe071ab78 0x1
    ∷ translate 0xffcc000fc0
    ∷ translate 0xffe071ab68
    ∷ translate 0xffcc001cb0
    ∷ translate 0xffe05398d0
    ∷ translate 0xffe05398d8
    ∷ translate 0xffe05398e0
    ∷ link 0xffe071ab80 0xffe071aa40
    ∷ translate 0xffe05398e8
    ∷ put32 0xffcc000ddc 0x32
    ∷ translate 0xffe05398e0
    ∷ translate 0xffe0539898
    ∷ link 0xffe05398e8 0xffe071aa40
    ∷ translate 0xffe05398e8
    ∷ link 0xffe0500188 0xffe0700680
    ∷ translate 0xffe0500188
    ∷ link 0xffe05000f8 0xffe0700710
    ∷ link 0xffe0700710 0xffe050015b
    ∷ translate 0xffe05000f8
    ∷ link 0xffe0500100 0xffe071ab88
    ∷ put64 0xffe071ab88 0x9
    ∷ link 0xffe071ab90 0xffb8011a30
    ∷ translate 0xffcc000fc0
    ∷ translate 0xffe071ab88
    ∷ translate 0xffcc001cb0
    ∷ translate 0xffe05398f0
    ∷ translate 0xffe05398f8
    ∷ put64 0xffe071ab98 0x0
    ∷ translate 0xffe0539900
    ∷ link 0xffe071aba0 0xffe071aba8
    ∷ translate 0xffe0539908
    ∷ translate 0xffe0500100
    ∷ link 0xffe0539908 0xffe071aba8
    ∷ put64 0xffe071aba8 0x9
    ∷ link 0xffe071abb0 0xffb80007e0
    ∷ put32 0xffe071abb8 0x34
    ∷ translate 0xffcc000fc0
    ∷ translate 0xffe071aba8
    ∷ translate 0xffcc001cb0
    ∷ translate 0xffe0539910
    ∷ translate 0xffe0539918
    ∷ translate 0xffe0539920
    ∷ put64 0xffe071abc0 0x65746e692e6b646a
    ∷ translate 0xffe0539928
    ∷ put64 0xffe071abc8 0x6665722e6c616e72
    ∷ translate 0xffe0539930
    ∷ put64 0xffe071abd0 0x6c65442e7463656c
    ∷ translate 0xffe0539938
    ∷ put64 0xffe071abd8 0x43676e6974616765
    ∷ translate 0xffe0539940
    ∷ put64 0xffe071abe0 0x64616f4c7373616c
    ∷ translate 0xffe0539948
    ∷ put64 0xffe071abe8 0x3334303640207265
    ∷ translate 0xffe0539950
    ∷ put64 0xffe071abf0 0x1100013b38326463
    ∷ translate 0xffe0539958
    ∷ translate 0xffe0539908
    ∷ link 0xffe0500110 0xffe071abf8
    ∷ put64 0xffe071abf8 0x9
    ∷ link 0xffe071ac00 0xffb810a560
    ∷ put64 0xffb810a568 0x68
    ∷ translate 0xffcc000fc0
    ∷ translate 0xffe071abf8
    ∷ translate 0xffcc001cb0
    ∷ translate 0xffe0539960
    ∷ translate 0xffe0539968
    ∷ put64 0xffe071ac08 0x0
    ∷ translate 0xffe0539970
    ∷ put64 0xffe071ac10 0x0
    ∷ translate 0xffe0539978
    ∷ []
