-- ===== src/Client/Single/Image/Part7.antt =====
-- Lines 1092 to 1241 of loongnix/qemu_dev/hwgc_driver/test_44.c.
use jvm_gc_acclelerator.Common.{List, [], ◌∷◌}
use jvm_gc_acclelerator.Shadow.Image.{Statement, link, put32, put64, put8, translate}

abbrev pub image_7 : List Statement
image_7 =
    translate 0xffcc001cb0
    ∷ translate 0xffe0539ae8
    ∷ translate 0xffe0539af0
    ∷ put32 0xffb83205e8 0x5
    ∷ put32 0xffb8320674 0x2
    ∷ put32 0xffb8320670 0x0
    ∷ translate 0xffe0539a88
    ∷ link 0xffe0500128 0xffe071ad90
    ∷ put64 0xffe071ad90 0x9
    ∷ link 0xffe071ad98 0xffb810a560
    ∷ translate 0xffcc000fc0
    ∷ translate 0xffe071ad90
    ∷ translate 0xffcc001cb0
    ∷ translate 0xffe0539af8
    ∷ translate 0xffe0539b00
    ∷ put64 0xffe071ada0 0x0
    ∷ translate 0xffe0539b08
    ∷ put64 0xffe071ada8 0x0
    ∷ translate 0xffe0539b10
    ∷ put64 0xffe071adb0 0x0
    ∷ translate 0xffe0539b18
    ∷ put64 0xffe071adb8 0x0
    ∷ translate 0xffe0539b20
    ∷ put64 0xffe071adc0 0x0
    ∷ translate 0xffe0539b28
    ∷ put64 0xffe071adc8 0x0
    ∷ translate 0xffe0539b30
    ∷ put64 0xffe071add0 0x0
    ∷ translate 0xffe0539b38
    ∷ put64 0xffe071add8 0x0
    ∷ translate 0xffe0539b40
    ∷ put64 0xffe071ade0 0x0
    ∷ translate 0xffe0539b48
    ∷ put64 0xffe071ade8 0x0
    ∷ translate 0xffe0539b50
    ∷ put64 0xffe071adf0 0x0
    ∷ translate 0xffe0539b58
    ∷ translate 0xffe0500128
    ∷ link 0xffe0500130 0xffe071adf8
    ∷ put64 0xffe071adf8 0x9
    ∷ link 0xffe071ae00 0xffb82dcf70
    ∷ put64 0xffb82dcf78 0x30
    ∷ translate 0xffcc000fc0
    ∷ translate 0xffe071adf8
    ∷ translate 0xffcc001cb0
    ∷ translate 0xffe0539b60
    ∷ translate 0xffe0539b68
    ∷ put64 0xffe071ae08 0x101
    ∷ translate 0xffe0539b70
    ∷ link 0xffe071ae10 0xffe071ae28
    ∷ translate 0xffe0539b78
    ∷ link 0xffe071ae18 0xffe0700680
    ∷ translate 0xffe0539b80
    ∷ put64 0xffe071ae20 0x0
    ∷ translate 0xffe0539b88
    ∷ put32 0xffb82dd010 0x5
    ∷ put32 0xffb82dd09c 0x2
    ∷ put32 0xffb82dd098 0x1
    ∷ put64 0xffb82dd178 0x300000018
    ∷ translate 0xffe0500130
    ∷ link 0xffe0539b78 0xffe071ae28
    ∷ put64 0xffe071ae28 0x9
    ∷ link 0xffe071ae30 0xffb810a560
    ∷ translate 0xffcc000fc0
    ∷ translate 0xffe071ae28
    ∷ translate 0xffcc001cb0
    ∷ translate 0xffe0539b90
    ∷ translate 0xffe0539b98
    ∷ put64 0xffe071ae38 0x0
    ∷ translate 0xffe0539ba0
    ∷ put64 0xffe071ae40 0x0
    ∷ translate 0xffe0539ba8
    ∷ put64 0xffe071ae48 0x0
    ∷ translate 0xffe0539bb0
    ∷ put64 0xffe071ae50 0x0
    ∷ translate 0xffe0539bb8
    ∷ put64 0xffe071ae58 0x0
    ∷ translate 0xffe0539bc0
    ∷ put64 0xffe071ae60 0x0
    ∷ translate 0xffe0539bc8
    ∷ put64 0xffe071ae68 0x0
    ∷ translate 0xffe0539bd0
    ∷ put64 0xffe071ae70 0x0
    ∷ translate 0xffe0539bd8
    ∷ put64 0xffe071ae78 0x0
    ∷ translate 0xffe0539be0
    ∷ put64 0xffe071ae80 0x0
    ∷ translate 0xffe0539be8
    ∷ put64 0xffe071ae88 0x0
    ∷ translate 0xffe0539bf0
    ∷ translate 0xffe0539b78
    ∷ link 0xffe0539b80 0xffe0700680
    ∷ translate 0xffe0539b80
    ∷ link 0xffe0500138 0xffe0700680
    ∷ translate 0xffe0500138
    ∷ link 0xffe05000c0 0xffe064b180
    ∷ put64 0xffe064b180 0x1
    ∷ link 0xffe064b188 0xffb80007e0
    ∷ put32 0xffe064b190 0x21
    ∷ put8 0xfff004adbd 0x0
    ∷ link 0xfff0044df0 0xfff00d25a0
    ∷ translate 0xffcc000fc0
    ∷ translate 0xffe064b180
    ∷ put32 0xfff00d26a0 0xa
    ∷ translate 0xffcc001cb0
    ∷ translate 0xffe0539bf8
    ∷ translate 0xffe0539c00
    ∷ translate 0xffe0539c08
    ∷ put64 0xffe064b198 0x6f7276612f746164
    ∷ translate 0xffe0539c10
    ∷ put64 0xffe064b1a0 0x7265746e692f6172
    ∷ translate 0xffe0539c18
    ∷ put64 0xffe064b1a8 0x662f726574657270
    ∷ translate 0xffe0539c20
    ∷ put64 0xffe064b1b0 0x73742e35306c756d
    ∷ translate 0xffe0539c28
    ∷ link 0xffe064b1b8 0xffe0657874
    ∷ translate 0xffe0539c30
    ∷ translate 0xffe05000c0
    ∷ link 0xffe05000a0 0xffe064b128
    ∷ put64 0xffe064b128 0x1
    ∷ link 0xffe064b130 0xffb80007e0
    ∷ put32 0xffe064b138 0x20
    ∷ translate 0xffcc000fc0
    ∷ translate 0xffe064b128
    ∷ translate 0xffcc001cb0
    ∷ translate 0xffe0539c38
    ∷ translate 0xffe0539c40
    ∷ translate 0xffe0539c48
    ∷ put64 0xffe064b140 0x3666353439303131
    ∷ translate 0xffe0539c50
    ∷ put64 0xffe064b148 0x3837663939666335
    ∷ translate 0xffe0539c58
    ∷ put64 0xffe064b150 0x6461323662343937
    ∷ translate 0xffe0539c60
    ∷ put64 0xffe064b158 0x6365326266633535
    ∷ translate 0xffe0539c68
    ∷ translate 0xffe05000a0
    ∷ link 0xffe0500080 0xffe064b0a8
    ∷ put64 0xffe064b0a8 0x1
    ∷ link 0xffe064b0b0 0xffb80007e0
    ∷ put32 0xffe064b0b8 0x42
    ∷ translate 0xffcc000fc0
    ∷ translate 0xffe064b0a8
    ∷ translate 0xffcc001cb0
    ∷ translate 0xffe0539c70
    ∷ translate 0xffe0539c78
    ∷ translate 0xffe0539c80
    ∷ put64 0xffe064b0c0 0x3666353439303131
    ∷ translate 0xffe0539c88
    ∷ []
