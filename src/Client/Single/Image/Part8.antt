-- ===== src/Client/Single/Image/Part8.antt =====
-- Lines 1242 to 1378 of loongnix/qemu_dev/hwgc_driver/test_44.c.
use jvm_gc_acclelerator.Common.{List, [], ◌∷◌}
use jvm_gc_acclelerator.Shadow.Image.{Statement, link, put32, put64, translate}

abbrev pub image_8 : List Statement
image_8 =
    put64 0xffe064b0c8 0x3837663939666335
    ∷ translate 0xffe0539c90
    ∷ put64 0xffe064b0d0 0x6461323662343937
    ∷ translate 0xffe0539c98
    ∷ put64 0xffe064b0d8 0x6365326266633535
    ∷ translate 0xffe0539ca0
    ∷ put64 0xffe064b0e0 0x7276612f74616420
    ∷ translate 0xffe0539ca8
    ∷ put64 0xffe064b0e8 0x65746e692f61726f
    ∷ translate 0xffe0539cb0
    ∷ put64 0xffe064b0f0 0x2f72657465727072
    ∷ translate 0xffe0539cb8
    ∷ put64 0xffe064b0f8 0x742e35306c756d66
    ∷ translate 0xffe0539cc0
    ∷ put64 0xffe064b100 0x7473
    ∷ translate 0xffe0539cc8
    ∷ translate 0xffe0500080
    ∷ link 0xffe0500060 0xffe064b820
    ∷ put64 0xffe064b820 0x1
    ∷ link 0xffe064b828 0xffb8976f00
    ∷ put64 0xffb8976f08 0x50
    ∷ translate 0xffcc000fc0
    ∷ translate 0xffe064b820
    ∷ translate 0xffcc001cb0
    ∷ translate 0xffe0539cd0
    ∷ translate 0xffe0539cd8
    ∷ put64 0xffe064b830 0x0
    ∷ translate 0xffe0539ce0
    ∷ put64 0xffe064b838 0x0
    ∷ translate 0xffe0539ce8
    ∷ put64 0xffe064b840 0x4000000010
    ∷ translate 0xffe0539cf0
    ∷ put64 0xffe064b848 0x0
    ∷ translate 0xffe0539cf8
    ∷ put64 0xffe064b850 0x0
    ∷ translate 0xffe0539d00
    ∷ link 0xffe064b858 0xffd49c9560
    ∷ translate 0xffe0539d08
    ∷ link 0xffe064b860 0xffe064b870
    ∷ translate 0xffe0539d10
    ∷ link 0xffe064b868 0xffe064b8c8
    ∷ translate 0xffe0539d18
    ∷ put32 0xffb8976fa0 0xf
    ∷ put32 0xffb897702c 0x2
    ∷ put32 0xffb8977028 0x2
    ∷ put64 0xffb8977160 0x400000030
    ∷ put64 0xffb8977158 0x100000010
    ∷ translate 0xffe0500060
    ∷ link 0xffe0539d10 0xffe064b870
    ∷ put64 0xffe064b870 0x1
    ∷ link 0xffe064b878 0xffb80007e0
    ∷ put32 0xffe064b880 0x40
    ∷ translate 0xffcc000fc0
    ∷ translate 0xffe064b870
    ∷ translate 0xffcc001cb0
    ∷ translate 0xffe0539d20
    ∷ translate 0xffe0539d28
    ∷ translate 0xffe0539d30
    ∷ put64 0xffe064b888 0x0
    ∷ translate 0xffe0539d38
    ∷ put64 0xffe064b890 0x0
    ∷ translate 0xffe0539d40
    ∷ put64 0xffe064b898 0x0
    ∷ translate 0xffe0539d48
    ∷ put64 0xffe064b8a0 0x0
    ∷ translate 0xffe0539d50
    ∷ put64 0xffe064b8a8 0x0
    ∷ translate 0xffe0539d58
    ∷ put64 0xffe064b8b0 0x0
    ∷ translate 0xffe0539d60
    ∷ put64 0xffe064b8b8 0x0
    ∷ translate 0xffe0539d68
    ∷ put64 0xffe064b8c0 0x0
    ∷ translate 0xffe0539d70
    ∷ translate 0xffe0539d10
    ∷ link 0xffe0539d18 0xffe064b8c8
    ∷ put64 0xffe064b8c8 0x1
    ∷ link 0xffe064b8d0 0xffb8000bd0
    ∷ put64 0xffb8000bd8 0x4c0180a02
    ∷ put32 0xffe064b8d8 0x4
    ∷ translate 0xffcc000fc0
    ∷ translate 0xffe064b8c8
    ∷ translate 0xffcc001cb0
    ∷ translate 0xffe0539d78
    ∷ translate 0xffe0539d80
    ∷ translate 0xffe0539d88
    ∷ put64 0xffe064b8e0 0xefcdab8967452301
    ∷ translate 0xffe0539d90
    ∷ put64 0xffe064b8e8 0x1032547698badcfe
    ∷ translate 0xffe0539d98
    ∷ translate 0xffe0539d18
    ∷ link 0xffe0500018 0xffe064b310
    ∷ put64 0xffe064b310 0x1
    ∷ link 0xffe064b318 0xffb8011a30
    ∷ translate 0xffcc000fc0
    ∷ translate 0xffe064b310
    ∷ translate 0xffcc001cb0
    ∷ translate 0xffe0539da0
    ∷ translate 0xffe0539da8
    ∷ put64 0xffe064b320 0x0
    ∷ translate 0xffe0539db0
    ∷ link 0xffe064b328 0xffe064b330
    ∷ translate 0xffe0539db8
    ∷ translate 0xffe0500018
    ∷ link 0xffe0539db8 0xffe064b330
    ∷ put64 0xffe064b330 0x1
    ∷ link 0xffe064b338 0xffb80007e0
    ∷ put32 0xffe064b340 0x58
    ∷ translate 0xffcc000fc0
    ∷ translate 0xffe064b330
    ∷ translate 0xffcc001cb0
    ∷ translate 0xffe0539dc0
    ∷ translate 0xffe0539dc8
    ∷ translate 0xffe0539dd0
    ∷ put64 0xffe064b348 0x6f6c2f656d6f682f
    ∷ translate 0xffe0539dd8
    ∷ put64 0xffe064b350 0x502f6e6f73676e6f
    ∷ translate 0xffe0539de0
    ∷ put64 0xffe064b358 0x2f737463656a6f72
    ∷ translate 0xffe0539de8
    ∷ put64 0xffe064b360 0x642f6f7061636164
    ∷ translate 0xffe0539df0
    ∷ put64 0xffe064b368 0x33322d6f70616361
    ∷ translate 0xffe0539df8
    ∷ put64 0xffe064b370 0x2d32524d2d31312e
    ∷ translate 0xffe0539e00
    ∷ put64 0xffe064b378 0x642f6e69706f6863
    ∷ translate 0xffe0539e08
    ∷ put64 0xffe064b380 0x726f7276612f7461
    ∷ translate 0xffe0539e10
    ∷ put64 0xffe064b388 0x707265746e692f61
    ∷ translate 0xffe0539e18
    ∷ put64 0xffe064b390 0x6d662f7265746572
    ∷ translate 0xffe0539e20
    ∷ put64 0xffe064b398 0x7473742e35306c75
    ∷ translate 0xffe0539e28
    ∷ translate 0xffe0539db8
    ∷ []
