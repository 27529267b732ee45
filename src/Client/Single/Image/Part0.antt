-- ===== src/Client/Single/Image/Part0.antt =====
-- Lines 42 to 191 of loongnix/qemu_dev/hwgc_driver/test_44.c.
use jvm_gc_acclelerator.Common.{List, [], ◌∷◌}
use jvm_gc_acclelerator.Shadow.Image.{Statement, link, put32, put64, put8, translate}

abbrev pub image_0 : List Statement
image_0 =
    put32 0xfff0042fa0 0x44
    ∷ put32 0xfff0042fe0 0x0
    ∷ link 0xfff418c228 0xffd49d4708
    ∷ link 0xfff418c220 0xffd49d46f8
    ∷ link 0xfff418c218 0xffd49d46f0
    ∷ link 0xfff418c210 0xffd49d4088
    ∷ link 0xfff418c208 0xffe05015f8
    ∷ link 0xfff418c200 0xffe0501578
    ∷ link 0xfff418c1f8 0xffe0501510
    ∷ link 0xfff418c1f0 0xffe0501490
    ∷ link 0xfff418c1e8 0xffe0501428
    ∷ link 0xfff418c1e0 0xffe05013b0
    ∷ link 0xfff418c1d8 0xffe0501348
    ∷ link 0xfff418c1d0 0xffe05012f0
    ∷ link 0xfff418c1c8 0xffe0501288
    ∷ link 0xfff418c1c0 0xffe0501230
    ∷ link 0xfff418c1b8 0xffe05011c8
    ∷ link 0xfff418c1b0 0xffe0501140
    ∷ link 0xfff418c1a8 0xffe05010d8
    ∷ link 0xfff418c1a0 0xffe0501080
    ∷ link 0xfff418c198 0xffe0501018
    ∷ link 0xfff418c190 0xffe0500fc0
    ∷ link 0xfff418c188 0xffe0500f58
    ∷ link 0xfff418c180 0xffe0500ee0
    ∷ link 0xfff418c178 0xffe0500e78
    ∷ link 0xfff418c170 0xffe0500e20
    ∷ link 0xfff418c168 0xffe0500db8
    ∷ link 0xfff418c160 0xffe0500d28
    ∷ link 0xfff418c158 0xffe0500cc0
    ∷ link 0xfff418c150 0xffe0500c68
    ∷ link 0xfff418c148 0xffe0500c00
    ∷ link 0xfff418c140 0xffe0500b70
    ∷ link 0xfff418c138 0xffe0500b08
    ∷ link 0xfff418c130 0xffe0500ab0
    ∷ link 0xfff418c128 0xffe0500a48
    ∷ link 0xfff418c120 0xffe05009f0
    ∷ link 0xfff418c118 0xffe0500988
    ∷ link 0xfff418c110 0xffe0500910
    ∷ link 0xfff418c108 0xffe05008a8
    ∷ link 0xfff418c100 0xffe0500850
    ∷ link 0xfff418c0f8 0xffe05007e8
    ∷ link 0xfff418c0f0 0xffe0500790
    ∷ link 0xfff418c0e8 0xffe0500728
    ∷ link 0xfff418c0e0 0xffe0500690
    ∷ link 0xfff418c0d8 0xffe0500628
    ∷ link 0xfff418c0d0 0xffe05005d0
    ∷ link 0xfff418c0c8 0xffe0500568
    ∷ link 0xfff418c0c0 0xffe05004c8
    ∷ link 0xfff418c0b8 0xffe0500460
    ∷ link 0xfff418c0b0 0xffe0500408
    ∷ link 0xfff418c0a8 0xffe05003a0
    ∷ link 0xfff418c0a0 0xffe0500328
    ∷ link 0xfff418c098 0xffe05002c0
    ∷ link 0xfff418c090 0xffe05001e8
    ∷ link 0xfff418c088 0xffe0500200
    ∷ link 0xfff418c080 0xffe0500220
    ∷ link 0xfff418c078 0xffe0500188
    ∷ link 0xfff418c070 0xffe05000f8
    ∷ link 0xfff418c068 0xffe0500100
    ∷ link 0xfff418c060 0xffe0500110
    ∷ link 0xfff418c058 0xffe0500118
    ∷ link 0xfff418c050 0xffe0500120
    ∷ link 0xfff418c048 0xffe0500128
    ∷ link 0xfff418c040 0xffe0500130
    ∷ link 0xfff418c038 0xffe0500138
    ∷ link 0xfff418c030 0xffe05000c0
    ∷ link 0xfff418c028 0xffe05000a0
    ∷ link 0xfff418c020 0xffe0500080
    ∷ link 0xfff418c018 0xffe0500060
    ∷ link 0xfff418c010 0xffe0500018
    ∷ link 0xffd49d4708 0xffe0722898
    ∷ link 0xffe0722898 0xffe05379e3
    ∷ translate 0xffd49d4708
    ∷ link 0xfff0044808 0xfff0054d80
    ∷ put32 0xfff0054e3c 0x10
    ∷ put8 0xfff004adba 0x1
    ∷ link 0xfff00431c8 0xfff40c4000
    ∷ link 0xfff00431d0 0xff74220000
    ∷ put64 0xffcc000da0 0xd1f
    ∷ link 0xffcc000c48 0xff90000f60
    ∷ put64 0xffcc000c38 0x508
    ∷ translate 0xff90001460
    ∷ translate 0xffcc000c38
    ∷ translate 0xffcc000da0
    ∷ link 0xffd49d46f8 0xffe0722ce0
    ∷ put64 0xffe0722ce0 0x9
    ∷ link 0xffe0722ce8 0xffb8485df8
    ∷ put64 0xffb8485e00 0x38
    ∷ put8 0xfff004adbf 0x0
    ∷ put32 0xffcc000d6c 0xf
    ∷ link 0xfff0044df8 0xfff00d3040
    ∷ link 0xffcc000c60 0xffcc000f10
    ∷ link 0xffcc000f20 0xffcc0096a0
    ∷ link 0xffcc0096a0 0xffcc000f90
    ∷ link 0xffcc000fc0 0xffe0539320
    ∷ link 0xffcc000fc8 0xffe05546c8
    ∷ translate 0xffcc000fc0
    ∷ translate 0xffe0722ce0
    ∷ put32 0xfff00d3140 0x1
    ∷ link 0xffcc000dc0 0xffcc000e30
    ∷ put64 0xffcc001cb0 0x0
    ∷ translate 0xffcc001cb0
    ∷ translate 0xffe0539320
    ∷ translate 0xffe0539328
    ∷ put64 0xffe0722cf0 0x0
    ∷ translate 0xffe0539330
    ∷ link 0xffe0722cf8 0xffe0722510
    ∷ translate 0xffe0539338
    ∷ link 0xffe0722d00 0xffe0706d10
    ∷ translate 0xffe0539340
    ∷ put64 0xffe0722d08 0x0
    ∷ translate 0xffe0539348
    ∷ link 0xffe0722d10 0xffe07224d8
    ∷ translate 0xffe0539350
    ∷ put32 0xffb8485e98 0x3b
    ∷ put32 0xffb8485f24 0x5
    ∷ put32 0xffb8485f20 0x1
    ∷ put64 0xffb84861c8 0x400000018
    ∷ translate 0xffd49d46f8
    ∷ link 0xffe0539338 0xffe0722510
    ∷ link 0xffe0722510 0xffe053782b
    ∷ translate 0xffe0539338
    ∷ link 0xffe0539340 0xffe0706d10
    ∷ link 0xffe0706d10 0xffe05120a3
    ∷ translate 0xffe0539340
    ∷ link 0xffe0539350 0xffe07224d8
    ∷ link 0xffe07224d8 0xffe05377f3
    ∷ translate 0xffe0539350
    ∷ link 0xffd49d46f0 0xffe0722d18
    ∷ put64 0xffe0722d18 0x9
    ∷ link 0xffe0722d20 0xffb8485df8
    ∷ translate 0xffcc000fc0
    ∷ translate 0xffe0722d18
    ∷ translate 0xffcc001cb0
    ∷ translate 0xffe0539358
    ∷ translate 0xffe0539360
    ∷ put64 0xffe0722d28 0x0
    ∷ translate 0xffe0539368
    ∷ link 0xffe0722d30 0xffe07220b8
    ∷ translate 0xffe0539370
    ∷ link 0xffe0722d38 0xffe0706d10
    ∷ translate 0xffe0539378
    ∷ put64 0xffe0722d40 0x0
    ∷ translate 0xffe0539380
    ∷ link 0xffe0722d48 0xffe0722080
    ∷ translate 0xffe0539388
    ∷ translate 0xffd49d46f0
    ∷ link 0xffe0539370 0xffe07220b8
    ∷ link 0xffe07220b8 0xffe0537623
    ∷ translate 0xffe0539370
    ∷ []
