-- ===== src/Client/Single/Image.antt =====
-- The memory image of loongnix/qemu_dev/hwgc_driver/test_44.c, in its order.
mod Part0
mod Part1
mod Part2
mod Part3
mod Part4
mod Part5
mod Part6
mod Part7
mod Part8
use jvm_gc_acclelerator.Common.{List, ◌++◌}
use jvm_gc_acclelerator.Shadow.Image.{Statement}
use jvm_gc_acclelerator.Client.Single.Image.Part0.{image_0}
use jvm_gc_acclelerator.Client.Single.Image.Part1.{image_1}
use jvm_gc_acclelerator.Client.Single.Image.Part2.{image_2}
use jvm_gc_acclelerator.Client.Single.Image.Part3.{image_3}
use jvm_gc_acclelerator.Client.Single.Image.Part4.{image_4}
use jvm_gc_acclelerator.Client.Single.Image.Part5.{image_5}
use jvm_gc_acclelerator.Client.Single.Image.Part6.{image_6}
use jvm_gc_acclelerator.Client.Single.Image.Part7.{image_7}
use jvm_gc_acclelerator.Client.Single.Image.Part8.{image_8}

abbrev pub image : List Statement
image =
    image_0 ++ image_1 ++ image_2 ++ image_3 ++ image_4 ++ image_5 ++ image_6 ++ image_7 ++ image_8
