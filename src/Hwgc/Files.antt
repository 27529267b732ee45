-- ===== src/Hwgc/Files.antt =====
-- The open files of loongnix/qemu_dev/hwgc_driver/hwgc_driver_platform.c and the device structures that
-- they point to: hwgc_open, hwgc_ioctl on a file, and the end of hwgc_platform_remove.
pub mod Stale
use jvm_gc_acclelerator.Common.{ℕ, Option, none, some, List, ◌==◌, if◌then◌else◌}
use jvm_gc_acclelerator.Common.Int.{ℤ, pos}
use jvm_gc_acclelerator.Common.Errno.{enodev}
use jvm_gc_acclelerator.Driver.{Resource, ResourceCall, released}
use jvm_gc_acclelerator.Hwgc.Types.{Event, Hwgc}
use jvm_gc_acclelerator.Hwgc.Ioctl.{Caller, hwgc_ioctl}
use jvm_gc_acclelerator.Platform.{platform_remove}

-- The device structures by their addresses; `none` is memory that holds none, or none any more.
abbrev pub Devices : Type 0
Devices = ℕ → Option Hwgc

abbrev pub set_device : Devices → ℕ → Option Hwgc → Devices
set_device devices at device addr = if at == addr then device else devices addr

-- `filp->private_data`: NULL, the misc device inside the structure at an address, or that structure.
pub data PrivateData : Type 0 where
  null : PrivateData
  miscdev_of : ℕ → PrivateData
  hwgc_at : ℕ → PrivateData

-- `none` is a pointer that is no misc device. The kernel's `misc_open` gives the misc device.
unfoldable pub hwgc_open : PrivateData → Option (PrivateData × ℤ)
hwgc_open (PrivateData.miscdev_of addr) = some (PrivateData.hwgc_at addr, pos 0)
hwgc_open _ = none

-- What an ioctl does: it answers, or it reads memory that holds no device structure.
pub data Access : Type 0 where
  answered : ℤ → Option Event → Access
  invalid : Access

-- The ioctl on the structure that is at the address.
abbrev pub ioctl_at : ℕ → Caller → ℕ → Devices → Option Hwgc → Devices × Access
ioctl_at cmd caller addr devices none = (devices, Access.invalid)
ioctl_at cmd caller addr devices (some d) =
    let (device, ret, event) = hwgc_ioctl cmd caller (some d) in
    (set_device devices addr device, Access.answered ret event)

unfoldable pub file_ioctl : ℕ → Caller → PrivateData → Devices → Devices × Access
unfolding hwgc_ioctl
file_ioctl cmd caller PrivateData.null devices = (devices, Access.answered enodev none)
file_ioctl cmd caller (PrivateData.miscdev_of addr) devices = (devices, Access.invalid)
file_ioctl cmd caller (PrivateData.hwgc_at addr) devices =
    ioctl_at cmd caller addr devices (devices addr)

-- `kfree(d)`: the structure is gone once a removal has released its memory, whoever still has it.
abbrev pub unless_freed : List ResourceCall → List ResourceCall → Option Hwgc → Option Hwgc
unless_freed before after device =
    if released Resource.memory before == released Resource.memory after then device else none

unfoldable pub remove_at : ℕ → List ResourceCall → Devices → Devices × List ResourceCall
unfolding platform_remove
remove_at addr resources devices =
    let (last, freed) = platform_remove (devices addr) resources in
    (set_device devices addr (unless_freed resources freed last), freed)
