-- ===== src/Tests/Files.antt =====
-- A file that outlives its device.
use jvm_gc_acclelerator.Common.{true, none, some, ◌==◌, if◌then◌else◌}
use jvm_gc_acclelerator.Common.Int.{pos}
use jvm_gc_acclelerator.Hwgc.Types.{new_hwgc, Hwgc}
use jvm_gc_acclelerator.Hwgc.Ioctl.{Caller}
use jvm_gc_acclelerator.Hwgc.Files.{Devices}
use jvm_gc_acclelerator.Tests.Values.{process, parameters}

abbrev first : Hwgc
first = new_hwgc (some 0) (pos 5) (pos 0)

-- Two devices, at the addresses 100 and 200.
abbrev two_devices : Devices
two_devices addr =
    if addr == 100
    then some first
    else if addr == 200
    then some (new_hwgc (some 4096) (pos 6) (pos 1))
    else none

abbrev starting : Caller
starting = record {
  current = process;
  params = some parameters;
  waited = pos 0;
  copied = true;
  reply = none;
}
