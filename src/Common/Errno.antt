-- ===== src/Common/Errno.antt =====
-- The negated error numbers of the kernel (include/uapi/asm-generic/errno-base.h and errno.h).
use jvm_gc_acclelerator.Common.Int.{ℤ, negsuc}

abbrev pub eio : ℤ
eio = negsuc 4

abbrev pub eagain : ℤ
eagain = negsuc 10

abbrev pub enomem : ℤ
enomem = negsuc 11

abbrev pub efault : ℤ
efault = negsuc 13

abbrev pub ebusy : ℤ
ebusy = negsuc 15

abbrev pub enodev : ℤ
enodev = negsuc 18

abbrev pub einval : ℤ
einval = negsuc 21

abbrev pub enotty : ℤ
enotty = negsuc 24

abbrev pub enospc : ℤ
enospc = negsuc 27

abbrev pub etimedout : ℤ
etimedout = negsuc 109
