-- ===== src/Lib.antt =====
-- The Linux drivers of the HWGC accelerator, a device that runs the copying part of a garbage
-- collection of the JVM.
--
-- The parts, and the files here that model them (paths from the root of the repository):
--   * loongnix/qemu_dev/hwgc_driver/hwgc_driver_platform.c, the driver that the Makefile builds. The
--     process starts an operation by an ioctl; the device reports TLB misses, requests to the JVM
--     (grow, expand, allocate, wake) and its end by interrupts; the interrupt thread serves a miss by
--     pinning a page of the process, and passes requests through a channel of one event, which the
--     process reads and answers by two more ioctls.
--       - Dma.antt: hwgc_unpin_all, hwgc_remember_pinned, hwgc_release_process_context,
--         hwgc_fill_tlb_for_miss, and the part of hwgc_start_ioctl that takes the references to the
--         process. Dma/Kernel.antt has the kernel's side, Dma/Ownership the balance of references,
--         Dma/Answer.antt what the device is told, Dma/Missed.antt a miss whose lookup succeeds.
--       - Hwgc/Regs.antt, Hwgc/Types.antt: the constants and the structures. struct hwgc is the record
--         Hwgc, whose field dma holds what Dma.antt works on.
--       - Hwgc/Events.antt: hwgc_event_needs_reply to hwgc_abort_operation_from_irq, and the two
--         critical sections of hwgc_wait_event_ioctl.
--       - Hwgc/Params.antt: hwgc_program_parameters; Hwgc/Params/Roundtrip.antt reads the registers as the
--         accelerator does (hwgc_spinal/hw/spinal/hwgc_acc/GCAccTop.scala). Hwgc/Irq.antt:
--         hwgc_irq_top, hwgc_irq_thread. Hwgc/Ioctl.antt: the ioctls. Hwgc/Remove.antt: the critical
--         sections of hwgc_platform_remove.
--       - Hwgc/Channel.antt: the specification of the channel, in four states;
--         Hwgc/Channel/Machine.antt has its moves and who makes them.
--       - Hwgc/Invariant: the critical sections as steps in any order, their invariants, and the
--         wake-ups of the wait ioctl.
--       - Hwgc/Words.antt: the widths of the words in the registers and in struct hwgc.
--       - Hwgc/Files.antt: hwgc_open, and what an open file points to.
--       - Hwgc/Session.antt: one process that waits for events, with what hwgc_wait_event_ioctl holds
--         between its critical sections; Hwgc/Waiters.antt: any number of them.
--         Hwgc/Service.antt: the handlers composed to a whole operation; Hwgc/Works.antt: one in which the
--         device also misses pages, with what it is sent.
--       - Platform.antt: hwgc_platform_probe, hwgc_platform_remove. Module.antt: hwgc_module_init,
--         hwgc_module_exit. Driver.antt: the log of what a probe acquires.
--   * loongnix/qemu_dev/hwgc_driver/hwgc_driver_pci.c with hwgc_ioctl.h, the PCI form: Pci.antt has its
--     probe, its remove and the header's tests, Pci/Regs.antt the header's constants;
--     Pci/Core.antt names the functions that repeat those of the platform driver; Pci/Reach.antt has
--     its steps, Pci/Removed.antt what its remove leaves.
--   * loongnix/qemu_dev/test_device/xor_tlbdev_drv.c, the driver of a small test device with the same
--     TLB protocol: XorTlb.antt and the files under XorTlb; XorTlb/Misses.antt and XorTlb/Serves.antt run
--     an operation from its start to its end, and XorTlb/Program.antt is the program test_xor.c beside it.
--   * loongnix/qemu_dev/edu_device/edu_driver.c, the driver of QEMU's edu device: Edu.antt has the
--     interrupt handler and the ioctl, Edu/Probe.antt the probe and the remove, Edu/Program.antt the
--     program edu_test.c beside it.
--   * loongnix/qemu_dev/hwgc_driver/0_64_1_78.c, a program that drives the accelerator: Client.antt has
--     read_exact, run_worker and main, Client/Trace.antt the parameters of its two workers;
--     Client/Work.antt runs its worker on the driver. Client/Single.antt is the program test_44.c of the
--     same directory, with its whole memory image in Client/Single/Image.
--   * loongnix/qemu_dev/hwgc_driver/test.h, the memory that the programs share with the device:
--     Shadow.antt has the mapping, shadow_addr, and the loads and stores; Shadow/Image.antt has the
--     statements by which the programs restore a memory image.
--   * Common.antt and the files under Common: tests, integers, error numbers, bits of words.
--   * Tests.antt: the theorems at concrete runs.
--
-- How the model reads the code:
--   * A section under a lock, or between two of them, is a function from state to state; the steps of
--     Hwgc/Invariant/Reach.antt interleave them freely. The locks, wait queues, names and messages
--     are left out. The thread half of the interrupt handler is one of these steps; in
--     Hwgc/Invariant/Blocks.antt its blocks are, and Hwgc/Irq/Among.antt runs it with top halves
--     between its blocks.
--   * The values that the device's registers read are a parameter, the same for one run of a handler or of
--     a block; so are the answers of the kernel: get_user_pages_remote, page_to_phys, copies from and to the
--     process, registrations. A lookup that returns 1 with a page has taken one reference to it.
--   * Pages, tasks and mms are numbers; a null pointer is none. Each call that changes something is in
--     a log, the last one first, and so is each write to a register.
--   * Words are natural numbers with the wrap-around written out; int and long are integers, and the
--     cast from long to int is Common.Int.to_int. PAGE_SHIFT is a parameter.
--   * The loops of the drivers go over the slots in use or the devices, so they need no fuel. Those of the
--     program around read and the wait ioctl have fuel; a call that is never interrupted again ends
--     them, so the fuel is enough above the number of interrupted calls, and of bytes to read.
--   * The interrupts that come during the ioctl of the XOR and the edu device are lists, before the
--     end of the wait and after it.
--
-- Not modelled: edu_open, which only finds the structure; the registration of the edu driver; the memory
-- images in the main of 0_64_1_78.c and of test_49.c, which are too long, and whose statements are those
-- of the image that is modelled; hwgc_test.c, which uses names that hwgc_ioctl.h does not define any
-- more; the hardware in hwgc_spinal, but for how it reads its word of flags, and the scripts, which are
-- in other languages.
pub mod Common
pub mod Dma
pub mod Driver
pub mod Edu
pub mod Hwgc
pub mod Platform
pub mod Module
pub mod Pci
pub mod XorTlb
pub mod Shadow
pub mod Client
pub mod Tests
