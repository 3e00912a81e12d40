-- ===== src/Lib.antt =====
-- Copies between the kernel and its users by a DMA engine, and the trace of those copies: patches of
-- the Linux kernel, under source, with the drivers and daemons that measure them.
--
-- The parts and their files:
--   Prelude: the native numbers, Boolean tests, lists and the integers that the C functions return.
--   CircularBuffer: source/kernel/circular_buffer.c and source/include/linux/circular_buffer.h. The
--     buffer of measures of one CPU is a record; cbWrite, cbRead and cbRead_list are cb_write, cb_read
--     and cb_read_list. Queue is the bounded queue that the buffer stands for, Contents reads the
--     measures off a buffer, and Refine compares the two.
--   Request: struct request_copy of source/include/linux/dmaengine.h.
--   Engine: dma_async_memcpy_* and dma_sync_wait of source/drivers/dma/dmaengine.c. The answers of the
--     hardware are lists that the calls consume; a call for which they do not suffice gives none, so
--     that the theorems name the answers that do.
--   Copy: the loop of __dma_copy_from_user and __dma_copy_to_user of
--     source/drivers/dma/dma_policy_ex_sh.c. The loop runs on the list of answers, one of which each
--     turn consumes. Chunks cuts the bytes at the page boundaries, and Bytes carries out the transfers
--     on a memory.
--   Pin: dma_pin_user_pages and dma_unpin_user_pages of the same file. The log counts the pages that
--     are released and marked dirty.
--   Channels: the copy_dma_get_channel_* functions of source/drivers/dma/dmaengine.c.
--   UserCopy: dma_copy_to_user and dma_copy_from_user as a whole, and the copies of the dynamic
--     policies, which have no pinning. Delivery is about the calls that go through, Refused about
--     those that copy nothing.
--   Uaccess: source/arch/x86/include/asm/uaccess_64.h, where the kernel's copy_from_user and its like
--     copy by DMA, fall back to the processor, and write a measure to the buffer of the CPU; Boot is
--     source/init/boot_trace_copy_tofrom.c, which prepares the buffers.
--   Alloc: the channel allocator of source/drivers/dma/dmaengine.c: dma_chan_get, dma_chan_put,
--     __dma_request_channel and dma_release_channel; Table is nth_chan and dma_channel_rebalance,
--     Clients is dmaengine_get and dmaengine_put. AsPool shows it as a Pool.
--     Registration is the registration of devices with its error paths, of which Unwinding is what the
--     loops give back, Kept the references on the driver's module, and Listing what of the devices
--     stays in its place.
--   Trace: the driver that hands the measures to the user: trace/driver/driverops.c and
--     trace/driver/core_trace_copy.c; Module is loading and unloading it, trace/driver/trace_copy.c,
--     where the state is what the module holds of the kernel.
--   Daemon: the daemon of the trace, trace/daemon. Text is the line of a measure, to the character;
--     Mapping and Save are the sparse file and save_measure, Copying is copy_normal_file, Cleaning is
--     clean_kernel_buffer, and Record is record_measures with its labels. The device file is a Device,
--     which Cleaning fills with the trace driver (trace_device), and Driven is the daemon on that driver
--     with the sizes of init_daemon. The sparse file has a size, and a write past its end gives none, as
--     one outside a mapping does. The loop of the copy takes fuel, one more than the bytes to copy.
--   Bench: the drivers of the benchmarks. Msg is micro-benchmark_Msg/driver, with the copies and
--     their loop in Msg itself and the rest in Driver: Measuring is the loop, Started the whole of
--     start_measure and Written a write. Band is micro-benchmark_Band/driver: Session is MB_LOAD,
--     transfers and MB_UNLOAD as steps on the state of a device. Cache is
--     micro-benchmark_Cache_2CPU/driver: Bounds is the block that a transfer works on. Each has its
--     loading and unloading in Module. Devices is the code of the three for their four devices,
--     Policies the policies that they start and stop, as operations with laws, and Running fills these
--     with Exclusive and Priority. The loop that fills the memory (fill_loop) takes fuel, one more than
--     the number of blocks of 16 MB. Boot is source/init/boot_mem_micro-benchmark.c, which
--     allocates that memory.
--   Pool: what the policies use of the allocator, as a record of operations and laws.
--   Exclusive: start_policy_excl and stop_policy_excl of dma_policy_ex_sh.c, on any Pool.
--   Priority: source/drivers/dma/dma_policy_prio.c, on any Pool: the timer's callback, which suspends
--     and resumes the channels of low priority in turn (Quanta), the start of the policy (Start) and its
--     stop (Session), and the channels that the copies find (Lookup).
--
-- Unsigned results of the C code keep their wrap-around. Locks make each operation one step; memory
-- barriers and the printed messages are left out. Functions outside the repository (the page and
-- memory management, the processor's copy routines, the module loader, the hardware driver) are
-- arguments or answers in records. Not modelled: the ioat driver, the daemons of the
-- benchmarks, and the mibench programs.
pub mod Prelude
pub mod CircularBuffer
pub mod Request
pub mod Engine
pub mod Copy
pub mod Pin
pub mod Channels
pub mod UserCopy
pub mod Uaccess
pub mod Trace
pub mod Alloc
pub mod Pool
pub mod Exclusive
pub mod Priority
pub mod Daemon
pub mod Bench
