-- ===== src/Lib.antt =====
-- Verification of the Canon R5 driver suite: the core of the kernel modules, in drivers/core, the still
-- capture driver, in drivers/still, the storage driver, in drivers/storage/canon-r5-storage.c, and the
-- video driver, in drivers/video.
--
-- The program. A camera is a `struct canon_r5_device` (include/core/canon-r5.h), which the USB module
-- allocates when it probes an interface. The USB module is the device's transport: the PTP layer
-- sends and receives containers through it. Driver modules (still, video, audio, storage) take a
-- picture, a frame or a file by calling the PTP layer, and keep their private data at the device.
--
-- The files.
-- - Prelude: the numbers, lists and status codes, and kernel code as a state monad `M` with faults
--   (a mutex taken twice, a NULL followed, a read past an object, a division by zero, a bad kfree, a
--   use of freed memory or of a variable that was never written).
-- - Wire: drivers/core/canon-r5-ptp.c `build_ptp_container` and `struct ptp_container` as bytes.
-- - Device: the device's structure and its mutexes.
-- - Ptp: drivers/core/canon-r5-ptp.c. `ptp_command` is `canon_r5_ptp_command`; Session, Camera and Still
--   have the functions `canon_r5_ptp_*` under the same names without the prefix `canon_r5_`. The
--   other children are about what these do: Transport, Command, Answer, DataPhase, Requests,
--   Lifecycle, Serve, Status, Offline, and Sign about the sign of a status.
-- - Core: drivers/core/canon-r5-core.c, with Lifecycle and Registration about it. `register_driver`
--   stands for the ten functions `canon_r5_register_*_driver`.
-- - Usb: drivers/core/canon-r5-usb.c, with Probe for the probe, the disconnect and the interrupt
--   callback, and Transfer, Endpoints, Attach and Disconnect about them.
-- - Still: drivers/still/canon-r5-still.c and include/still/canon-r5-still.h, with Settings, Capture,
--   Images and Autofocus for its functions, Serve for a server of the driver, and Validate, Busy, Stuck, Continuous, Starting, Fetch
--   and Focusing about them.
-- - Storage: drivers/storage/canon-r5-storage.c and include/storage/canon-r5-storage.h. Extension has
--   the checks of values and `canon_r5_storage_detect_file_type`, Objects the functions
--   `canon_r5_ptp_*` of that file, Cards the card slots, Files the file objects, Cache the cleanup
--   work, Setup the start, the end and the statistics. Serve makes a server of the driver, which the
--   proofs about any use of it take. The other children are about these: Told (how the PTP commands
--   end), NoCard and Inactive, Deadlock, Reading, Lifecycle, Undefined.
-- - Video: drivers/video/canon-r5-videobuf2.c (Buffers, Queue), drivers/video/canon-r5-liveview.c
--   (LiveView, Buffers, Queue) and drivers/video/canon-r5-v4l2.c (Formats, Control), for the main video
--   device. Serve makes a server of the stream; the other children are about these: Frames, Switching,
--   Streaming, Conservation, Opening, Closing, and Negotiation and Setting about the formats.
-- - Examples: each theorem of the list below at a concrete input.
--
-- How it is modelled. There is one device, so that a pointer to it is `null` or `valid`. A mutex is a
-- flag that says whether it is held, and taking a held one is a fault. What a function writes through
-- an output pointer is an `Option` beside its status. An array with its count is a list. Memory that
-- was not written is `none` as a byte. What kmalloc, kzalloc, idr_alloc, device_create,
-- alloc_workqueue, usb_submit_urb and usb_bulk_msg answer is an argument, or an operation of the
-- record `UsbKernel`, of which only this is asked: a transfer from the device gives no more bytes than
-- were asked for. `rb_erase` is an argument too. The PTP layer takes its transport as a record of operations, with `IsTransport` for
-- what it relies on; the USB module provides one. u32 and u64 counters wrap; the atomic
-- counter of pending pictures is an integer without bounds. All loops are structural, so there is no
-- fuel.
--
-- File objects and images are known by their addresses, in a map from addresses to what is alive, and
-- video buffers by their numbers, in the order of their list. The time of ktime_get does not pass
-- within an operation. A list node is never set (as kzalloc leaves it), unlinked or linked; a removal
-- of one that was never set follows a NULL pointer, as it does without CONFIG_DEBUG_LIST.
--
-- What is not modelled: log messages and the name tables for them; the registration of the modules
-- with the kernel; the bytes of a video frame; threads that run at the same time (each operation runs
-- by itself, and work and timers are operations of their own; spinlocks count where a function takes
-- one and calls another); the time a transfer takes; the registration of the video devices with V4L2,
-- and the drivers for the filesystem and for audio.
pub mod Prelude
pub mod Wire
pub mod Device
pub mod Ptp
pub mod Core
pub mod Usb
pub mod Still
pub mod Storage
pub mod Video
pub mod Examples
