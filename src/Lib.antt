-- ===== src/Lib.antt =====
-- Verification of parts of the camera (libcamera) and of the MobiCore daemon
-- (mobicore/daemon): its device, its registry and the commands of its clients.
--
-- Camera. The camera HAL sends each frame through the blocks of the ISP and calls, before and
-- after each block, the activities; an activity reads and writes the frame's metadata and keeps its
-- own state machine from frame to frame.
-- - Camera.Shot: the part of camera2_shot_ext (libcamera/fimc-is-metadata.h) that is used.
-- - Camera.Activity: ExynosCameraActivityBase (libcamera/ExynosCameraActivityBase.cpp), the
--   dispatch `execFunction` over a record of the virtual functions.
-- - Camera.Flash: ExynosCameraActivityFlash (libcamera/ExynosCameraActivityFlash.cpp and .h).
--   State has its members and constructor, Before and After the callbacks t_func3ABefore and
--   t_func3AAfter, Setters the other methods and the sensor callbacks, Waits the loops of
--   waitAeDone, waitPreDone, waitMainReady and waitMainReadyShortTouch, Ops all of these as
--   operations in any order. Proofs: Bounds, Progress, Cancel, Lamp, Timeouts, AeTimeout.
-- - Camera.Autofocus: ExynosCameraActivityAutofocus (libcamera/ExynosCameraActivityAutofocus.cpp
--   and .h), split the same way: State, Frames, Setters, Result (getAutofocusResult), Lock
--   (lockAutofocus). Proofs: Runs, Answers, Locking.
-- - Camera.Crop: getCropRect, getCropRectAlign and m_setZoom of ExynosCamera
--   (libcamera/ExynosCamera.cpp), the part of a frame that is used. Proofs: Region.
-- - Camera.Sizes: the lists of sizes of libcamera/ExynosCamera.h, and m_getResolutionList,
--   m_isSupportedPreviewSize and its two likes, and m_getMatchedPictureSize of ExynosCameraHWImpl
--   (libcamera/ExynosCameraHWImpl.cpp). Proofs: Offers.
-- - Camera.Areas: m_bracketsStr2Ints and m_subBracketsStr2Ints of ExynosCameraHWImpl, which read the
--   texts of focus and metering areas. Proofs: Valid, Accepted.
-- - Camera.Fps: FPS_RANGE_LIST of libcamera/ExynosCamera.h, m_getSupportedFpsList and
--   m_getSupportedVariableFpsList of ExynosCameraHWImpl. Proofs: Choice.
-- A method foo_bar of a module is the source's fooBar. Other threads move an activity while a
-- waiting method sleeps: the method takes the activity that each of its tests sees as a function of
-- the number of the test, which may be any function.
--
-- Daemon. A client connects to the daemon, opens sessions with trusted applications through the
-- device, which exchanges commands with the secure world over a shared message buffer and two
-- notification queues.
-- - Daemon.NotificationQueue: NotificationQueue (mobicore/daemon/Daemon/Device/
--   NotificationQueue.cpp), with 32-bit counters that wrap; Fifo is its specification, Refine
--   relates them.
-- - Daemon.Session: TrustletSession (mobicore/daemon/Daemon/Device/TrustletSession.cpp) and
--   cleanSessionBuffers of MobiCoreDevice.cpp. Proofs: Buffers.
-- - Daemon.Device: MobiCoreDevice (mobicore/daemon/Daemon/Device/MobiCoreDevice.cpp) with notify and
--   handleIrq of Platforms/Generic/TrustZoneDevice.cpp. State has the members, the calls to the
--   outside and the World, Sessions the session list and notifications, Commands the commands,
--   Close open and close. Proofs: Exchange, Ownership, Opening, Closing, Mapping, Teardown,
--   Delivery, Registration, Version.
-- - Daemon.Registry: mobicore/daemon/Registry/PrivateRegistry.cpp, the files of containers and
--   trustlets. Bytes has the sizes of common/MobiCore/inc/mcContainer.h and mcSo.h, Names the paths,
--   Disk the file system, Containers store, read and delete, Cleanup the three mcRegistryCleanup
--   functions, Blob what is loaded for a service. Proofs: Distinct, Store, Bounds, Deletion, Gone.
-- - Daemon.Driver: MobiCoreDriverDaemon (mobicore/daemon/Daemon/MobiCoreDriverDaemon.cpp), which
--   reads commands from the clients' connections and answers them over the device and the registry.
--   Wire has the bytes that come in (Daemon/public/MobiCoreDriverCmd.h, Common/Connection.cpp), State
--   the members, the answers and what surrounds a command (Env), Sessions, Bulk and Registry the
--   handlers (process_open_session is processOpenSession, and so on), Dispatch handleConnection,
--   dropConnection and the handling of one connection in Server::run (Daemon/Server/Server.cpp),
--   Startup what run does before it serves. Proofs: Answers, Refusals, Locks, Peers, Leaks.
-- - Daemon.Netlink: NetlinkConnection (mobicore/daemon/Common/NetlinkConnection.cpp), a stream made of
--   messages. Proofs: Stream.
-- - Daemon.Client: the client library (mobicore/daemon/ClientLib/ClientLib.cpp, Device.cpp and
--   Session.cpp). Codes has the numbers of public/MobiCoreDriverApi.h, State the devices with their
--   sessions, buffers and memory and what the kernel keeps for them, Wire the checking and sending
--   macros, Opening, Closing, Bulk, Waiting and Memory the calls (mc_open_device is mcOpenDevice, and
--   so on), Calls all of them in any order. Proofs: Invariant and Runs over Counts, Pointers,
--   Distinct, Covered, Checks and Covers; Drained and Link over Places; Ends, Openings, Mapping,
--   Unmapping; Messages, and Link, where the daemon's driver reads what the library writes.
-- - Daemon.RegistryClient: mobicore/daemon/Registry/Registry.cpp, which asks the daemon for the
--   operations of its registry. Proofs: Serving, Reading.
--
-- Bounds and fuel. C++ int counters of the activities are integers or natural numbers without a
-- bound, those of the queues are taken modulo 2 ^ 32. A loop that the source does not bound by a
-- counter takes fuel and answers `none` where it runs out. The waits of the flash activity get
-- their fuel from their own timeouts (fuel_for), cleanSessionBuffers one more than it has buffers;
-- lockAutofocus and the loop of handleIrq get it from the caller. In Close and in
-- Driver.Dispatch, `none` is undefined behaviour of the C++ program. Bytes are numbers; those of a
-- file's name are below 256 by hypothesis where it matters.
--
-- Parameters. The kernel module, the secure world and the interrupt thread answer through `World`:
-- addresses, locks, waits, the response and the notifications of one command. The outcome of each
-- read from a socket, what uninitialised memory holds, the registration of memory in the kernel and
-- the peer's credentials come with `Env`; what the file system permits and keeps is part of `Disk`.
-- The client library's `Env` has what its sockets and its kernel module answer during one call, what
-- it is answered being the daemon's answer in Link; what the stack or the heap holds is given, too.
-- The floating-point arithmetic of the crop rectangles (`Floats`) and the macro ALIGN of a header
-- outside the repository are parameters, with what rounding and alignment guarantee as hypotheses;
-- so are `atoi`, the texts of a size and of a range and the comparison of ratios in Camera.Sizes and
-- Camera.Fps. Pointers to sessions and connections are numbers.
--
-- Not modelled: logging, the creation of threads, sockets, ioctl and mmap; initialisation of the MCI
-- and the crash dump (TrustZoneDevice.cpp); the other activities and the rest of the camera HAL
-- (ExynosCameraHWImpl.cpp, ExynosCamera.cpp), which drive V4L2 devices; select and accept of the
-- servers, and the dispatch of netlink messages; mcRegistryReadData of the daemon's registry; the
-- locks of the client library, and its GlobalPlatform interface (GP/tee_client_api.cpp), whose types
-- and constants are headers outside the repository; the graphics, display, JPEG, key and
-- provisioning libraries.
pub mod Common
pub mod Camera
pub mod Daemon
