-- ===== src/Daemon/Driver/State.antt =====
-- The members of `MobiCoreDriverDaemon` (mobicore/daemon/Daemon/MobiCoreDriverDaemon.h), what a
-- client is answered, and what surrounds a command: the sockets and the kernel.
use android_hardware_samsung.Common.{
  ℕ, Bool, true, false, ◌||◌, Option, some, none, List, [], ◌∷◌, ◌==◌, if◌then◌else◌,
}
use android_hardware_samsung.Daemon.NotificationQueue.{Notification}
use android_hardware_samsung.Daemon.Session.{Wsm}
use android_hardware_samsung.Daemon.Device.State.{DrvResult, Device, World}
use android_hardware_samsung.Daemon.Registry.Disk.{Disk}
use android_hardware_samsung.Daemon.Registry.Containers.{RegResult}
use android_hardware_samsung.Daemon.Driver.Wire.{Read, read_length, overlay}

-- The codes that the daemon itself answers; `drv` holds one of the device.
pub data Code : Type 0 where
  drv : DrvResult → Code
  daemon_socket device_not_open device_already_open unknown_device trustlet_not_found : Code
  kmod_error wsm_handle_not_found nq_failed unknown_error : Code

-- What is written to a connection.
pub data Answer : Type 0 where
  -- `writeResult`
  result : Code → Answer
  -- `mcDrvRspOpenSession_t`: sessionId, deviceSessionId, sessionMagic
  session : ℕ → ℕ → ℕ → Answer
  -- `mcDrvRspMapBulkMem_t`: sessionId, secureVirtualAdr
  mapped : ℕ → ℕ → Answer
  version mobicore_version : ℕ → Answer
  -- `mcDrvResponseHeader_t` of a registry command, and the data behind it
  registry : RegResult → Answer
  registry_data : List ℕ → Answer
  notification : Notification → Answer

-- What answers the daemon during one command. A read is numbered from the header on.
pub record Env : Type 0 where
  pub reads : ℕ → Read
  -- What a buffer on the stack or the heap holds before it is read into.
  pub stale : ℕ → List ℕ
  -- The secure world during the command, and during the rounds of `close`.
  pub world : World
  pub worlds : ℕ → World
  -- The address of `value` of a blob on the heap, and the memory behind a buffer.
  pub blob_address : ℕ
  pub beyond : List ℕ
  -- `registerWsmL2` and `unregisterWsmL2`
  pub register_wsm : ℕ → ℕ → Option Wsm
  pub unregister_ok : ℕ → Bool
  -- Whether the daemon is built with REGISTRY_CHECK_PERMISSIONS, the user and group of the peer, if
  -- they can be had, and the daemon's own.
  pub checks_permissions : Bool
  pub peer : Option (ℕ × ℕ)
  pub user : ℕ
  pub group : ℕ

pub record Driver : Type 0 where
  pub device : Device
  -- `peerConnections` of the socket server, and the connections that are `detached`.
  pub peers : List ℕ
  pub detached : List ℕ
  -- The shared memory of load data that is registered in the kernel.
  pub shared : List ℕ
  -- The files of the registry.
  pub disk : Disk
  -- What has been written, to which connection, the last first.
  pub sent : List (ℕ × Answer)

abbrev pub write : ℕ → Answer → Driver → Driver
write c a d = record d { sent = (c, a) ∷ d.sent }

abbrev pub write_result : ℕ → Code → Driver → Driver
write_result c code d = write c (result code) d

-- `connectionData` is the device
abbrev pub has_device : ℕ → List ℕ → Bool
has_device c [] = false
has_device c (x ∷ xs) = if x == c then true else has_device c xs

-- MC_DEVICE_ID_DEFAULT
unfoldable pub get_device : ℕ → Bool
get_device id = id == 0

-- `checkPermission`; the connection is not NULL.
unfoldable pub check_permission : Env → Bool
check_permission env =
    if env.checks_permissions
    then elim env.peer [ none ↦ false | some (uid, gid) ↦ env.group == gid || env.user == uid ]
    else true

-- RECV_PAYLOAD_FROM_CLIENT: a read of any other length ends the command.
abbrev pub with_payload : ℕ → ℕ → Read → Driver → (List ℕ → Driver) → Driver
with_payload c n r d k =
    if read_length r == n then k (overlay r []) else write_result c daemon_socket d

-- CHECK_DEVICE
abbrev pub with_device : ℕ → Driver → Driver → Driver
with_device c d k = if has_device c d.device.linked then k else write_result c device_not_open d
