-- ===== src/Daemon/Device/State.antt =====
-- The members of `MobiCoreDevice` (mobicore/daemon/Daemon/Device/public/MobiCoreDevice.h) and what
-- surrounds it: the kernel module, the secure world and the other threads are not code of the
-- repository's daemon, so what they answer during one call is a `World`, an argument of the call.
use android_hardware_samsung.Common.{ℕ, ◌+◌, ◌%◌, ◌^◌, Bool, Option, List, ◌∷◌, ◌==◌, if◌then◌else◌}
use android_hardware_samsung.Daemon.NotificationQueue.{Notification, Queues}
use android_hardware_samsung.Daemon.Session.{Session}

-- `mcResult_t`, as far as the device makes it. `mcp_error` holds the 20 bits of the code that
-- MAKE_MC_DRV_MCP_ERROR keeps; the other constructors have a code each (some share it).
pub data DrvResult : Type 0 where
  ok unknown_session wsm_not_found tci_greater_than_wsm mci_error : DrvResult
  mcp_error : ℕ → DrvResult

-- `mcpCommand_t`: the message in the buffer shared with the secure world.
pub data Command : Type 0 where
  -- wsmTypeTci (true: contiguous), adrTciBuffer, ofsTciBuffer, lenTciBuffer, uuid, and the load
  -- data: adrLoadData, ofsLoadData, lenLoadData and the header
  open_session : Bool → ℕ → ℕ → ℕ → ℕ → ℕ → ℕ → ℕ → ℕ → Command
  close_session : ℕ → Command
  -- sessionId, adrBuffer, ofsBuffer, lenBuffer
  map_wsm : ℕ → ℕ → ℕ → ℕ → Command
  -- sessionId, secureVirtualAdr, lenVirtualBuffer
  unmap_wsm : ℕ → ℕ → ℕ → Command
  -- adrBuffer, numPages
  donate_ram : ℕ → ℕ → Command
  get_version : Command

-- `MC_MCP_CMD_… | FLAG_RESPONSE`
abbrev pub response_id : Command → ℕ
response_id (open_session c a o l u la lo ll h) = 2 ^ 31 + 1
response_id (close_session id) = 2 ^ 31 + 3
response_id (map_wsm id a o l) = 2 ^ 31 + 4
response_id (unmap_wsm id a l) = 2 ^ 31 + 5
response_id (donate_ram a n) = 2 ^ 31 + 8
response_id get_version = 2 ^ 31 + 9

-- What the device does to what surrounds it, the last first.
pub data Call : Type 0 where
  lock_wsm unlock_wsm : ℕ → Call
  cleanup_wsm nsiq : Call
  -- `writeData` of a notification to a connection
  write_notification : ℕ → Notification → Call
  -- `delete` of a connection
  delete_connection : ℕ → Call
  -- `signalMcpNotification` and `schedSync.signal`
  signal_mcp wake_scheduler : Call

pub record Device : Type 0 where
  pub sessions : List Session
  pub notifications : List Notification
  pub mc_fault : Bool
  pub version_info : Option ℕ
  pub message : Option Command
  pub queues : Queues
  -- The connections whose `connectionData` is this device.
  pub linked : List ℕ
  pub calls : List Call

-- `mcpMessage` as the secure world leaves it.
pub record Response : Type 0 where
  pub rsp_id : ℕ
  pub result : ℕ
  pub session_id : ℕ
  pub secure_virtual_adr : ℕ
  pub version_info : ℕ

-- One wait of ten seconds: answered, or not, with the status that MobiCore then has.
pub data Wait : Type 0 where
  answered : Wait
  timed_out : ℕ → Wait

pub record World : Type 0 where
  -- `findContiguousWsm` and `findWsmL2` by handle and file descriptor; a null address is 0.
  pub contiguous : ℕ → ℕ → Option (ℕ × ℕ)
  pub l2 : ℕ → ℕ → ℕ
  pub lock_ok : ℕ → Bool
  -- The physical address that `allocateContiguousPersistentWsm` yields.
  pub allocated : ℕ → Option ℕ
  pub waits : ℕ → Wait
  pub irq_exiting : Bool
  pub scheduler_exiting : Bool
  pub response : Response
  -- Notifications that the interrupt thread queues between a command and its answer.
  pub early : List Notification
  -- The address and the magic number of a new session.
  pub address : ℕ
  pub magic : ℕ

abbrev pub status_halt : ℕ
status_halt = 3

abbrev pub call : Call → Device → Device
call c d = record d { calls = c ∷ d.calls }

abbrev pub mcp_result : ℕ → DrvResult
mcp_result code = if code == 0 then ok else mcp_error (code % 2 ^ 20)
