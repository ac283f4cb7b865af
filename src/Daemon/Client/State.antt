-- ===== src/Daemon/Client/State.antt =====
-- The state of the client library: Device.h and Session.h of mobicore/daemon/ClientLib, and
-- what the kernel and the sockets keep for it. A connection is a number; an address is one, and
-- 0 is NULL.
use android_hardware_samsung.Common.{
  ℕ, Bool, Option, some, none, List, [], ◌∷◌, ◌++◌, ◌==◌, if◌then◌else◌,
}
use android_hardware_samsung.Daemon.Session.{Wsm}
use android_hardware_samsung.Daemon.Driver.Wire.{Read}

pub record BulkBufferDescriptor : Type 0 where
  pub virt_addr : ℕ
  pub s_virtual_addr : ℕ
  pub len : ℕ
  pub handle : ℕ
  pub phys_addr : ℕ

pub record Session : Type 0 where
  pub session_id : ℕ
  pub buffers : List BulkBufferDescriptor
  pub last_err : ℕ
  pub connection : ℕ

pub record Device : Type 0 where
  pub device_id : ℕ
  pub connection : ℕ
  pub sessions : List Session
  pub wsms : List Wsm

pub record Client : Type 0 where
  pub devices : List Device
  -- The handles of the kernel's L2 tables and of its contiguous memory that are in use.
  pub registered : List ℕ
  pub allocated : List ℕ
  -- The connections that have been deleted, and what has been written to which, the last first.
  pub deleted : List ℕ
  pub sent : List (ℕ × List ℕ)

-- What answers the library during one call.
pub record Env : Type 0 where
  -- The connection that `new` makes, and whether it can be connected.
  pub new_connection : ℕ
  pub connect_ok : Bool
  -- The writes and the reads of the call, numbered from 0.
  pub write_ok : ℕ → Bool
  pub reads : ℕ → Read
  -- What the stack holds where a read comes short.
  pub stale : List ℕ
  pub is_alive : Bool
  -- The kernel module: a code, 0 for success, and what it fills in.
  pub open_kernel : ℕ
  -- handle, physical address
  pub register_wsm : ℕ → ℕ → ℕ × ℕ × ℕ
  pub unregister_wsm : ℕ → ℕ
  -- handle, address, physical address
  pub map_wsm : ℕ → ℕ × ℕ × ℕ × ℕ
  pub free_wsm : ℕ → ℕ

-- The code of a call, what it writes for its caller, and what it leaves.
pub record Reply : Type 0 where
  pub code : ℕ
  pub out : List ℕ
  pub client : Client

abbrev pub failed : ℕ → Client → Reply
failed e c = record { code = e; out = []; client = c }

abbrev pub take_out : ℕ → List ℕ → List ℕ
take_out h [] = []
take_out h (k ∷ ks) = if k == h then ks else k ∷ take_out h ks

-- `resolveDeviceId`
unfoldable pub resolve_device : ℕ → List Device → Option Device
resolve_device id [] = none
resolve_device id (d ∷ ds) = if d.device_id == id then some d else resolve_device id ds

-- `Device::resolveSessionId`
unfoldable pub resolve_session : ℕ → List Session → Option Session
resolve_session id [] = none
resolve_session id (s ∷ ss) = if s.session_id == id then some s else resolve_session id ss

-- What is done through the pointers that the two return.
abbrev pub at_device : ℕ → (Device → Device) → List Device → List Device
at_device id f [] = []
at_device id f (d ∷ ds) = if d.device_id == id then f d ∷ ds else d ∷ at_device id f ds

abbrev pub at_session : ℕ → (Session → Session) → List Session → List Session
at_session id f [] = []
at_session id f (s ∷ ss) = if s.session_id == id then f s ∷ ss else s ∷ at_session id f ss

-- `addDevice`
abbrev pub add_device : Device → Client → Client
add_device d c = record c { devices = c.devices ++ d ∷ [] }

-- `unregisterWsmL2`; the kernel keeps a handle that it fails on.
abbrev pub unregister : Env → ℕ → List ℕ → List ℕ
unregister env h hs = if env.unregister_wsm h == 0 then take_out h hs else hs

abbrev pub unregister_all : Env → List BulkBufferDescriptor → List ℕ → List ℕ
unregister_all env [] hs = hs
unregister_all env (b ∷ bs) hs = unregister_all env bs (unregister env b.handle hs)

-- `Session::~Session`
unfoldable pub delete_session : Env → Session → Client → Client
delete_session env s c = record c {
  registered = unregister_all env s.buffers c.registered;
  deleted = s.connection ∷ c.deleted;
}

abbrev pub delete_sessions : Env → List Session → Client → Client
delete_sessions env [] c = c
delete_sessions env (s ∷ ss) c = delete_sessions env ss (delete_session env s c)

abbrev pub free : Env → ℕ → List ℕ → List ℕ
free env h hs = if env.free_wsm h == 0 then take_out h hs else hs

abbrev pub free_all : Env → List Wsm → List ℕ → List ℕ
free_all env [] hs = hs
free_all env (w ∷ ws) hs = free_all env ws (free env w.handle hs)

-- `Device::~Device`
unfoldable pub delete_device : Env → Device → Client → Client
delete_device env d c =
    let t = delete_sessions env d.sessions c in
    record t { allocated = free_all env d.wsms t.allocated; deleted = d.connection ∷ t.deleted }

abbrev pub without_device : ℕ → List Device → List Device
without_device id [] = []
without_device id (d ∷ ds) = if d.device_id == id then ds else d ∷ without_device id ds

abbrev pub erase_device : Env → ℕ → Option Device → Client → Client
erase_device env id none c = c
erase_device env id (some d) c =
    delete_device env d (record c { devices = without_device id c.devices })

-- `removeDevice`
unfoldable pub remove_device : Env → ℕ → Client → Client
remove_device env id c = erase_device env id (resolve_device id c.devices) c

-- The end of the calls that take a dead connection for a dead device. SOCKET_WRITE and SOCKET_READ
-- are one number.
abbrev pub remove_dead : Env → ℕ → Reply → Reply
remove_dead env id r =
    if r.code == 15 then record r { client = remove_device env id r.client } else r
