-- ===== src/Daemon/Client/Opening.antt =====
-- `mcOpenDevice`, `mcOpenSession` and `mcOpenTrustlet` of
-- mobicore/daemon/ClientLib/ClientLib.cpp.
use android_hardware_samsung.Common.{
  ℕ, Bool, ◌%◌, ◌/◌, ◌^◌, Option, some, none, List, [], ◌∷◌, ◌++◌, ◌&&◌, length, ltb, leb, ◌==◌,
  if◌then◌else◌,
}
use android_hardware_samsung.Daemon.Session.{Wsm}
use android_hardware_samsung.Daemon.Driver.Wire.{get_word}
use android_hardware_samsung.Daemon.Client.Codes.{
  drv_ok, err_device_already_open, err_daemon_unreachable, err_null_pointer, err_daemon_version,
  open_error,
}
use android_hardware_samsung.Daemon.Client.State.{
  BulkBufferDescriptor, Session, Device, Client, Env, Reply, failed, resolve_device, at_device,
  add_device, delete_device,
}
use android_hardware_samsung.Daemon.Client.Wire.{
  words, SessionHandle, not_null, address, check_device, send, recv,
}

-- `getDaemonVersion`; MC_DRV_CMD_GET_VERSION is 10.
abbrev pub get_daemon_version : Env → ℕ → Client → (ℕ → Client → Reply) → Reply
get_daemon_version env conn c k = send env 0 conn (words (10 ∷ [])) c (λ t. recv env 0 4 t (λ code.
    if get_word 0 code == 0
    then recv env 1 4 t (λ version. k (get_word 0 version) t)
    else failed (get_word 0 code) t))

-- `checkVersionOkDAEMON`: major number 0, minor number 2 or more.
abbrev pub check_version : ℕ → Bool
check_version v = (v / 2 ^ 16 == 0) && leb 2 (v % 2 ^ 16)

abbrev pub new_device : ℕ → ℕ → Device
new_device id conn = record { device_id = id; connection = conn; sessions = []; wsms = [] }

-- `Device::open` makes a `bool` of the kernel's code. When it fails, the device takes the
-- connection along.
abbrev pub open_file : Env → ℕ → Client → Reply
open_file env id c =
    if env.open_kernel == 0
    then record {
      code = drv_ok;
      out = [];
      client = add_device (new_device id env.new_connection) c;
    }
    else record {
      code = 1;
      out = [];
      client = delete_device env (new_device id env.new_connection) c;
    }

abbrev pub drop_new : Env → Reply → Reply
drop_new env r = record r {
  client = record (r.client) { deleted = env.new_connection ∷ r.client.deleted };
}

-- The exchanges with the daemon; MC_DRV_CMD_OPEN_DEVICE is 2.
unfoldable pub request_device : Env → ℕ → Client → Reply
request_device env id c = get_daemon_version env env.new_connection c (λ version t.
    if check_version version
    then send env 1 env.new_connection (words (2 ∷ id ∷ [])) t
        (λ u. recv env 2 4 u (λ code. failed (get_word 0 code) u))
    else failed err_daemon_version t)

abbrev pub finish_device : Env → ℕ → Reply → Reply
finish_device env id r = if r.code == 0 then open_file env id r.client else drop_new env r

abbrev pub open_unless : Env → ℕ → Option Device → Client → Reply
open_unless env id (some d) c = failed err_device_already_open c
open_unless env id none c =
    if env.connect_ok
    then finish_device env id (request_device env id c)
    else drop_new env (failed err_daemon_unreachable c)

unfoldable pub mc_open_device : Env → ℕ → Client → Reply
mc_open_device env id c = open_unless env id (resolve_device id c.devices) c

-- `Device::findContiguousWsm`
abbrev pub find_wsm : ℕ → List Wsm → Option Wsm
find_wsm a [] = none
find_wsm a (w ∷ ws) = if w.virt_addr == a then some w else find_wsm a ws

-- `Device::mapBulkBuf`
abbrev pub map_bulk_buf : Env → ℕ → ℕ → Client → (BulkBufferDescriptor → Client → Reply) → Reply
map_bulk_buf env buf len c k =
    let (code, handle, phys) = env.register_wsm buf len in
    if code == 0
    then k
        (record {
          virt_addr = buf;
          s_virtual_addr = 0;
          len = len;
          handle = handle;
          phys_addr = phys;
        })
        (record c { registered = handle ∷ c.registered })
    else failed err_null_pointer c

abbrev pub max_tci_len : ℕ
max_tci_len = 16 ^ 5

-- The TCI is contiguous memory of the device, or it is registered: what goes on has the handle, and
-- the descriptor of a buffer that is registered. WSM_NOT_FOUND and TCI_GREATER_THAN_WSM are the
-- number of NULL_POINTER.
abbrev pub use_tci :
    Env → Option Wsm → ℕ → ℕ → Client → (ℕ → Option BulkBufferDescriptor → Client → Reply) → Reply
use_tci env none tci len c k = map_bulk_buf env tci len c (λ b t. k b.handle (some b) t)
use_tci env (some w) tci len c k =
    if ltb w.len len then failed err_null_pointer c else k w.handle none c

abbrev pub locate_tci :
    Env → Device → ℕ → ℕ → Client → (ℕ → Option BulkBufferDescriptor → Client → Reply) → Reply
locate_tci env d tci len c k = use_tci env (find_wsm tci d.wsms) tci len c k

abbrev pub buffer_list : Option BulkBufferDescriptor → List BulkBufferDescriptor
buffer_list none = []
buffer_list (some b) = b ∷ []

-- `createNewSession`, and `addBulkBuf` of the TCI.
abbrev pub new_session : Env → ℕ → Option BulkBufferDescriptor → Session
new_session env id bulk = record {
  session_id = id;
  buffers = buffer_list bulk;
  last_err = 0;
  connection = env.new_connection;
}

abbrev pub create_session : Env → SessionHandle → ℕ → Option BulkBufferDescriptor → Client → Client
create_session env s id bulk c = record c {
  devices =
      at_device s.device_id
        (λ (d : Device). record d { sessions = d.sessions ++ new_session env id bulk ∷ [] })
        c.devices;
}

-- The second channel is set up, or deleted. The session ID is the caller's already.
abbrev pub finish_channel : Env → SessionHandle → ℕ → Option BulkBufferDescriptor → Reply → Reply
finish_channel env s id bulk r =
    if r.code == 0
    then record { code = drv_ok; out = id ∷ []; client = create_session env s id bulk r.client }
    else record (drop_new env r) { out = id ∷ [] }

-- MC_DRV_CMD_NQ_CONNECT is 4; `n` is the number of the write. The payload is sessionId,
-- deviceSessionId, sessionMagic.
abbrev pub nq_connect : Env → ℕ → SessionHandle → List ℕ → Client → Reply
nq_connect env n s payload c =
    if env.connect_ok
    then send env n env.new_connection
        (words
          (4 ∷ s.device_id ∷ get_word 0 payload ∷ get_word 1 payload ∷ get_word 2 payload ∷ []))
        c (λ t. recv env 2 4 t (λ code. failed (get_word 0 code) t))
    else failed err_daemon_unreachable c

-- From the response to an opening on; `n` is the number of the next write.
unfoldable pub await_session :
    Env → ℕ → SessionHandle → Option BulkBufferDescriptor → Client → Reply
await_session env n s bulk c = recv env 0 4 c (λ code.
    if get_word 0 code == 0
    then recv env 1 12 c
        (λ payload. finish_channel env s (get_word 0 payload) bulk (nq_connect env n s payload c))
    else failed (open_error (get_word 0 code)) c)

-- MC_DRV_CMD_OPEN_SESSION is 5.
unfoldable pub mc_open_session :
    Env → Option SessionHandle → Option (List ℕ) → ℕ → ℕ → Client → Reply
mc_open_session env session uuid tci len c = not_null session c (λ s. not_null uuid c (λ u.
    not_null (address tci) c (λ a.
      if ltb max_tci_len len
      then failed err_null_pointer c
      else check_device s.device_id c (λ d. locate_tci env d a len c (λ handle bulk t.
        send env 0 d.connection
          (words (5 ∷ s.device_id ∷ []) ++ u ++ words (a % 4096 ∷ handle ∷ len ∷ [])) t
          (λ v. await_session env 1 s bulk v))))))

-- MC_DRV_CMD_OPEN_TRUSTLET is 12. The trustlet is `tlen` bytes.
unfoldable pub mc_open_trustlet :
    Env → Option SessionHandle → ℕ → Option (List ℕ) → ℕ → ℕ → Client → Reply
mc_open_trustlet env session spid trustlet tci len c = not_null session c (λ s.
    not_null trustlet c (λ tl. not_null (address tci) c (λ a.
      if ltb max_tci_len len
      then failed err_null_pointer c
      else check_device s.device_id c (λ d. locate_tci env d a len c (λ handle bulk t.
        send env 0 d.connection
          (words (12 ∷ s.device_id ∷ spid ∷ length tl ∷ a % 4096 ∷ handle ∷ len ∷ [])) t
          (λ v. send env 1 d.connection tl v (λ w. await_session env 2 s bulk w)))))))
