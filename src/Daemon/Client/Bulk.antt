-- ===== src/Daemon/Client/Bulk.antt =====
-- `mcMap` and `mcUnmap` of mobicore/daemon/ClientLib/ClientLib.cpp, and the buffers of a session,
-- Session.cpp.
use android_hardware_samsung.Common.{
  ℕ, ◌%◌, Bool, true, false, Option, some, none, List, [], ◌∷◌, ◌++◌, ◌==◌, if◌then◌else◌,
}
use android_hardware_samsung.Daemon.Driver.Wire.{get_word}
use android_hardware_samsung.Daemon.Client.Codes.{
  drv_ok, err_buffer_already_mapped, err_blk_buff_not_found, err_daemon_unreachable,
  err_null_pointer,
}
use android_hardware_samsung.Daemon.Client.State.{
  BulkBufferDescriptor, Session, Device, Client, Env, Reply, failed, at_device, at_session,
  unregister, remove_dead,
}
use android_hardware_samsung.Daemon.Client.Wire.{
  words, SessionHandle, not_null, address, check_device, check_session, send, recv,
}

abbrev pub is_mapped : ℕ → List BulkBufferDescriptor → Bool
is_mapped a [] = false
is_mapped a (b ∷ bs) = if b.virt_addr == a then true else is_mapped a bs

-- What is done to the buffers of the session of a handle.
abbrev pub at_buffers :
    SessionHandle
    → (List BulkBufferDescriptor → List BulkBufferDescriptor)
    → List Device
    → List Device
at_buffers h f ds =
    at_device h.device_id
      (λ (d : Device). record d {
        sessions =
            at_session h.session_id (λ (s : Session). record s { buffers = f s.buffers })
              d.sessions;
      })
      ds

-- `Session::addBulkBuf`
abbrev pub add_bulk_buf :
    Env → SessionHandle → Session → ℕ → ℕ → Client → (BulkBufferDescriptor → Client → Reply) → Reply
add_bulk_buf env h s buf len c k =
    if is_mapped buf s.buffers
    then failed err_buffer_already_mapped c
    else (let (code, handle, phys) = env.register_wsm buf len in
        let b : BulkBufferDescriptor = record {
          virt_addr = buf;
          s_virtual_addr = 0;
          len = len;
          handle = handle;
          phys_addr = phys;
        } in
        if code == 0
        then k b (record c {
          devices = at_buffers h (λ bs. bs ++ b ∷ []) c.devices;
          registered = handle ∷ c.registered;
        })
        else failed code c)

-- `Session::getBufHandle`
unfoldable pub get_buf_handle : ℕ → List BulkBufferDescriptor → ℕ
get_buf_handle a [] = 0
get_buf_handle a (b ∷ bs) = if b.s_virtual_addr == a then b.handle else get_buf_handle a bs

abbrev pub find_buffer : ℕ → List BulkBufferDescriptor → Option BulkBufferDescriptor
find_buffer a [] = none
find_buffer a (b ∷ bs) = if b.virt_addr == a then some b else find_buffer a bs

abbrev pub without_buffer : ℕ → List BulkBufferDescriptor → List BulkBufferDescriptor
without_buffer a [] = []
without_buffer a (b ∷ bs) = if b.virt_addr == a then bs else b ∷ without_buffer a bs

-- The descriptor is gone before the kernel is asked.
abbrev pub drop_buffer : Env → SessionHandle → ℕ → Option BulkBufferDescriptor → Client → Reply
drop_buffer env h buf none c = failed err_blk_buff_not_found c
drop_buffer env h buf (some b) c = failed (env.unregister_wsm b.handle) (record c {
  devices = at_buffers h (without_buffer buf) c.devices;
  registered = unregister env b.handle c.registered;
})

-- `Session::removeBulkBuf`; `bs` is what the session has.
unfoldable pub remove_bulk_buf :
    Env → SessionHandle → List BulkBufferDescriptor → ℕ → Client → Reply
remove_bulk_buf env h bs buf c = drop_buffer env h buf (find_buffer buf bs) c

-- `bulkBuf->sVirtualAddr = …`: no descriptor of the session before it has the address.
abbrev pub set_secure : ℕ → ℕ → List BulkBufferDescriptor → List BulkBufferDescriptor
set_secure a v [] = []
set_secure a v (b ∷ bs) =
    if b.virt_addr == a then record b { s_virtual_addr = v } ∷ bs else b ∷ set_secure a v bs

-- MC_DRV_CMD_MAP_BULK_BUF is 8. `c` is what it was before the buffer was added, `t` what it is then.
unfoldable pub request_map :
    Env → SessionHandle → Device → Session → BulkBufferDescriptor → ℕ → Client → Reply
request_map env h d s b len t =
    send env 0 d.connection
      (words (8 ∷ s.session_id ∷ b.handle ∷ 0 ∷ b.virt_addr % 4096 ∷ b.len ∷ [])) t
      (λ u. recv env 0 4 u (λ code.
        if get_word 0 code == 0
        then recv env 1 8 u (λ payload. record {
          code = drv_ok;
          out = get_word 1 payload ∷ len ∷ [];
          client = record u {
            devices = at_buffers h (set_secure b.virt_addr (get_word 1 payload)) u.devices;
          };
        })
        else failed err_daemon_unreachable
            (remove_bulk_buf env h (s.buffers ++ b ∷ []) b.virt_addr u).client))

-- `map_info` is whether it is given.
unfoldable pub mc_map : Env → Option SessionHandle → ℕ → ℕ → Bool → Client → Reply
mc_map env session buf len map_info c = not_null session c (λ h.
    if map_info
    then not_null (address buf) c (λ a. check_device h.device_id c (λ d.
      check_session h.session_id d c
        (λ s. add_bulk_buf env h s a len c (λ b t. request_map env h d s b len t))))
    else failed err_null_pointer c)

-- `mcBulkMap_t`
pub record BulkMap : Type 0 where
  pub s_virtual_addr : ℕ
  pub s_virtual_len : ℕ

-- MC_DRV_CMD_UNMAP_BULK_BUF is 9.
unfoldable pub request_unmap : Env → SessionHandle → Device → Session → ℕ → BulkMap → Client → Reply
request_unmap env h d s buf m c =
    let handle = get_buf_handle m.s_virtual_addr s.buffers in
    if handle == 0
    then failed err_blk_buff_not_found c
    else send env 0 d.connection
        (words (9 ∷ s.session_id ∷ handle ∷ m.s_virtual_addr ∷ m.s_virtual_len ∷ [])) c
        (λ t. recv env 0 4 t (λ code.
          if get_word 0 code == 0
          then remove_bulk_buf env h s.buffers buf t
          else failed err_daemon_unreachable t))

unfoldable pub mc_unmap : Env → Option SessionHandle → ℕ → Option BulkMap → Client → Reply
mc_unmap env session buf map_info c = not_null session c (λ h. remove_dead env h.device_id (
    not_null map_info c (λ m. not_null (address buf) c (λ a.
      check_device h.device_id c
        (λ d. check_session h.session_id d c (λ s. request_unmap env h d s a m c))))))
