-- ===== src/Daemon/Driver/Bulk.antt =====
-- The commands that map a client's memory into a session, and unmap it.
use android_hardware_samsung.Common.{ℕ, Option, some, none, ◌==◌, if◌then◌else◌}
use android_hardware_samsung.Daemon.Device.State.{DrvResult, Device, call, lock_wsm, unlock_wsm}
use android_hardware_samsung.Daemon.Device.Commands.{map_bulk, unmap_bulk}
use android_hardware_samsung.Daemon.Driver.Wire.{get_word}
use android_hardware_samsung.Daemon.Driver.State.{
  drv, wsm_handle_not_found, mapped, Env, Driver, write, write_result, with_payload, with_device,
}

abbrev pub answer_map : ℕ → ℕ → DrvResult × Option ℕ × Device → Driver → Driver
answer_map c id (DrvResult.ok, some adr, t) d = write c (mapped id adr) (record d { device = t })
answer_map c id (DrvResult.ok, none, t) d = write c (mapped id 0) (record d { device = t })
answer_map c id (e, adr, t) d = write_result c (drv e) (record d { device = t })

-- From the lock of the buffer on.
abbrev pub map_locked : Env → ℕ → ℕ → ℕ → ℕ → ℕ → Driver → Driver
map_locked env c id handle offset len d =
    let adr = env.world.l2 handle c in
    if adr == 0
    then write_result c wsm_handle_not_found d
    else answer_map c id (map_bulk c id handle adr offset len env.world d.device) d

unfoldable pub map_buffer : Env → ℕ → ℕ → ℕ → ℕ → ℕ → Driver → Driver
map_buffer env c id handle offset len d =
    if env.world.lock_ok handle
    then map_locked env c id handle offset len
        (record d { device = call (lock_wsm handle) d.device })
    else write_result c wsm_handle_not_found d

-- sessionId, handle, pAddrL2 (unused), offsetPayload, lenBulkMem
unfoldable pub process_map_bulk_buf : Env → ℕ → Driver → Driver
process_map_bulk_buf env c d = with_payload c 20 (env.reads 1) d (λ bytes. with_device c d (
    map_buffer env c (get_word 0 bytes) (get_word 1 bytes) (get_word 3 bytes) (get_word 4 bytes) d))

abbrev pub answer_unmap : ℕ → ℕ → DrvResult × Device → Driver → Driver
answer_unmap c handle (DrvResult.ok, t) d =
    write_result c (drv DrvResult.ok) (record d { device = call (unlock_wsm handle) t })
answer_unmap c handle (e, t) d = write_result c (drv e) (record d { device = t })

unfoldable pub unmap_buffer : Env → ℕ → ℕ → ℕ → ℕ → ℕ → Driver → Driver
unmap_buffer env c id handle adr len d =
    answer_unmap c handle (unmap_bulk c id handle adr len env.world d.device) d

-- sessionId, handle, secureVirtualAdr, lenBulkMem
unfoldable pub process_unmap_bulk_buf : Env → ℕ → Driver → Driver
process_unmap_bulk_buf env c d = with_payload c 16 (env.reads 1) d (λ bytes. with_device c d (
    unmap_buffer env c (get_word 0 bytes) (get_word 1 bytes) (get_word 2 bytes) (get_word 3 bytes)
      d))
