-- ===== src/Daemon/Driver/Dispatch.antt =====
-- `handleConnection` and `dropConnection`, and the round that `Server::run`
-- (mobicore/daemon/Daemon/Server/Server.cpp) makes over one of its connections. `none` is
-- undefined behaviour.
use android_hardware_samsung.Common.{
  ℕ, Bool, true, false, Option, some, none, List, [], ◌∷◌, ◌==◌, if◌then◌else◌,
}
use android_hardware_samsung.Daemon.Device.State.{Device}
use android_hardware_samsung.Daemon.Device.Close.{close}
use android_hardware_samsung.Daemon.Driver.Wire.{
  Read, received, socket_error, overlay, get_word, Command, command_of,
}
use android_hardware_samsung.Daemon.Driver.State.{Env, Driver, has_device}
use android_hardware_samsung.Daemon.Driver.Sessions.{
  process_open_device, process_close_device, process_open_session, process_open_trustlet,
  process_close_session, process_nq_connect, process_notify, process_get_version,
  process_get_mobicore_version, remove_peer,
}
use android_hardware_samsung.Daemon.Driver.Bulk.{process_map_bulk_buf, process_unmap_bulk_buf}
use android_hardware_samsung.Daemon.Driver.Registry.{
  process_registry_read_data, process_registry_write_data, process_registry_delete_data,
}

-- The header has been read: -1 and 0 end the connection.
abbrev pub has_header : Read → Bool
has_header socket_error = false
has_header (received []) = false
has_header (received (b ∷ bs)) = true

-- The `switch` of `handleConnection`.
unfoldable pub process : Command → Env → ℕ → Driver → Option Driver
process Command.open_device env c d = some (process_open_device env c d)
process Command.close_device env c d = process_close_device env c d
process Command.open_session env c d = some (process_open_session env c d)
process Command.open_trustlet env c d = some (process_open_trustlet env c d)
process Command.close_session env c d = some (process_close_session env c d)
process Command.nq_connect env c d = some (process_nq_connect env c d)
process Command.notify env c d = some (process_notify env c d)
process Command.map_bulk_buf env c d = some (process_map_bulk_buf env c d)
process Command.unmap_bulk_buf env c d = some (process_unmap_bulk_buf env c d)
process Command.get_version env c d = some (process_get_version c d)
process Command.get_mobicore_version env c d = some (process_get_mobicore_version env c d)
process Command.store_auth_token env c d =
    some (process_registry_write_data env Command.store_auth_token c d)
process Command.write_root_cont env c d =
    some (process_registry_write_data env Command.write_root_cont c d)
process Command.write_sp_cont env c d =
    some (process_registry_write_data env Command.write_sp_cont c d)
process Command.write_tl_cont env c d =
    some (process_registry_write_data env Command.write_tl_cont c d)
process Command.write_so_data env c d =
    some (process_registry_write_data env Command.write_so_data c d)
process Command.read_auth_token env c d =
    some (process_registry_read_data env Command.read_auth_token c d)
process Command.read_root_cont env c d =
    some (process_registry_read_data env Command.read_root_cont c d)
process Command.read_sp_cont env c d =
    some (process_registry_read_data env Command.read_sp_cont c d)
process Command.read_tl_cont env c d =
    some (process_registry_read_data env Command.read_tl_cont c d)
process Command.delete_auth_token env c d =
    some (process_registry_delete_data env Command.delete_auth_token c d)
process Command.delete_root_cont env c d =
    some (process_registry_delete_data env Command.delete_root_cont c d)
process Command.delete_sp_cont env c d =
    some (process_registry_delete_data env Command.delete_sp_cont c d)
process Command.delete_tl_cont env c d =
    some (process_registry_delete_data env Command.delete_tl_cont c d)
process Command.unknown env c d = some d

abbrev pub is_known : Command → Bool
is_known Command.unknown = false
is_known _ = true

abbrev pub outcome : Command → Option Driver → Option (Bool × Driver)
outcome cmd none = none
outcome cmd (some d) = some (is_known cmd, d)

-- The command of a header; a header read short keeps what the stack held.
abbrev pub header_command : Env → Command
header_command env = command_of (get_word 0 (overlay (env.reads 0) (env.stale 0)))

unfoldable pub handle_connection : Env → ℕ → Driver → Option (Bool × Driver)
handle_connection env c d =
    if d.device.mc_fault
    then some (false, d)
    else if has_header (env.reads 0)
    then outcome (header_command env) (process (header_command env) env c d)
    else some (false, d)

abbrev pub dropped : Driver → Option Device → Option Driver
dropped d none = none
dropped d (some t) = some (record d { device = t })

-- The rounds of `close` see `env.worlds`.
unfoldable pub drop_connection : Env → ℕ → Driver → Option Driver
drop_connection env c d =
    if has_device c d.device.linked then dropped d (close c env.worlds d.device) else some d

abbrev pub is_peer : ℕ → List ℕ → Bool
is_peer c [] = false
is_peer c (x ∷ xs) = if x == c then true else is_peer c xs

abbrev pub erase_peer : ℕ → Option Driver → Option Driver
erase_peer c none = none
erase_peer c (some d) = some (record d { peers = remove_peer c d.peers })

-- The end of the round. The iterator is moved on from the connection: if that is not in the list
-- any more, it is moved on from an erased element.
abbrev pub end_round : Env → ℕ → Option (Bool × Driver) → Option Driver
end_round env c none = none
end_round env c (some (true, d)) = if is_peer c d.peers then some d else none
end_round env c (some (false, d)) = erase_peer c (drop_connection env c d)

unfoldable pub serve : Env → ℕ → Driver → Option Driver
serve env c d = end_round env c (handle_connection env c d)
