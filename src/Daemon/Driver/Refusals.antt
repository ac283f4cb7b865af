-- ===== src/Daemon/Driver/Refusals.antt =====
-- The commands that are refused: without a device, or without the permission.
use android_hardware_samsung.Common.{
  ℕ, ◌≡◌, Bool, true, false, Option, some, none, ◌==◌, if◌then◌else◌, arith,
}
use android_hardware_samsung.Daemon.Registry.Containers.{RegResult}
use android_hardware_samsung.Daemon.Driver.Wire.{Read, read_length, Command}
use android_hardware_samsung.Daemon.Driver.State.{
  daemon_socket, device_not_open, registry, Env, Driver, write, write_result, has_device,
  check_permission,
}
use android_hardware_samsung.Daemon.Driver.Sessions.{
  process_open_session, process_open_trustlet, process_close_session, process_get_mobicore_version,
}
use android_hardware_samsung.Daemon.Driver.Bulk.{process_map_bulk_buf, process_unmap_bulk_buf}
use android_hardware_samsung.Daemon.Driver.Registry.{
  process_registry_read_data, process_registry_write_data, process_registry_delete_data,
}
use android_hardware_samsung.Daemon.Driver.Dispatch.{process}

-- The commands on a device, by what follows their header.
abbrev pub payload_size : Command → Option ℕ
payload_size Command.open_session = some 32
payload_size Command.open_trustlet = some 24
payload_size Command.close_session = some 4
payload_size Command.map_bulk_buf = some 20
payload_size Command.unmap_bulk_buf = some 16
payload_size Command.get_mobicore_version = some 0
payload_size _ = none

-- Whether the payload has come whole.
abbrev pub is_whole : ℕ → Read → Bool
is_whole n r = if n == 0 then true else read_length r == n

-- A command on a device, from a connection that has opened none, is answered `device_not_open` if
-- its payload has come whole and `daemon_socket` if not, and changes nothing else.
pub no_device_rejected :
    (cmd : Command) (n : ℕ) (env : Env) (c : ℕ) (d : Driver)
    → payload_size cmd ≡ some n
    → has_device c d.device.linked ≡ false
    → process cmd env c d
      ≡ some
          (write_result c (if is_whole n (env.reads 1) then device_not_open else daemon_socket) d)
unfolding process process_open_session process_open_trustlet process_close_session
    process_map_bulk_buf process_unmap_bulk_buf process_get_mobicore_version
no_device_rejected cmd n env c d p h = ground arith

abbrev pub is_registry : Command → Bool
is_registry Command.store_auth_token = true
is_registry Command.read_auth_token = true
is_registry Command.delete_auth_token = true
is_registry Command.read_root_cont = true
is_registry Command.write_root_cont = true
is_registry Command.delete_root_cont = true
is_registry Command.read_sp_cont = true
is_registry Command.write_sp_cont = true
is_registry Command.delete_sp_cont = true
is_registry Command.read_tl_cont = true
is_registry Command.write_tl_cont = true
is_registry Command.delete_tl_cont = true
is_registry Command.write_so_data = true
is_registry _ = false

-- Where the peer has not the permission, every command of the registry answers
-- `invalid_operation` and nothing else: no file is changed, and nothing of a file is sent.
pub not_permitted :
    (cmd : Command) (env : Env) (c : ℕ) (d : Driver)
    → is_registry cmd ≡ true
    → check_permission env ≡ false
    → process cmd env c d ≡ some (write c (registry RegResult.invalid_operation) d)
unfolding process process_registry_read_data process_registry_write_data
    process_registry_delete_data
not_permitted cmd env c d r h = ground arith
