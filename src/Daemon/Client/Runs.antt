-- ===== src/Daemon/Client/Runs.antt =====
-- Sequences of calls of the client library from its start on.
use android_hardware_samsung.Common.{List, [], ◌∷◌, arith}
use android_hardware_samsung.Daemon.Client.State.{Client, Env}
use android_hardware_samsung.Daemon.Client.Calls.{Call, perform, perform_all, no_devices}
use android_hardware_samsung.Daemon.Client.Closing.{mc_driver_ctrl}
use android_hardware_samsung.Daemon.Client.Distinct.{AreDistinct}
use android_hardware_samsung.Daemon.Client.Covered.{IsCovered}
use android_hardware_samsung.Daemon.Client.Covers.{Covers, failed-Covers}
use android_hardware_samsung.Daemon.Client.Invariant.Closing.{
  close_device-Covers, close_session-Covers, notify-Covers, error_code-Covers, version-Covers,
}
use android_hardware_samsung.Daemon.Client.Invariant.Memory.{malloc-Covers, free_wsm-Covers}
use android_hardware_samsung.Daemon.Client.Invariant.Buffers.{map-Covers, unmap-Covers}
use android_hardware_samsung.Daemon.Client.Invariant.Waiting.{wait-Covers}
use android_hardware_samsung.Daemon.Client.Invariant.Opening.{open_device-Covers}
use android_hardware_samsung.Daemon.Client.Invariant.Sessions.{
  open_session-Covers, open_trustlet-Covers,
}

perform-Covers : (call : Call) (env : Env) (c : Client) → IsCovered c → Covers (perform call env c)
unfolding perform mc_driver_ctrl
perform-Covers (Call.open_device id) env c i = open_device-Covers env id c i
perform-Covers (Call.close_device id) env c i = close_device-Covers env id c i
perform-Covers (Call.open_session s uuid tci len) env c i =
    open_session-Covers env s uuid tci len c i
perform-Covers (Call.open_trustlet s spid tl tci len) env c i =
    open_trustlet-Covers env s spid tl tci len c i
perform-Covers (Call.close_session s) env c i = close_session-Covers env s c i
perform-Covers (Call.notify s) env c i = notify-Covers env s c i
perform-Covers (Call.wait_notification s rs) env c i = wait-Covers env s rs c i
perform-Covers (Call.malloc_wsm id len wsm) env c i = malloc-Covers env id len wsm c i
perform-Covers (Call.free_wsm id wsm) env c i = free_wsm-Covers env id wsm c i
perform-Covers (Call.map_buffer s buf len info) env c i = map-Covers env s buf len info c i
perform-Covers (Call.unmap_buffer s buf info) env c i = unmap-Covers env s buf info c i
perform-Covers (Call.get_session_error_code s e) env c i = error_code-Covers s e c i
perform-Covers (Call.get_mobicore_version id info) env c i = version-Covers env id info c i
perform-Covers (Call.driver_ctrl param bytes) env c i = failed-Covers c i 3

pub perform_all-IsCovered_from :
    (calls : List (Call × Env)) (c : Client) → IsCovered c → IsCovered (perform_all calls c)
unfolding perform_all
perform_all-IsCovered_from [] c i = i
perform_all-IsCovered_from ((call, env) ∷ calls) c i =
    perform_all-IsCovered_from calls (perform call env c).client
      (perform-Covers call env c i).covered

no_devices-IsCovered : IsCovered no_devices
unfolding AreDistinct
no_devices-IsCovered = record {
  covers = λ k. omega arith;
  covers_memory = λ k. omega arith;
  distinct = tt;
}

-- After any sequence of calls from the start, whatever the sockets and the kernel answer: every
-- handle of an L2 table that a session names is in use in the kernel, as often as it is named, so
-- is every handle of contiguous memory that a device names, and no device is open twice.
pub perform_all-IsCovered : (calls : List (Call × Env)) → IsCovered (perform_all calls no_devices)
perform_all-IsCovered calls = perform_all-IsCovered_from calls no_devices no_devices-IsCovered
