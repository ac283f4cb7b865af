-- ===== src/Daemon/Client/Calls.antt =====
-- The calls of the client library, and sequences of them.
use android_hardware_samsung.Common.{ℕ, Bool, Option, List, [], ◌∷◌}
use android_hardware_samsung.Daemon.Driver.Wire.{Read}
use android_hardware_samsung.Daemon.Client.State.{Client, Env, Reply}
use android_hardware_samsung.Daemon.Client.Wire.{SessionHandle}
use android_hardware_samsung.Daemon.Client.Opening.{
  mc_open_device, mc_open_session, mc_open_trustlet,
}
use android_hardware_samsung.Daemon.Client.Closing.{
  mc_close_device, mc_close_session, mc_notify, mc_get_session_error_code, mc_get_mobicore_version,
  mc_driver_ctrl,
}
use android_hardware_samsung.Daemon.Client.Bulk.{mc_map, BulkMap, mc_unmap}
use android_hardware_samsung.Daemon.Client.Waiting.{mc_wait_notification}
use android_hardware_samsung.Daemon.Client.Memory.{mc_malloc_wsm, mc_free_wsm}

-- The functions of MobiCoreDriverApi.h and their arguments.
pub data Call : Type 0 where
  open_device : ℕ → Call
  close_device : ℕ → Call
  open_session : Option SessionHandle → Option (List ℕ) → ℕ → ℕ → Call
  open_trustlet : Option SessionHandle → ℕ → Option (List ℕ) → ℕ → ℕ → Call
  close_session : Option SessionHandle → Call
  notify : Option SessionHandle → Call
  wait_notification : Option SessionHandle → List Read → Call
  malloc_wsm : ℕ → ℕ → Bool → Call
  free_wsm : ℕ → ℕ → Call
  map_buffer : Option SessionHandle → ℕ → ℕ → Bool → Call
  unmap_buffer : Option SessionHandle → ℕ → Option BulkMap → Call
  get_session_error_code : Option SessionHandle → Bool → Call
  get_mobicore_version : ℕ → Bool → Call
  driver_ctrl : ℕ → List ℕ → Call

unfoldable pub perform : Call → Env → Client → Reply
perform (Call.open_device id) env c = mc_open_device env id c
perform (Call.close_device id) env c = mc_close_device env id c
perform (Call.open_session s uuid tci len) env c = mc_open_session env s uuid tci len c
perform (Call.open_trustlet s spid tl tci len) env c = mc_open_trustlet env s spid tl tci len c
perform (Call.close_session s) env c = mc_close_session env s c
perform (Call.notify s) env c = mc_notify env s c
perform (Call.wait_notification s rs) env c = mc_wait_notification env s rs c
perform (Call.malloc_wsm id len wsm) env c = mc_malloc_wsm env id len wsm c
perform (Call.free_wsm id wsm) env c = mc_free_wsm env id wsm c
perform (Call.map_buffer s buf len info) env c = mc_map env s buf len info c
perform (Call.unmap_buffer s buf info) env c = mc_unmap env s buf info c
perform (Call.get_session_error_code s e) env c = mc_get_session_error_code s e c
perform (Call.get_mobicore_version id info) env c = mc_get_mobicore_version env id info c
perform (Call.driver_ctrl param bytes) env c = mc_driver_ctrl param bytes c

-- One call after another, each in its own environment.
unfoldable pub perform_all : List (Call × Env) → Client → Client
perform_all [] c = c
perform_all ((call, env) ∷ calls) c = perform_all calls (perform call env c).client

-- Before the first call.
abbrev pub no_devices : Client
no_devices = record { devices = []; registered = []; allocated = []; deleted = []; sent = [] }
