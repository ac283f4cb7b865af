-- ===== src/Daemon/Client/Tests.antt =====
-- The calls of the client library at concrete inputs.
use android_hardware_samsung.Common.{
  ℕ, ◌≡◌, ◌≢◌, true, some, none, List, [], ◌∷◌, replicate, ◌==◌, if◌then◌else◌, refl, arith,
}
use android_hardware_samsung.Daemon.Device.State.{DrvResult}
use android_hardware_samsung.Daemon.Device.Sessions.{get_trustlet_session, notify}
use android_hardware_samsung.Daemon.Device.Commands as Commands
use android_hardware_samsung.Daemon.Device.Scenarios as Scenarios
use android_hardware_samsung.Daemon.Driver.Wire.{Read, received, socket_error, get_word, Command}
use android_hardware_samsung.Daemon.Driver.State as Server
use android_hardware_samsung.Daemon.Driver.State.{drv, Driver, write_result}
use android_hardware_samsung.Daemon.Driver.Sessions.{process_close_session}
use android_hardware_samsung.Daemon.Driver.Dispatch.{header_command}
use android_hardware_samsung.Daemon.Driver.Tests as ServerTests
use android_hardware_samsung.Daemon.Client.Codes.{open_error}
use android_hardware_samsung.Daemon.Client.State.{
  Session, Device, Client, Env, resolve_device, resolve_session,
}
use android_hardware_samsung.Daemon.Client.Wire.{SessionHandle, word, words}
use android_hardware_samsung.Daemon.Client.Places.{Place}
use android_hardware_samsung.Daemon.Client.Distinct.{AreDistinct}
use android_hardware_samsung.Daemon.Client.Covered.{IsCovered}
use android_hardware_samsung.Daemon.Client.Calls.{Call, perform_all, no_devices}
use android_hardware_samsung.Daemon.Client.Runs.{perform_all-IsCovered}
use android_hardware_samsung.Daemon.Client.Opening.{mc_open_session, await_session}
use android_hardware_samsung.Daemon.Client.Openings.{open_session_leaks}
use android_hardware_samsung.Daemon.Client.Closing.{mc_close_device, mc_close_session}
use android_hardware_samsung.Daemon.Client.Ends.{close_device_lem}
use android_hardware_samsung.Daemon.Client.Link.{drv_number, Forgotten, close_session_linked}
use android_hardware_samsung.Daemon.Client.Bulk.{mc_map, mc_unmap}
use android_hardware_samsung.Daemon.Client.Unmapping.{unmap-map_lem}
use android_hardware_samsung.Daemon.Client.Waiting.{mc_wait_notification}
use android_hardware_samsung.Daemon.Client.Drained.{reported, wait_notification_lem}

abbrev session : Session
session = record { session_id = 5; buffers = []; last_err = 0; connection = 2 }

abbrev device : Device
device = record { device_id = 0; connection = 1; sessions = session ∷ []; wsms = [] }

abbrev client : Client
client = record { devices = device ∷ []; registered = []; allocated = []; deleted = []; sent = [] }

abbrev handle : SessionHandle
handle = record { device_id = 0; session_id = 5 }

-- The first two reads of a call.
abbrev reads : List ℕ → List ℕ → ℕ → Read
reads first second n =
    if n == 0 then received first else if n == 1 then received second else received (word 0)

abbrev env : List ℕ → List ℕ → Env
env first second = record {
  new_connection = 9;
  connect_ok = true;
  write_ok = λ n. true;
  reads = reads first second;
  stale = replicate 12 170;
  is_alive = true;
  open_kernel = 0;
  register_wsm = λ a l. (0, 7, 65536);
  unregister_wsm = λ h. 0;
  map_wsm = λ l. (0, 8, 4096, 131072);
  free_wsm = λ h. 0;
}

known_device : resolve_device 0 client.devices ≡ some device
unfolding resolve_device
known_device = refl

known_session : resolve_session 5 device.sessions ≡ some session
unfolding resolve_session
known_session = refl

-- The device is opened, a session with a registered TCI, and a buffer is mapped into it.
abbrev calls : List (Call × Env)
calls =
    (Call.open_device 0, env (word 0) (word 2))
    ∷ (
      Call.open_session (some handle) (some (replicate 16 3)) 8192 4096,
      env (word 0) (words (5 ∷ 100 ∷ 77 ∷ [])),
    )
    ∷ (Call.map_buffer (some handle) 12288 100 true, env (word 0) (words (5 ∷ 800 ∷ [])))
    ∷ []

perform_all-IsCovered_example : IsCovered (perform_all calls no_devices)
perform_all-IsCovered_example = perform_all-IsCovered calls

place : Place handle client
place = record {
  earlier = [];
  device = device;
  later = [];
  before = [];
  session = session;
  after = [];
  devices = refl;
  sessions = refl;
  device_named = refl;
  session_named = refl;
  first_device = tt;
  first_session = tt;
}

wait_notification_lem_example :
    mc_wait_notification
      (env [] [])
      (some handle)
      (received (words (5 ∷ 0 ∷ [])) ∷ received (words (5 ∷ 3 ∷ [])) ∷ socket_error ∷ [])
      client
    ≡ reported handle client place (some 3)
wait_notification_lem_example =
    wait_notification_lem (env [] []) handle (received (words (5 ∷ 0 ∷ [])))
      (received (words (5 ∷ 3 ∷ [])) ∷ socket_error ∷ []) client place 0 refl

abbrev idle : Client
idle = record client { devices = record device { sessions = [] } ∷ [] }

idle-IsCovered : IsCovered idle
unfolding AreDistinct resolve_device
idle-IsCovered = record {
  covers = λ k. omega arith;
  covers_memory = λ k. omega arith;
  distinct = (refl, tt);
}

closes_idle : (mc_close_device (env (word 0) []) 0 idle).code ≡ 0
unfolding mc_close_device resolve_device get_word
closes_idle = refl

close_device_lem_example :
    ((d : Device) × ((resolve_device 0 idle.devices ≡ some d) × (d.sessions ≡ [])))
    × (resolve_device 0 (mc_close_device (env (word 0) []) 0 idle).client.devices ≡ none)
close_device_lem_example = close_device_lem (env (word 0) []) 0 idle idle-IsCovered closes_idle

unmap-map_lem_example :
    let r = mc_map (env (word 0) (words (5 ∷ 800 ∷ []))) (some handle) 12288 100 true client in
    let u =
      mc_unmap
        (env (word 0) [])
        (some handle)
        12288
        (some (record { s_virtual_addr = 800; s_virtual_len = 100 }))
        r.client in
    (r.code ≡ 0)
    × (r.out ≡ 800 ∷ 100 ∷ [])
    × (u.code ≡ 0)
    × (u.client.devices ≡ device ∷ [])
    × (u.client.registered ≡ [])
unmap-map_lem_example =
    unmap-map_lem (env (word 0) (words (5 ∷ 800 ∷ []))) (env (word 0) []) handle 12288 100 7 65536 5
      800 device session client known_device known_session (λ e. omega arith) refl refl
      (omega arith) (λ e. omega arith) refl refl refl refl refl refl refl

-- The daemon's side of the session, at its own connection 1.
abbrev server : Server.Env
server = ServerTests.env 6 (words (5 ∷ [])) Scenarios.closing

abbrev answer : DrvResult
answer = (Commands.close_session 1 5 Scenarios.closing (Scenarios.device Scenarios.one)).0

close_session_linked_example :
    (header_command server ≡ Command.close_session)
    × (process_close_session server 1 ServerTests.driver ≡ (
        let (r, t) =
          Commands.close_session 1 5 Scenarios.closing (Scenarios.device Scenarios.one) in
        write_result 1 (drv r) (record (ServerTests.driver) { device = t })))
    × Forgotten
        (env (word (drv_number answer)) [])
        handle
        client
        place
        (mc_close_session (env (word (drv_number answer)) []) (some handle) client)
unfolding Commands.close_session Commands.close_session_id Commands.exchange
    Commands.wait_mcp_notification Commands.wait_loop get_trustlet_session notify
close_session_linked_example =
    close_session_linked 1 (env (word (drv_number answer)) []) handle client place server
      ServerTests.driver (omega arith) refl refl refl refl refl

-- The daemon refuses the opening.
refused :
    (mc_open_session (env (word 8) []) (some handle) (some (replicate 16 3)) 8192 4096 client).code
    ≢ 0
unfolding mc_open_session await_session resolve_device open_error
refused e = ground arith

open_session_leaks_example :
    let r =
      mc_open_session (env (word 8) []) (some handle) (some (replicate 16 3)) 8192 4096 client in
    (r.client.devices ≡ device ∷ []) × (r.client.registered ≡ 7 ∷ [])
open_session_leaks_example =
    open_session_leaks (env (word 8) []) handle (replicate 16 3) 8192 4096 7 65536 device client
      known_device (λ e. omega arith) (omega arith) refl refl refused
