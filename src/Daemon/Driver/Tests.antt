-- ===== src/Daemon/Driver/Tests.antt =====
-- The daemon's commands at concrete inputs.
use android_hardware_samsung.Common.{
  ℕ, ◌+◌, ◌^◌, ◌≡◌, ◌≢◌, true, false, some, none, List, [], ◌∷◌, replicate, ◌==◌, if◌then◌else◌,
  refl, arith,
}
use android_hardware_samsung.Daemon.Session.{Wsm, find, add_bulk_buff}
use android_hardware_samsung.Daemon.Device.State as Dev
use android_hardware_samsung.Daemon.Device.State.{DrvResult, Device, World, call, lock_wsm}
use android_hardware_samsung.Daemon.Device.Sessions.{get_trustlet_session, owned, notify}
use android_hardware_samsung.Daemon.Device.Commands as Commands
use android_hardware_samsung.Daemon.Device.Opening.{held}
use android_hardware_samsung.Daemon.Device.Scenarios as Scenarios
use android_hardware_samsung.Daemon.Device.Scenarios.{device, one, answering, answers}
use android_hardware_samsung.Daemon.Registry.Disk.{Disk, lookup}
use android_hardware_samsung.Daemon.Registry.Containers.{RegResult, read_root}
use android_hardware_samsung.Daemon.Registry.Blob.{RegObject, as_is}
use android_hardware_samsung.Daemon.Driver.Wire.{
  Read, received, socket_error, get_word, Command, command_of,
}
use android_hardware_samsung.Daemon.Driver.State.{drv, result, check_permission, Env, Driver}
use android_hardware_samsung.Daemon.Driver.Sessions.{process_open_device}
use android_hardware_samsung.Daemon.Driver.Bulk.{map_buffer, unmap_buffer}
use android_hardware_samsung.Daemon.Driver.Registry.{fetch}
use android_hardware_samsung.Daemon.Driver.Dispatch.{process, header_command, is_known, serve}
use android_hardware_samsung.Daemon.Driver.Answers.{Answered, one_answer}
use android_hardware_samsung.Daemon.Driver.Locks.{map_holds, unmap-map_buffer}
use android_hardware_samsung.Daemon.Driver.Peers.{nq_connect_undefined, serve_known}

abbrev pub disk : Disk
disk = record {
  files = [];
  folders = [];
  system_exists = false;
  token_path_exists = true;
  can_write = λ p. true;
  kept = λ b. b;
  can_remove = λ p. true;
  can_remove_data = λ n. true;
  can_write_data = λ n. true;
}

-- The reads of one command: a header and a payload.
abbrev reads : List ℕ → List ℕ → ℕ → Read
reads header payload n =
    if n == 0 then received header else if n == 1 then received payload else socket_error

-- A command and its payload, in a world.
abbrev pub env : ℕ → List ℕ → World → Env
env cmd payload w = record {
  reads = reads (cmd ∷ 0 ∷ 0 ∷ 0 ∷ []) payload;
  stale = λ n. replicate 512 170;
  world = w;
  worlds = λ k. w;
  blob_address = 4160;
  beyond = [];
  register_wsm = λ a l. some (record { virt_addr = a; len = l; handle = 12; phys_addr = 65536 });
  unregister_ok = λ h. false;
  checks_permissions = true;
  peer = some (1000, 1000);
  user = 1000;
  group = 0;
}

abbrev pub driver : Driver
driver = record {
  device = device one;
  peers = 1 ∷ 4 ∷ [];
  detached = [];
  shared = [];
  disk = disk;
  sent = [];
}

abbrev pub opens : Env
opens = env 2 (replicate 4 0) Scenarios.opening

opened : process Command.open_device opens 4 driver ≡ some (process_open_device opens 4 driver)
unfolding process
opened = refl

one_answer_example : Answered 4 driver (process_open_device opens 4 driver)
one_answer_example =
    one_answer Command.open_device opens 4 driver (process_open_device opens 4 driver) refl opened

-- A peer of another user and group.
abbrev stranger : Env
stranger = record opens { peer = some (2000, 2000) }

denied : check_permission stranger ≡ false
unfolding check_permission
denied = refl

-- A world without L2 tables: the map fails behind the lock.
abbrev no_tables : Env
no_tables = env 8 (replicate 20 0) (record (answering 0) { l2 = λ h c. 0 })

map_holds_example : held 8 (map_buffer no_tables 1 5 8 32 4096 driver).device.calls ≡ 1
map_holds_example = map_holds no_tables 1 5 8 32 4096 8 driver refl

abbrev maps : Env
maps = env 8 (replicate 20 0) (answering (2 ^ 31 + 4))

abbrev unmaps : Env
unmaps = env 9 (replicate 16 0) (answering (2 ^ 31 + 5))

abbrev after_map : Driver
after_map = map_buffer maps 1 5 8 32 4096 driver

healthy_map : after_map.device.mc_fault ≡ false
unfolding map_buffer Commands.map_bulk Commands.exchange Commands.wait_mcp_notification
    Commands.wait_loop notify get_trustlet_session add_bulk_buff
healthy_map = refl

mine : owned (get_trustlet_session 5 one) 1 ≡ some (Scenarios.session 100 1 5)
unfolding get_trustlet_session
mine = refl

no_eight : find 8 (Scenarios.buffer ∷ []) ≡ none
unfolding find
no_eight = refl

unmap-map_buffer_example :
    ((unmap_buffer unmaps 1 5 8 800 4096 after_map).sent
      ≡ (1, result (drv DrvResult.ok)) ∷ after_map.sent)
    × ((unmap_buffer unmaps 1 5 8 800 4096 after_map).device.sessions ≡ one)
    × ((k : ℕ) → held k (unmap_buffer unmaps 1 5 8 800 4096 after_map).device.calls ≡ 0)
unmap-map_buffer_example =
    unmap-map_buffer maps unmaps 1 5 8 32 4096 800 4096 (Scenarios.session 100 1 5) driver after_map
      refl (λ e. omega arith) mine refl (omega arith, tt) no_eight refl
      (answers (Dev.Command.unmap_wsm 5 800 4096) after_map.device healthy_map)

abbrev connects : Env
connects = env 4 (replicate 16 0) (answering 0)

connect_header : header_command connects ≡ Command.nq_connect
unfolding command_of get_word
connect_header = refl

nq_connect_undefined_example : serve connects 4 driver ≡ none
nq_connect_undefined_example =
    nq_connect_undefined connects 4 driver refl refl connect_header refl refl refl

open_header : header_command opens ≡ Command.open_device
unfolding command_of get_word
open_header = refl

serve_opens :
    process (header_command opens) opens 4 driver ≡ some (process_open_device opens 4 driver)
unfolding command_of get_word process
serve_opens = refl

not_connect : header_command opens ≢ Command.nq_connect
unfolding command_of get_word
not_connect e = cc

known_header : is_known (header_command opens) ≡ true
unfolding command_of get_word
known_header = refl

serve_known_example :
    (serve opens 4 driver ≡ some (process_open_device opens 4 driver))
    × ((process_open_device opens 4 driver).peers ≡ 1 ∷ 4 ∷ [])
serve_known_example =
    serve_known opens 4 driver (process_open_device opens 4 driver) refl refl not_connect
      known_header refl serve_opens

permitted : check_permission opens ≡ true
unfolding check_permission
permitted = refl

-- There is no root container.
not_ok : (fetch opens Command.read_root_cont disk).code ≢ RegResult.ok
unfolding fetch read_root lookup
not_ok e = cc

not_invalid : (fetch opens Command.read_root_cont disk).code ≢ RegResult.invalid_operation
unfolding fetch read_root lookup
not_invalid e = cc

abbrev trustlet : RegObject
trustlet = as_is (replicate 36 1)

abbrev load_data : Wsm
load_data = record { virt_addr = 4160; len = 36; handle = 12; phys_addr = 65536 }

abbrev client : Env
client = env 5 (replicate 32 0) Scenarios.opening
