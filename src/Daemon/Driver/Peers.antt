-- ===== src/Daemon/Driver/Peers.antt =====
-- The list of connections of the server, over one round.
use android_hardware_samsung.Common.{
  ℕ, ◌≡◌, ◌≢◌, true, false, Option, some, none, List, [], ◌∷◌, if◌then◌else◌, refl, ap, ◌∙◌, arith,
}
use android_hardware_samsung.Daemon.NotificationQueue.{Notification}
use android_hardware_samsung.Daemon.Session.{Session}
use android_hardware_samsung.Daemon.Device.State.{DrvResult, Device}
use android_hardware_samsung.Daemon.Device.Sessions.{register_trustlet_connection}
use android_hardware_samsung.Daemon.Device.Close.{close}
use android_hardware_samsung.Daemon.Registry.Blob.{RegObject}
use android_hardware_samsung.Daemon.Driver.Wire.{read_length, overlay, get_word, Command}
use android_hardware_samsung.Daemon.Driver.State.{notification, Env, Driver, write, has_device}
use android_hardware_samsung.Daemon.Driver.Sessions.{
  process_open_device, closed_device, process_close_device, open_blob, process_open_session,
  process_open_trustlet, process_close_session, process_get_version, process_get_mobicore_version,
  answer_version, remove_peer, detach, write_all, deliver_queued, connect_detached,
  process_nq_connect, process_notify,
}
use android_hardware_samsung.Daemon.Driver.Bulk.{
  answer_map, map_buffer, process_map_bulk_buf, answer_unmap, unmap_buffer, process_unmap_bulk_buf,
}
use android_hardware_samsung.Daemon.Driver.Registry.{
  process_registry_read_data, process_registry_write_data, process_registry_delete_data,
}
use android_hardware_samsung.Daemon.Driver.Dispatch.{
  process, is_known, outcome, header_command, has_header, handle_connection, is_peer, end_round,
  serve,
}

write_all_peers : (ns : List (ℕ × Notification)) (d : Driver) → (write_all ns d).peers ≡ d.peers
write_all_peers [] d = refl
write_all_peers ((c, n) ∷ ns) d = write_all_peers ns (write c (notification n) d)

deliver_queued_peers :
    (c : ℕ) (r : Option Session × List Session) (d : Driver)
    → (deliver_queued c r d).peers ≡ d.peers
deliver_queued_peers c (none, ss) d = refl
deliver_queued_peers c (some s, ss) d = search write_all_peers

connect_detached_peers :
    (c : ℕ) (bytes : List ℕ) (d : Driver) → (connect_detached c bytes d).peers ≡ d.peers
connect_detached_peers c bytes d = ground (
  arith,
  deliver_queued_peers c
      (register_trustlet_connection c (get_word 2 bytes) (get_word 3 bytes) (get_word 1 bytes)
        d.device.sessions)
      d,
)

nq_connect_peers :
    (env : Env) (c : ℕ) (d : Driver)
    → read_length (env.reads 1) ≡ 16
    → has_device c d.device.linked ≡ false
    → (process_nq_connect env c d).peers ≡ remove_peer c d.peers
unfolding process_nq_connect detach
nq_connect_peers env c d l h =
    ground (arith, connect_detached_peers c (overlay (env.reads 1) []) (detach c d))

serve_command :
    (env : Env) (c : ℕ) (d : Driver)
    → d.device.mc_fault ≡ false
    → has_header (env.reads 0) ≡ true
    → serve env c d
      ≡ end_round env c (outcome (header_command env) (process (header_command env) env c d))
unfolding serve handle_connection
serve_command env c d f h = ground arith

known_round :
    (env : Env) (c : ℕ) (cmd : Command) (t : Driver)
    → is_known cmd ≡ true
    → end_round env c (outcome cmd (some t)) ≡ (if is_peer c t.peers then some t else none)
known_round env c cmd t k = rw k refl

-- A round in which a peer that is listed once and has not opened the device sends a whole
-- `nq_connect`, the device being without fault, ends in
-- undefined behaviour: the command takes the connection out of the list that the server walks, and
-- the iterator of the server is at its erased element.
pub nq_connect_undefined :
    (env : Env) (c : ℕ) (d : Driver)
    → d.device.mc_fault ≡ false
    → has_header (env.reads 0) ≡ true
    → header_command env ≡ Command.nq_connect
    → read_length (env.reads 1) ≡ 16
    → has_device c d.device.linked ≡ false
    → is_peer c (remove_peer c d.peers) ≡ false
    → serve env c d ≡ none
unfolding process
nq_connect_undefined env c d f h m l g u =
    let t = process_nq_connect env c d in
    serve_command env c d f h
    ∙ (ap (λ m. end_round env c (outcome m (process m env c d))) m
        ∙ (known_round env c Command.nq_connect t refl
            ∙ ap (λ b. if b then some t else none)
                (ap (is_peer c) (nq_connect_peers env c d l g) ∙ u)))

open_device_peers : (env : Env) (c : ℕ) (d : Driver) → (process_open_device env c d).peers ≡ d.peers
unfolding process_open_device
open_device_peers env c d = ground arith

closed_device_peers :
    (c : ℕ) (d t : Driver) (o : Option Device) → closed_device c d o ≡ some t → t.peers ≡ d.peers
closed_device_peers c d t none e = cc
closed_device_peers c d t (some v) e = ground arith

close_device_peers :
    (env : Env) (c : ℕ) (d t : Driver) → process_close_device env c d ≡ some t → t.peers ≡ d.peers
unfolding process_close_device
close_device_peers env c d t e =
    ground (arith, closed_device_peers c d t (close c env.worlds d.device))

open_blob_peers :
    (env : Env) (c : ℕ) (o : Option RegObject) (handle len tci : ℕ) (d : Driver)
    → (open_blob env c o handle len tci d).peers ≡ d.peers
unfolding open_blob
open_blob_peers env c o handle len tci d = ground arith

open_session_peers :
    (env : Env) (c : ℕ) (d : Driver) → (process_open_session env c d).peers ≡ d.peers
unfolding process_open_session
open_session_peers env c d = grind (arith, open_blob_peers)

open_trustlet_peers :
    (env : Env) (c : ℕ) (d : Driver) → (process_open_trustlet env c d).peers ≡ d.peers
unfolding process_open_trustlet
open_trustlet_peers env c d = grind (arith, open_blob_peers)

close_session_peers :
    (env : Env) (c : ℕ) (d : Driver) → (process_close_session env c d).peers ≡ d.peers
unfolding process_close_session
close_session_peers env c d = ground arith

answer_map_peers :
    (c id : ℕ) (r : DrvResult × Option ℕ × Device) (d : Driver)
    → (answer_map c id r d).peers ≡ d.peers
answer_map_peers c id (r, o, v) d = ground arith

map_peers : (env : Env) (c : ℕ) (d : Driver) → (process_map_bulk_buf env c d).peers ≡ d.peers
unfolding process_map_bulk_buf map_buffer
map_peers env c d = grind (arith, answer_map_peers)

answer_unmap_peers :
    (c h : ℕ) (r : DrvResult × Device) (d : Driver) → (answer_unmap c h r d).peers ≡ d.peers
answer_unmap_peers c h (r, v) d = ground arith

unmap_peers : (env : Env) (c : ℕ) (d : Driver) → (process_unmap_bulk_buf env c d).peers ≡ d.peers
unfolding process_unmap_bulk_buf unmap_buffer
unmap_peers env c d = grind (arith, answer_unmap_peers)

notify_peers : (env : Env) (c : ℕ) (d : Driver) → (process_notify env c d).peers ≡ d.peers
unfolding process_notify
notify_peers env c d = ground arith

answer_version_peers :
    (c : ℕ) (r : DrvResult × Option ℕ × Device) (d : Driver)
    → (answer_version c r d).peers ≡ d.peers
answer_version_peers c (r, o, v) d = ground arith

version_peers :
    (env : Env) (c : ℕ) (d : Driver) → (process_get_mobicore_version env c d).peers ≡ d.peers
unfolding process_get_mobicore_version
version_peers env c d = grind (arith, answer_version_peers)

read_peers :
    (env : Env) (cmd : Command) (c : ℕ) (d : Driver)
    → (process_registry_read_data env cmd c d).peers ≡ d.peers
unfolding process_registry_read_data
read_peers env cmd c d = ground arith

write_peers :
    (env : Env) (cmd : Command) (c : ℕ) (d : Driver)
    → (process_registry_write_data env cmd c d).peers ≡ d.peers
unfolding process_registry_write_data
write_peers env cmd c d = ground arith

delete_peers :
    (env : Env) (cmd : Command) (c : ℕ) (d : Driver)
    → (process_registry_delete_data env cmd c d).peers ≡ d.peers
unfolding process_registry_delete_data
delete_peers env cmd c d = ground arith

process_peers :
    (cmd : Command) (env : Env) (c : ℕ) (d t : Driver)
    → cmd ≢ Command.nq_connect
    → process cmd env c d ≡ some t
    → t.peers ≡ d.peers
unfolding process process_get_version
process_peers cmd env c d t n e = ground (
  arith,
  open_device_peers env c d,
  close_device_peers env c d t,
  open_session_peers env c d,
  open_trustlet_peers env c d,
  close_session_peers env c d,
  map_peers env c d,
  unmap_peers env c d,
  notify_peers env c d,
  version_peers env c d,
  read_peers env cmd c d,
  write_peers env cmd c d,
  delete_peers env cmd c d,
)

-- A round over a peer that sends any other command that the daemon knows, the device without a
-- fault and the command without undefined behaviour: it ends with what the command leaves, and
-- every connection stays in the list.
pub serve_known :
    (env : Env) (c : ℕ) (d t : Driver)
    → d.device.mc_fault ≡ false
    → has_header (env.reads 0) ≡ true
    → header_command env ≢ Command.nq_connect
    → is_known (header_command env) ≡ true
    → is_peer c d.peers ≡ true
    → process (header_command env) env c d ≡ some t
    → (serve env c d ≡ some t) × (t.peers ≡ d.peers)
serve_known env c d t f h n k i e =
    let p = process_peers (header_command env) env c d t n e in
    (
      serve_command env c d f h
          ∙ (ap (λ o. end_round env c (outcome (header_command env) o)) e
              ∙ (known_round env c (header_command env) t k
                  ∙ ap (λ b. if b then some t else none) (ap (is_peer c) p ∙ i))),
      p,
    )
