-- ===== src/Daemon/Driver/Leaks.antt =====
-- What is sent and stored of a buffer that nothing was read into, and what an open leaves behind.
use android_hardware_samsung.Common.{
  ℕ, ◌^◌, ◌≡◌, ◌≢◌, ◌≤◌, ◌<◌, true, some, List, ◌∷◌, take, if◌then◌else◌, arith,
}
use android_hardware_samsung.Daemon.Session.{Wsm}
use android_hardware_samsung.Daemon.Device.Commands as Commands
use android_hardware_samsung.Daemon.Registry.Bytes.{word_at}
use android_hardware_samsung.Daemon.Registry.Disk.{Disk}
use android_hardware_samsung.Daemon.Registry.Containers.{RegResult, store_root}
use android_hardware_samsung.Daemon.Registry.Blob.{RegObject}
use android_hardware_samsung.Daemon.Driver.Wire.{socket_error, read_length, Command}
use android_hardware_samsung.Daemon.Driver.State.{
  kmod_error, result, registry, registry_data, Env, Driver, check_permission,
}
use android_hardware_samsung.Daemon.Driver.Sessions.{load_of, answer_open, open_blob}
use android_hardware_samsung.Daemon.Driver.Registry.{
  get_data, fetched, fetched_token, fetch, process_registry_read_data, update, answer_update,
  process_registry_write_data,
}

fetched_stale :
    (env : Env) (r : RegResult × List ℕ)
    → (fetched env r).code ≢ RegResult.ok
    → (fetched env r).buffer ≡ env.stale 0
fetched_stale env (r, b) n = ground arith

token_stale :
    (env : Env) (r : RegResult × List ℕ)
    → (fetched_token env r).code ≢ RegResult.ok
    → (fetched_token env r).buffer ≡ env.stale 0
token_stale env (r, b) n = ground arith

fetch_stale :
    (env : Env) (cmd : Command) (k : Disk)
    → (fetch env cmd k).code ≢ RegResult.ok
    → (fetch env cmd k).buffer ≡ env.stale 0
unfolding fetch
fetch_stale env cmd k n = grind (arith, fetched_stale, token_stale)

-- A permitted read of the registry that fails, but for an invalid operation, sends the client the
-- code and behind it what the stack held where the buffer lies, as many bytes as a read asks for.
pub read_sends_stale :
    (env : Env) (cmd : Command) (c : ℕ) (d : Driver)
    → check_permission env ≡ true
    → (fetch env cmd d.disk).code ≢ RegResult.ok
    → (fetch env cmd d.disk).code ≢ RegResult.invalid_operation
    → (process_registry_read_data env cmd c d).sent
      ≡ (c, registry_data (take (fetch env cmd d.disk).len (env.stale 0)))
        ∷ (c, registry (fetch env cmd d.disk).code)
        ∷ d.sent
unfolding process_registry_read_data
read_sends_stale env cmd c d p n m = ground (arith, fetch_stale env cmd d.disk n)

-- The root container is stored although the read of its bytes ended with an error of the socket:
-- what is stored is what the heap held where the buffer lies.
pub socket_error_accepted :
    (env : Env) (c : ℕ) (d : Driver)
    → check_permission env ≡ true
    → 4 ≤ read_length (env.reads 1)
    → env.reads 2 ≡ socket_error
    → word_at 0 (get_data env 1 4).1 < 2 ^ 32
    → process_registry_write_data env Command.write_root_cont c d
      ≡ answer_update c (store_root (take (word_at 0 (get_data env 1 4).1) (env.stale 2)) d.disk) d
unfolding process_registry_write_data update
socket_error_accepted env c d p l e w = ground arith

-- An open of a blob whose memory the kernel registers: the device is as `openSession` leaves it and
-- the files are as before. If the kernel then unregisters the memory, the client is answered what
-- `openSession` gave, and as much memory is registered as before. If not, the client is answered
-- `kmod_error` whatever `openSession` gave, and the memory stays registered.
pub open_blob_lem :
    (env : Env) (c handle len tci : ℕ) (o : RegObject) (w : Wsm) (d : Driver)
    → o.len ≢ 0
    → env.register_wsm env.blob_address o.len ≡ some w
    → let r = Commands.open_session c (load_of env o w) handle len tci env.world d.device in
      let t = open_blob env c (some o) handle len tci d in
      (t.device ≡ r.1)
      × (t.disk ≡ d.disk)
      × (t.shared ≡ (if env.unregister_ok w.handle then d.shared else w.handle ∷ d.shared))
      × (t.sent
          ≡ (c, if env.unregister_ok w.handle then answer_open env r.0 else result kmod_error)
            ∷ d.sent)
unfolding open_blob
open_blob_lem env c handle len tci o w d n e = ground arith
