-- ===== src/Daemon/Client/Openings.antt =====
-- What an opening of a session leaves behind.
use android_hardware_samsung.Common.{
  ℕ, ◌≤◌, ◌^◌, ◌%◌, ◌≡◌, ◌≢◌, Option, some, none, List, [], ◌∷◌, ◌++◌, arith,
}
use android_hardware_samsung.Daemon.Driver.Wire.{overlay, get_word}
use android_hardware_samsung.Daemon.Client.Codes.{open_error}
use android_hardware_samsung.Daemon.Client.State.{
  BulkBufferDescriptor, Device, Client, Env, Reply, resolve_device,
}
use android_hardware_samsung.Daemon.Client.Wire.{words, SessionHandle}
use android_hardware_samsung.Daemon.Client.Opening.{
  find_wsm, await_session, mc_open_session, nq_connect, finish_channel,
}

-- A code of the daemon that is not OK stays one.
open_error_not_ok : (code : ℕ) → code ≢ 0 → open_error code ≢ 0
unfolding open_error
open_error_not_ok code n = ground arith

finish_channel_kept :
    (env : Env) (s : SessionHandle) (id : ℕ) (bulk : Option BulkBufferDescriptor) (r : Reply)
    → (finish_channel env s id bulk r).code ≢ 0
    → ((finish_channel env s id bulk r).client.devices ≡ r.client.devices)
      × ((finish_channel env s id bulk r).client.registered ≡ r.client.registered)
finish_channel_kept env s id bulk r n = ground arith

nq_connect_kept :
    (env : Env) (n : ℕ) (s : SessionHandle) (p : List ℕ) (c : Client)
    → ((nq_connect env n s p c).client.devices ≡ c.devices)
      × ((nq_connect env n s p c).client.registered ≡ c.registered)
nq_connect_kept env n s p c = ground arith

await_session_kept :
    (env : Env) (n : ℕ) (s : SessionHandle) (bulk : Option BulkBufferDescriptor) (c : Client)
    → (await_session env n s bulk c).code ≢ 0
    → ((await_session env n s bulk c).client.devices ≡ c.devices)
      × ((await_session env n s bulk c).client.registered ≡ c.registered)
unfolding await_session
await_session_kept env n s bulk c m = ground (
  arith,
  nq_connect_kept env n s (overlay (env.reads 1) env.stale) c,
  finish_channel_kept env s (get_word 0 (overlay (env.reads 1) env.stale)) bulk
      (nq_connect env n s (overlay (env.reads 1) env.stale) c),
)

-- An opening of a session of a known device whose TCI is not contiguous memory of the device and is
-- registered in the kernel, and that does not answer OK: it leaves the devices as they were, and the
-- TCI registered, so that no session is ever going to unregister it.
pub open_session_leaks :
    (env : Env) (s : SessionHandle) (uuid : List ℕ) (tci len handle phys : ℕ) (d : Device)
    (c : Client)
    → resolve_device s.device_id c.devices ≡ some d
    → tci ≢ 0
    → len ≤ 16 ^ 5
    → find_wsm tci d.wsms ≡ none
    → env.register_wsm tci len ≡ (0, handle, phys)
    → (mc_open_session env (some s) (some uuid) tci len c).code ≢ 0
    → ((mc_open_session env (some s) (some uuid) tci len c).client.devices ≡ c.devices)
      × ((mc_open_session env (some s) (some uuid) tci len c).client.registered
          ≡ handle ∷ c.registered)
unfolding mc_open_session
open_session_leaks env s uuid tci len handle phys d c e n l w g m =
    let b : BulkBufferDescriptor = record {
      virt_addr = tci;
      s_virtual_addr = 0;
      len = len;
      handle = handle;
      phys_addr = phys;
    } in
    ground (
      arith,
      await_session_kept env 1 s (some b) (record c {
        registered = handle ∷ c.registered;
        sent =
            (
              d.connection,
              words (5 ∷ s.device_id ∷ []) ++ uuid ++ words (tci % 4096 ∷ handle ∷ len ∷ []),
            )
            ∷ c.sent;
      }),
    )
