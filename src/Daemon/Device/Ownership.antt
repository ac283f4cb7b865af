-- ===== src/Daemon/Device/Ownership.antt =====
-- What a client can do to sessions of another connection, and to a device at fault.
use android_hardware_samsung.Common.{
  ℕ, zero, suc, ◌≡◌, ◌≢◌, true, false, some, none, List, [], ◌∷◌, ◌++◌, refl, arith,
}
use android_hardware_samsung.Daemon.Session.{Session}
use android_hardware_samsung.Daemon.Device.State.{DrvResult, Command, Device, World}
use android_hardware_samsung.Daemon.Device.Sessions.{
  get_trustlet_session, owned, notify_owned, notify,
}
use android_hardware_samsung.Daemon.Device.Commands.{
  wait_loop, wait_mcp_notification, exchange, close_session, map_bulk, unmap_bulk,
}

-- The first session with the id is another connection's, or no session has the id.
pub data IsForeign (c id : ℕ) : List Session → Type 0 where
  missing : IsForeign c id []
  other :
      {s : Session} {ss : List Session}
      → s.session_id ≢ id
      → IsForeign c id ss
      → IsForeign c id (s ∷ ss)
  foreign :
      {s : Session} {ss : List Session}
      → s.session_id ≡ id
      → s.device_connection ≢ c
      → IsForeign c id (s ∷ ss)

IsForeign-owned :
    (c id : ℕ) (ss : List Session) → IsForeign c id ss → owned (get_trustlet_session id ss) c ≡ none
unfolding get_trustlet_session
IsForeign-owned c id [] missing = refl
IsForeign-owned c id (s ∷ ss) (other n f) = ground (arith, IsForeign-owned c id ss f)
IsForeign-owned c id (s ∷ ss) (foreign e n) = ground arith

-- A client that names an id of no session, or one whose first session has the device connection
-- of another client, gets `unknown_session` from `notify`, `closeSession`, `mapBulk` and
-- `unmapBulk`, and the device is left exactly as it was: nothing is sent to the secure world.
pub not_owned_rejected :
    (c id handle p_addr offset len adr : ℕ) (w : World) (d : Device)
    → IsForeign c id d.sessions
    → (notify_owned c id d ≡ (DrvResult.unknown_session, d))
      × (close_session c id w d ≡ (DrvResult.unknown_session, d))
      × (map_bulk c id handle p_addr offset len w d ≡ (DrvResult.unknown_session, none, d))
      × (unmap_bulk c id handle adr len w d ≡ (DrvResult.unknown_session, d))
unfolding notify_owned close_session map_bulk unmap_bulk
not_owned_rejected c id handle p_addr offset len adr w d f =
    let h = IsForeign-owned c id d.sessions f in
    (rw (h, notify_owned), rw (h, close_session), rw (h, map_bulk), rw (h, unmap_bulk))

wait_fault :
    (counter k : ℕ) (w : World) (d : Device)
    → d.mc_fault ≡ true
    → ((wait_loop counter k w d).0 ≡ false) × ((wait_loop counter k w d).1.mc_fault ≡ true)
unfolding wait_loop
wait_fault zero k w d f = (refl, refl)
wait_fault (suc counter) k w d f = ground arith

-- A fault is for ever: once the device is at fault, every command to the secure world ends in
-- `mci_error`, whatever the secure world answers, and the device stays at fault.
pub exchange_fault :
    (cmd : Command) (w : World) (d : Device)
    → d.mc_fault ≡ true
    → ((exchange cmd w d).0 ≡ DrvResult.mci_error) × ((exchange cmd w d).1.mc_fault ≡ true)
unfolding exchange wait_mcp_notification notify
exchange_fault cmd w d f =
    let sent = notify 0 (record d { message = some cmd }) in
    let asked = record sent { notifications = sent.notifications ++ w.early } in
    let h = wait_fault 5 0 w asked f in ground arith
