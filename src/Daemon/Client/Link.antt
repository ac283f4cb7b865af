-- ===== src/Daemon/Client/Link.antt =====
-- A call of the library and the command of the daemon that serves it, over one connection.
use android_hardware_samsung.Common.{
  ℕ, ◌+◌, ◌*◌, ◌<◌, ◌^◌, ◌%◌, ◌≡◌, Bool, true, false, some, List, [], ◌∷◌, ◌++◌, ◌==◌, take, drop,
  refl, sym, ap, ◌∙◌, ◌-◌, if◌then◌else◌, arith,
}
use mathlib.Core.Path.{subst}
use android_hardware_samsung.Daemon.Device.State.{DrvResult}
use android_hardware_samsung.Daemon.Device.Commands as Commands
use android_hardware_samsung.Daemon.Driver.Wire.{
  received, read_length, get_word, overlay, Command, command_of,
}
use android_hardware_samsung.Daemon.Driver.State as Server
use android_hardware_samsung.Daemon.Driver.State.{Code, drv, Driver, write_result, has_device}
use android_hardware_samsung.Daemon.Driver.Dispatch.{header_command}
use android_hardware_samsung.Daemon.Driver.Sessions.{process_close_session}
use android_hardware_samsung.Daemon.Client.State.{
  Session, Device, Client, Env, Reply, failed, resolve_device, resolve_session, delete_session,
}
use android_hardware_samsung.Daemon.Client.Wire.{word, words, SessionHandle, is_complete}
use android_hardware_samsung.Daemon.Client.Messages.{AreWords, message_read, get_word-word}
use android_hardware_samsung.Daemon.Client.Counts.{count, in_buffers, unregister_all_lem}
use android_hardware_samsung.Daemon.Client.Places.{
  Place, put, finds_device, finds_session, removed_in_place,
}
use android_hardware_samsung.Daemon.Client.Closing.{remove_session, mc_close_session}

-- The numbers of the daemon's codes; an MCP code takes 20 bits.
abbrev pub drv_number : DrvResult → ℕ
drv_number DrvResult.ok = 0
drv_number DrvResult.unknown_session = 8
drv_number DrvResult.wsm_not_found = 17
drv_number DrvResult.tci_greater_than_wsm = 17
drv_number DrvResult.mci_error = 15
drv_number (DrvResult.mcp_error e) = 15 + 256 * (e % 2 ^ 20)

abbrev pub code_number : Code → ℕ
code_number (drv r) = drv_number r
code_number Code.daemon_socket = 15
code_number Code.device_not_open = 33
code_number Code.device_already_open = 9
code_number Code.unknown_device = 7
code_number Code.trustlet_not_found = 16
code_number Code.kmod_error = 15
code_number Code.wsm_handle_not_found = 17
code_number Code.nq_failed = 22
code_number Code.unknown_error = 6

abbrev pub is_ok : DrvResult → Bool
is_ok DrvResult.ok = true
is_ok _ = false

is_ok_lem : (r : DrvResult) → (drv_number r == 0) ≡ is_ok r
is_ok_lem DrvResult.ok = refl
is_ok_lem DrvResult.unknown_session = refl
is_ok_lem DrvResult.wsm_not_found = refl
is_ok_lem DrvResult.tci_greater_than_wsm = refl
is_ok_lem DrvResult.mci_error = refl
is_ok_lem (DrvResult.mcp_error e) = ground arith

drv_number_word : (r : DrvResult) → drv_number r < 2 ^ 32
drv_number_word DrvResult.ok = omega arith
drv_number_word DrvResult.unknown_session = omega arith
drv_number_word DrvResult.wsm_not_found = omega arith
drv_number_word DrvResult.tci_greater_than_wsm = omega arith
drv_number_word DrvResult.mci_error = omega arith
drv_number_word (DrvResult.mcp_error e) = omega arith

-- The code that the library reads is the daemon's.
code_read :
    (r : DrvResult) (stale : List ℕ) → (get_word 0 (word (drv_number r) ++ stale) == 0) ≡ is_ok r
code_read r stale =
    ap (λ n. n == 0) (get_word-word (drv_number r) stale (drv_number_word r)) ∙ is_ok_lem r

-- What the library does with the answer to its close.
abbrev pub closed_at : Env → SessionHandle → Session → Bool → Client → Reply
closed_at env h s true c = failed 0 (remove_session env h s c)
closed_at env h s false c = failed 7 c

close_answered :
    (env : Env) (h : SessionHandle) (d : Device) (s : Session) (r : DrvResult) (c : Client)
    → resolve_device h.device_id c.devices ≡ some d
    → resolve_session h.session_id d.sessions ≡ some s
    → env.write_ok 0 ≡ true
    → env.reads 0 ≡ received (word (drv_number r))
    → mc_close_session env (some h) c
      ≡ closed_at env h s
          (is_ok r)
          (record c { sent = (d.connection, words (6 ∷ h.session_id ∷ [])) ∷ c.sent })
unfolding mc_close_session
close_answered env h d s r c e g w a = ground (
  arith,
  code_read r (drop 4 env.stale),
  ap (λ r. is_complete 4 r) a,
  ap (λ r. overlay r env.stale) a,
)

-- What the library is to keep of a session that is closed: nothing. The kernel gives up every
-- handle of its buffers that it does not fail on, as often as they name it.
pub record Forgotten (env : Env) (h : SessionHandle) (c : Client) (p : Place h c) (r : Reply)
    : Type 0 where
  pub code : r.code ≡ 0
  pub out : r.out ≡ []
  pub devices : r.client.devices ≡ put h c p []
  pub registered :
      (k : ℕ)
      → count k r.client.registered ≡ (
          if env.unregister_wsm k == 0
          then count k c.registered - in_buffers k p.session.buffers
          else count k c.registered)
  pub allocated : r.client.allocated ≡ c.allocated
  pub deleted : r.client.deleted ≡ p.session.connection ∷ c.deleted
  pub sent : r.client.sent ≡ (p.device.connection, words (6 ∷ h.session_id ∷ [])) ∷ c.sent

-- What it is to do on any other result of the daemon: to keep everything.
abbrev pub kept : (h : SessionHandle) (c : Client) → Place h c → Reply
kept h c p = record {
  code = 7;
  out = [];
  client = record c { sent = (p.device.connection, words (6 ∷ h.session_id ∷ [])) ∷ c.sent };
}

abbrev pub Closed :
    (env : Env) (h : SessionHandle) (c : Client) → Place h c → DrvResult → Reply → Type 0
Closed env h c p DrvResult.ok r = Forgotten env h c p r
Closed env h c p _ r = r ≡ kept h c p

removed-Forgotten :
    (env : Env) (h : SessionHandle) (c : Client) (p : Place h c)
    → Forgotten env h c p (
        closed_at env h p.session true
          (record c { sent = (p.device.connection, words (6 ∷ h.session_id ∷ [])) ∷ c.sent }))
unfolding remove_session delete_session
removed-Forgotten env h c p = record {
  code = refl;
  out = refl;
  devices = removed_in_place h c p;
  registered = λ k. unregister_all_lem env k p.session.buffers c.registered;
  allocated = refl;
  deleted = refl;
  sent = refl;
}

answered-Closed :
    (env : Env) (h : SessionHandle) (c : Client) (p : Place h c) (r : DrvResult)
    → Closed env h c p r (
        closed_at env h p.session
          (is_ok r)
          (record c { sent = (p.device.connection, words (6 ∷ h.session_id ∷ [])) ∷ c.sent }))
answered-Closed env h c p DrvResult.ok = removed-Forgotten env h c p
answered-Closed env h c p DrvResult.unknown_session = refl
answered-Closed env h c p DrvResult.wsm_not_found = refl
answered-Closed env h c p DrvResult.tci_greater_than_wsm = refl
answered-Closed env h c p DrvResult.mci_error = refl
answered-Closed env h c p (DrvResult.mcp_error e) = refl

-- A close of a session that the library knows, over a connection of the daemon that has opened the
-- device, the daemon reading what was written and the library what was answered: the daemon takes
-- it for a close of that session, whose result it answers. If that is OK, the library answers OK,
-- takes the session, the first of the handle's on the first of its devices, out of its lists and
-- nothing else, deletes its connection for notifications and has the kernel unregister its
-- buffers. If not, it keeps everything and answers UNKNOWN_DEVICE, whatever the error.
pub close_session_linked :
    (conn : ℕ) (env : Env) (h : SessionHandle) (c : Client) (p : Place h c) (server : Server.Env)
    (v : Driver)
    → h.session_id < 2 ^ 32
    → has_device conn v.device.linked ≡ true
    → env.write_ok 0 ≡ true
    → server.reads 0 ≡ received (take 4 (words (6 ∷ h.session_id ∷ [])))
    → server.reads 1 ≡ received (drop 4 (words (6 ∷ h.session_id ∷ [])))
    → env.reads 0
      ≡ received
          (word (drv_number (Commands.close_session conn h.session_id server.world v.device).0))
    → (header_command server ≡ Command.close_session)
      × (process_close_session server conn v ≡ (
          let (r, t) = Commands.close_session conn h.session_id server.world v.device in
          write_result conn (drv r) (record v { device = t })))
      × Closed env h c p
          (Commands.close_session conn h.session_id server.world v.device).0
          (mc_close_session env (some h) c)
unfolding process_close_session AreWords command_of
close_session_linked conn env h c p server v small linked w f0 f1 a =
    let (command, payload) =
      message_read server 6 (h.session_id ∷ []) (omega arith) (small, tt) f0 f1 in
    let r = (Commands.close_session conn h.session_id server.world v.device).0 in
    let answered =
      close_answered env h p.device p.session r c (finds_device h c p) (finds_session h c p) w a in
    (
      command,
      rw (ap read_length f1, linked, payload 0) refl,
      subst (Closed env h c p r) (sym answered) (answered-Closed env h c p r),
    )
