-- ===== src/Daemon/Device/Closing.antt =====
-- `closeSession` of the session that `openSession` made.
use android_hardware_samsung.Common.{
  ℕ, ◌≡◌, some, none, List, [], ◌∷◌, ◌++◌, refl, sym, ap, ◌∙◌, arith,
}
use android_hardware_samsung.Daemon.NotificationQueue.{Notification}
use android_hardware_samsung.Daemon.Session.{Session}
use android_hardware_samsung.Daemon.Session.Buffers.{clean_session_buffers_lem}
use android_hardware_samsung.Daemon.Device.State.{
  DrvResult, Command, Call, Device, World, lock_wsm, unlock_wsm, nsiq,
}
use android_hardware_samsung.Daemon.Device.Sessions.{
  get_trustlet_session, remove_trustlet_session, owned,
}
use android_hardware_samsung.Daemon.Device.Commands.{
  LoadData, exchange, open_session, finish_close, close_session_id, close_session,
}
use android_hardware_samsung.Daemon.Device.Exchange.{
  exchange-Exchanged, IsAnswered, exchange_ok_iff,
}
use android_hardware_samsung.Daemon.Device.Opening.{held, expected, Opened, open_session-Opened}

find_last :
    (id : ℕ) (s : Session) (ss : List Session)
    → s.session_id ≡ id
    → get_trustlet_session id ss ≡ none
    → get_trustlet_session id (ss ++ (s ∷ [])) ≡ some s
unfolding get_trustlet_session
find_last id s [] e n = ground arith
find_last id s (t ∷ ss) e n = ground (arith, find_last id s ss e)

remove_last :
    (id : ℕ) (s : Session) (ss : List Session) (cs : List Call)
    → s.session_id ≡ id
    → get_trustlet_session id ss ≡ none
    → remove_trustlet_session id (ss ++ (s ∷ [])) cs
      ≡ (ss, (remove_trustlet_session id (s ∷ []) cs).1)
unfolding get_trustlet_session remove_trustlet_session
remove_last id s [] cs e n = ground arith
remove_last id s (t ∷ ss) cs e n = ground (arith, remove_last id s ss cs e)

remove_expected :
    (c : ℕ) (load : LoadData) (handle : ℕ) (w : World) (ns : List Notification) (cs : List Call)
    → (remove_trustlet_session w.response.session_id (expected c load handle w ns ∷ []) cs).1
      ≡ unlock_wsm handle ∷ cs
unfolding remove_trustlet_session
remove_expected c load handle w ns cs =
    ground (arith, clean_session_buffers_lem (expected c load handle w ns))

pub finish_close_ok :
    (id : ℕ) (s : Session) (r : DrvResult × Device) (ss : List Session) (cs : List Call)
    → r.0 ≡ DrvResult.ok
    → remove_trustlet_session id r.1.sessions r.1.calls ≡ (ss, cs)
    → s.notification_connection ≡ none
    → finish_close id s r ≡ (DrvResult.ok, record r.1 { sessions = ss; calls = cs })
finish_close_ok id s (e, d) ss cs o g n = rw (o, g, n) refl

pub close_owned :
    (c id : ℕ) (s : Session) (w : World) (d : Device)
    → owned (get_trustlet_session id d.sessions) c ≡ some s
    → close_session c id w d ≡ finish_close id s (exchange (Command.close_session id) w d)
unfolding close_session close_session_id
close_owned c id s w d h = rw (h, close_session) refl

-- `closeSession` of a session just opened, whose number no other session has, when the secure
-- world answers: it answers `ok`, the session list is what it was before the open, and so is
-- every lock on shared memory.
pub close-open :
    (c : ℕ) (load : LoadData) (handle tci_len tci_offset : ℕ) (w v : World) (d t : Device)
    → open_session c load handle tci_len tci_offset w d ≡ (DrvResult.ok, t)
    → get_trustlet_session w.response.session_id d.sessions ≡ none
    → IsAnswered (Command.close_session w.response.session_id) v t
    → ((close_session c w.response.session_id v t).0 ≡ DrvResult.ok)
      × ((close_session c w.response.session_id v t).1.sessions ≡ d.sessions)
      × ((k : ℕ) → held k (close_session c w.response.session_id v t).1.calls ≡ held k d.calls)
close-open c load handle tci_len tci_offset w v d t e n a =
    let id = w.response.session_id in
    let s = expected c load handle w w.early in
    let o : Opened c load handle w d t =
      rw (sym (ap (λ r. r.1) e))
        (open_session-Opened c load handle tci_len tci_offset w d (ap (λ r. r.0) e)) in
    let found : get_trustlet_session id t.sessions ≡ some s =
      rw o.sessions (find_last id s d.sessions refl n) in
    let mine : owned (get_trustlet_session id t.sessions) c ≡ some s = rw found (owner c s refl) in
    let r = exchange (Command.close_session id) v t in
    let x = exchange-Exchanged (Command.close_session id) v t in
    let gone : remove_trustlet_session id r.1.sessions r.1.calls
        ≡ (d.sessions, unlock_wsm handle ∷ r.1.calls) =
      ap (λ ss. remove_trustlet_session id ss r.1.calls) (x.sessions ∙ o.sessions)
      ∙ (remove_last id s d.sessions r.1.calls refl n
          ∙ ap (λ cs. (d.sessions, cs)) (remove_expected c load handle w w.early r.1.calls)) in
    let done =
      finish_close_ok id s r d.sessions (unlock_wsm handle ∷ r.1.calls)
        ((exchange_ok_iff (Command.close_session id) v t).1 a) gone refl in
    let all = close_owned c id s v t mine ∙ done in
    (
      ap (λ p. p.0) all,
      ap (λ p. p.1.sessions) all,
      λ k. ap (λ p. held k p.1.calls) all ∙ balanced k r.1.calls t.calls x.calls (o.locks k),
    )
  where
    owner : (c : ℕ) (s : Session) → s.device_connection ≡ c → owned (some s) c ≡ some s
    owner c s e = ground arith

    balanced :
        (k : ℕ) (xs ys : List Call)
        → xs ≡ nsiq ∷ ys
        → held k ys ≡ held k (lock_wsm handle ∷ d.calls)
        → held k (unlock_wsm handle ∷ xs) ≡ held k d.calls
    balanced k xs ys p q = rw p (ground arith)
