-- ===== src/Daemon/Device/Teardown.antt =====
-- `close` of a connection: which sessions it takes along.
use android_hardware_samsung.Common.{
  ℕ, zero, suc, ◌≡◌, ◌≢◌, inl, inr, Bool, true, false, Option, some, none, List, [], ◌∷◌, length,
  ◌==◌, if◌then◌else◌, Option-cases, refl, ap, ◌∙◌, arith,
}
use android_hardware_samsung.Daemon.Session.{Session}
use android_hardware_samsung.Daemon.Device.State.{
  DrvResult, Command, Call, Device, World, call, cleanup_wsm,
}
use android_hardware_samsung.Daemon.Device.Sessions.{
  get_trustlet_session, remove_trustlet_session, owned,
}
use android_hardware_samsung.Daemon.Device.Commands.{
  exchange, finish_close, close_session_id, close_session,
}
use android_hardware_samsung.Daemon.Device.Exchange.{
  exchange-Exchanged, IsAnswered, exchange_ok_iff,
}
use android_hardware_samsung.Daemon.Device.Close.{
  close_round, close_loop, close, session_at, unlink,
}
use android_hardware_samsung.Daemon.Device.Closing.{close_owned}

-- The sessions of the other connections, in order.
abbrev pub others : ℕ → List Session → List Session
others c [] = []
others c (s ∷ ss) = if s.device_connection == c then others c ss else s ∷ others c ss

abbrev pub is_linked : ℕ → List ℕ → Bool
is_linked c [] = false
is_linked c (x ∷ xs) = if x == c then true else is_linked c xs

remove-others :
    (c id : ℕ) (s : Session) (ss : List Session) (cs : List Call)
    → owned (get_trustlet_session id ss) c ≡ some s
    → others c (remove_trustlet_session id ss cs).0 ≡ others c ss
unfolding get_trustlet_session remove_trustlet_session
remove-others c id s [] cs h = refl
remove-others c id s (t ∷ ss) cs h = ground (arith, remove-others c id s ss cs)

finish-others :
    (c id : ℕ) (s : Session) (r : DrvResult × Device)
    → owned (get_trustlet_session id r.1.sessions) c ≡ some s
    → others c (finish_close id s r).1.sessions ≡ others c r.1.sessions
finish-others c id s (e, d) h = ground (arith, remove-others c id s d.sessions d.calls h)

close_session-others :
    (c id : ℕ) (w : World) (d : Device)
    → others c (close_session c id w d).1.sessions ≡ others c d.sessions
unfolding close_session close_session_id
close_session-others c id w d = elim (Option-cases (owned (get_trustlet_session id d.sessions) c)) [
  | inr (s, e) ↦
      let x = (exchange-Exchanged (Command.close_session id) w d).sessions in
      let r = exchange (Command.close_session id) w d in
      ap (λ p. others c p.1.sessions) (close_owned c id s w d e)
      ∙ (finish-others c id s r (ap (λ ss. owned (get_trustlet_session id ss) c) x ∙ e)
          ∙ ap (others c) x)
  | inl n ↦ rw (n, close_session) refl
]

round-others :
    (c : ℕ) (o : Option Session) (w : World) (d : Device)
    → others c (close_round c o w d).1.sessions ≡ others c d.sessions
unfolding close_round
round-others c none w d = refl
round-others c (some s) w d = ground (arith, close_session-others c s.session_id w d)

loop-others :
    (c p : ℕ) (w : ℕ → World) (d t : Device)
    → close_loop c p w d ≡ some t
    → others c t.sessions ≡ others c d.sessions
unfolding close_loop
loop-others c zero w d t e = cc
loop-others c (suc zero) w d t e = ground (arith, round-others c (session_at d.sessions 0) (w 1) d)
loop-others c (suc (suc p)) w d t e =
    let r = close_round c (session_at d.sessions (suc p)) (w (suc (suc p))) d in
    let h = round-others c (session_at d.sessions (suc p)) (w (suc (suc p))) d in
    ground (arith, loop-others c p w r.1 t, loop-others c (suc p) w r.1 t)

unlink_lem : (c : ℕ) (xs : List ℕ) → is_linked c (unlink c xs) ≡ false
unlink_lem c [] = refl
unlink_lem c (x ∷ xs) = ground (arith, unlink_lem c xs)

-- Where `close` of a connection returns, the sessions of every other connection are still there,
-- the same and in the same order, and the connection is no longer linked to the device.
pub close-others :
    (c : ℕ) (w : ℕ → World) (d t : Device)
    → close c w d ≡ some t
    → (others c t.sessions ≡ others c d.sessions) × (is_linked c t.linked ≡ false)
unfolding close
close-others c w d t e = elim (Option-cases (close_loop c (length d.sessions) w d)) [
  | inl n ↦ ground arith
  | inr (u, f) ↦ ground (arith, loop-others c (length d.sessions) w d u f, unlink_lem c u.linked)
]

remove_rest :
    (id : ℕ) (ss : List Session) (cs : List Call)
    → (remove_trustlet_session id ss cs).0 ≡ (remove_trustlet_session id ss []).0
unfolding remove_trustlet_session
remove_rest id [] cs = refl
remove_rest id (s ∷ ss) cs = ground (arith, remove_rest id ss cs)

finish_rest :
    (id : ℕ) (s : Session) (r : DrvResult × Device)
    → r.0 ≡ DrvResult.ok
    → ((finish_close id s r).0 ≡ DrvResult.ok)
      × ((finish_close id s r).1.sessions ≡ (remove_trustlet_session id r.1.sessions []).0)
finish_rest id s (e, d) h = rw h (refl, remove_rest id d.sessions d.calls)

-- An answered `closeSession` erases the first session with the id.
erased :
    (c id : ℕ) (s : Session) (w : World) (d : Device)
    → owned (get_trustlet_session id d.sessions) c ≡ some s
    → IsAnswered (Command.close_session id) w d
    → ((close_session c id w d).0 ≡ DrvResult.ok)
      × ((close_session c id w d).1.sessions ≡ (remove_trustlet_session id d.sessions []).0)
erased c id s w d h a =
    let r = exchange (Command.close_session id) w d in
    let f = finish_rest id s r ((exchange_ok_iff (Command.close_session id) w d).1 a) in
    let o = close_owned c id s w d h in
    (
      ap (λ p. p.0) o ∙ f.0,
      ap (λ p. p.1.sessions) o
          ∙ (f.1
              ∙ ap (λ ss. (remove_trustlet_session id ss []).0)
                  (exchange-Exchanged (Command.close_session id) w d).sessions),
    )

-- A connection whose session is the only one of the device cannot be closed: once the secure
-- world answers the command, the loop of `close` steps before the beginning of the list.
pub close_alone :
    (c : ℕ) (s : Session) (w : ℕ → World) (d : Device)
    → d.sessions ≡ s ∷ []
    → s.device_connection ≡ c
    → IsAnswered (Command.close_session s.session_id) (w 1) d
    → close c w d ≡ none
unfolding close close_loop close_round get_trustlet_session
close_alone c s w d e o a =
    let h : owned (get_trustlet_session s.session_id d.sessions) c ≡ some s = ground arith in
    ground (arith, erased c s.session_id s (w 1) d h a)

-- The loop of `close` passes over the session before one that it erases: of the sessions of three
-- ids, the first another connection's, the other two the client's, only the last is closed when
-- the secure world answers, and the client's other session stays although `close` returns.
pub close_skips :
    (c : ℕ) (x y z : Session) (w : ℕ → World) (d : Device)
    → d.sessions ≡ x ∷ y ∷ z ∷ []
    → x.device_connection ≢ c
    → y.device_connection ≡ c
    → z.device_connection ≡ c
    → x.session_id ≢ z.session_id
    → y.session_id ≢ z.session_id
    → IsAnswered (Command.close_session z.session_id) (w 3) d
    → ((t : Device) × (close c w d ≡ some t) × (t.sessions ≡ x ∷ y ∷ []))
unfolding close close_loop close_round get_trustlet_session remove_trustlet_session
close_skips c x y z w d e ox oy oz nx ny a =
    let h : owned (get_trustlet_session z.session_id d.sessions) c ≡ some z = ground arith in
    let f = erased c z.session_id z (w 3) d h a in
    let u = (close_session c z.session_id (w 3) d).1 in
    (record (call cleanup_wsm u) { linked = unlink c u.linked }, ground arith, ground arith)
