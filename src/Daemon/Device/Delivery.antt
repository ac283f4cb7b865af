-- ===== src/Daemon/Device/Delivery.antt =====
-- Notifications from the secure world to the clients.
use mathlib.Core.Path.{subst}
use android_hardware_samsung.Common.{
  ℕ, zero, suc, ◌<◌, ◌≡◌, ◌≢◌, Option, some, none, List, [], ◌∷◌, ◌++◌, length, refl, sym, ap, ◌∙◌,
  arith,
}
use android_hardware_samsung.Daemon.NotificationQueue.{
  Notification, Ring, Queues, get_notification, get_ring,
}
use android_hardware_samsung.Daemon.NotificationQueue.Refine.{
  IsValid, contents, get_ring_at, get_ring-IsValid,
}
use android_hardware_samsung.Daemon.NotificationQueue.Fifo
use android_hardware_samsung.Daemon.Session.{Session, queue_notification}
use android_hardware_samsung.Daemon.Device.State.{Device, call, wake_scheduler}
use android_hardware_samsung.Daemon.Device.Sessions.{
  get_trustlet_session, get_session_connection, queue_unknown_notification, handle_notification,
  handle_all, update_at,
}

-- A notification of a session that has no connection for notifications yet is kept twice: behind
-- those of the session and behind those of the device. Nothing is called.
pub kept_twice :
    (n : Notification) (s : Session) (d : Device)
    → n.session_id ≢ 0
    → get_trustlet_session n.session_id d.sessions ≡ some s
    → s.notification_connection ≡ none
    → ((handle_notification n d).notifications ≡ d.notifications ++ (n ∷ []))
      × ((handle_notification n d).sessions ≡ update_at s.address (queue_notification n) d.sessions)
      × ((handle_notification n d).calls ≡ d.calls)
unfolding handle_notification get_session_connection queue_unknown_notification
kept_twice n s d z f e = ground arith

-- The notifications, handled in order.
abbrev pub deliver : List Notification → Device → Device
deliver [] d = d
deliver (n ∷ ns) d = deliver ns (handle_notification n d)

handle_notification_queues :
    (n : Notification) (d : Device) (q : Queues)
    → handle_notification n (record d { queues = q })
      ≡ record (handle_notification n d) { queues = q }
unfolding handle_notification get_session_connection queue_unknown_notification
handle_notification_queues n d q = ground arith

deliver_queues :
    (ns : List Notification) (d : Device) (q : Queues)
    → deliver ns (record d { queues = q }) ≡ record (deliver ns d) { queues = q }
deliver_queues [] d q = refl
deliver_queues (n ∷ ns) d q =
    ap (deliver ns) (handle_notification_queues n d q)
    ∙ deliver_queues ns (handle_notification n d) q

-- What the loop leaves of a device whose incoming queue holds some notifications.
pub record Delivered (ns : List Notification) (d t : Device) : Type 0 where
  pub emptied : contents t.queues.in_ring ≡ []
  pub sessions : t.sessions ≡ (deliver ns d).sessions
  pub notifications : t.notifications ≡ (deliver ns d).notifications
  pub calls : t.calls ≡ wake_scheduler ∷ (deliver ns d).calls

-- A round of the loop, by what the queue gives.
abbrev round : ℕ → Device → Option Notification × Ring → Option Device
round fuel d (none, i) =
    some (call wake_scheduler (record d { queues = record d.queues { in_ring = i } }))
round fuel d (some m, i) =
    handle_all fuel (handle_notification m (record d { queues = record d.queues { in_ring = i } }))

handle_all_step :
    (fuel : ℕ) (d : Device) → handle_all (suc fuel) d ≡ round fuel d (get_ring d.queues.in_ring)
unfolding handle_all get_notification
handle_all_step fuel d = go (get_ring d.queues.in_ring) refl
  where
    go :
        (r : Option Notification × Ring)
        → get_ring d.queues.in_ring ≡ r
        → handle_all (suc fuel) d ≡ round fuel d r
    go (none, i) e = ground arith
    go (some m, i) e = ground arith

-- The loop drains every queue that holds fewer notifications than the fuel.
abbrev Drains : ℕ → Type 0
Drains fuel =
    (ns : List Notification) (d : Device)
    → IsValid d.queues.in_ring
    → contents d.queues.in_ring ≡ ns
    → length ns < fuel
    → ((t : Device) × (handle_all fuel d ≡ some t) × Delivered ns d t)

drain_step : (fuel : ℕ) → Drains fuel → Drains (suc fuel)
unfolding Fifo.take_first
drain_step fuel ih ns d v e h =
    go ns (get_ring d.queues.in_ring) refl
      (get_ring_at d.queues.in_ring _ v refl ∙ ap Fifo.take_first e) h
  where
    go :
        (ns : List Notification) (r : Option Notification × Ring)
        → get_ring d.queues.in_ring ≡ r
        → ((get_ring d.queues.in_ring).0, contents (get_ring d.queues.in_ring).1)
          ≡ Fifo.take_first ns
        → length ns < suc fuel
        → ((t : Device) × (handle_all (suc fuel) d ≡ some t) × Delivered ns d t)
    go [] (some m, i) p q l = let x = sym (ap (λ z. z.0) p) ∙ ap (λ z. z.0) q in cc
    go [] (none, i) p q l = (
      _,
      handle_all_step fuel d ∙ ap (round fuel d) p,
      record {
        emptied = ap (λ (z : Option Notification × Ring). contents z.1) (sym p) ∙ ap (λ z. z.1) q;
        sessions = refl;
        notifications = refl;
        calls = refl;
      },
    )
    go (n ∷ ns) (none, i) p q l = let x = sym (ap (λ z. z.0) p) ∙ ap (λ z. z.0) q in cc
    go (n ∷ ns) (some m, i) p q l =
        let same : m ≡ n = let x = sym (ap (λ z. z.0) p) ∙ ap (λ z. z.0) q in cc in
        let left : contents i ≡ ns =
          ap (λ (z : Option Notification × Ring). contents z.1) (sym p) ∙ ap (λ z. z.1) q in
        let valid : IsValid i =
          subst (λ (z : Option Notification × Ring). IsValid z.1) p
            (get_ring-IsValid d.queues.in_ring v) in
        let qs = record d.queues { in_ring = i } in
        let (t, f, r) =
          ih ns (record (handle_notification n d) { queues = qs }) valid left (omega arith) in
        let u = deliver_queues ns (handle_notification n d) qs in
        (
          t,
          handle_all_step fuel d
              ∙ (ap (round fuel d) p
                  ∙ (ap (handle_all fuel) (handle_notification_queues m d qs)
                      ∙ (ap
                            (λ k.
                              handle_all fuel (record (handle_notification k d) { queues = qs }))
                            same
                          ∙ f))),
          record {
            emptied = r.emptied;
            sessions = r.sessions ∙ ap (λ (z : Device). z.sessions) u;
            notifications = r.notifications ∙ ap (λ (z : Device). z.notifications) u;
            calls = r.calls ∙ ap (λ (z : Device). wake_scheduler ∷ z.calls) u;
          },
        )

drain : (fuel : ℕ) → Drains fuel
drain zero = λ ns d v e h. elim h [ ]
drain (suc fuel) = drain_step fuel (drain fuel)

-- `handleIrq` delivers every notification that the incoming queue holds, in order, and then wakes
-- the scheduler: with more fuel than there are notifications the loop ends, the queue is empty,
-- and the sessions, the notifications kept and the calls are those of handling one after another.
pub handle_all-Delivered :
    (fuel : ℕ) (d : Device)
    → IsValid d.queues.in_ring
    → length (contents d.queues.in_ring) < fuel
    → ((t : Device) × (handle_all fuel d ≡ some t) × Delivered (contents d.queues.in_ring) d t)
handle_all-Delivered fuel d v h = drain fuel (contents d.queues.in_ring) d v refl h
