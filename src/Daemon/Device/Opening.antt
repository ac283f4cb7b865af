-- ===== src/Daemon/Device/Opening.antt =====
-- `openSession`, and `closeSession` behind it: the session list and the locks on the client's
-- shared memory.
use android_hardware_samsung.Common.{
  ℕ, suc, ◌-◌, ◌≡◌, ◌≢◌, ◌⊎◌, inl, inr, Bool, true, false, ◌||◌, Option, some, none, List, [], ◌∷◌,
  ◌++◌, ltb, ◌==◌, if◌then◌else◌, Bool-cases, refl, sym, ap, ◌∙◌, arith,
}
use android_hardware_samsung.Daemon.NotificationQueue.{Notification}
use android_hardware_samsung.Daemon.Session.{
  Session, new_session, queue_notification, add_bulk_buff, find, insert,
}
use android_hardware_samsung.Daemon.Device.State.{
  DrvResult, Command, Call, Device, World, Response, lock_wsm, unlock_wsm, cleanup_wsm, nsiq,
  write_notification, delete_connection, signal_mcp, wake_scheduler,
}
use android_hardware_samsung.Daemon.Device.Commands.{
  Tci, LoadData, find_tci, exchange, check, queue_all, opened, open_locked, open_session,
  open_command, finish_open, open_found,
}
use android_hardware_samsung.Daemon.Device.Exchange.{exchange-Exchanged}

-- How often a handle is locked, by the calls so far.
abbrev pub held : ℕ → List Call → ℕ
held h [] = 0
held h (lock_wsm k ∷ cs) = if k == h then suc (held h cs) else held h cs
held h (unlock_wsm k ∷ cs) = if k == h then held h cs - 1 else held h cs
held h (cleanup_wsm ∷ cs) = held h cs
held h (nsiq ∷ cs) = held h cs
held h (write_notification c n ∷ cs) = held h cs
held h (delete_connection c ∷ cs) = held h cs
held h (signal_mcp ∷ cs) = held h cs
held h (wake_scheduler ∷ cs) = held h cs

unlock_lock : (k h : ℕ) (cs : List Call) → held k (unlock_wsm h ∷ lock_wsm h ∷ cs) ≡ held k cs
unlock_lock k h cs = ground arith

pub held-exchange :
    (k : ℕ) (cmd : Command) (w : World) (d : Device)
    → held k (exchange cmd w d).1.calls ≡ held k d.calls
held-exchange k cmd w d = ap (held k) (exchange-Exchanged cmd w d).calls

check_not_tci :
    (cmd : Command) (r : Response) (b : Bool × Device)
    → (check cmd r b).0 ≢ DrvResult.tci_greater_than_wsm
check_not_tci cmd r (false, d) e = cc
check_not_tci cmd r (true, d) e = ground arith

exchange_not_tci :
    (cmd : Command) (w : World) (d : Device) → (exchange cmd w d).0 ≢ DrvResult.tci_greater_than_wsm
unfolding exchange
exchange_not_tci cmd w d = check_not_tci cmd w.response _

-- The session that an open is to make, with the TCI as its one buffer.
abbrev pub expected : ℕ → LoadData → ℕ → World → List Notification → Session
expected c load handle w ns = record {
  address = w.address;
  notifications = ns;
  buffers = record { virt_addr = load.offs; len = load.len; handle = handle; phys_addr = 0 } ∷ [];
  session_id = w.response.session_id;
  session_magic = w.magic;
  device_connection = c;
  notification_connection = none;
}

append_nil : (ns : List Notification) → ns ++ [] ≡ ns
append_nil [] = refl
append_nil (n ∷ ns) = ap (λ ms. n ∷ ms) (append_nil ns)

append_one :
    (ms : List Notification) (n : Notification) (ns : List Notification)
    → (ms ++ (n ∷ [])) ++ ns ≡ ms ++ (n ∷ ns)
append_one [] n ns = refl
append_one (m ∷ ms) n ns = ap (λ ms. m ∷ ms) (append_one ms n ns)

queue_all_lem :
    (ns : List Notification) (s : Session)
    → queue_all ns s ≡ record s { notifications = s.notifications ++ ns }
unfolding queue_notification
queue_all_lem [] s = ap (λ ms. record s { notifications = ms }) (sym (append_nil s.notifications))
queue_all_lem (n ∷ ns) s =
    queue_all_lem ns (queue_notification n s)
    ∙ ap (λ ms. record s { notifications = ms }) (append_one s.notifications n ns)

opened_lem :
    (c : ℕ) (load : LoadData) (handle : ℕ) (w : World) (ns : List Notification)
    → opened c load handle w ns ≡ expected c load handle w ns
unfolding opened add_bulk_buff find insert new_session
opened_lem c load handle w ns = queue_all_lem ns (expected c load handle w [])

-- What a successful open leaves.
pub record Opened (c : ℕ) (load : LoadData) (handle : ℕ) (w : World) (d t : Device) : Type 0 where
  pub sessions : t.sessions ≡ d.sessions ++ (expected c load handle w w.early ∷ [])
  pub notifications : t.notifications ≡ []
  pub locks : (k : ℕ) → held k t.calls ≡ held k (lock_wsm handle ∷ d.calls)

-- What a failed one leaves.
pub record Refused (handle : ℕ) (e : DrvResult) (d t : Device) : Type 0 where
  pub sessions : t.sessions ≡ d.sessions
  pub locks :
      (e ≢ DrvResult.tci_greater_than_wsm) × ((k : ℕ) → held k t.calls ≡ held k d.calls)
      ⊎ (e ≡ DrvResult.tci_greater_than_wsm)
        × ((k : ℕ) → held k t.calls ≡ held k (lock_wsm handle ∷ d.calls))

-- Both, by the result.
abbrev Outcome : ℕ → LoadData → ℕ → World → Device → DrvResult × Device → Type 0
Outcome c load handle w d (e, t) =
    (e ≡ DrvResult.ok → Opened c load handle w d t) × (e ≢ DrvResult.ok → Refused handle e d t)

failed :
    (c : ℕ) (load : LoadData) (handle : ℕ) (w : World) (d t : Device) (e : DrvResult)
    → t.sessions ≡ d.sessions
    → ((k : ℕ) → held k t.calls ≡ held k (lock_wsm handle ∷ d.calls))
    → e ≢ DrvResult.ok
    → e ≢ DrvResult.tci_greater_than_wsm
    → Outcome c load handle w d (e, record t { calls = unlock_wsm handle ∷ t.calls })
failed c load handle w d t e s h o x = (
  λ p. absurd (o p),
  λ p. record { sessions = s; locks = inl (x, λ k. unlock_both k handle t.calls d.calls (h k)) },
)
  where
    unlock_both :
        (k a : ℕ) (xs ys : List Call)
        → held k xs ≡ held k (lock_wsm a ∷ ys)
        → held k (unlock_wsm a ∷ xs) ≡ held k ys
    unlock_both k a xs ys h = ground arith

finish-Outcome :
    (c : ℕ) (load : LoadData) (handle : ℕ) (w : World) (d t : Device) (e : DrvResult)
    → t.sessions ≡ d.sessions
    → t.notifications ≡ w.early
    → ((k : ℕ) → held k t.calls ≡ held k (lock_wsm handle ∷ d.calls))
    → e ≢ DrvResult.tci_greater_than_wsm
    → Outcome c load handle w d (finish_open c load handle w (e, t))
finish-Outcome c load handle w d t DrvResult.ok s n h x = (
  λ p. record {
    sessions = rw (s, n, opened_lem c load handle w w.early) refl;
    notifications = refl;
    locks = h;
  },
  λ p. absurd (p refl),
)
finish-Outcome c load handle w d t DrvResult.unknown_session s n h x =
    failed c load handle w d t _ s h (λ p. cc) x
finish-Outcome c load handle w d t DrvResult.wsm_not_found s n h x =
    failed c load handle w d t _ s h (λ p. cc) x
finish-Outcome c load handle w d t DrvResult.tci_greater_than_wsm s n h x = absurd (x refl)
finish-Outcome c load handle w d t DrvResult.mci_error s n h x =
    failed c load handle w d t _ s h (λ p. cc) x
finish-Outcome c load handle w d t (DrvResult.mcp_error m) s n h x =
    failed c load handle w d t _ s h (λ p. cc) x

locked-Outcome :
    (c : ℕ) (load : LoadData) (handle tci_len : ℕ) (tci : Tci) (w : World) (d : Device)
    → Outcome c load handle w d
        (open_locked c load handle tci_len tci w (record d { calls = lock_wsm handle ∷ d.calls }))
unfolding open_locked
locked-Outcome c load handle tci_len tci w d =
    elim (Bool-cases (tci_len == 0 || ltb tci.len tci_len)) [
      | inl y ↦ rw y (λ p. cc, λ p. record { sessions = refl; locks = inr (refl, λ k. refl) })
      | inr n ↦
          let asked = record d { calls = lock_wsm handle ∷ d.calls; notifications = [] } in
          let cmd = open_command load tci tci_len in
          let x = exchange-Exchanged cmd w asked in
          rw n (
            finish-Outcome c load handle w d (exchange cmd w asked).1 (exchange cmd w asked).0
              x.sessions x.notifications (λ k. held-exchange k cmd w asked)
              (exchange_not_tci cmd w asked))
    ]

open-Outcome :
    (c : ℕ) (load : LoadData) (handle tci_len tci_offset : ℕ) (w : World) (d : Device)
    → Outcome c load handle w d (open_session c load handle tci_len tci_offset w d)
unfolding open_session
open-Outcome c load handle tci_len tci_offset w d = found (find_tci w c handle tci_len tci_offset)
  where
    refused : Outcome c load handle w d (DrvResult.wsm_not_found, d)
    refused = (λ p. cc, λ p. record { sessions = refl; locks = inl (λ q. cc, λ k. refl) })

    found : (o : Option Tci) → Outcome c load handle w d (open_found o c load handle tci_len w d)
    found none = refused
    found (some tci) = elim (Bool-cases (w.lock_ok handle)) [
      | inl y ↦ rw y (locked-Outcome c load handle tci_len tci w d)
      | inr n ↦ rw n refused
    ]

-- A successful `openSession` appends one session: with the id of the answer, the client's
-- connection, the TCI as its only buffer, no connection for notifications and, in order, exactly
-- the notifications that came before the answer; it empties the queue of those, and the client's
-- shared memory stays locked once more than before.
pub open_session-Opened :
    (c : ℕ) (load : LoadData) (handle tci_len tci_offset : ℕ) (w : World) (d : Device)
    → (open_session c load handle tci_len tci_offset w d).0 ≡ DrvResult.ok
    → Opened c load handle w d (open_session c load handle tci_len tci_offset w d).1
open_session-Opened c load handle tci_len tci_offset w d =
    (open-Outcome c load handle tci_len tci_offset w d).0

-- A failed `openSession` leaves the session list as it was, and every lock on shared memory as
-- it was, but with one exception: after the check of the TCI's length fails, the client's
-- memory stays locked once more than before.
pub open_session-Refused :
    (c : ℕ) (load : LoadData) (handle tci_len tci_offset : ℕ) (w : World) (d : Device)
    → (open_session c load handle tci_len tci_offset w d).0 ≢ DrvResult.ok
    → Refused handle
        (open_session c load handle tci_len tci_offset w d).0
        d
        (open_session c load handle tci_len tci_offset w d).1
open_session-Refused c load handle tci_len tci_offset w d =
    (open-Outcome c load handle tci_len tci_offset w d).1
