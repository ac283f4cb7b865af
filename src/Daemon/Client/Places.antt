-- ===== src/Daemon/Client/Places.antt =====
-- Where a session stands in the client library: the device lists and session lists that a handle
-- names, taken apart at what it names.
use android_hardware_samsung.Common.{ℕ, ◌≡◌, ◌≢◌, some, List, [], ◌∷◌, ◌++◌, ap, ◌∙◌, arith}
use android_hardware_samsung.Daemon.Client.State.{
  Session, Device, Client, resolve_device, resolve_session, at_device, at_session,
}
use android_hardware_samsung.Daemon.Client.Wire.{SessionHandle}
use android_hardware_samsung.Daemon.Client.Closing.{without_session}

-- No device, or no session, of the list has the id.
abbrev pub NoDevice : ℕ → List Device → Type 0
NoDevice id [] = Unit
NoDevice id (d ∷ ds) = (d.device_id ≢ id) × NoDevice id ds

abbrev pub NoSession : ℕ → List Session → Type 0
NoSession id [] = Unit
NoSession id (s ∷ ss) = (s.session_id ≢ id) × NoSession id ss

-- The handle names a session of the client: the first with its id, on the first device with its.
pub record Place (h : SessionHandle) (c : Client) : Type 0 where
  pub earlier : List Device
  pub device : Device
  pub later : List Device
  pub before : List Session
  pub session : Session
  pub after : List Session
  pub devices : c.devices ≡ earlier ++ device ∷ later
  pub sessions : device.sessions ≡ before ++ session ∷ after
  pub device_named : device.device_id ≡ h.device_id
  pub session_named : session.session_id ≡ h.session_id
  pub first_device : NoDevice h.device_id earlier
  pub first_session : NoSession h.session_id before

-- The devices with other sessions in that place, and nothing else changed.
abbrev pub put : (h : SessionHandle) (c : Client) → Place h c → List Session → List Device
put h c p ss = p.earlier ++ record (p.device) { sessions = p.before ++ (ss ++ p.after) } ∷ p.later

resolve_device_lem :
    (id : ℕ) (ds : List Device) (d : Device) (es : List Device)
    → NoDevice id ds
    → d.device_id ≡ id
    → resolve_device id (ds ++ d ∷ es) ≡ some d
unfolding resolve_device
resolve_device_lem id [] d es n e = ground arith
resolve_device_lem id (x ∷ ds) d es n e = ground (arith, resolve_device_lem id ds d es n.1 e)

at_device_lem :
    (id : ℕ) (f : Device → Device) (ds : List Device) (d : Device) (es : List Device)
    → NoDevice id ds
    → d.device_id ≡ id
    → at_device id f (ds ++ d ∷ es) ≡ ds ++ f d ∷ es
at_device_lem id f [] d es n e = ground arith
at_device_lem id f (x ∷ ds) d es n e = ground (arith, at_device_lem id f ds d es n.1 e)

resolve_session_lem :
    (id : ℕ) (ss : List Session) (s : Session) (ts : List Session)
    → NoSession id ss
    → s.session_id ≡ id
    → resolve_session id (ss ++ s ∷ ts) ≡ some s
unfolding resolve_session
resolve_session_lem id [] s ts n e = ground arith
resolve_session_lem id (x ∷ ss) s ts n e = ground (arith, resolve_session_lem id ss s ts n.1 e)

at_session_lem :
    (id : ℕ) (f : Session → Session) (ss : List Session) (s : Session) (ts : List Session)
    → NoSession id ss
    → s.session_id ≡ id
    → at_session id f (ss ++ s ∷ ts) ≡ ss ++ f s ∷ ts
at_session_lem id f [] s ts n e = ground arith
at_session_lem id f (x ∷ ss) s ts n e = ground (arith, at_session_lem id f ss s ts n.1 e)

without_session_lem :
    (id : ℕ) (ss : List Session) (s : Session) (ts : List Session)
    → NoSession id ss
    → s.session_id ≡ id
    → without_session id (ss ++ s ∷ ts) ≡ ss ++ ts
without_session_lem id [] s ts n e = ground arith
without_session_lem id (x ∷ ss) s ts n e = ground (arith, without_session_lem id ss s ts n.1 e)

-- The two searches of the library find the place.
pub finds_device :
    (h : SessionHandle) (c : Client) (p : Place h c)
    → resolve_device h.device_id c.devices ≡ some p.device
finds_device h c p =
    ap (resolve_device h.device_id) p.devices
    ∙ resolve_device_lem h.device_id p.earlier p.device p.later p.first_device p.device_named

pub finds_session :
    (h : SessionHandle) (c : Client) (p : Place h c)
    → resolve_session h.session_id p.device.sessions ≡ some p.session
finds_session h c p =
    ap (resolve_session h.session_id) p.sessions
    ∙ resolve_session_lem h.session_id p.before p.session p.after p.first_session p.session_named

-- A change of the session through the two pointers, and its removal, are made in that place.
pub changed_in_place :
    (h : SessionHandle) (c : Client) (p : Place h c) (f : Session → Session)
    → at_device h.device_id
        (λ d. record d { sessions = at_session h.session_id f d.sessions })
        c.devices
      ≡ put h c p (f p.session ∷ [])
changed_in_place h c p f =
    let change : Device → Device =
      λ d. record d { sessions = at_session h.session_id f d.sessions } in
    ap (at_device h.device_id change) p.devices
    ∙ (at_device_lem h.device_id change p.earlier p.device p.later p.first_device p.device_named
        ∙ ap (λ ss. p.earlier ++ record (p.device) { sessions = ss } ∷ p.later)
            (ap (at_session h.session_id f) p.sessions
              ∙ at_session_lem h.session_id f p.before p.session p.after p.first_session
                  p.session_named))

pub removed_in_place :
    (h : SessionHandle) (c : Client) (p : Place h c)
    → at_device h.device_id
        (λ d. record d { sessions = without_session h.session_id d.sessions })
        c.devices
      ≡ put h c p []
removed_in_place h c p =
    let remove : Device → Device =
      λ d. record d { sessions = without_session h.session_id d.sessions } in
    ap (at_device h.device_id remove) p.devices
    ∙ (at_device_lem h.device_id remove p.earlier p.device p.later p.first_device p.device_named
        ∙ ap (λ ss. p.earlier ++ record (p.device) { sessions = ss } ∷ p.later)
            (ap (without_session h.session_id) p.sessions
              ∙ without_session_lem h.session_id p.before p.session p.after p.first_session
                  p.session_named))
