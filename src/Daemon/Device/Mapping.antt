-- ===== src/Daemon/Device/Mapping.antt =====
-- `mapBulk` and `unmapBulk`: what they leave of the sessions.
use android_hardware_samsung.Common.{
  ℕ, ◌≡◌, ◌↔◌, inl, inr, Option, some, none, List, [], ◌∷◌, ◌==◌, if◌then◌else◌, refl, sym, ap, ◌∙◌,
  arith,
}
use android_hardware_samsung.Daemon.Session.{Session, find, add_bulk_buff, remove_bulk_buff}
use android_hardware_samsung.Daemon.Session.Buffers.{IsAscending, add_bulk_buff_lem}
use android_hardware_samsung.Daemon.Device.State.{DrvResult, Command, Device, World}
use android_hardware_samsung.Daemon.Device.Sessions.{get_trustlet_session, update_at, owned}
use android_hardware_samsung.Daemon.Device.Commands.{
  exchange, finish_map, finish_unmap, map_bulk, unmap_bulk,
}
use android_hardware_samsung.Daemon.Device.Exchange.{
  exchange-Exchanged, IsAnswered, exchange_ok_iff,
}

-- The object at an address.
abbrev pub at_address : ℕ → List Session → Option Session
at_address a [] = none
at_address a (s ∷ ss) = if s.address == a then some s else at_address a ss

-- The session with the buffer of a `mapBulk`.
abbrev pub mapped : ℕ → ℕ → ℕ → ℕ → Session → Session
mapped handle p_addr offset len s =
    (add_bulk_buff
      (some (record { virt_addr = offset; len = len; handle = handle; phys_addr = p_addr })) s).1

update_update :
    (a : ℕ) (f g : Session → Session) (ss : List Session)
    → ((s : Session) → (g s).address ≡ s.address)
    → update_at a f (update_at a g ss) ≡ update_at a (λ s. f (g s)) ss
update_update a f g [] h = refl
update_update a f g (s ∷ ss) h = ground (arith, h s, update_update a f g ss h)

update_same :
    (a : ℕ) (f : Session → Session) (s : Session) (ss : List Session)
    → at_address a ss ≡ some s
    → f s ≡ s
    → update_at a f ss ≡ ss
update_same a f s [] h e = refl
update_same a f s (t ∷ ss) h e = ground (arith, update_same a f s ss)

found_id :
    (id : ℕ) (s : Session) (ss : List Session)
    → get_trustlet_session id ss ≡ some s
    → s.session_id ≡ id
unfolding get_trustlet_session
found_id id s [] e = ground arith
found_id id s (t ∷ ss) e = ground (arith, found_id id s ss)

found-update :
    (id : ℕ) (g : Session → Session) (s : Session) (ss : List Session)
    → get_trustlet_session id ss ≡ some s
    → at_address s.address ss ≡ some s
    → ((t : Session) → (g t).session_id ≡ t.session_id)
    → get_trustlet_session id (update_at s.address g ss) ≡ some (g s)
unfolding get_trustlet_session
found-update id g s [] e a h = ground arith
found-update id g s (t ∷ ss) e a h =
    let i = found_id id s (t ∷ ss) e in ground (arith, h t, found-update id g s ss)

owned-some :
    (o : Option Session) (c : ℕ) (s : Session)
    → owned o c ≡ some s
    → (o ≡ some s) × (s.device_connection ≡ c)
owned-some none c s e = ground arith
owned-some (some t) c s e = ground arith

-- The first session with the id and the device after a `mapBulk`.
abbrev pub recorded : ℕ → ℕ → ℕ → ℕ → Session → Device → Device
recorded handle p_addr offset len s d = record d {
  sessions = update_at s.address (mapped handle p_addr offset len) d.sessions;
}

finish_map_result :
    (a : ℕ) (r : DrvResult × Device) → ((finish_map a r).0 ≡ r.0) × ((finish_map a r).2 ≡ r.1)
finish_map_result a (e, d) = ground arith

-- `mapBulk` of the owner records the buffer in the session whatever the secure world answers, and
-- answers `ok` exactly when the secure world answers the command.
pub map_bulk_lem :
    (c id handle p_addr offset len : ℕ) (s : Session) (w : World) (d : Device)
    → owned (get_trustlet_session id d.sessions) c ≡ some s
    → ((map_bulk c id handle p_addr offset len w d).2.sessions
        ≡ update_at s.address (mapped handle p_addr offset len) d.sessions)
      × (((map_bulk c id handle p_addr offset len w d).0 ≡ DrvResult.ok)
          ↔ IsAnswered
              (Command.map_wsm id p_addr offset len)
              w
              (recorded handle p_addr offset len s d))
unfolding map_bulk
map_bulk_lem c id handle p_addr offset len s w d o =
    let cmd = Command.map_wsm id p_addr offset len in
    let asked = recorded handle p_addr offset len s d in
    let r = exchange cmd w asked in
    let e : map_bulk c id handle p_addr offset len w d
        ≡ finish_map w.response.secure_virtual_adr r =
      rw (o, map_bulk) refl in
    let f = finish_map_result w.response.secure_virtual_adr r in
    let x = exchange_ok_iff cmd w asked in
    (
      ap (λ p. p.2.sessions) e
          ∙ (ap (λ (t : Device). t.sessions) f.1 ∙ (exchange-Exchanged cmd w asked).sessions),
      (λ p. x.0 (sym f.0 ∙ (sym (ap (λ p. p.0) e) ∙ p)), λ a. ap (λ p. p.0) e ∙ (f.0 ∙ x.1 a)),
    )

mapped_new :
    (handle p_addr offset len : ℕ) (s : Session)
    → IsAscending 0 s.buffers
    → find handle s.buffers ≡ none
    → (remove_bulk_buff handle (mapped handle p_addr offset len s)).1 ≡ s
mapped_new handle p_addr offset len s a n =
    elim (add_bulk_buff_lem
      (record { virt_addr = offset; len = len; handle = handle; phys_addr = p_addr }) s a) [
        | inl (f, g, h) ↦ absurd (g n)
        | inr (f, g, h, r) ↦ ap (λ p. p.1) r
      ]

mapped_keeps :
    (handle p_addr offset len : ℕ) (s : Session)
    → ((mapped handle p_addr offset len s).session_id ≡ s.session_id)
      × ((mapped handle p_addr offset len s).address ≡ s.address)
      × ((mapped handle p_addr offset len s).device_connection ≡ s.device_connection)
unfolding add_bulk_buff
mapped_keeps handle p_addr offset len s = ground arith

finish_unmap_ok :
    (address handle : ℕ) (r : DrvResult × Device)
    → r.0 ≡ DrvResult.ok
    → finish_unmap address handle r ≡ finish_unmap address handle (DrvResult.ok, r.1)
finish_unmap_ok address handle (e, d) h = ap (λ k. finish_unmap address handle (k, d)) h

-- `unmapBulk` after `mapBulk` of a handle that the session has not mapped, by the owner, when the
-- secure world answers the second command: it answers `ok` and the session list is what it was
-- before, the two commands' buffers and addresses being what they may.
pub unmap-map :
    (c id handle p_addr offset len adr unmapped : ℕ) (s : Session) (w v : World) (d t : Device)
    → owned (get_trustlet_session id d.sessions) c ≡ some s
    → at_address s.address d.sessions ≡ some s
    → IsAscending 0 s.buffers
    → find handle s.buffers ≡ none
    → (map_bulk c id handle p_addr offset len w d).2 ≡ t
    → IsAnswered (Command.unmap_wsm id adr unmapped) v t
    → ((unmap_bulk c id handle adr unmapped v t).0 ≡ DrvResult.ok)
      × ((unmap_bulk c id handle adr unmapped v t).1.sessions ≡ d.sessions)
unfolding unmap_bulk
unmap-map c id handle p_addr offset len adr unmapped s w v d t o b a n e q =
    let g = mapped handle p_addr offset len in
    let before = owned-some (get_trustlet_session id d.sessions) c s o in
    let ss : t.sessions ≡ update_at s.address g d.sessions =
      ap (λ (z : Device). z.sessions) (sym e)
      ∙ (map_bulk_lem c id handle p_addr offset len s w d o).0 in
    let k = mapped_keeps handle p_addr offset len in
    let found : get_trustlet_session id t.sessions ≡ some (g s) =
      ap (get_trustlet_session id) ss ∙ found-update id g s d.sessions before.0 b (λ z. (k z).0) in
    let mine : owned (get_trustlet_session id t.sessions) c ≡ some (g s) =
      ap (λ z. owned z c) found ∙ owner c (g s) ((k s).2 ∙ before.1) in
    let cmd = Command.unmap_wsm id adr unmapped in
    let r = exchange cmd v t in
    let all : unmap_bulk c id handle adr unmapped v t ≡ finish_unmap (g s).address handle r =
      rw (mine, unmap_bulk) refl in
    let done = all ∙ finish_unmap_ok (g s).address handle r ((exchange_ok_iff cmd v t).1 q) in
    let f : Session → Session = λ z. (remove_bulk_buff handle z).1 in
    (
      ap (λ p. p.0) done,
      ap (λ p. p.1.sessions) done
          ∙ (ap (update_at (g s).address f) ((exchange-Exchanged cmd v t).sessions ∙ ss)
              ∙ (ap (λ z. update_at z f (update_at s.address g d.sessions)) (k s).1
                  ∙ (update_update s.address f g d.sessions (λ z. (k z).1)
                      ∙ update_same s.address (λ z. f (g z)) s d.sessions b
                          (mapped_new handle p_addr offset len s a n)))),
    )
  where
    owner : (c : ℕ) (s : Session) → s.device_connection ≡ c → owned (some s) c ≡ some s
    owner c s e = ground arith
