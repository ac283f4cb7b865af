-- ===== src/Daemon/Driver/Locks.antt =====
-- The locks on a client's buffers, over the commands that map and unmap them.
use android_hardware_samsung.Common.{
  ℕ, suc, ◌-◌, ◌≡◌, ◌≢◌, true, Option, some, none, ◌∷◌, ◌==◌, ==_false, if◌then◌else◌, ap, sym, ◌∙◌,
  arith,
}
use android_hardware_samsung.Daemon.Session.{Session, find}
use android_hardware_samsung.Daemon.Session.Buffers.{IsAscending}
use android_hardware_samsung.Daemon.Device.State as Dev
use android_hardware_samsung.Daemon.Device.State.{
  DrvResult, Device, World, call, lock_wsm, unlock_wsm,
}
use android_hardware_samsung.Daemon.Device.Sessions.{get_trustlet_session, owned}
use android_hardware_samsung.Daemon.Device.Commands.{map_bulk, unmap_bulk, finish_map, finish_unmap}
use android_hardware_samsung.Daemon.Device.Exchange.{IsAnswered}
use android_hardware_samsung.Daemon.Device.Opening.{held, held-exchange}
use android_hardware_samsung.Daemon.Device.Mapping.{at_address, unmap-map}
use android_hardware_samsung.Daemon.Driver.State.{drv, result, Env, Driver}
use android_hardware_samsung.Daemon.Driver.Bulk.{
  answer_map, map_locked, map_buffer, answer_unmap, unmap_buffer,
}

held-finish_map :
    (k a : ℕ) (r : DrvResult × Device) → held k (finish_map a r).2.calls ≡ held k r.1.calls
held-finish_map k a (e, d) = ground arith

held-map_bulk :
    (k c id handle p_addr offset len : ℕ) (w : World) (d : Device)
    → held k (map_bulk c id handle p_addr offset len w d).2.calls ≡ held k d.calls
unfolding map_bulk
held-map_bulk k c id handle p_addr offset len w d = grind (arith, held-finish_map, held-exchange)

held-finish_unmap :
    (k a h : ℕ) (r : DrvResult × Device) → held k (finish_unmap a h r).1.calls ≡ held k r.1.calls
held-finish_unmap k a h (e, d) = ground arith

held-unmap_bulk :
    (k c id handle adr len : ℕ) (w : World) (d : Device)
    → held k (unmap_bulk c id handle adr len w d).1.calls ≡ held k d.calls
unfolding unmap_bulk
held-unmap_bulk k c id handle adr len w d = grind (arith, held-finish_unmap, held-exchange)

answer_map_device :
    (c id : ℕ) (r : DrvResult × Option ℕ × Device) (d : Driver) → (answer_map c id r d).device ≡ r.2
answer_map_device c id (r, o, v) d = ground arith

-- The commands differ in what follows the lock.
map_locked_holds :
    (env : Env) (c id handle offset len k : ℕ) (d : Driver)
    → held k (map_locked env c id handle offset len d).device.calls ≡ held k d.device.calls
map_locked_holds env c id handle offset len k d =
    let r = map_bulk c id handle (env.world.l2 handle c) offset len env.world d.device in
    ground (
      arith,
      answer_map_device c id r d,
      held-map_bulk k c id handle (env.world.l2 handle c) offset len env.world d.device,
    )

-- Once the lock of the buffer has succeeded, a map leaves it held once more than before, and every
-- other buffer as often as before, whatever it answers.
pub map_holds :
    (env : Env) (c id handle offset len k : ℕ) (d : Driver)
    → env.world.lock_ok handle ≡ true
    → held k (map_buffer env c id handle offset len d).device.calls
      ≡ (if handle == k then suc (held k d.device.calls) else held k d.device.calls)
unfolding map_buffer
map_holds env c id handle offset len k d l = rw l (
    map_locked_holds env c id handle offset len k
      (record d { device = call (lock_wsm handle) d.device }))

-- The device behind a map that finds its table.
map_buffer_device :
    (env : Env) (c id handle offset len : ℕ) (d : Driver)
    → env.world.lock_ok handle ≡ true
    → env.world.l2 handle c ≢ 0
    → (map_bulk c id handle
        (env.world.l2 handle c)
        offset
        len
        env.world
        (call (lock_wsm handle) d.device)).2
      ≡ (map_buffer env c id handle offset len d).device
unfolding map_buffer
map_buffer_device env c id handle offset len d l a =
    let t = call (lock_wsm handle) d.device in
    rw (l, ==_false (env.world.l2 handle c) 0 a)
      (sym (
        answer_map_device c id (map_bulk c id handle (env.world.l2 handle c) offset len env.world t)
          (record d { device = t })))

answer_unmap_ok :
    (c handle : ℕ) (r : DrvResult × Device) (d : Driver)
    → r.0 ≡ DrvResult.ok
    → ((answer_unmap c handle r d).device ≡ call (unlock_wsm handle) r.1)
      × ((answer_unmap c handle r d).sent ≡ (c, result (drv DrvResult.ok)) ∷ d.sent)
answer_unmap_ok c handle (e, t) d h = ground arith

-- An unmap after a map of a handle that the session has not mapped, both by the owner of the
-- session, the lock and the table being had for the map, and the secure world answering the unmap:
-- the client is answered `ok`, the sessions are what they were before the two, and every buffer is
-- held as often as before.
pub unmap-map_buffer :
    (v w : Env) (c id handle offset len adr unmapped : ℕ) (s : Session) (d t : Driver)
    → v.world.lock_ok handle ≡ true
    → v.world.l2 handle c ≢ 0
    → owned (get_trustlet_session id d.device.sessions) c ≡ some s
    → at_address s.address d.device.sessions ≡ some s
    → IsAscending 0 s.buffers
    → find handle s.buffers ≡ none
    → map_buffer v c id handle offset len d ≡ t
    → IsAnswered (Dev.Command.unmap_wsm id adr unmapped) w.world t.device
    → ((unmap_buffer w c id handle adr unmapped t).sent ≡ (c, result (drv DrvResult.ok)) ∷ t.sent)
      × ((unmap_buffer w c id handle adr unmapped t).device.sessions ≡ d.device.sessions)
      × ((k : ℕ)
          → held k (unmap_buffer w c id handle adr unmapped t).device.calls ≡ held k d.device.calls)
unfolding unmap_buffer
unmap-map_buffer v w c id handle offset len adr unmapped s d t l a o b asc n e q =
    let before = call (lock_wsm handle) d.device in
    let there =
      map_buffer_device v c id handle offset len d l a ∙ ap (λ (z : Driver). z.device) e in
    let (fine, same) =
      unmap-map c id handle (v.world.l2 handle c) offset len adr unmapped s v.world w.world before
        t.device o b asc n there q in
    let r = unmap_bulk c id handle adr unmapped w.world t.device in
    let (device, sent) = answer_unmap_ok c handle r t fine in
    (
      sent,
      ap (λ (z : Device). z.sessions) device ∙ same,
      λ k.
          ap (λ (z : Device). held k z.calls) device
          ∙ balance k handle (held k r.1.calls) (held k d.device.calls) (
              held-unmap_bulk k c id handle adr unmapped w.world t.device
              ∙ (sym (ap (λ (z : Driver). held k z.device.calls) e)
                  ∙ map_holds v c id handle offset len k d l)),
    )
  where
    balance : (k h m n : ℕ) → m ≡ (if h == k then suc n else n) → (if h == k then m - 1 else m) ≡ n
    balance k h m n e = ground arith
