-- ===== src/Daemon/Client/Unmapping.antt =====
-- The calls `mcMap` and `mcUnmap`, one after the other.
use android_hardware_samsung.Common.{
  ℕ, ◌<◌, ◌^◌, ◌≡◌, ◌≢◌, true, false, some, List, [], ◌∷◌, ◌++◌, ==_refl, drop, length, refl, ap,
  sym, ◌∙◌, arith,
}
use android_hardware_samsung.Daemon.Driver.Wire.{received, get_word, overlay}
use android_hardware_samsung.Daemon.Client.State.{
  BulkBufferDescriptor, Session, Device, Client, Env, resolve_device, resolve_session, take_out,
}
use android_hardware_samsung.Daemon.Client.Wire.{word, words, SessionHandle}
use android_hardware_samsung.Daemon.Client.Pointers.{
  resolve-at_device_self, resolve-at_session_self,
}
use android_hardware_samsung.Daemon.Client.Messages.{get_word-word, get_word-second}
use android_hardware_samsung.Daemon.Client.Mapping.{
  at_buffers_twice, at_buffers_same, with_buffers, is_secure, find-mapped, handle-mapped,
  without-mapped,
}
use android_hardware_samsung.Daemon.Client.Bulk.{
  at_buffers, is_mapped, find_buffer, without_buffer, get_buf_handle, remove_bulk_buf, set_secure,
  request_map, mc_map, BulkMap, request_unmap, mc_unmap,
}

abbrev pub new_buffer : ℕ → ℕ → ℕ → ℕ → BulkBufferDescriptor
new_buffer a len handle phys = record {
  virt_addr = a;
  s_virtual_addr = 0;
  len = len;
  handle = handle;
  phys_addr = phys;
}

-- The buffers of a session after a map.
abbrev pub mapped_buffers :
    BulkBufferDescriptor → ℕ → List BulkBufferDescriptor → List BulkBufferDescriptor
mapped_buffers b v bs = set_secure b.virt_addr v (bs ++ b ∷ [])

map_answered :
    (env : Env) (h : SessionHandle) (a len handle phys : ℕ) (d : Device) (s : Session) (c : Client)
    (p : List ℕ)
    → resolve_device h.device_id c.devices ≡ some d
    → resolve_session h.session_id d.sessions ≡ some s
    → a ≢ 0
    → is_mapped a s.buffers ≡ false
    → env.register_wsm a len ≡ (0, handle, phys)
    → env.write_ok 0 ≡ true
    → env.reads 0 ≡ received (word 0)
    → env.reads 1 ≡ received p
    → length p ≡ 8
    → let r = mc_map env (some h) a len true c in
      let v = get_word 1 (p ++ drop (length p) env.stale) in
      (r.code ≡ 0)
      × (r.out ≡ v ∷ len ∷ [])
      × (r.client.devices
          ≡ at_buffers h
              (set_secure a v)
              (at_buffers h (λ bs. bs ++ new_buffer a len handle phys ∷ []) c.devices))
      × (r.client.registered ≡ handle ∷ c.registered)
unfolding mc_map request_map
map_answered env h a len handle phys d s c p e g n m k w r0 r1 l = ground (
  arith,
  get_word-word 0 (drop 4 env.stale) (omega arith),
  ap (λ r. overlay r env.stale) r0,
  ap (λ r. overlay r env.stale) r1,
)

unmap_answered :
    (env : Env) (h : SessionHandle) (a : ℕ) (m : BulkMap) (d : Device) (s : Session)
    (b : BulkBufferDescriptor) (c : Client)
    → resolve_device h.device_id c.devices ≡ some d
    → resolve_session h.session_id d.sessions ≡ some s
    → a ≢ 0
    → get_buf_handle m.s_virtual_addr s.buffers ≢ 0
    → find_buffer a s.buffers ≡ some b
    → env.write_ok 0 ≡ true
    → env.reads 0 ≡ received (word 0)
    → env.unregister_wsm b.handle ≡ 0
    → let r = mc_unmap env (some h) a (some m) c in
      (r.code ≡ 0)
      × (r.client.devices ≡ at_buffers h (without_buffer a) c.devices)
      × (r.client.registered ≡ take_out b.handle c.registered)
unfolding mc_unmap request_unmap remove_bulk_buf
unmap_answered env h a m d s b c e g n k f w r0 u =
    ground
      (arith, get_word-word 0 (drop 4 env.stale) (omega arith), ap (λ r. overlay r env.stale) r0)

-- A map of a buffer of a session that the library knows, then the unmap of what it answered: the
-- buffer is not mapped in the session yet, nor is the secure address that the daemon answers, the
-- kernel registers it under a handle that is not 0 and unregisters it, and the daemon answers OK
-- to both. The map writes the secure address and the length for its caller, the unmap answers OK,
-- and the devices with their sessions and buffers, and the handles in use, are what they were.
pub unmap-map_lem :
    (v w : Env) (h : SessionHandle) (a len handle phys id adr : ℕ) (d : Device) (s : Session)
    (c : Client)
    → resolve_device h.device_id c.devices ≡ some d
    → resolve_session h.session_id d.sessions ≡ some s
    → a ≢ 0
    → is_mapped a s.buffers ≡ false
    → is_secure adr s.buffers ≡ false
    → adr < 2 ^ 32
    → handle ≢ 0
    → v.register_wsm a len ≡ (0, handle, phys)
    → v.write_ok 0 ≡ true
    → v.reads 0 ≡ received (word 0)
    → v.reads 1 ≡ received (words (id ∷ adr ∷ []))
    → w.unregister_wsm handle ≡ 0
    → w.write_ok 0 ≡ true
    → w.reads 0 ≡ received (word 0)
    → let r = mc_map v (some h) a len true c in
      let u =
        mc_unmap w
          (some h)
          a
          (some (record { s_virtual_addr = adr; s_virtual_len = len }))
          r.client in
      (r.code ≡ 0)
      × (r.out ≡ adr ∷ len ∷ [])
      × (u.code ≡ 0)
      × (u.client.devices ≡ c.devices)
      × (u.client.registered ≡ c.registered)
unmap-map_lem v w h a len handle phys id adr d s c e g n k z small nz reg vw v0 v1 un ww w0 =
    let b = new_buffer a len handle phys in
    let m : BulkMap = record { s_virtual_addr = adr; s_virtual_len = len } in
    let answer = get_word-second id adr (drop 8 v.stale) small in
    let change = λ (bs : List BulkBufferDescriptor). mapped_buffers b adr bs in
    let (code, out, there, kept) =
      map_answered v h a len handle phys d s c (words (id ∷ adr ∷ [])) e g n k reg vw v0 v1 refl in
    let r = mc_map v (some h) a len true c in
    let devices : r.client.devices ≡ at_buffers h change c.devices =
      there
      ∙ (ap (λ x. at_buffers h (set_secure a x) (at_buffers h (λ bs. bs ++ b ∷ []) c.devices))
            answer
          ∙ at_buffers_twice h (set_secure a adr) (λ bs. bs ++ b ∷ []) c.devices) in
    let t : Session = record s { buffers = change s.buffers } in
    let (done, taken, freed) =
      unmap_answered w h a m (with_buffers h change d) t (record b { s_virtual_addr = adr })
        r.client
        (ap (resolve_device h.device_id) devices
          ∙ resolve-at_device_self h.device_id (with_buffers h change) c.devices d (λ x. refl) e)
        (resolve-at_session_self h.session_id
          (λ (x : Session). record x { buffers = change x.buffers }) d.sessions s (λ x. refl) g)
        n (λ y. nz (sym (handle-mapped b adr s.buffers k z) ∙ y)) (find-mapped b adr s.buffers k) ww
        w0 un in
    (
      code,
      out ∙ ap (λ x. x ∷ len ∷ []) answer,
      done,
      taken
          ∙ (ap (at_buffers h (without_buffer a)) devices
              ∙ (at_buffers_twice h (without_buffer a) change c.devices
                  ∙ at_buffers_same h (λ bs. without_buffer a (change bs)) c.devices d s e g
                      (without-mapped b adr s.buffers k))),
      freed ∙ (ap (take_out handle) kept ∙ rw (==_refl handle) refl),
    )
