-- ===== src/Daemon/Client/Mapping.antt =====
-- A map of a client's memory and the unmap of it.
use android_hardware_samsung.Common.{
  ℕ, ◌≡◌, Bool, true, false, some, List, [], ◌∷◌, ◌++◌, ◌==◌, if◌then◌else◌, refl, ap, ◌∙◌, arith,
}
use android_hardware_samsung.Daemon.Client.State.{
  BulkBufferDescriptor, Session, Device, resolve_device, resolve_session, at_device, at_session,
}
use android_hardware_samsung.Daemon.Client.Wire.{SessionHandle}
use android_hardware_samsung.Daemon.Client.Pointers.{}
use android_hardware_samsung.Daemon.Client.Bulk.{
  at_buffers, is_mapped, find_buffer, without_buffer, get_buf_handle, set_secure,
}

at_device_twice :
    (id : ℕ) (f g : Device → Device) (ds : List Device)
    → ((x : Device) → (g x).device_id ≡ x.device_id)
    → at_device id f (at_device id g ds) ≡ at_device id (λ x. f (g x)) ds
at_device_twice id f g [] same = refl
at_device_twice id f g (d ∷ ds) same = ground (arith, at_device_twice id f g ds same, same d)

at_device_same :
    (id : ℕ) (f : Device → Device) (ds : List Device) (d : Device)
    → resolve_device id ds ≡ some d
    → f d ≡ d
    → at_device id f ds ≡ ds
unfolding resolve_device
at_device_same id f [] d e same = refl
at_device_same id f (x ∷ ds) d e same = ground (arith, at_device_same id f ds d)

at_session_twice :
    (id : ℕ) (f g : Session → Session) (ss : List Session)
    → ((x : Session) → (g x).session_id ≡ x.session_id)
    → at_session id f (at_session id g ss) ≡ at_session id (λ x. f (g x)) ss
at_session_twice id f g [] same = refl
at_session_twice id f g (s ∷ ss) same = ground (arith, at_session_twice id f g ss same, same s)

at_session_same :
    (id : ℕ) (f : Session → Session) (ss : List Session) (s : Session)
    → resolve_session id ss ≡ some s
    → f s ≡ s
    → at_session id f ss ≡ ss
unfolding resolve_session
at_session_same id f [] s e same = refl
at_session_same id f (x ∷ ss) s e same = ground (arith, at_session_same id f ss s)

-- The device of a session whose buffers change.
abbrev pub with_buffers :
    SessionHandle → (List BulkBufferDescriptor → List BulkBufferDescriptor) → Device → Device
with_buffers h f d = record d {
  sessions =
      at_session h.session_id (λ (s : Session). record s { buffers = f s.buffers }) d.sessions;
}

module _ (h : SessionHandle) (f : List BulkBufferDescriptor → List BulkBufferDescriptor) where
  pub at_buffers_twice :
      (g : List BulkBufferDescriptor → List BulkBufferDescriptor) (ds : List Device)
      → at_buffers h f (at_buffers h g ds) ≡ at_buffers h (λ bs. f (g bs)) ds
  at_buffers_twice g ds =
      at_device_twice h.device_id (with_buffers h f) (with_buffers h g) ds (λ x. refl)
      ∙ ap (λ k. at_device h.device_id k ds)
          (λ i d. record d {
            sessions =
                at_session_twice h.session_id (λ (s : Session). record s { buffers = f s.buffers })
                  (λ (s : Session). record s { buffers = g s.buffers }) d.sessions (λ x. refl) i;
          })

  pub at_buffers_same :
      (ds : List Device) (d : Device) (s : Session)
      → resolve_device h.device_id ds ≡ some d
      → resolve_session h.session_id d.sessions ≡ some s
      → f s.buffers ≡ s.buffers
      → at_buffers h f ds ≡ ds
  at_buffers_same ds d s e g same = at_device_same h.device_id (with_buffers h f) ds d e (
      ap (λ ss. record d { sessions = ss })
        (at_session_same h.session_id (λ (x : Session). record x { buffers = f x.buffers })
          d.sessions s g (ap (λ bs. record s { buffers = bs }) same)))

-- No descriptor has the secure address.
abbrev pub is_secure : ℕ → List BulkBufferDescriptor → Bool
is_secure v [] = false
is_secure v (b ∷ bs) = if b.s_virtual_addr == v then true else is_secure v bs

module _ (b : BulkBufferDescriptor) (v : ℕ) where
  pub find-mapped :
      (bs : List BulkBufferDescriptor)
      → is_mapped b.virt_addr bs ≡ false
      → find_buffer b.virt_addr (set_secure b.virt_addr v (bs ++ b ∷ []))
        ≡ some (record b { s_virtual_addr = v })
  find-mapped [] n = ground arith
  find-mapped (x ∷ bs) n = ground (arith, find-mapped bs)

  pub handle-mapped :
      (bs : List BulkBufferDescriptor)
      → is_mapped b.virt_addr bs ≡ false
      → is_secure v bs ≡ false
      → get_buf_handle v (set_secure b.virt_addr v (bs ++ b ∷ [])) ≡ b.handle
  unfolding get_buf_handle
  handle-mapped [] n m = ground arith
  handle-mapped (x ∷ bs) n m = ground (arith, handle-mapped bs)

  pub without-mapped :
      (bs : List BulkBufferDescriptor)
      → is_mapped b.virt_addr bs ≡ false
      → without_buffer b.virt_addr (set_secure b.virt_addr v (bs ++ b ∷ [])) ≡ bs
  without-mapped [] n = ground arith
  without-mapped (x ∷ bs) n = ground (arith, without-mapped bs)
