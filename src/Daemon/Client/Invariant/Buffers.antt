-- ===== src/Daemon/Client/Invariant/Buffers.antt =====
-- The calls that map and unmap buffers keep what the library names covered.
use android_hardware_samsung.Common.{
  ℕ, ◌+◌, ◌≡◌, ◌≤◌, Bool, Option, some, none, List, [], ◌∷◌, ◌++◌, ◌==◌, ◌%◌, refl, ap, sym, ◌∙◌,
  arith,
}
use android_hardware_samsung.Daemon.Driver.Wire.{get_word}
use android_hardware_samsung.Daemon.Client.State.{
  BulkBufferDescriptor, Session, Device, Client, Env, resolve_device, resolve_session, at_session,
}
use android_hardware_samsung.Daemon.Client.Wire.{SessionHandle, words, address}
use android_hardware_samsung.Daemon.Client.Counts.{one_if, count, in_buffers, count-unregister}
use android_hardware_samsung.Daemon.Client.Pointers.{
  at_session_counts, in_buffers-append, resolve-at_device_self, resolve-at_session_self,
}
use android_hardware_samsung.Daemon.Client.Bulk.{
  at_buffers, add_bulk_buf, is_mapped, find_buffer, without_buffer, get_buf_handle, drop_buffer,
  remove_bulk_buf, set_secure, request_map, mc_map, BulkMap, request_unmap, mc_unmap,
}
use android_hardware_samsung.Daemon.Client.Waiting.{}
use android_hardware_samsung.Daemon.Client.Memory.{}
use android_hardware_samsung.Daemon.Client.Covered.{IsCovered, at_device-IsCovered}
use android_hardware_samsung.Daemon.Client.Covers.{
  Covers, if-Covers, remove_dead-Covers, failed-Covers, reply-Covers, not_null-Covers,
  check_device-Covers, check_session-Covers, send-Covers, recv-Covers,
}

-- A session changes its buffers by no more than the kernel does.
at_buffers-IsCovered :
    (h : SessionHandle) (f : List BulkBufferDescriptor → List BulkBufferDescriptor) (d : Device)
    (s : Session) (c t : Client)
    → resolve_device h.device_id c.devices ≡ some d
    → resolve_session h.session_id d.sessions ≡ some s
    → t.devices ≡ at_buffers h f c.devices
    → t.allocated ≡ c.allocated
    → ((k : ℕ)
        → in_buffers k (f s.buffers) + count k c.registered
          ≤ in_buffers k s.buffers + count k t.registered)
    → IsCovered c
    → IsCovered t
at_buffers-IsCovered h f d s c t e g u a m i =
    let change = λ (x : Session). record x { buffers = f x.buffers } in
    at_device-IsCovered h.device_id
      (λ x. record x { sessions = at_session h.session_id change x.sessions }) d c t e u (λ x. refl)
      (λ k. ground (arith, m k, at_session_counts k h.session_id change d.sessions s g))
      (λ k. rw a (omega arith)) i

without_buffer_counts :
    (k a : ℕ) (bs : List BulkBufferDescriptor) (b : BulkBufferDescriptor)
    → find_buffer a bs ≡ some b
    → in_buffers k bs ≡ one_if b.handle k + in_buffers k (without_buffer a bs)
without_buffer_counts k a [] b e = cc
without_buffer_counts k a (x ∷ bs) b e = ground (arith, without_buffer_counts k a bs b)

found_buffer-Covers :
    (env : Env) (h : SessionHandle) (d : Device) (s : Session) (buf : ℕ)
    (o : Option BulkBufferDescriptor) (c : Client)
    → resolve_device h.device_id c.devices ≡ some d
    → resolve_session h.session_id d.sessions ≡ some s
    → find_buffer buf s.buffers ≡ o
    → IsCovered c
    → Covers (drop_buffer env h buf o c)
found_buffer-Covers env h d s buf none c e g f i = failed-Covers c i 20
found_buffer-Covers env h d s buf (some b) c e g f i =
    failed-Covers _
      (at_buffers-IsCovered h (without_buffer buf) d s c _ e g refl refl
        (λ k. omega (
          arith,
          without_buffer_counts k buf s.buffers b f,
          count-unregister env k b.handle c.registered,
        ))
        i)
      (env.unregister_wsm b.handle)

remove_bulk_buf-Covers :
    (env : Env) (h : SessionHandle) (d : Device) (s : Session) (buf : ℕ) (c : Client)
    → resolve_device h.device_id c.devices ≡ some d
    → resolve_session h.session_id d.sessions ≡ some s
    → IsCovered c
    → Covers (remove_bulk_buf env h s.buffers buf c)
unfolding remove_bulk_buf
remove_bulk_buf-Covers env h d s buf c e g i =
    found_buffer-Covers env h d s buf (find_buffer buf s.buffers) c e g refl i

set_secure_counts :
    (k a v : ℕ) (bs : List BulkBufferDescriptor)
    → in_buffers k (set_secure a v bs) ≡ in_buffers k bs
set_secure_counts k a v [] = refl
set_secure_counts k a v (b ∷ bs) = ground (arith, set_secure_counts k a v bs)

request_map-Covers :
    (env : Env) (h : SessionHandle) (d x : Device) (s y : Session) (b : BulkBufferDescriptor)
    (len : ℕ) (c : Client)
    → resolve_device h.device_id c.devices ≡ some x
    → resolve_session h.session_id x.sessions ≡ some y
    → y.buffers ≡ s.buffers ++ b ∷ []
    → IsCovered c
    → Covers (request_map env h d s b len c)
unfolding request_map
request_map-Covers env h d x s y b len c e g w i =
    send-Covers c i env 0 d.connection
      (words (8 ∷ s.session_id ∷ b.handle ∷ 0 ∷ b.virt_addr % 4096 ∷ b.len ∷ [])) _
      (λ u same iu. recv-Covers u iu env 0 4 _ (λ code.
        if-Covers (get_word 0 code == 0) _ _
          (λ z. recv-Covers u iu env 1 8 _ (λ p.
            reply-Covers _
              (at_buffers-IsCovered h (set_secure b.virt_addr (get_word 1 p)) x y u
                (record u {
                  devices = at_buffers h (set_secure b.virt_addr (get_word 1 p)) u.devices;
                })
                (ap (λ (v : Client). resolve_device h.device_id v.devices) same ∙ e) g refl refl
                (λ k. omega (arith, set_secure_counts k b.virt_addr (get_word 1 p) y.buffers)) iu)
              0 (get_word 1 p ∷ len ∷ [])))
          (λ z.
            failed-Covers (remove_bulk_buf env h (s.buffers ++ b ∷ []) b.virt_addr u).client
              (rw (sym w)
                (remove_bulk_buf-Covers env h x y b.virt_addr u
                  (ap (λ (v : Client). resolve_device h.device_id v.devices) same ∙ e) g
                  iu).covered)
              15)))

add_bulk_buf-Covers :
    (env : Env) (h : SessionHandle) (d : Device) (s : Session) (a len : ℕ) (c : Client)
    → resolve_device h.device_id c.devices ≡ some d
    → resolve_session h.session_id d.sessions ≡ some s
    → IsCovered c
    → Covers (add_bulk_buf env h s a len c (λ b t. request_map env h d s b len t))
add_bulk_buf-Covers env h d s a len c e g i =
    if-Covers (is_mapped a s.buffers) _ _ (λ z. failed-Covers c i 19)
      (λ z.
        let (code, handle, phys) = env.register_wsm a len in
        let b : BulkBufferDescriptor = record {
          virt_addr = a;
          s_virtual_addr = 0;
          len = len;
          handle = handle;
          phys_addr = phys;
        } in
        let change = λ (x : Session). record x { buffers = x.buffers ++ b ∷ [] } in
        if-Covers (code == 0) _ _
          (λ y.
            request_map-Covers env h d
              (record d { sessions = at_session h.session_id change d.sessions }) s (change s) b len
              _ (resolve-at_device_self h.device_id _ c.devices d (λ x. refl) e)
              (resolve-at_session_self h.session_id change d.sessions s (λ x. refl) g) refl
              (at_buffers-IsCovered h (λ bs. bs ++ b ∷ []) d s c _ e g refl refl
                (λ k. omega (arith, in_buffers-append k s.buffers (b ∷ []))) i))
          (λ y. failed-Covers c i code))

pub map-Covers :
    (env : Env) (session : Option SessionHandle) (buf len : ℕ) (map_info : Bool) (c : Client)
    → IsCovered c
    → Covers (mc_map env session buf len map_info c)
unfolding mc_map
map-Covers env session buf len map_info c i = not_null-Covers c i session _ (λ h e.
    if-Covers map_info _ _
      (λ z. not_null-Covers c i (address buf) _ (λ a y.
        check_device-Covers c i h.device_id _ (λ d f.
          check_session-Covers c i h.session_id d _
            (λ s g. add_bulk_buf-Covers env h d s a len c f g i))))
      (λ z. failed-Covers c i 17))

request_unmap-Covers :
    (env : Env) (h : SessionHandle) (d : Device) (s : Session) (a : ℕ) (m : BulkMap) (c : Client)
    → resolve_device h.device_id c.devices ≡ some d
    → resolve_session h.session_id d.sessions ≡ some s
    → IsCovered c
    → Covers (request_unmap env h d s a m c)
unfolding request_unmap
request_unmap-Covers env h d s a m c e g i =
    let handle = get_buf_handle m.s_virtual_addr s.buffers in
    if-Covers (handle == 0) _ _ (λ z. failed-Covers c i 20)
      (λ z.
        send-Covers c i env 0 d.connection
          (words (9 ∷ s.session_id ∷ handle ∷ m.s_virtual_addr ∷ m.s_virtual_len ∷ [])) _
          (λ t same it. recv-Covers t it env 0 4 _ (λ code.
            if-Covers (get_word 0 code == 0) _ _
              (λ y.
                remove_bulk_buf-Covers env h d s a t
                  (ap (λ (v : Client). resolve_device h.device_id v.devices) same ∙ e) g it)
              (λ y. failed-Covers t it 15))))

pub unmap-Covers :
    (env : Env) (session : Option SessionHandle) (buf : ℕ) (map_info : Option BulkMap) (c : Client)
    → IsCovered c
    → Covers (mc_unmap env session buf map_info c)
unfolding mc_unmap
unmap-Covers env session buf map_info c i = not_null-Covers c i session _ (λ h e.
    remove_dead-Covers env h.device_id _ (
      not_null-Covers c i map_info _ (λ m z. not_null-Covers c i (address buf) _ (λ a y.
        check_device-Covers c i h.device_id _ (λ d f.
          check_session-Covers c i h.session_id d _
            (λ s g. request_unmap-Covers env h d s a m c f g i))))))
