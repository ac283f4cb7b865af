-- ===== src/Daemon/Client/Invariant/Sessions.antt =====
-- The calls that open a session keep what the library names covered.
use android_hardware_samsung.Common.{
  ℕ, ◌+◌, ◌≡◌, ◌≤◌, Option, some, none, List, [], ◌∷◌, ◌++◌, ◌==◌, ◌%◌, length, ltb, refl, ap, ◌∙◌,
  arith,
}
use android_hardware_samsung.Daemon.Session.{Wsm}
use android_hardware_samsung.Daemon.Driver.Wire.{get_word}
use android_hardware_samsung.Daemon.Client.Codes.{open_error}
use android_hardware_samsung.Daemon.Client.State.{
  BulkBufferDescriptor, Device, Client, Env, Reply, resolve_device, at_device,
}
use android_hardware_samsung.Daemon.Client.Wire.{SessionHandle, words, address}
use android_hardware_samsung.Daemon.Client.Counts.{count, in_buffers}
use android_hardware_samsung.Daemon.Client.Pointers.{in_sessions-append}
use android_hardware_samsung.Daemon.Client.Opening.{
  find_wsm, max_tci_len, use_tci, buffer_list, new_session, create_session, finish_channel,
  nq_connect, await_session, mc_open_session, mc_open_trustlet,
}
use android_hardware_samsung.Daemon.Client.Covered.{IsCovered, more-IsCovered, at_device-IsCovered}
use android_hardware_samsung.Daemon.Client.Covers.{
  Covers, if-Covers, failed-Covers, reply-Covers, not_null-Covers, check_device-Covers, send-Covers,
  recv-Covers,
}

-- Since `c` the kernel has taken the TCI on, and nothing else has changed.
record Reserves (c : Client) (bulk : Option BulkBufferDescriptor) (t : Client) : Type 0 where
  devices : t.devices ≡ c.devices
  allocated : t.allocated ≡ c.allocated
  registered :
      (k : ℕ) → count k c.registered + in_buffers k (buffer_list bulk) ≤ count k t.registered

reserved-IsCovered :
    (c t : Client) (bulk : Option BulkBufferDescriptor)
    → Reserves c bulk t
    → IsCovered c
    → IsCovered t
reserved-IsCovered c t bulk r i =
    more-IsCovered c t r.devices (λ k. omega (arith, r.registered k))
      (λ k. omega (arith, ap (λ hs. count k hs) r.allocated)) i

same-Reserves :
    (c t u : Client) (bulk : Option BulkBufferDescriptor)
    → (u.devices ≡ t.devices) × (u.registered ≡ t.registered) × (u.allocated ≡ t.allocated)
    → Reserves c bulk t
    → Reserves c bulk u
same-Reserves c t u bulk (same, registered, allocated) r = record {
  devices = same ∙ r.devices;
  allocated = allocated ∙ r.allocated;
  registered = λ k. omega (arith, r.registered k, ap (λ hs. count k hs) registered);
}

create_session-IsCovered :
    (env : Env) (s : SessionHandle) (id : ℕ) (bulk : Option BulkBufferDescriptor) (d : Device)
    (c t : Client)
    → resolve_device s.device_id c.devices ≡ some d
    → Reserves c bulk t
    → IsCovered c
    → IsCovered (create_session env s id bulk t)
create_session-IsCovered env s id bulk d c t e r i =
    let n = new_session env id bulk in
    let change = λ (x : Device). record x { sessions = x.sessions ++ n ∷ [] } in
    at_device-IsCovered s.device_id change d c (create_session env s id bulk t) e
      (ap (λ ds. at_device s.device_id change ds) r.devices) (λ x. refl)
      (λ k. omega (arith, r.registered k, in_sessions-append k d.sessions (n ∷ [])))
      (λ k. omega (arith, ap (λ hs. count k hs) r.allocated)) i

nq_connect_same :
    (env : Env) (n : ℕ) (s : SessionHandle) (p : List ℕ) (c : Client)
    → ((nq_connect env n s p c).client.devices ≡ c.devices)
      × ((nq_connect env n s p c).client.registered ≡ c.registered)
      × ((nq_connect env n s p c).client.allocated ≡ c.allocated)
nq_connect_same env n s p c = ground arith

finish_channel-Covers :
    (env : Env) (s : SessionHandle) (id : ℕ) (bulk : Option BulkBufferDescriptor) (d : Device)
    (c : Client) (r : Reply)
    → resolve_device s.device_id c.devices ≡ some d
    → Reserves c bulk r.client
    → IsCovered c
    → Covers (finish_channel env s id bulk r)
finish_channel-Covers env s id bulk d c r e res i =
    if-Covers (r.code == 0) _ _
      (λ z.
        reply-Covers (create_session env s id bulk r.client)
          (create_session-IsCovered env s id bulk d c r.client e res i) 0 (id ∷ []))
      (λ z. record {
        covered =
            more-IsCovered r.client _ refl (λ k. omega arith) (λ k. omega arith)
              (reserved-IsCovered c r.client bulk res i);
      })

await_session-Covers :
    (env : Env) (n : ℕ) (s : SessionHandle) (bulk : Option BulkBufferDescriptor) (d : Device)
    (c t : Client)
    → resolve_device s.device_id c.devices ≡ some d
    → Reserves c bulk t
    → IsCovered c
    → Covers (await_session env n s bulk t)
unfolding await_session
await_session-Covers env n s bulk d c t e r i =
    let it = reserved-IsCovered c t bulk r i in
    recv-Covers t it env 0 4 _ (λ code.
      if-Covers (get_word 0 code == 0) _ _
        (λ z. recv-Covers t it env 1 12 _ (λ p.
          let q = nq_connect env n s p t in
          finish_channel-Covers env s (get_word 0 p) bulk d c q e
            (same-Reserves c t q.client bulk (nq_connect_same env n s p t) r) i))
        (λ z. failed-Covers t it (open_error (get_word 0 code))))

sent-Reserves :
    (c t u : Client) (bulk : Option BulkBufferDescriptor) (m : List (ℕ × List ℕ))
    → u ≡ record t { sent = m }
    → Reserves c bulk t
    → Reserves c bulk u
sent-Reserves c t u bulk m e r =
    rw e (same-Reserves c t (record t { sent = m }) bulk (refl, refl, refl) r)

use_tci-Covers :
    (env : Env) (o : Option Wsm) (tci len : ℕ) (c : Client)
    (k : ℕ → Option BulkBufferDescriptor → Client → Reply)
    → ((h : ℕ) (bulk : Option BulkBufferDescriptor) (t : Client)
        → Reserves c bulk t
        → Covers (k h bulk t))
    → IsCovered c
    → Covers (use_tci env o tci len c k)
use_tci-Covers env none tci len c k g i =
    let (code, handle, phys) = env.register_wsm tci len in
    let b : BulkBufferDescriptor = record {
      virt_addr = tci;
      s_virtual_addr = 0;
      len = len;
      handle = handle;
      phys_addr = phys;
    } in
    if-Covers (code == 0) _ _
      (λ z.
        g handle (some b) (record c { registered = handle ∷ c.registered })
          (record { devices = refl; allocated = refl; registered = λ k. omega arith }))
      (λ z. failed-Covers c i 17)
use_tci-Covers env (some w) tci len c k g i =
    if-Covers (ltb w.len len) _ _ (λ z. failed-Covers c i 17)
      (λ z.
        g w.handle none c
          (record { devices = refl; allocated = refl; registered = λ k. omega arith }))

pub open_session-Covers :
    (env : Env) (session : Option SessionHandle) (uuid : Option (List ℕ)) (tci len : ℕ) (c : Client)
    → IsCovered c
    → Covers (mc_open_session env session uuid tci len c)
unfolding mc_open_session
open_session-Covers env session uuid tci len c i = not_null-Covers c i session _ (λ s e.
    not_null-Covers c i uuid _ (λ u f. not_null-Covers c i (address tci) _ (λ a g.
      if-Covers (ltb max_tci_len len) _ _ (λ z. failed-Covers c i 17)
        (λ z. check_device-Covers c i s.device_id _ (λ d h.
          use_tci-Covers env (find_wsm a d.wsms) a len c _
            (λ handle bulk t r.
              send-Covers t (reserved-IsCovered c t bulk r i) env 0 d.connection
                (words (5 ∷ s.device_id ∷ []) ++ u ++ words (a % 4096 ∷ handle ∷ len ∷ [])) _
                (λ v same iv.
                  await_session-Covers env 1 s bulk d c v h (sent-Reserves c t v bulk _ same r) i))
            i)))))

pub open_trustlet-Covers :
    (env : Env) (session : Option SessionHandle) (spid : ℕ) (trustlet : Option (List ℕ))
    (tci len : ℕ) (c : Client)
    → IsCovered c
    → Covers (mc_open_trustlet env session spid trustlet tci len c)
unfolding mc_open_trustlet
open_trustlet-Covers env session spid trustlet tci len c i = not_null-Covers c i session _ (λ s e.
    not_null-Covers c i trustlet _ (λ tl f. not_null-Covers c i (address tci) _ (λ a g.
      if-Covers (ltb max_tci_len len) _ _ (λ z. failed-Covers c i 17)
        (λ z. check_device-Covers c i s.device_id _ (λ d h.
          use_tci-Covers env (find_wsm a d.wsms) a len c _
            (λ handle bulk t r.
              send-Covers t (reserved-IsCovered c t bulk r i) env 0 d.connection
                (words (12 ∷ s.device_id ∷ spid ∷ length tl ∷ a % 4096 ∷ handle ∷ len ∷ [])) _
                (λ v same iv. send-Covers v iv env 1 d.connection tl _ (λ w next iw.
                  await_session-Covers env 2 s bulk d c w h
                    (sent-Reserves c v w bulk _ next (sent-Reserves c t v bulk _ same r)) i)))
            i)))))
