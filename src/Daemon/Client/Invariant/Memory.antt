-- ===== src/Daemon/Client/Invariant/Memory.antt =====
-- The calls on contiguous memory keep what the library names covered.
use android_hardware_samsung.Common.{
  ℕ, ◌+◌, ◌≡◌, Bool, Option, some, none, List, [], ◌∷◌, ◌++◌, ◌==◌, refl, ap, arith,
}
use android_hardware_samsung.Daemon.Session.{Wsm}
use android_hardware_samsung.Daemon.Client.State.{Device, Client, Env, failed, resolve_device}
use android_hardware_samsung.Daemon.Client.Counts.{one_if, in_wsms, count-free}
use android_hardware_samsung.Daemon.Client.Pointers.{in_wsms-append}
use android_hardware_samsung.Daemon.Client.Bulk.{}
use android_hardware_samsung.Daemon.Client.Waiting.{}
use android_hardware_samsung.Daemon.Client.Opening.{find_wsm}
use android_hardware_samsung.Daemon.Client.Memory.{
  allocate_contiguous_wsm, mc_malloc_wsm, without_wsm, free_contiguous_wsm, mc_free_wsm,
}
use android_hardware_samsung.Daemon.Client.Covered.{IsCovered, at_device-IsCovered}
use android_hardware_samsung.Daemon.Client.Covers.{
  Covers, if-Covers, failed-Covers, reply-Covers, check_device-Covers, check_device_closed-Covers,
}

allocate-Covers :
    (env : Env) (id len : ℕ) (d : Device) (c : Client)
    → resolve_device id c.devices ≡ some d
    → IsCovered c
    → Covers (allocate_contiguous_wsm env id len c)
unfolding allocate_contiguous_wsm
allocate-Covers env id len d c e i =
    if-Covers (len == 0) _ _ (λ z. failed-Covers c i 12)
      (λ z.
        let (code, handle, virt, phys) = env.map_wsm len in
        let w : Wsm = record { virt_addr = virt; len = len; handle = handle; phys_addr = phys } in
        if-Covers (code == 0) _ _
          (λ y.
            reply-Covers _
              (at_device-IsCovered id (λ x. record x { wsms = x.wsms ++ w ∷ [] }) d c _ e refl
                (λ x. refl) (λ k. omega arith)
                (λ k. omega (arith, in_wsms-append k d.wsms (w ∷ []))) i)
              0 (virt ∷ []))
          (λ y. failed-Covers c i code))

pub malloc-Covers :
    (env : Env) (id len : ℕ) (wsm : Bool) (c : Client)
    → IsCovered c
    → Covers (mc_malloc_wsm env id len wsm c)
unfolding mc_malloc_wsm
malloc-Covers env id len wsm c i =
    check_device_closed-Covers c i id _ (λ d e.
      if-Covers wsm _ _ (λ b. allocate-Covers env id len d c e i) (λ b. failed-Covers c i 17))

find_wsm_address : (a : ℕ) (ws : List Wsm) (w : Wsm) → find_wsm a ws ≡ some w → w.virt_addr ≡ a
find_wsm_address a [] w e = cc
find_wsm_address a (x ∷ ws) w e = ground (arith, find_wsm_address a ws w)

find_wsm_counts :
    (k a : ℕ) (ws : List Wsm) (w : Wsm)
    → find_wsm a ws ≡ some w
    → in_wsms k ws ≡ one_if w.handle k + in_wsms k (without_wsm a ws)
find_wsm_counts k a [] w e = cc
find_wsm_counts k a (x ∷ ws) w e = ground (arith, find_wsm_counts k a ws w)

free-Covers :
    (env : Env) (id a : ℕ) (d : Device) (w : Wsm) (c : Client)
    → resolve_device id c.devices ≡ some d
    → find_wsm a d.wsms ≡ some w
    → IsCovered c
    → Covers (free_contiguous_wsm env id w c)
unfolding free_contiguous_wsm
free-Covers env id a d w c e f i =
    if-Covers (env.free_wsm w.handle == 0) _ _
      (λ z.
        failed-Covers _
          (at_device-IsCovered id (λ x. record x { wsms = without_wsm w.virt_addr x.wsms }) d c _ e
            refl (λ x. refl) (λ k. omega arith)
            (λ k. omega (
              arith,
              ap (λ b. in_wsms k (without_wsm b d.wsms)) (find_wsm_address a d.wsms w f),
              find_wsm_counts k a d.wsms w f,
              count-free env k w.handle c.allocated,
            ))
            i)
          0)
      (λ z. failed-Covers c i (env.free_wsm w.handle))

found_wsm-Covers :
    (env : Env) (id a : ℕ) (d : Device) (o : Option Wsm) (c : Client)
    → resolve_device id c.devices ≡ some d
    → find_wsm a d.wsms ≡ o
    → IsCovered c
    → Covers (elim o [ none ↦ failed 17 c | some w ↦ free_contiguous_wsm env id w c ])
found_wsm-Covers env id a d none c e f i = failed-Covers c i 17
found_wsm-Covers env id a d (some w) c e f i = free-Covers env id a d w c e f i

pub free_wsm-Covers :
    (env : Env) (id wsm : ℕ) (c : Client) → IsCovered c → Covers (mc_free_wsm env id wsm c)
unfolding mc_free_wsm
free_wsm-Covers env id wsm c i =
    check_device-Covers c i id _
      (λ d e. found_wsm-Covers env id wsm d (find_wsm wsm d.wsms) c e refl i)
