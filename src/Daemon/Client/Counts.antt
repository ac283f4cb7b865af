-- ===== src/Daemon/Client/Counts.antt =====
-- How often the devices of the library name a handle of the kernel, and how often the kernel keeps
-- it in use.
use android_hardware_samsung.Common.{
  ℕ, ◌+◌, ◌-◌, ◌≡◌, ◌≤◌, List, [], ◌∷◌, ◌==◌, if◌then◌else◌, refl, arith,
}
use android_hardware_samsung.Daemon.Session.{Wsm}
use android_hardware_samsung.Daemon.Client.State.{
  BulkBufferDescriptor, Session, Device, Client, Env, take_out, unregister, unregister_all,
  delete_session, delete_sessions, free, free_all, delete_device,
}

abbrev pub one_if : ℕ → ℕ → ℕ
one_if h k = if h == k then 1 else 0

abbrev pub count : ℕ → List ℕ → ℕ
count k [] = 0
count k (h ∷ hs) = one_if h k + count k hs

abbrev pub in_buffers : ℕ → List BulkBufferDescriptor → ℕ
in_buffers k [] = 0
in_buffers k (b ∷ bs) = one_if b.handle k + in_buffers k bs

abbrev pub in_sessions : ℕ → List Session → ℕ
in_sessions k [] = 0
in_sessions k (s ∷ ss) = in_buffers k s.buffers + in_sessions k ss

abbrev pub in_devices : ℕ → List Device → ℕ
in_devices k [] = 0
in_devices k (d ∷ ds) = in_sessions k d.sessions + in_devices k ds

abbrev pub in_wsms : ℕ → List Wsm → ℕ
in_wsms k [] = 0
in_wsms k (w ∷ ws) = one_if w.handle k + in_wsms k ws

abbrev pub in_memory : ℕ → List Device → ℕ
in_memory k [] = 0
in_memory k (d ∷ ds) = in_wsms k d.wsms + in_memory k ds

count-take_out : (k h : ℕ) (hs : List ℕ) → count k hs ≤ one_if h k + count k (take_out h hs)
count-take_out k h [] = ground arith
count-take_out k h (x ∷ hs) = ground (arith, count-take_out k h hs)

pub count-unregister :
    (env : Env) (k h : ℕ) (hs : List ℕ) → count k hs ≤ one_if h k + count k (unregister env h hs)
count-unregister env k h hs = ground (arith, count-take_out k h hs)

pub count-unregister_all :
    (env : Env) (k : ℕ) (bs : List BulkBufferDescriptor) (hs : List ℕ)
    → count k hs ≤ in_buffers k bs + count k (unregister_all env bs hs)
count-unregister_all env k [] hs = omega arith
count-unregister_all env k (b ∷ bs) hs = omega (
  arith,
  count-unregister env k b.handle hs,
  count-unregister_all env k bs (unregister env b.handle hs),
)

-- A handle goes once per call that the kernel does not fail on.
take_out_lem : (k h : ℕ) (hs : List ℕ) → count k (take_out h hs) ≡ count k hs - one_if h k
take_out_lem k h [] = ground arith
take_out_lem k h (x ∷ hs) = ground (arith, take_out_lem k h hs)

pub unregister_all_lem :
    (env : Env) (k : ℕ) (bs : List BulkBufferDescriptor) (hs : List ℕ)
    → count k (unregister_all env bs hs)
      ≡ (if env.unregister_wsm k == 0 then count k hs - in_buffers k bs else count k hs)
unregister_all_lem env k [] hs = ground arith
unregister_all_lem env k (b ∷ bs) hs =
    ground
      (arith, take_out_lem k b.handle hs, unregister_all_lem env k bs (unregister env b.handle hs))

pub count-free :
    (env : Env) (k h : ℕ) (hs : List ℕ) → count k hs ≤ one_if h k + count k (free env h hs)
count-free env k h hs = ground (arith, count-take_out k h hs)

count-free_all :
    (env : Env) (k : ℕ) (ws : List Wsm) (hs : List ℕ)
    → count k hs ≤ in_wsms k ws + count k (free_all env ws hs)
count-free_all env k [] hs = omega arith
count-free_all env k (w ∷ ws) hs =
    omega (arith, count-free env k w.handle hs, count-free_all env k ws (free env w.handle hs))

count-delete_sessions :
    (env : Env) (k : ℕ) (ss : List Session) (c : Client)
    → (count k c.registered ≤ in_sessions k ss + count k (delete_sessions env ss c).registered)
      × ((delete_sessions env ss c).allocated ≡ c.allocated)
      × ((delete_sessions env ss c).devices ≡ c.devices)
unfolding delete_session
count-delete_sessions env k [] c = (omega arith, refl, refl)
count-delete_sessions env k (s ∷ ss) c =
    let (counted, same, here) = count-delete_sessions env k ss (delete_session env s c) in
    (omega (arith, counted, count-unregister_all env k s.buffers c.registered), same, here)

-- A device that goes takes no more handles along than it names.
pub count-delete_device :
    (env : Env) (k : ℕ) (d : Device) (c : Client)
    → (count k c.registered ≤ in_sessions k d.sessions + count k (delete_device env d c).registered)
      × (count k c.allocated ≤ in_wsms k d.wsms + count k (delete_device env d c).allocated)
      × ((delete_device env d c).devices ≡ c.devices)
unfolding delete_device
count-delete_device env k d c =
    let (counted, same, here) = count-delete_sessions env k d.sessions c in
    (counted, ground (arith, same, count-free_all env k d.wsms c.allocated), here)
