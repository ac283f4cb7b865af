-- ===== src/Daemon/Client/Covered.antt =====
-- Every handle that the library names is in use in the kernel, and no device is open twice: the
-- ways in which the calls change what holds of the state.
use android_hardware_samsung.Common.{
  ℕ, ◌+◌, ◌≡◌, ◌≤◌, Option, some, none, List, [], ◌∷◌, refl, arith,
}
use android_hardware_samsung.Daemon.Client.State.{
  Device, Client, Env, Reply, resolve_device, at_device, add_device, without_device, erase_device,
  remove_device, remove_dead,
}
use android_hardware_samsung.Daemon.Client.Counts.{
  count, in_sessions, in_devices, in_wsms, in_memory, count-delete_device,
}
use android_hardware_samsung.Daemon.Client.Pointers.{
  at_device_counts, without_device_counts, in_devices-append, in_memory-append,
}
use android_hardware_samsung.Daemon.Client.Distinct.{
  AreDistinct, at_device-AreDistinct, without_device-AreDistinct, add-AreDistinct,
}

pub record IsCovered (c : Client) : Type 0 where
  pub covers : (k : ℕ) → in_devices k c.devices ≤ count k c.registered
  pub covers_memory : (k : ℕ) → in_memory k c.devices ≤ count k c.allocated
  pub distinct : AreDistinct c.devices

-- The kernel may keep more than before.
pub more-IsCovered :
    (c t : Client)
    → t.devices ≡ c.devices
    → ((k : ℕ) → count k c.registered ≤ count k t.registered)
    → ((k : ℕ) → count k c.allocated ≤ count k t.allocated)
    → IsCovered c
    → IsCovered t
more-IsCovered c t e m n i = record {
  covers = λ k. ground (arith, i.covers k, m k);
  covers_memory = λ k. ground (arith, i.covers_memory k, n k);
  distinct = rw e i.distinct;
}

pub sent-IsCovered :
    (c : Client) (m : List (ℕ × List ℕ)) → IsCovered c → IsCovered (record c { sent = m })
sent-IsCovered c m i =
    more-IsCovered c (record c { sent = m }) refl (λ k. omega arith) (λ k. omega arith) i

erase_device-IsCovered :
    (env : Env) (id : ℕ) (o : Option Device) (c : Client)
    → resolve_device id c.devices ≡ o
    → IsCovered c
    → IsCovered (erase_device env id o c)
erase_device-IsCovered env id none c e i = i
erase_device-IsCovered env id (some d) c e i =
    let t : Client = record c { devices = without_device id c.devices } in
    let counted = λ (k : ℕ). count-delete_device env k d t in
    let taken = λ (k : ℕ). without_device_counts k id c.devices d e in
    record {
      covers = λ k. ground (arith, i.covers k, taken k, counted k);
      covers_memory = λ k. ground (arith, i.covers_memory k, taken k, counted k);
      distinct = rw ((counted 0).2) (without_device-AreDistinct id c.devices i.distinct);
    }

pub remove_device-IsCovered :
    (env : Env) (id : ℕ) (c : Client) → IsCovered c → IsCovered (remove_device env id c)
unfolding remove_device
remove_device-IsCovered env id c i =
    erase_device-IsCovered env id (resolve_device id c.devices) c refl i

pub remove_dead-IsCovered :
    (env : Env) (id : ℕ) (r : Reply) → IsCovered r.client → IsCovered (remove_dead env id r).client
remove_dead-IsCovered env id r i = ground (arith, remove_device-IsCovered env id r.client i)

pub add_device-IsCovered :
    (d : Device) (c : Client)
    → resolve_device d.device_id c.devices ≡ none
    → d.sessions ≡ []
    → d.wsms ≡ []
    → IsCovered c
    → IsCovered (add_device d c)
add_device-IsCovered d c n s w i = record {
  covers = λ k. ground (arith, i.covers k, in_devices-append k c.devices (d ∷ []));
  covers_memory = λ k. ground (arith, i.covers_memory k, in_memory-append k c.devices (d ∷ []));
  distinct = add-AreDistinct c.devices d n i.distinct;
}

-- A device changes by no more than the kernel does.
pub at_device-IsCovered :
    (id : ℕ) (f : Device → Device) (d : Device) (c t : Client)
    → resolve_device id c.devices ≡ some d
    → t.devices ≡ at_device id f c.devices
    → ((x : Device) → (f x).device_id ≡ x.device_id)
    → ((k : ℕ)
        → in_sessions k (f d).sessions + count k c.registered
          ≤ in_sessions k d.sessions + count k t.registered)
    → ((k : ℕ)
        → in_wsms k (f d).wsms + count k c.allocated ≤ in_wsms k d.wsms + count k t.allocated)
    → IsCovered c
    → IsCovered t
at_device-IsCovered id f d c t e u same m n i = record {
  covers = λ k. ground (arith, i.covers k, m k, at_device_counts k id f c.devices d e);
  covers_memory =
      λ k. ground (arith, i.covers_memory k, n k, at_device_counts k id f c.devices d e);
  distinct = rw u (at_device-AreDistinct id f c.devices same i.distinct);
}
