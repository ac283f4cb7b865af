-- ===== src/Daemon/Client/Invariant/Opening.antt =====
-- The calls that open keep what the library names covered.
use android_hardware_samsung.Common.{
  ℕ, ◌≡◌, Option, some, none, [], ◌==◌, if◌then◌else◌, refl, ap, ◌∙◌, arith,
}
use android_hardware_samsung.Daemon.Client.State.{
  Device, Client, Env, Reply, failed, resolve_device, delete_device,
}
use android_hardware_samsung.Daemon.Client.Counts.{count}
use android_hardware_samsung.Daemon.Client.Opening.{
  new_device, drop_new, request_device, finish_device, open_unless, mc_open_device,
}
use android_hardware_samsung.Daemon.Client.Covered.{IsCovered, more-IsCovered, add_device-IsCovered}
use android_hardware_samsung.Daemon.Client.Covers.{Covers, if-Covers, failed-Covers, reply-Covers}

drop_new-Covers : (env : Env) (r : Reply) → Covers r → Covers (drop_new env r)
drop_new-Covers env r i = record {
  covered =
      more-IsCovered r.client (drop_new env r).client refl (λ k. omega arith) (λ k. omega arith)
        i.covered;
}

request_device_same :
    (env : Env) (id : ℕ) (c : Client)
    → ((request_device env id c).client.devices ≡ c.devices)
      × ((request_device env id c).client.registered ≡ c.registered)
      × ((request_device env id c).client.allocated ≡ c.allocated)
unfolding request_device
request_device_same env id c = ground arith

-- From what has been asked of the daemon on.
finish_device-Covers :
    (env : Env) (id : ℕ) (r : Reply)
    → resolve_device id r.client.devices ≡ none
    → IsCovered r.client
    → Covers (finish_device env id r)
unfolding delete_device
finish_device-Covers env id r n i =
    if-Covers (r.code == 0) _ _
      (λ z.
        if-Covers (env.open_kernel == 0) _ _
          (λ y.
            reply-Covers _
              (add_device-IsCovered (new_device id env.new_connection) r.client n refl refl i) 0 [])
          (λ y.
            reply-Covers (delete_device env (new_device id env.new_connection) r.client)
              (more-IsCovered r.client
                (delete_device env (new_device id env.new_connection) r.client) refl
                (λ k. omega arith) (λ k. omega arith) i)
              1 []))
      (λ z. drop_new-Covers env r (record { covered = i }))

connect_device-Covers :
    (env : Env) (id : ℕ) (c : Client)
    → resolve_device id c.devices ≡ none
    → IsCovered c
    → Covers (
        if env.connect_ok
        then finish_device env id (request_device env id c)
        else drop_new env (failed 15 c))
connect_device-Covers env id c n i =
    let (same, registered, allocated) = request_device_same env id c in
    if-Covers env.connect_ok _ _
      (λ z.
        finish_device-Covers env id (request_device env id c)
          (ap (λ ds. resolve_device id ds) same ∙ n)
          (more-IsCovered c (request_device env id c).client same
            (λ k. omega (arith, ap (λ hs. count k hs) registered))
            (λ k. omega (arith, ap (λ hs. count k hs) allocated)) i))
      (λ z. drop_new-Covers env (failed 15 c) (failed-Covers c i 15))

known_device-Covers :
    (env : Env) (id : ℕ) (o : Option Device) (c : Client)
    → resolve_device id c.devices ≡ o
    → IsCovered c
    → Covers (open_unless env id o c)
known_device-Covers env id none c e i = connect_device-Covers env id c e i
known_device-Covers env id (some d) c e i = failed-Covers c i 9

pub open_device-Covers :
    (env : Env) (id : ℕ) (c : Client) → IsCovered c → Covers (mc_open_device env id c)
unfolding mc_open_device
open_device-Covers env id c i = known_device-Covers env id (resolve_device id c.devices) c refl i
