-- ===== src/Daemon/Client/Ends.antt =====
-- What the calls that close leave behind.
use android_hardware_samsung.Common.{
  ℕ, ◌≡◌, ◌≢◌, Option, Option-cases, some, none, inl, inr, [], ◌∷◌, refl, ap, ◌∙◌, arith,
}
use android_hardware_samsung.Daemon.Client.State.{
  Device, Client, Env, resolve_device, erase_device, without_device, remove_device,
}
use android_hardware_samsung.Daemon.Client.Counts.{count-delete_device}
use android_hardware_samsung.Daemon.Client.Wire.{words}
use android_hardware_samsung.Daemon.Client.Distinct.{without_device_gone}
use android_hardware_samsung.Daemon.Client.Covered.{IsCovered, sent-IsCovered}
use android_hardware_samsung.Daemon.Client.Closing.{mc_close_device}

erase_device_gone :
    (env : Env) (id : ℕ) (o : Option Device) (c : Client)
    → resolve_device id c.devices ≡ o
    → IsCovered c
    → resolve_device id (erase_device env id o c).devices ≡ none
erase_device_gone env id none c e i = e
erase_device_gone env id (some d) c e i =
    let t : Client = record c { devices = without_device id c.devices } in
    ap (resolve_device id) ((count-delete_device env 0 d t).2)
    ∙ without_device_gone id c.devices i.distinct

pub remove_device_gone :
    (env : Env) (id : ℕ) (c : Client)
    → IsCovered c
    → resolve_device id (remove_device env id c).devices ≡ none
unfolding remove_device
remove_device_gone env id c i = erase_device_gone env id (resolve_device id c.devices) c refl i

closed_sessions :
    (env : Env) (id : ℕ) (d : Device) (c : Client)
    → resolve_device id c.devices ≡ some d
    → (mc_close_device env id c).code ≡ 0
    → d.sessions ≡ []
unfolding mc_close_device
closed_sessions env id d c e z = ground arith

closed_client :
    (env : Env) (id : ℕ) (d : Device) (c : Client)
    → resolve_device id c.devices ≡ some d
    → (mc_close_device env id c).code ≡ 0
    → (mc_close_device env id c).client
      ≡ remove_device env id (record c { sent = (d.connection, words (3 ∷ [])) ∷ c.sent })
unfolding mc_close_device
closed_client env id d c e z = ground arith

unknown_refused :
    (env : Env) (id : ℕ) (c : Client)
    → resolve_device id c.devices ≡ none
    → (mc_close_device env id c).code ≢ 0
unfolding mc_close_device
unknown_refused env id c e z = ground arith

-- A close of a device that answers OK, of a library whose devices are open once each: the device
-- was open, without a session, and it is not open any more.
pub close_device_lem :
    (env : Env) (id : ℕ) (c : Client)
    → IsCovered c
    → (mc_close_device env id c).code ≡ 0
    → ((d : Device) × ((resolve_device id c.devices ≡ some d) × (d.sessions ≡ [])))
      × (resolve_device id (mc_close_device env id c).client.devices ≡ none)
close_device_lem env id c i z = elim (Option-cases (resolve_device id c.devices)) [
  | inl e ↦ absurd (unknown_refused env id c e z)
  | inr (d, e) ↦
      let t : Client = record c { sent = (d.connection, words (3 ∷ [])) ∷ c.sent } in
      (
        (d, (e, closed_sessions env id d c e z)),
        ap (λ (u : Client). resolve_device id u.devices) (closed_client env id d c e z)
            ∙ remove_device_gone env id t (sent-IsCovered c t.sent i),
      )
]
