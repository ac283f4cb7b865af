-- ===== src/Daemon/Client/Covers.antt =====
-- What each kind of step of a call does to what the library keeps covered.
use android_hardware_samsung.Common.{
  ℕ, ◌≡◌, Bool, true, false, Option, some, List, ◌∷◌, if◌then◌else◌, refl,
}
use android_hardware_samsung.Daemon.Client.State.{
  Session, Device, Client, Env, Reply, failed, resolve_device, resolve_session, remove_dead,
}
use android_hardware_samsung.Daemon.Client.Wire.{
  not_null, check_device, check_device_closed, check_session, send, recv,
}
use android_hardware_samsung.Daemon.Client.Checks.{
  if_holds, not_null_holds, check_device_holds, check_device_closed_holds, check_session_holds,
  send_holds, recv_holds,
}
use android_hardware_samsung.Daemon.Client.Covered.{
  IsCovered, sent-IsCovered, remove_dead-IsCovered,
}

pub record Covers (r : Reply) : Type 0 where
  pub covered : IsCovered r.client

pub if-Covers :
    (b : Bool) (x y : Reply)
    → (b ≡ true → Covers x)
    → (b ≡ false → Covers y)
    → Covers (if b then x else y)
if-Covers b x y f g = if_holds Covers b x y f g

pub remove_dead-Covers : (env : Env) (id : ℕ) (r : Reply) → Covers r → Covers (remove_dead env id r)
remove_dead-Covers env id r i = record { covered = remove_dead-IsCovered env id r i.covered }

module _ (c : Client) (i : IsCovered c) where
  pub failed-Covers : (e : ℕ) → Covers (failed e c)
  failed-Covers e = record { covered = i }

  pub reply-Covers : (e : ℕ) (o : List ℕ) → Covers (record { code = e; out = o; client = c })
  reply-Covers e o = record { covered = i }

  pub not_null-Covers {ℓ} :
      {A : Type ℓ} (o : Option A) (k : A → Reply)
      → ((a : A) → o ≡ some a → Covers (k a))
      → Covers (not_null o c k)
  not_null-Covers o k g = not_null_holds Covers c o k failed-Covers g

  pub check_device-Covers :
      (id : ℕ) (k : Device → Reply)
      → ((d : Device) → resolve_device id c.devices ≡ some d → Covers (k d))
      → Covers (check_device id c k)
  check_device-Covers id k g = check_device_holds Covers c id k failed-Covers g

  pub check_device_closed-Covers :
      (id : ℕ) (k : Device → Reply)
      → ((d : Device) → resolve_device id c.devices ≡ some d → Covers (k d))
      → Covers (check_device_closed id c k)
  check_device_closed-Covers id k g = check_device_closed_holds Covers c id k failed-Covers g

  pub check_session-Covers :
      (id : ℕ) (d : Device) (k : Session → Reply)
      → ((s : Session) → resolve_session id d.sessions ≡ some s → Covers (k s))
      → Covers (check_session id d c k)
  check_session-Covers id d k g = check_session_holds Covers c id d k failed-Covers g

  pub send-Covers :
      (env : Env) (n conn : ℕ) (bytes : List ℕ) (k : Client → Reply)
      → ((t : Client) → t ≡ record c { sent = (conn, bytes) ∷ c.sent } → IsCovered t → Covers (k t))
      → Covers (send env n conn bytes c k)
  send-Covers env n conn bytes k g =
      let t : Client = record c { sent = (conn, bytes) ∷ c.sent } in
      send_holds Covers c env n conn bytes k failed-Covers (g t refl (sent-IsCovered c t.sent i))

  pub recv-Covers :
      (env : Env) (n size : ℕ) (k : List ℕ → Reply)
      → ((bytes : List ℕ) → Covers (k bytes))
      → Covers (recv env n size c k)
  recv-Covers env n size k g = recv_holds Covers c env n size k failed-Covers g
