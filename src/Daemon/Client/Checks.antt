-- ===== src/Daemon/Client/Checks.antt =====
-- A property of what a call leaves, through the checks and the exchanges that the calls begin with.
use android_hardware_samsung.Common.{
  ℕ, ◌≡◌, Bool, true, false, Option, some, none, List, ◌∷◌, ◌==◌, if◌then◌else◌, refl,
}
use android_hardware_samsung.Daemon.Driver.Wire.{overlay}
use android_hardware_samsung.Daemon.Client.Codes.{}
use android_hardware_samsung.Daemon.Client.State.{
  Session, Device, Client, Env, Reply, failed, resolve_device, resolve_session,
}
use android_hardware_samsung.Daemon.Client.Wire.{
  not_null, check_device, check_device_closed, check_session, send, recv, is_complete,
}

-- As `if`, with what is tested known in either case.
pub if_holds {ℓ} :
    {A : Type ℓ} (P : A → Type 0) (b : Bool) (x y : A)
    → (b ≡ true → P x)
    → (b ≡ false → P y)
    → P (if b then x else y)
if_holds P true x y f g = f refl
if_holds P false x y f g = g refl

module _ (P : Reply → Type 0) (c : Client) where
  pub not_null_holds {ℓ} :
      {A : Type ℓ} (o : Option A) (k : A → Reply)
      → ((e : ℕ) → P (failed e c))
      → ((a : A) → o ≡ some a → P (k a))
      → P (not_null o c k)
  not_null_holds none k f g = f 17
  not_null_holds (some a) k f g = g a refl

  found_holds :
      (o : Option Device) (e : ℕ) (k : Device → Reply)
      → ((e : ℕ) → P (failed e c))
      → ((d : Device) → o ≡ some d → P (k d))
      → P (elim o [ none ↦ failed e c | some d ↦ k d ])
  found_holds none e k f g = f e
  found_holds (some d) e k f g = g d refl

  pub check_device_holds :
      (id : ℕ) (k : Device → Reply)
      → ((e : ℕ) → P (failed e c))
      → ((d : Device) → resolve_device id c.devices ≡ some d → P (k d))
      → P (check_device id c k)
  check_device_holds id k f g = found_holds (resolve_device id c.devices) 7 k f g

  pub check_device_closed_holds :
      (id : ℕ) (k : Device → Reply)
      → ((e : ℕ) → P (failed e c))
      → ((d : Device) → resolve_device id c.devices ≡ some d → P (k d))
      → P (check_device_closed id c k)
  check_device_closed_holds id k f g =
      found_holds (resolve_device id c.devices) (if id == 0 then 33 else 7) k f g

  session_holds :
      (o : Option Session) (k : Session → Reply)
      → ((e : ℕ) → P (failed e c))
      → ((s : Session) → o ≡ some s → P (k s))
      → P (elim o [ none ↦ failed 8 c | some s ↦ k s ])
  session_holds none k f g = f 8
  session_holds (some s) k f g = g s refl

  pub check_session_holds :
      (id : ℕ) (d : Device) (k : Session → Reply)
      → ((e : ℕ) → P (failed e c))
      → ((s : Session) → resolve_session id d.sessions ≡ some s → P (k s))
      → P (check_session id d c k)
  check_session_holds id d k f g = session_holds (resolve_session id d.sessions) k f g

  pub send_holds :
      (env : Env) (n conn : ℕ) (bytes : List ℕ) (k : Client → Reply)
      → ((e : ℕ) → P (failed e c))
      → P (k (record c { sent = (conn, bytes) ∷ c.sent }))
      → P (send env n conn bytes c k)
  send_holds env n conn bytes k f g =
      if_holds P (env.write_ok n) (k (record c { sent = (conn, bytes) ∷ c.sent })) (failed 15 c)
        (λ e. g) (λ e. f 15)

  pub recv_holds :
      (env : Env) (n size : ℕ) (k : List ℕ → Reply)
      → ((e : ℕ) → P (failed e c))
      → ((bytes : List ℕ) → P (k bytes))
      → P (recv env n size c k)
  recv_holds env n size k f g =
      if_holds P (is_complete size (env.reads n)) (k (overlay (env.reads n) env.stale))
        (failed 15 c) (λ e. g (overlay (env.reads n) env.stale)) (λ e. f 15)
