-- ===== src/Daemon/Client/Wire.antt =====
-- The checks and the exchanges of mobicore/daemon/ClientLib/ClientLib.cpp that its macros make.
use android_hardware_samsung.Common.{
  ℕ, ◌/◌, ◌%◌, ◌^◌, Option, some, none, Bool, false, ◌||◌, List, [], ◌∷◌, ◌++◌, length, ◌==◌,
  if◌then◌else◌,
}
use android_hardware_samsung.Daemon.Driver.Wire.{Read, received, socket_error, overlay}
use android_hardware_samsung.Daemon.Client.Codes.{
  err_unknown_device, err_unknown_session, err_daemon_unreachable, err_null_pointer,
  err_daemon_device_not_open,
}
use android_hardware_samsung.Daemon.Client.State.{
  Session, Device, Client, Env, Reply, failed, resolve_device, resolve_session,
}

-- A `uint32_t` in memory, its low byte first.
abbrev pub word : ℕ → List ℕ
word n = n % 256 ∷ n / 256 % 256 ∷ n / 256 ^ 2 % 256 ∷ n / 256 ^ 3 % 256 ∷ []

abbrev pub words : List ℕ → List ℕ
words [] = []
words (n ∷ ns) = word n ++ words ns

-- `mcSessionHandle_t`
pub record SessionHandle : Type 0 where
  pub device_id : ℕ
  pub session_id : ℕ

-- CHECK_NOT_NULL
abbrev pub not_null {ℓ} : {A : Type ℓ} → Option A → Client → (A → Reply) → Reply
not_null none c k = failed err_null_pointer c
not_null (some a) c k = k a

abbrev pub address : ℕ → Option ℕ
address a = if a == 0 then none else some a

-- CHECK_DEVICE. Behind it CHECK_DEVICE_CLOSED does nothing.
abbrev pub check_device : ℕ → Client → (Device → Reply) → Reply
check_device id c k = elim (resolve_device id c.devices) [
  | none ↦ failed err_unknown_device c
  | some d ↦ k d
]

-- CHECK_DEVICE_CLOSED; MC_DEVICE_ID_DEFAULT is 0.
abbrev pub check_device_closed : ℕ → Client → (Device → Reply) → Reply
check_device_closed id c k = elim (resolve_device id c.devices) [
  | none ↦ failed (if id == 0 then err_daemon_device_not_open else err_unknown_device) c
  | some d ↦ k d
]

-- CHECK_SESSION
abbrev pub check_session : ℕ → Device → Client → (Session → Reply) → Reply
check_session id d c k = elim (resolve_session id d.sessions) [
  | none ↦ failed err_unknown_session c
  | some s ↦ k s
]

-- SEND_TO_DAEMON: the n-th write of the call. What a failed write has sent is not kept.
abbrev pub send : Env → ℕ → ℕ → List ℕ → Client → (Client → Reply) → Reply
send env n conn bytes c k =
    if env.write_ok n
    then k (record c { sent = (conn, bytes) ∷ c.sent })
    else failed err_daemon_unreachable c

-- A read has brought the whole structure of `n` bytes, or as much as a response header.
abbrev pub is_complete : ℕ → Read → Bool
is_complete n socket_error = false
is_complete n (received []) = false
is_complete n (received (b ∷ bs)) = length (b ∷ bs) == n || length (b ∷ bs) == 4

-- RECV_FROM_DAEMON: the n-th read of the call, into a structure of `size` bytes.
abbrev pub recv : Env → ℕ → ℕ → Client → (List ℕ → Reply) → Reply
recv env n size c k =
    if is_complete size (env.reads n)
    then k (overlay (env.reads n) env.stale)
    else failed err_daemon_unreachable c
