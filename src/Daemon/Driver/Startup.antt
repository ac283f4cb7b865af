-- ===== src/Daemon/Driver/Startup.antt =====
-- What the daemon does before it serves: `run` and `loadDeviceDriver`.
use android_hardware_samsung.Common.{
  ℕ, zero, suc, ◌+◌, Bool, Option, some, none, ◌∷◌, if◌then◌else◌,
}
use android_hardware_samsung.Daemon.Session.{Wsm}
use android_hardware_samsung.Daemon.Device.State.{DrvResult, Device, World}
use android_hardware_samsung.Daemon.Device.Commands as Commands
use android_hardware_samsung.Daemon.Registry.Names.{FilePath}
use android_hardware_samsung.Daemon.Registry.Blob.{RegObject, get_driver_blob}
use android_hardware_samsung.Daemon.Driver.State.{Env, Driver}
use android_hardware_samsung.Daemon.Driver.Sessions.{load_of}

-- `MobicoreDriverResources`: the connection, the handle of the TCI and the session.
pub record DriverResources : Type 0 where
  pub conn : ℕ
  pub tci : ℕ
  pub session_id : ℕ

-- `closeSession(i)` from `i` on, `n` times, each in its own world.
unfoldable pub close_sessions : ℕ → ℕ → (ℕ → World) → Device → Device
close_sessions zero i w d = d
close_sessions (suc n) i w d = close_sessions n (i + 1) w (Commands.close_session_id i (w i) d).1

-- The sessions 2 to 6 of a secure world that was running already.
unfoldable pub close_pending : Bool → (ℕ → World) → Device → Device
close_pending already_running w d = if already_running then close_sessions 5 2 w d else d

abbrev pub loaded : ℕ → ℕ → ℕ → DrvResult → Driver → Option DriverResources × Driver
loaded conn tci id DrvResult.ok d = (some (record { conn = conn; tci = tci; session_id = id }), d)
loaded conn tci id e d = (none, d)

abbrev pub load_registered :
    Env → ℕ → RegObject → Wsm → Option Wsm → Driver → Option DriverResources × Driver
-- The load data stay registered until `unregisterWsmL2` below the loop.
load_registered env conn o w none d =
    (none, if env.unregister_ok w.handle then d else record d { shared = w.handle ∷ d.shared })
load_registered env conn o w (some tci) d =
    let (r, t) =
      Commands.open_session conn (load_of env o w) tci.handle tci.len 0 env.world d.device in
    loaded conn tci.handle env.world.response.session_id r (record d {
      device = t;
      shared = if env.unregister_ok w.handle then d.shared else w.handle ∷ d.shared;
    })

-- `loadDeviceDriver`, with a new connection and what `allocateContiguousPersistentWsm` yields.
unfoldable pub load_device_driver :
    Env → ℕ → FilePath → Option Wsm → Driver → Option DriverResources × Driver
load_device_driver env conn p tci d = elim (get_driver_blob p d.disk) [
  | none ↦ (none, d)
  | some o ↦ elim (env.register_wsm env.blob_address o.len) [
    | none ↦ (none, d)
    | some w ↦ load_registered env conn o w tci d
  ]
]
