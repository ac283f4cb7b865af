-- ===== src/Daemon/Device/Version.antt =====
-- `getMobiCoreVersion`: the version that is kept.
use android_hardware_samsung.Common.{ℕ, ◌≡◌, Option, some, none, refl, arith}
use android_hardware_samsung.Daemon.Device.State.{DrvResult, Device, World}
use android_hardware_samsung.Daemon.Device.Commands.{get_mobicore_version}

-- Once `getMobiCoreVersion` has answered `ok`, every further call answers the same version and
-- leaves the device as it is: the secure world is not asked again, whatever it would say.
pub get_mobicore_version_lem :
    (w v : World) (d : Device)
    → (get_mobicore_version w d).0 ≡ DrvResult.ok
    → get_mobicore_version v (get_mobicore_version w d).2 ≡ get_mobicore_version w d
unfolding get_mobicore_version
get_mobicore_version_lem w v d h = go d.version_info refl
  where
    go :
        (o : Option ℕ)
        → d.version_info ≡ o
        → get_mobicore_version v (get_mobicore_version w d).2 ≡ get_mobicore_version w d
    go none e = ground arith
    go (some x) e = ground arith
