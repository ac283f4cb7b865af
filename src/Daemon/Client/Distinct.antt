-- ===== src/Daemon/Client/Distinct.antt =====
-- No device is open twice.
use android_hardware_samsung.Common.{ℕ, ◌≡◌, false, none, List, [], ◌∷◌, ◌++◌, ◌==◌, refl, arith}
use android_hardware_samsung.Daemon.Client.State.{Device, resolve_device, at_device, without_device}

unfoldable pub AreDistinct : List Device → Type 0
AreDistinct [] = Unit
AreDistinct (d ∷ ds) = (resolve_device d.device_id ds ≡ none) × AreDistinct ds

resolve-at_device :
    (id j : ℕ) (f : Device → Device) (ds : List Device)
    → ((d : Device) → (f d).device_id ≡ d.device_id)
    → resolve_device j ds ≡ none
    → resolve_device j (at_device id f ds) ≡ none
unfolding resolve_device
resolve-at_device id j f [] same e = refl
resolve-at_device id j f (x ∷ ds) same e = ground (arith, resolve-at_device id j f ds same, same x)

pub at_device-AreDistinct :
    (id : ℕ) (f : Device → Device) (ds : List Device)
    → ((d : Device) → (f d).device_id ≡ d.device_id)
    → AreDistinct ds
    → AreDistinct (at_device id f ds)
unfolding AreDistinct resolve_device
at_device-AreDistinct id f [] same e = tt
at_device-AreDistinct id f (x ∷ ds) same (n, e) = ground (
  arith,
  resolve-at_device id x.device_id f ds same n,
  at_device-AreDistinct id f ds same e,
  same x,
)

resolve-without_device :
    (id j : ℕ) (ds : List Device)
    → resolve_device j ds ≡ none
    → resolve_device j (without_device id ds) ≡ none
unfolding resolve_device
resolve-without_device id j [] e = refl
resolve-without_device id j (x ∷ ds) e = ground (arith, resolve-without_device id j ds)

pub without_device-AreDistinct :
    (id : ℕ) (ds : List Device) → AreDistinct ds → AreDistinct (without_device id ds)
unfolding AreDistinct
without_device-AreDistinct id [] e = tt
without_device-AreDistinct id (x ∷ ds) (n, e) =
    ground (arith, resolve-without_device id x.device_id ds n, without_device-AreDistinct id ds e)

resolve-add :
    (j : ℕ) (ds : List Device) (d : Device)
    → resolve_device j ds ≡ none
    → (d.device_id == j) ≡ false
    → resolve_device j (ds ++ d ∷ []) ≡ none
unfolding resolve_device
resolve-add j [] d e n = ground arith
resolve-add j (x ∷ ds) d e n = ground (arith, resolve-add j ds d)

pub add-AreDistinct :
    (ds : List Device) (d : Device)
    → resolve_device d.device_id ds ≡ none
    → AreDistinct ds
    → AreDistinct (ds ++ d ∷ [])
unfolding AreDistinct resolve_device
add-AreDistinct [] d n e = ground arith
add-AreDistinct (x ∷ ds) d n (m, e) =
    ground (arith, resolve-add x.device_id ds d m, add-AreDistinct ds d)

-- What is taken out is not found again.
pub without_device_gone :
    (id : ℕ) (ds : List Device) → AreDistinct ds → resolve_device id (without_device id ds) ≡ none
unfolding AreDistinct resolve_device
without_device_gone id [] e = refl
without_device_gone id (x ∷ ds) (n, e) = ground (arith, without_device_gone id ds e)
