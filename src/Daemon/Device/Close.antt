-- ===== src/Daemon/Device/Close.antt =====
-- `open` and `close` of mobicore/daemon/Daemon/Device/MobiCoreDevice.cpp. The loop of `close`
-- walks the `std::list` backwards while `closeSession` erases from it. A reverse iterator holds
-- the position behind its element, here as the number of sessions before it; the erased session
-- lies before that position, which so goes down by one.
use android_hardware_samsung.Common.{
  ℕ, zero, suc, Bool, true, false, Option, some, none, List, [], ◌∷◌, ◌==◌, length, if◌then◌else◌,
}
use android_hardware_samsung.Daemon.Session.{Session}
use android_hardware_samsung.Daemon.Device.State.{DrvResult, Device, World, call, cleanup_wsm}
use android_hardware_samsung.Daemon.Device.Commands.{close_session}

-- `connection->connectionData = this`
unfoldable pub open_device : ℕ → Device → Bool × Device
open_device c d = (true, record d { linked = c ∷ d.linked })

abbrev pub unlink : ℕ → List ℕ → List ℕ
unlink c [] = []
unlink c (x ∷ xs) = if x == c then unlink c xs else x ∷ unlink c xs

abbrev pub session_at : List Session → ℕ → Option Session
session_at [] i = none
session_at (s ∷ ss) zero = some s
session_at (s ∷ ss) (suc i) = session_at ss i

-- Whether a round of the loop has erased a session, and the device.
abbrev pub closed : DrvResult × Device → Bool × Device
closed (DrvResult.ok, d) = (true, d)
closed (e, d) = (false, d)

-- The body of the loop at a session.
unfoldable pub close_round : ℕ → Option Session → World → Device → Bool × Device
close_round c none w d = (false, d)
close_round c (some s) w d =
    if s.device_connection == c then closed (close_session c s.session_id w d) else (false, d)

-- The loop at a position, with the `World` of each position. `none` is undefined behaviour: the
-- `++` of an iterator whose base is the beginning of the list.
unfoldable pub close_loop : ℕ → ℕ → (ℕ → World) → Device → Option Device
close_loop c zero w d = some d
close_loop c (suc zero) w d =
    let (erased, d') = close_round c (session_at d.sessions 0) (w 1) d in
    if erased then none else some d'
close_loop c (suc (suc p)) w d =
    let (erased, d') = close_round c (session_at d.sessions (suc p)) (w (suc (suc p))) d in
    let skip = close_loop c p w d' in
    let next = close_loop c (suc p) w d' in if erased then skip else next

unfoldable pub close : ℕ → (ℕ → World) → Device → Option Device
close c w d = elim (close_loop c (length d.sessions) w d) [
  | none ↦ none
  | some t ↦ some (record (call cleanup_wsm t) { linked = unlink c t.linked })
]
