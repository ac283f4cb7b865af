-- ===== src/Daemon/Device/Tests.antt =====
-- The device at concrete inputs.
use android_hardware_samsung.Common.{
  ◌^◌, ◌+◌, ℕ, ◌+◌, ◌^◌, ◌≡◌, ◌≢◌, ◌↔◌, true, false, some, none, [], ◌∷◌, refl, arith,
}
use android_hardware_samsung.Daemon.Session.{find}
use android_hardware_samsung.Daemon.Session.Buffers.{}
use android_hardware_samsung.Daemon.Device.State.{DrvResult, Command, Device, World}
use android_hardware_samsung.Daemon.Device.Sessions.{
  get_trustlet_session, notify, owned, notify_owned, handle_all,
}
use android_hardware_samsung.Daemon.Device.Commands.{
  get_mobicore_version, exchange, find_tci, open_locked, open_session, close_session, map_bulk,
  unmap_bulk, wait_mcp_notification, wait_loop,
}
use android_hardware_samsung.Daemon.Device.Exchange.{IsAnswered, exchange_ok_iff}
use android_hardware_samsung.Daemon.Device.Ownership.{IsForeign, foreign, not_owned_rejected}
use android_hardware_samsung.Daemon.Device.Opening.{
  held, Opened, Refused, open_session-Opened, open_session-Refused,
}
use android_hardware_samsung.Daemon.Device.Closing.{close-open}
use android_hardware_samsung.Daemon.Device.Close.{close}
use android_hardware_samsung.Daemon.Device.Teardown.{others, is_linked, close-others, close_skips}
use android_hardware_samsung.Daemon.Device.Delivery.{Delivered, handle_all-Delivered}
use android_hardware_samsung.Daemon.Device.Scenarios.{
  note, early_note, ring-IsValid, buffer, session, device, answering, load, one, three, opening,
  closing, answers,
}
use android_hardware_samsung.Daemon.Device.Registration.{}

abbrev after_open : DrvResult × Device
after_open = open_session 1 load 3 4096 0 opening (device one)

opens : after_open.0 ≡ DrvResult.ok
unfolding open_session find_tci open_locked exchange notify wait_mcp_notification wait_loop
opens = refl

exchange_ok_iff_example :
    ((exchange (Command.close_session 5) closing (device one)).0 ≡ DrvResult.ok)
    ↔ IsAnswered (Command.close_session 5) closing (device one)
exchange_ok_iff_example = exchange_ok_iff (Command.close_session 5) closing (device one)

open_session-Opened_example : Opened 1 load 3 opening (device one) after_open.1
open_session-Opened_example = open_session-Opened 1 load 3 4096 0 opening (device one) opens

-- A TCI longer than the shared memory behind it.
abbrev small : World
small = record opening { contiguous = λ h c. some (8192, 16) }

refuses : (open_session 1 load 3 4096 0 small (device one)).0 ≢ DrvResult.ok
unfolding open_session find_tci open_locked
refuses e = cc

open_session-Refused_example :
    Refused 3
      (open_session 1 load 3 4096 0 small (device one)).0
      (device one)
      (open_session 1 load 3 4096 0 small (device one)).1
open_session-Refused_example = open_session-Refused 1 load 3 4096 0 small (device one) refuses

opens_device : open_session 1 load 3 4096 0 opening (device one) ≡ (DrvResult.ok, after_open.1)
unfolding open_session find_tci open_locked exchange notify wait_mcp_notification wait_loop
opens_device = refl

no_nine : get_trustlet_session 9 one ≡ none
unfolding get_trustlet_session
no_nine = refl

healthy_after : after_open.1.mc_fault ≡ false
unfolding open_session find_tci open_locked exchange notify wait_mcp_notification wait_loop
healthy_after = refl

close-open_example :
    ((close_session 1 9 closing after_open.1).0 ≡ DrvResult.ok)
    × ((close_session 1 9 closing after_open.1).1.sessions ≡ one)
    × ((k : ℕ) → held k (close_session 1 9 closing after_open.1).1.calls ≡ held k [])
close-open_example =
    close-open 1 load 3 4096 0 opening closing (device one) after_open.1 opens_device no_nine
      (answers (Command.close_session 9) after_open.1 healthy_after)

not_mine : IsForeign 2 5 one
not_mine = foreign refl (λ e. omega arith)

mine : owned (get_trustlet_session 5 one) 1 ≡ some (session 100 1 5)
unfolding get_trustlet_session
mine = refl

not_owned_rejected_example :
    (notify_owned 2 5 (device one) ≡ (DrvResult.unknown_session, device one))
    × (close_session 2 5 closing (device one) ≡ (DrvResult.unknown_session, device one))
    × (map_bulk 2 5 8 0 32 4096 closing (device one)
        ≡ (DrvResult.unknown_session, none, device one))
    × (unmap_bulk 2 5 8 800 4096 closing (device one) ≡ (DrvResult.unknown_session, device one))
not_owned_rejected_example = not_owned_rejected 2 5 8 0 32 4096 800 closing (device one) not_mine

abbrev faulty : Device
faulty = record (device one) { mc_fault = true }

abbrev mapping : World
mapping = answering (2 ^ 31 + 4)

abbrev unmapping : World
unmapping = answering (2 ^ 31 + 5)

abbrev after_map : Device
after_map = (map_bulk 1 5 8 0 32 4096 mapping (device one)).2

healthy_map : after_map.mc_fault ≡ false
unfolding map_bulk exchange notify wait_mcp_notification wait_loop get_trustlet_session
healthy_map = refl

no_eight : find 8 (buffer ∷ []) ≡ none
unfolding find
no_eight = refl

skipped :
    (t : Device) × (close 1 (λ k. closing) (device three) ≡ some t)
    × (t.sessions ≡ session 100 2 5 ∷ session 200 1 6 ∷ [])
skipped =
    close_skips 1 (session 100 2 5) (session 200 1 6) (session 300 1 7) (λ k. closing)
      (device three) refl (λ e. absurd (omega arith)) refl refl (λ e. absurd (omega arith))
      (λ e. absurd (omega arith)) (answers (Command.close_session 7) (device three) refl)

close-others_example :
    (others 1 skipped.0.sessions ≡ others 1 three) × (is_linked 1 skipped.0.linked ≡ false)
close-others_example = close-others 1 (λ k. closing) (device three) skipped.0 skipped.1

five : get_trustlet_session 5 one ≡ some (session 100 1 5)
unfolding get_trustlet_session
five = refl

handle_all-Delivered_example :
    (t : Device) × (handle_all 3 (device one) ≡ some t)
    × Delivered (note ∷ early_note ∷ []) (device one) t
handle_all-Delivered_example = handle_all-Delivered 3 (device one) ring-IsValid (omega arith)

abbrev versions : World
versions = answering (2 ^ 31 + 9)

has_version : (get_mobicore_version versions (device one)).0 ≡ DrvResult.ok
unfolding get_mobicore_version exchange notify wait_mcp_notification wait_loop
has_version = refl
