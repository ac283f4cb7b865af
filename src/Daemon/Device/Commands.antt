-- ===== src/Daemon/Device/Commands.antt =====
-- The commands of mobicore/daemon/Daemon/Device/MobiCoreDevice.cpp to the secure world. The
-- exchange with it is the same in all of them: the message is written, MobiCore is notified, and
-- its answer is waited for and checked. Of the other threads only the one for interrupts touches
-- the device meanwhile, and of its work only `queueUnknownNotification` (see `World`). The fields
-- of the message that are written ahead of a command count from its exchange on.
use android_hardware_samsung.Common.{
  ℕ, zero, suc, ◌/◌, Bool, true, false, not, ◌||◌, Option, some, none, List, [], ◌∷◌, ◌++◌, ltb,
  ◌==◌, if◌then◌else◌,
}
use android_hardware_samsung.Daemon.NotificationQueue.{Notification}
use android_hardware_samsung.Daemon.Session.{
  Session, new_session, queue_notification, add_bulk_buff, remove_bulk_buff,
}
use android_hardware_samsung.Daemon.Device.State.{
  DrvResult, Command, Call, Device, Wait, World, Response, response_id, status_halt, call,
  mcp_result, lock_wsm, unlock_wsm, delete_connection,
}
use android_hardware_samsung.Daemon.Device.Sessions.{
  get_trustlet_session, remove_trustlet_session, update_at, notify, owned,
}

abbrev pub fault : Device → Bool × Device
fault d = (false, record d { mc_fault = true })

-- The loop of `waitMcpNotification`, by its counter and the number of the wait. At the counter 0
-- it has returned.
unfoldable pub wait_loop : ℕ → ℕ → World → Device → Bool × Device
wait_loop zero k w d = fault d
wait_loop (suc counter) k w d = elim (w.waits k) [
  | Wait.answered ↦ if d.mc_fault then (false, d) else (true, d)
  | Wait.timed_out status ↦
      let more = wait_loop counter (suc k) w d in
      if d.mc_fault
      then (false, d)
      else if status == status_halt
      then fault d
      else if ltb counter 1
      then fault d
      else more
]

abbrev pub healthy : World → Bool × Device → Bool × Device
healthy w (false, d) = (false, d)
healthy w (true, d) = (not (w.irq_exiting || w.scheduler_exiting), d)

unfoldable pub wait_mcp_notification : World → Device → Bool × Device
wait_mcp_notification w d = healthy w (wait_loop 5 0 w d)

abbrev pub check : Command → Response → Bool × Device → DrvResult × Device
check cmd r (false, d) = (DrvResult.mci_error, d)
check cmd r (true, d) =
    (if r.rsp_id == response_id cmd then mcp_result r.result else DrvResult.mci_error, d)

-- From the write of the message to the check of the result.
unfoldable pub exchange : Command → World → Device → DrvResult × Device
exchange cmd w d =
    let sent = notify 0 (record d { message = some cmd }) in
    check cmd w.response
      (wait_mcp_notification w (record sent { notifications = sent.notifications ++ w.early }))

-- `loadDataOpenSession_t`; the header is a number, with its uuid.
pub record LoadData : Type 0 where
  pub base_addr : ℕ
  pub offs : ℕ
  pub len : ℕ
  pub tl_header : ℕ
  pub uuid : ℕ

-- The shared memory for the TCI: whether it is contiguous, its address, its length and offset.
pub record Tci : Type 0 where
  pub is_contiguous : Bool
  pub address : ℕ
  pub len : ℕ
  pub offset : ℕ

abbrev pub find_l2 : ℕ → ℕ → ℕ → Option Tci
find_l2 address tci_len tci_offset =
    if address == 0
    then none
    else some
        (record { is_contiguous = false; address = address; len = tci_len; offset = tci_offset })

-- A contiguous buffer first, then one mapped by an L2 table. The descriptor is the connection's.
unfoldable pub find_tci : World → ℕ → ℕ → ℕ → ℕ → Option Tci
find_tci w c handle tci_len tci_offset = elim (w.contiguous handle c) [
  | some (address, len) ↦
      some (record { is_contiguous = true; address = address; len = len; offset = 0 })
  | none ↦ find_l2 (w.l2 handle c) tci_len tci_offset
]

abbrev pub open_command : LoadData → Tci → ℕ → Command
open_command load tci tci_len =
    Command.open_session tci.is_contiguous tci.address tci.offset tci_len load.uuid load.base_addr
      load.offs load.len load.tl_header

-- Each of the queued notifications goes to the session.
abbrev pub queue_all : List Notification → Session → Session
queue_all [] s = s
queue_all (n ∷ ns) s = queue_all ns (queue_notification n s)

-- The session of a successful open, with its TCI buffer and the early notifications.
unfoldable pub opened : ℕ → LoadData → ℕ → World → List Notification → Session
opened c load handle w early =
    queue_all early
      (add_bulk_buff
        (some (record { virt_addr = load.offs; len = load.len; handle = handle; phys_addr = 0 }))
        (new_session w.address w.magic c w.response.session_id)).1

abbrev pub finish_open : ℕ → LoadData → ℕ → World → DrvResult × Device → DrvResult × Device
finish_open c load handle w (DrvResult.ok, d) = (
  DrvResult.ok,
  record d {
    sessions = d.sessions ++ (opened c load handle w d.notifications ∷ []);
    notifications = [];
  },
)
finish_open c load handle w (e, d) = (e, call (unlock_wsm handle) d)

-- From the length check on, the buffer being locked.
unfoldable pub open_locked : ℕ → LoadData → ℕ → ℕ → Tci → World → Device → DrvResult × Device
open_locked c load handle tci_len tci w d =
    if tci_len == 0 || ltb tci.len tci_len
    then (DrvResult.tci_greater_than_wsm, d)
    else finish_open c load handle w
        (exchange (open_command load tci tci_len) w (record d { notifications = [] }))

abbrev pub open_found : Option Tci → ℕ → LoadData → ℕ → ℕ → World → Device → DrvResult × Device
open_found none c load handle tci_len w d = (DrvResult.wsm_not_found, d)
open_found (some tci) c load handle tci_len w d =
    if w.lock_ok handle
    then open_locked c load handle tci_len tci w (call (lock_wsm handle) d)
    else (DrvResult.wsm_not_found, d)

-- `openSession`; the payload of the answer is the session's id, address and magic number.
unfoldable pub open_session : ℕ → LoadData → ℕ → ℕ → ℕ → World → Device → DrvResult × Device
open_session c load handle tci_len tci_offset w d =
    open_found (find_tci w c handle tci_len tci_offset) c load handle tci_len w d

-- `closeSession(sessionId)`
unfoldable pub close_session_id : ℕ → World → Device → DrvResult × Device
close_session_id id w d = exchange (Command.close_session id) w d

-- `delete ts`: the destructor deletes the connection for notifications.
abbrev pub destroy : Option ℕ → List Call → List Call
destroy none calls = calls
destroy (some c) calls = delete_connection c ∷ calls

abbrev pub finish_close : ℕ → Session → DrvResult × Device → DrvResult × Device
finish_close id s (DrvResult.ok, d) =
    let (sessions, calls) = remove_trustlet_session id d.sessions d.calls in
    (
      DrvResult.ok,
      record d { sessions = sessions; calls = destroy s.notification_connection calls },
    )
finish_close id s (e, d) = (e, d)

-- `closeSession(connection, sessionId)`
unfoldable pub close_session : ℕ → ℕ → World → Device → DrvResult × Device
close_session c id w d = elim (owned (get_trustlet_session id d.sessions) c) [
  | none ↦ (DrvResult.unknown_session, d)
  | some s ↦ finish_close id s (close_session_id id w d)
]

abbrev pub finish_map : ℕ → DrvResult × Device → DrvResult × Option ℕ × Device
finish_map adr (DrvResult.ok, d) = (DrvResult.ok, some adr, d)
finish_map adr (e, d) = (e, none, d)

-- `mapBulk`; the option is `*secureVirtualAdr`, where it is written.
unfoldable pub map_bulk : ℕ → ℕ → ℕ → ℕ → ℕ → ℕ → World → Device → DrvResult × Option ℕ × Device
map_bulk c id handle p_addr_l2 offset len w d =
    elim (owned (get_trustlet_session id d.sessions) c) [
      | none ↦ (DrvResult.unknown_session, none, d)
      | some s ↦ finish_map w.response.secure_virtual_adr (
          exchange (Command.map_wsm id p_addr_l2 offset len) w (record d {
            sessions =
                update_at s.address
                  (λ t.
                    (add_bulk_buff
                      (some (record {
                        virt_addr = offset;
                        len = len;
                        handle = handle;
                        phys_addr = p_addr_l2;
                      }))
                      t).1)
                  d.sessions;
          }))
    ]

abbrev pub finish_unmap : ℕ → ℕ → DrvResult × Device → DrvResult × Device
finish_unmap address handle (DrvResult.ok, d) = (
  DrvResult.ok,
  record d { sessions = update_at address (λ t. (remove_bulk_buff handle t).1) d.sessions },
)
finish_unmap address handle (e, d) = (e, d)

-- `unmapBulk`
unfoldable pub unmap_bulk : ℕ → ℕ → ℕ → ℕ → ℕ → World → Device → DrvResult × Device
unmap_bulk c id handle secure_virtual_adr len w d =
    elim (owned (get_trustlet_session id d.sessions) c) [
      | none ↦ (DrvResult.unknown_session, d)
      | some s ↦
          finish_unmap s.address handle (exchange (Command.unmap_wsm id secure_virtual_adr len) w d)
    ]

-- `donateRam`, whose result is only logged.
unfoldable pub donate_ram : ℕ → World → Device → Device
donate_ram size w d = elim (w.allocated size) [
  | none ↦ d
  | some address ↦ (exchange (Command.donate_ram address (size / 4096)) w d).1
]

abbrev pub finish_version : ℕ → DrvResult × Device → DrvResult × Option ℕ × Device
finish_version v (DrvResult.ok, d) = (DrvResult.ok, some v, record d { version_info = some v })
finish_version v (e, d) = (e, none, d)

-- `getMobiCoreVersion`: fetched once, then kept.
unfoldable pub get_mobicore_version : World → Device → DrvResult × Option ℕ × Device
get_mobicore_version w d = elim d.version_info [
  | some v ↦ (DrvResult.ok, some v, d)
  | none ↦ finish_version w.response.version_info (exchange Command.get_version w d)
]
