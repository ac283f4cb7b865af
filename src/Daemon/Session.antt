-- ===== src/Daemon/Session.antt =====
-- mobicore/daemon/Daemon/Device/TrustletSession.cpp: a session of the secure world, with the
-- buffers mapped into it and the notifications that wait for its client. A pointer is the number
-- of the object that it points to.
pub mod Buffers
use android_hardware_samsung.Common.{
  ℕ, Bool, true, false, Option, some, none, List, [], ◌∷◌, ◌++◌, ltb, ◌==◌, length, zero, suc,
  if◌then◌else◌,
}
use mathlib.Core.Option
use android_hardware_samsung.Daemon.NotificationQueue.{Notification}

-- `CWsm` (mobicore/daemon/Common/CWsm.h)
pub record Wsm : Type 0 where
  pub virt_addr : ℕ
  pub len : ℕ
  pub handle : ℕ
  pub phys_addr : ℕ

-- `std::map<uint32_t, CWsm_ptr>`, in the order of its keys. A buffer's key is its own handle.
abbrev pub BufferMap : Type 0
BufferMap = List Wsm

pub record Session : Type 0 where
  -- The address of the object, which is its `deviceSessionId`.
  pub address : ℕ
  pub notifications : List Notification
  pub buffers : BufferMap
  pub session_id : ℕ
  pub session_magic : ℕ
  pub device_connection : ℕ
  pub notification_connection : Option ℕ

-- The constructor; `magic` is what `rand()` returns.
unfoldable pub new_session : ℕ → ℕ → ℕ → ℕ → Session
new_session address magic connection id = record {
  address = address;
  notifications = [];
  buffers = [];
  session_id = id;
  session_magic = magic;
  device_connection = connection;
  notification_connection = none;
}

unfoldable pub queue_notification : Notification → Session → Session
queue_notification n s = record s { notifications = s.notifications ++ (n ∷ []) }

-- The notifications written to the connection, in order, and the session behind it.
abbrev pub flush : Option ℕ → Session → List (ℕ × Notification) × Session
flush none s = ([], s)
flush (some c) s = (pair s.notifications, record s { notifications = [] })
  where
    pair : List Notification → List (ℕ × Notification)
    pair [] = []
    pair (n ∷ ns) = (c, n) ∷ pair ns

unfoldable pub process_queued_notifications : Session → List (ℕ × Notification) × Session
process_queued_notifications s = flush s.notification_connection s

unfoldable pub find : ℕ → BufferMap → Option Wsm
find h [] = none
find h (w ∷ m) = if w.handle == h then some w else find h m

unfoldable pub insert : Wsm → BufferMap → BufferMap
insert w [] = w ∷ []
insert w (v ∷ m) = if ltb w.handle v.handle then w ∷ v ∷ m else v ∷ insert w m

unfoldable pub erase : ℕ → BufferMap → BufferMap
erase h [] = []
erase h (w ∷ m) = if w.handle == h then m else w ∷ erase h m

abbrev pub add_new : Option Wsm → Wsm → Session → Bool × Session
add_new (some old) w s = (false, s)
add_new none w s = (true, record s { buffers = insert w s.buffers })

-- A null pointer is `none`; a handle that is mapped already is refused.
unfoldable pub add_bulk_buff : Option Wsm → Session → Bool × Session
add_bulk_buff none s = (false, s)
add_bulk_buff (some w) s = add_new (find w.handle s.buffers) w s

abbrev pub remove_found : Option Wsm → ℕ → Session → Bool × Session
remove_found none h s = (false, s)
remove_found (some w) h s = (true, record s { buffers = erase h s.buffers })

unfoldable pub remove_bulk_buff : ℕ → Session → Bool × Session
remove_bulk_buff h s = remove_found (find h s.buffers) h s

-- The buffer with the lowest handle goes first.
unfoldable pub pop_first : BufferMap → Option Wsm × BufferMap
pop_first [] = (none, [])
pop_first (w ∷ m) = (some w, erase w.handle (w ∷ m))

unfoldable pub pop_bulk_buff : Session → Option Wsm × Session
pop_bulk_buff s = let (w, m) = pop_first s.buffers in (w, record s { buffers = m })

-- The loop of `cleanSessionBuffers` (MobiCoreDevice.cpp): the handles that it unlocks, in order,
-- or `none` where the fuel runs out.
unfoldable pub pop_all : ℕ → Session → Option (List ℕ)
pop_all zero s = none
pop_all (suc fuel) s =
    let (w, t) = pop_bulk_buff s in
    let rest = pop_all fuel t in
    elim w [ none ↦ some [] | some v ↦ Option.map (λ hs. v.handle ∷ hs) rest ]

unfoldable pub clean_session_buffers : Session → Option (List ℕ)
clean_session_buffers s = pop_all (suc (length s.buffers)) s
