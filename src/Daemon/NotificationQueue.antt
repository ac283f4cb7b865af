-- ===== src/Daemon/NotificationQueue.antt =====
-- mobicore/daemon/Daemon/Device/NotificationQueue.cpp, over the queues of
-- mobicore/common/MobiCore/inc/Mci/mcinq.h: two rings in memory shared with the secure world,
-- `out` written by the daemon and `in` read by it. The counters are `uint32_t` and wrap.
pub mod Fifo
pub mod Refine
mod Tests
use Prim.Native.Nat.{bit_and}
use android_hardware_samsung.Common.{
  ℕ, ◌+◌, ◌-◌, ◌%◌, ◌^◌, Option, some, none, List, ltb, get_or, set, if◌then◌else◌,
}
use android_hardware_samsung.Common.Int.{ℤ, pos}

-- `notification_t`
pub record Notification : Type 0 where
  pub session_id : ℕ
  pub payload : ℤ

-- `notificationQueue_t`, its header and its cells.
pub record Ring : Type 0 where
  pub write_cnt : ℕ
  pub read_cnt : ℕ
  pub queue_size : ℕ
  pub cells : List Notification

-- NQ_NUM_ELEMS of TrustZoneDevice.cpp
abbrev pub nq_num_elems : ℕ
nq_num_elems = 16

abbrev pub sub32 : ℕ → ℕ → ℕ
sub32 a b = (a + 2 ^ 32 - b) % 2 ^ 32

abbrev pub inc32 : ℕ → ℕ
inc32 a = (a + 1) % 2 ^ 32

abbrev pub blank : Notification
blank = record { session_id = 0; payload = pos 0 }

pub record Queues : Type 0 where
  pub in_ring : Ring
  pub out_ring : Ring

-- The constructor: both queues get the size.
unfoldable pub new_queues : Ring → Ring → ℕ → Queues
new_queues i o size = record {
  in_ring = record i { queue_size = size };
  out_ring = record o { queue_size = size };
}

abbrev pub put_ring : Notification → Ring → Ring
put_ring n q =
    if ltb (sub32 q.write_cnt q.read_cnt) q.queue_size
    then record q {
      cells = set q.cells (bit_and q.write_cnt (sub32 q.queue_size 1)) n;
      write_cnt = inc32 q.write_cnt;
    }
    else q

-- A notification that finds the queue full is dropped.
unfoldable pub put_notification : Notification → Queues → Queues
put_notification n q = record q { out_ring = put_ring n q.out_ring }

abbrev pub get_ring : Ring → Option Notification × Ring
get_ring q =
    if ltb 0 (sub32 q.write_cnt q.read_cnt)
    then (
      some (get_or q.cells (bit_and q.read_cnt (sub32 q.queue_size 1)) blank),
      record q { read_cnt = inc32 q.read_cnt },
    )
    else (none, q)

-- The pointer into the ring is followed at once, so the notification itself is returned.
unfoldable pub get_notification : Queues → Option Notification × Queues
get_notification q = let (n, i) = get_ring q.in_ring in (n, record q { in_ring = i })
