-- ===== src/Daemon/NotificationQueue/Tests.antt =====
-- The notification queues at a concrete input: the counters about to wrap.
use android_hardware_samsung.Common.{◌-◌, ◌^◌, ◌≡◌, replicate, refl, arith}
use android_hardware_samsung.Common.Int.{pos}
use android_hardware_samsung.Daemon.NotificationQueue.{
  Notification, Ring, Queues, blank, nq_num_elems, put_notification, get_notification,
}
use android_hardware_samsung.Daemon.NotificationQueue.Fifo
use android_hardware_samsung.Daemon.NotificationQueue.Refine.{IsValid, contents, queues_refine}

abbrev note : Notification
note = record { session_id = 7; payload = pos 1 }

abbrev ring : Ring
ring = record { write_cnt = 1; read_cnt = 2 ^ 32 - 1; queue_size = 16; cells = replicate 16 blank }

abbrev both : Queues
both = record { in_ring = ring; out_ring = ring }

ring-IsValid : IsValid ring
ring-IsValid = record {
  size = refl;
  room = refl;
  write_word = omega arith;
  read_word = omega arith;
  filled = omega arith;
}

queues_refine_example :
    (contents (put_notification note both).out_ring
      ≡ Fifo.put nq_num_elems note (contents both.out_ring))
    × (((get_notification both).0, contents (get_notification both).1.in_ring)
        ≡ Fifo.take_first (contents both.in_ring))
    × IsValid (put_notification note both).out_ring
    × IsValid (get_notification both).1.in_ring
queues_refine_example = queues_refine note both ring-IsValid ring-IsValid
