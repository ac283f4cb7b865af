-- ===== src/Daemon/Device/Scenarios.antt =====
-- Concrete devices, and a secure world that answers every command at the second wait.
use android_hardware_samsung.Common.{
  ℕ, zero, suc, ◌+◌, ◌^◌, ◌≡◌, inl, inr, true, false, none, List, [], ◌∷◌, replicate, refl, arith,
}
use android_hardware_samsung.Common.Int.{pos}
use android_hardware_samsung.Daemon.NotificationQueue.{Notification, Ring, blank}
use android_hardware_samsung.Daemon.NotificationQueue.Refine.{IsValid}
use android_hardware_samsung.Daemon.Session.{Wsm, Session}
use android_hardware_samsung.Daemon.Session.Buffers.{}
use android_hardware_samsung.Daemon.Device.State.{Command, Device, World, Wait, response_id}
use android_hardware_samsung.Daemon.Device.Sessions.{}
use android_hardware_samsung.Daemon.Device.Commands.{LoadData}
use android_hardware_samsung.Daemon.Device.Exchange.{IsAnswered}
use android_hardware_samsung.Daemon.Device.Opening.{}
use android_hardware_samsung.Daemon.Device.Teardown.{}

abbrev pub note : Notification
note = record { session_id = 5; payload = pos 1 }

abbrev pub early_note : Notification
early_note = record { session_id = 9; payload = pos 2 }

abbrev pub ring : Ring
ring = record {
  write_cnt = 2;
  read_cnt = 0;
  queue_size = 16;
  cells = note ∷ early_note ∷ replicate 14 blank;
}

pub ring-IsValid : IsValid ring
ring-IsValid = record {
  size = refl;
  room = refl;
  write_word = omega arith;
  read_word = omega arith;
  filled = omega arith;
}

abbrev pub buffer : Wsm
buffer = record { virt_addr = 64; len = 4096; handle = 3; phys_addr = 0 }

abbrev pub second_buffer : Wsm
second_buffer = record { virt_addr = 32; len = 4096; handle = 8; phys_addr = 0 }

-- The session of a connection.
abbrev pub session : ℕ → ℕ → ℕ → Session
session address c id = record {
  address = address;
  notifications = [];
  buffers = buffer ∷ [];
  session_id = id;
  session_magic = 77;
  device_connection = c;
  notification_connection = none;
}

abbrev pub device : List Session → Device
device ss = record {
  sessions = ss;
  notifications = [];
  mc_fault = false;
  version_info = none;
  message = none;
  queues = record { in_ring = ring; out_ring = ring };
  linked = 1 ∷ 2 ∷ [];
  calls = [];
}

abbrev pub waits : ℕ → Wait
waits zero = Wait.timed_out 2
waits (suc n) = Wait.answered

abbrev pub answering : ℕ → World
answering id = record {
  contiguous = λ h c. none;
  l2 = λ h c. 4096;
  lock_ok = λ h. true;
  allocated = λ n. none;
  waits = waits;
  irq_exiting = false;
  scheduler_exiting = false;
  response = record {
    rsp_id = id;
    result = 0;
    session_id = 9;
    secure_virtual_adr = 800;
    version_info = 4;
  };
  early = early_note ∷ [];
  address = 500;
  magic = 11;
}

abbrev pub load : LoadData
load = record { base_addr = 4096; offs = 64; len = 4096; tl_header = 1; uuid = 2 }

abbrev pub one : List Session
one = session 100 1 5 ∷ []

abbrev pub three : List Session
three = session 100 2 5 ∷ session 200 1 6 ∷ session 300 1 7 ∷ []

abbrev pub opening : World
opening = answering (2 ^ 31 + 1)

abbrev pub closing : World
closing = answering (2 ^ 31 + 3)

-- The answers that the worlds above give.
pub answers :
    (cmd : Command) (d : Device)
    → d.mc_fault ≡ false
    → IsAnswered cmd (answering (response_id cmd)) d
answers cmd d f = record {
  no_fault = f;
  in_time = inr ((2, refl, λ e. absurd (omega arith)), inl refl);
  irq_lives = refl;
  scheduler_lives = refl;
  same_command = refl;
  accepted = refl;
}
