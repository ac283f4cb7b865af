-- ===== src/Daemon/Netlink.antt =====
-- mobicore/daemon/Common/NetlinkConnection.cpp: a connection whose data come as messages of the
-- netlink socket and are read as a stream. A message has a header of 16 bytes and is as long as a
-- multiple of 4.
pub mod Stream
pub mod Tests
use android_hardware_samsung.Common.{
  ℕ, suc, ◌+◌, ◌-◌, ◌*◌, ◌/◌, ◌%◌, Bool, true, false, not, ◌&&◌, Option, some, none, List, [], ◌∷◌,
  ◌++◌, take, drop, length, ltb, ◌==◌, if◌then◌else◌,
}

pub record Connection : Type 0 where
  -- What is left of `dataMsg` from `dataStart` on, `dataLen` bytes.
  pub content : List ℕ
  -- The count of the semaphore `dataLeft`.
  pub signals : ℕ
  pub detached : Bool
  pub self_pid : ℕ
  pub peer_pid : ℕ
  pub sequence_magic : ℕ

pub data Outcome : Type 0 where
  read_bytes : List ℕ → Outcome
  -- -2
  timed_out : Outcome

-- The constructor of the manager's connections.
unfoldable pub new_connection : ℕ → ℕ → ℕ → Connection
new_connection own pid seq = record {
  content = [];
  signals = 0;
  detached = false;
  self_pid = own;
  peer_pid = pid;
  sequence_magic = seq;
}

-- The payload of a message takes the place of what is left.
unfoldable pub handle_message : List ℕ → Connection → Connection
handle_message payload c = record c { content = payload; signals = suc c.signals }

abbrev pub is_empty : List ℕ → Bool
is_empty [] = true
is_empty (b ∷ bs) = false

-- The semaphore is signalled again for what is left.
abbrev pub leave : List ℕ → Connection → Connection
leave rest c = record c {
  content = rest;
  signals = if is_empty rest then c.signals else suc c.signals;
}

-- Behind the wait, with the mutex.
abbrev pub read_left : ℕ → Connection → Outcome × Connection
read_left len c =
    if is_empty c.content
    then (timed_out, c)
    else if ltb (length c.content) len
    then (read_bytes c.content, leave [] c)
    else (read_bytes (take len c.content), leave (drop len c.content) c)

-- The wait for `dataLeft` times out when no signal is there (without a timeout it waits on).
unfoldable pub read_data : ℕ → Connection → Outcome × Connection
read_data len c =
    if c.signals == 0 then (timed_out, c) else read_left len (record c { signals = c.signals - 1 })

-- NLMSG_SPACE: with the header, up to a multiple of 4.
abbrev pub nlmsg_space : ℕ → ℕ
nlmsg_space len = (len + 16 + 3) / 4 * 4

-- What is sent, and whether all of it was: the payload of a message, which the memory behind the
-- data fills up; `send` is how much `sendmsg` sends of a number of bytes, and `malloc` what it
-- returns for one.
unfoldable pub write_data : (ℕ → ℕ) → (ℕ → List ℕ) → List ℕ → Connection → Option ℕ × List ℕ
write_data send malloc bytes c =
    let len = length bytes in
    let payload = bytes ++ drop (16 + len) (malloc (nlmsg_space len)) in
    if send (nlmsg_space len) == nlmsg_space len then (some len, payload) else (none, payload)
