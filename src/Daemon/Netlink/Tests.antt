-- ===== src/Daemon/Netlink/Tests.antt =====
-- A message of the netlink socket, read in pieces.
use android_hardware_samsung.Common.{
  ℕ, ◌-◌, ◌≡◌, false, some, List, [], ◌∷◌, ◌++◌, length, replicate, refl,
}
use android_hardware_samsung.Daemon.Netlink.{Connection, new_connection, handle_message, write_data}
use android_hardware_samsung.Daemon.Netlink.Stream.{read_all, total, stream_lem}

abbrev idle : Connection
idle = record {
  content = [];
  signals = 0;
  detached = false;
  self_pid = 1;
  peer_pid = 7;
  sequence_magic = 3;
}

idle_is_new : new_connection 1 7 3 ≡ idle
unfolding new_connection
idle_is_new = refl

-- Five bytes come as eight.
padded :
    write_data (λ n. n) (λ n. replicate n 0) (1 ∷ 2 ∷ 3 ∷ 4 ∷ 5 ∷ []) idle
    ≡ (some 5, 1 ∷ 2 ∷ 3 ∷ 4 ∷ 5 ∷ 0 ∷ 0 ∷ 0 ∷ [])
unfolding write_data
padded = refl

abbrev message : List ℕ
message = 6 ∷ 0 ∷ 0 ∷ 0 ∷ 9 ∷ []

stream_lem_example :
    let (out, d) = read_all (4 ∷ 1 ∷ 2 ∷ []) (handle_message message idle) in
    (out ++ d.content ≡ message) × (length d.content ≡ length message - total (4 ∷ 1 ∷ 2 ∷ []))
stream_lem_example =
    stream_lem message (4 ∷ 1 ∷ 2 ∷ []) idle (record { signalled = refl }) refl (λ e. cc)
