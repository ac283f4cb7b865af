-- ===== src/Daemon/Driver/Wire.antt =====
-- What a client sends: the bytes of the structures of
-- mobicore/daemon/Daemon/public/MobiCoreDriverCmd.h, read by `Connection::readData`.
use android_hardware_samsung.Common.{
  ℕ, ◌+◌, ◌-◌, ◌*◌, ◌^◌, List, ◌++◌, length, get_or, drop, ◌==◌, if◌then◌else◌,
}

-- The outcome of one `readData`: bytes, at most as many as asked for, or -1 for an error.
pub data Read : Type 0 where
  received : List ℕ → Read
  socket_error : Read

-- The returned `size_t` of 32 bits, as a `uint32_t`.
abbrev pub read_length : Read → ℕ
read_length (received bytes) = length bytes
read_length socket_error = 2 ^ 32 - 1

-- A buffer of `n` bytes after a read into it: what the read leaves keeps its old content.
abbrev pub overlay : Read → List ℕ → List ℕ
overlay (received bytes) old = bytes ++ drop (length bytes) old
overlay socket_error old = old

-- The i-th `uint32_t`, its low byte first.
unfoldable pub get_word : ℕ → List ℕ → ℕ
get_word i bytes =
    get_or bytes (4 * i) 0
    + 256
      * (get_or bytes (4 * i + 1) 0
          + 256 * (get_or bytes (4 * i + 2) 0 + 256 * get_or bytes (4 * i + 3) 0))

-- `mcDrvCmd_t`
pub data Command : Type 0 where
  open_device close_device nq_connect open_session close_session notify map_bulk_buf
        unmap_bulk_buf :
      Command
  get_version get_mobicore_version open_trustlet : Command
  store_auth_token read_auth_token delete_auth_token read_root_cont write_root_cont
        delete_root_cont :
      Command
  read_sp_cont write_sp_cont delete_sp_cont read_tl_cont write_tl_cont delete_tl_cont
        write_so_data :
      Command
  unknown : Command

-- The labels of the `switch` in `handleConnection`, by their numbers.
unfoldable pub command_of : ℕ → Command
command_of id =
    if id == 2
    then open_device
    else if id == 3
    then close_device
    else if id == 4
    then nq_connect
    else if id == 5
    then open_session
    else if id == 6
    then close_session
    else if id == 7
    then notify
    else if id == 8
    then map_bulk_buf
    else if id == 9
    then unmap_bulk_buf
    else if id == 10
    then get_version
    else if id == 11
    then get_mobicore_version
    else if id == 12
    then open_trustlet
    else if id == 16 ^ 5
    then store_auth_token
    else if id == 16 ^ 5 + 1
    then read_auth_token
    else if id == 16 ^ 5 + 2
    then delete_auth_token
    else if id == 16 ^ 5 + 3
    then read_root_cont
    else if id == 16 ^ 5 + 4
    then write_root_cont
    else if id == 16 ^ 5 + 5
    then delete_root_cont
    else if id == 16 ^ 5 + 6
    then read_sp_cont
    else if id == 16 ^ 5 + 7
    then write_sp_cont
    else if id == 16 ^ 5 + 8
    then delete_sp_cont
    else if id == 16 ^ 5 + 9
    then read_tl_cont
    else if id == 16 ^ 5 + 10
    then write_tl_cont
    else if id == 16 ^ 5 + 11
    then delete_tl_cont
    else if id == 16 ^ 5 + 12
    then write_so_data
    else unknown
