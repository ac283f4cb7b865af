-- ===== src/Daemon/Driver/Registry.antt =====
-- The commands on the registry.
use android_hardware_samsung.Common.{
  ℕ, Bool, true, false, not, List, take, length, ltb, if◌then◌else◌,
}
use android_hardware_samsung.Daemon.Registry.Bytes.{word_at, auth_token_size}
use android_hardware_samsung.Daemon.Registry.Disk.{Disk}
use android_hardware_samsung.Daemon.Registry.Containers.{
  RegResult, store_auth_token, store_root, store_sp, store_trustlet_con, store_data,
  read_auth_token, read_root, read_sp, read_trustlet_con, delete_auth_token,
}
use android_hardware_samsung.Daemon.Registry.Cleanup.{cleanup_trustlet, cleanup_sp, cleanup_root}
use android_hardware_samsung.Daemon.Driver.Wire.{read_length, overlay, Command}
use android_hardware_samsung.Daemon.Driver.State.{
  registry, registry_data, Env, Driver, write, check_permission,
}

-- `getData`: the test for a negative length never holds of an unsigned number, so an error counts
-- as success. The buffer is the n-th of the command.
abbrev pub get_data : Env → ℕ → ℕ → Bool × List ℕ
get_data env n len =
    (not (ltb (read_length (env.reads n)) len), overlay (env.reads n) (env.stale n))

abbrev pub max_data_size : ℕ
max_data_size = 512

-- What is read: the result, the buffer and the length to be sent.
pub record Fetched : Type 0 where
  pub code : RegResult
  pub buffer : List ℕ
  pub len : ℕ

-- The buffer and the length as they are, the read having failed.
abbrev pub unread : Env → RegResult → Fetched
unread env e = record { code = e; buffer = env.stale 0; len = max_data_size }

abbrev pub fetched : Env → RegResult × List ℕ → Fetched
fetched env (RegResult.ok, b) = record { code = RegResult.ok; buffer = b; len = length b }
fetched env (e, b) = unread env e

abbrev pub fetched_token : Env → RegResult × List ℕ → Fetched
fetched_token env (RegResult.ok, b) = record {
  code = RegResult.ok;
  buffer = b;
  len = auth_token_size;
}
fetched_token env (e, b) = record { code = e; buffer = env.stale 0; len = auth_token_size }

-- The `switch` of `processRegistryReadData`.
unfoldable pub fetch : Env → Command → Disk → Fetched
fetch env Command.read_auth_token k = fetched_token env (read_auth_token k)
fetch env Command.read_root_cont k = fetched env (read_root max_data_size k)
fetch env Command.read_sp_cont k =
    let (got, spid) = get_data env 1 4 in
    if got
    then fetched env (read_sp (word_at 0 spid) max_data_size k)
    else unread env RegResult.invalid_operation
fetch env Command.read_tl_cont k =
    let (got_uuid, uuid) = get_data env 1 16 in
    let (got_spid, spid) = get_data env 2 4 in
    if got_uuid
    then (if got_spid
        then fetched env (read_trustlet_con (take 16 uuid) (word_at 0 spid) max_data_size k)
        else unread env RegResult.invalid_operation)
    else unread env RegResult.invalid_operation
fetch env _ k = unread env RegResult.invalid_operation

abbrev pub is_invalid_operation : RegResult → Bool
is_invalid_operation RegResult.invalid_operation = true
is_invalid_operation _ = false

abbrev pub send_fetched : ℕ → Fetched → Driver → Driver
send_fetched c f d =
    let t = write c (registry f.code) d in
    if is_invalid_operation f.code then t else write c (registry_data (take f.len f.buffer)) t

unfoldable pub process_registry_read_data : Env → Command → ℕ → Driver → Driver
process_registry_read_data env cmd c d =
    if check_permission env
    then send_fetched c (fetch env cmd d.disk) d
    else write c (registry RegResult.invalid_operation) d

abbrev pub refused : Disk → RegResult × Disk
refused k = (RegResult.invalid_operation, k)

-- The `switch` of `processRegistryWriteData`, the size being read already. `malloc` does not fail.
unfoldable pub update : Env → Command → ℕ → Disk → RegResult × Disk
update env Command.store_auth_token size k =
    let (got, so) = get_data env 2 size in
    if got then store_auth_token (take size so) k else refused k
update env Command.write_root_cont size k =
    let (got, so) = get_data env 2 size in if got then store_root (take size so) k else refused k
update env Command.write_sp_cont size k =
    let (got_spid, spid) = get_data env 2 4 in
    let (got, so) = get_data env 3 size in
    if got_spid
    then (if got then store_sp (word_at 0 spid) (take size so) k else refused k)
    else refused k
update env Command.write_tl_cont size k =
    let (got_uuid, uuid) = get_data env 2 16 in
    let (got_spid, spid) = get_data env 3 4 in
    let (got, so) = get_data env 4 size in
    if got_uuid
    then (if got_spid
        then (if got
            then store_trustlet_con (take 16 uuid) (word_at 0 spid) (take size so) k
            else refused k)
        else refused k)
    else refused k
update env Command.write_so_data size k =
    let (got, so) = get_data env 2 size in
    if got then store_data (take size so) env.beyond k else refused k
update env _ size k = refused k

abbrev pub answer_update : ℕ → RegResult × Disk → Driver → Driver
answer_update c (r, k) d = write c (registry r) (record d { disk = k })

unfoldable pub process_registry_write_data : Env → Command → ℕ → Driver → Driver
process_registry_write_data env cmd c d =
    let (got, size) = get_data env 1 4 in
    if check_permission env
    then (if got
        then answer_update c (update env cmd (word_at 0 size) d.disk) d
        else write c (registry RegResult.invalid_operation) d)
    else write c (registry RegResult.invalid_operation) d

-- The `switch` of `processRegistryDeleteData`.
unfoldable pub erase_data : Env → Command → Disk → RegResult × Disk
erase_data env Command.delete_auth_token k = delete_auth_token k
erase_data env Command.delete_root_cont k = cleanup_root k
erase_data env Command.delete_sp_cont k =
    let (got, spid) = get_data env 1 4 in if got then cleanup_sp (word_at 0 spid) k else refused k
erase_data env Command.delete_tl_cont k =
    let (got_uuid, uuid) = get_data env 1 16 in
    let (got_spid, spid) = get_data env 2 4 in
    if got_uuid
    then (if got_spid then cleanup_trustlet (take 16 uuid) (word_at 0 spid) k else refused k)
    else refused k
erase_data env _ k = refused k

unfoldable pub process_registry_delete_data : Env → Command → ℕ → Driver → Driver
process_registry_delete_data env cmd c d =
    if check_permission env
    then answer_update c (erase_data env cmd d.disk) d
    else write c (registry RegResult.invalid_operation) d
