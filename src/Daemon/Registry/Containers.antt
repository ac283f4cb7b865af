-- ===== src/Daemon/Registry/Containers.antt =====
-- The containers of mobicore/daemon/Registry/PrivateRegistry.cpp: store, read and delete. Buffers
-- come from the daemon, so no pointer is NULL.
use android_hardware_samsung.Common.{
  ℕ, Bool, true, false, not, ◌||◌, ◌*◌, Option, some, none, List, [], ◌++◌, take, drop, length, ltb,
  ◌==◌, if◌then◌else◌,
}
use android_hardware_samsung.Daemon.Registry.Bytes.{
  word_at, so_size, auth_token_size, data_size, max_so_cont_size,
}
use android_hardware_samsung.Daemon.Registry.Names.{
  FilePath, root_cont_file_path, sp_cont_file_path, tl_cont_file_path, tl_data_path, data_file_name,
}
use android_hardware_samsung.Daemon.Registry.Disk.{
  Disk, lookup, write_file, remove_file, write_data, auth_token_file_path,
}

-- The results of the registry, and of the daemon before it calls the registry.
pub data RegResult : Type 0 where
  ok invalid_parameter invalid_device_file out_of_resources unknown invalid_operation : RegResult

abbrev pub stored : Option Disk → Disk → RegResult × Disk
stored none k = (RegResult.invalid_device_file, k)
stored (some t) k = (RegResult.ok, t)

-- The common body of the stores; the size is a `uint32_t`.
abbrev pub store : FilePath → List ℕ → Disk → RegResult × Disk
store p so k =
    if ltb (3 * max_so_cont_size) (length so)
    then (RegResult.invalid_parameter, k)
    else stored (write_file p so k) k

unfoldable pub store_auth_token : List ℕ → Disk → RegResult × Disk
store_auth_token so k = store (auth_token_file_path k) so k

unfoldable pub store_root : List ℕ → Disk → RegResult × Disk
store_root so k = store root_cont_file_path so k

unfoldable pub store_sp : ℕ → List ℕ → Disk → RegResult × Disk
store_sp spid so k =
    if spid == 0 then (RegResult.invalid_parameter, k) else store (sp_cont_file_path spid) so k

unfoldable pub store_trustlet_con : List ℕ → ℕ → List ℕ → Disk → RegResult × Disk
store_trustlet_con uuid spid so k = store (tl_cont_file_path uuid spid) so k

-- What `fread` of at most `n` bytes gives; nothing read is an error.
abbrev pub read_some : ℕ → Option (List ℕ) → RegResult × List ℕ
read_some n none = (RegResult.invalid_device_file, [])
read_some n (some b) =
    if length (take n b) == 0 then (RegResult.invalid_device_file, []) else (RegResult.ok, take n b)

abbrev pub read_whole : Option (List ℕ) → RegResult × List ℕ
read_whole none = (RegResult.invalid_device_file, [])
read_whole (some b) =
    if length b == auth_token_size then (RegResult.ok, b) else (RegResult.out_of_resources, [])

unfoldable pub read_auth_token : Disk → RegResult × List ℕ
read_auth_token k = read_whole (lookup (auth_token_file_path k) k.files)

unfoldable pub read_root : ℕ → Disk → RegResult × List ℕ
read_root n k = read_some n (lookup root_cont_file_path k.files)

unfoldable pub read_sp : ℕ → ℕ → Disk → RegResult × List ℕ
read_sp spid n k =
    if spid == 0
    then (RegResult.invalid_parameter, [])
    else read_some n (lookup (sp_cont_file_path spid) k.files)

unfoldable pub read_trustlet_con : List ℕ → ℕ → ℕ → Disk → RegResult × List ℕ
read_trustlet_con uuid spid n k = read_some n (lookup (tl_cont_file_path uuid spid) k.files)

abbrev pub removed : Bool × Disk → RegResult × Disk
removed (true, k) = (RegResult.ok, k)
removed (false, k) = (RegResult.unknown, k)

unfoldable pub delete_auth_token : Disk → RegResult × Disk
delete_auth_token k = removed (remove_file (auth_token_file_path k) k)

-- The bytes written for a data container: as many as its header says, `beyond` being the memory
-- behind it.
unfoldable pub data_written : List ℕ → List ℕ → List ℕ
data_written so beyond = take (so_size (word_at 36 so) (word_at 40 so)) (so ++ beyond)

-- `mcRegistryStoreData`; CONT_TYPE_TLDATA is 5.
unfoldable pub store_data : List ℕ → List ℕ → Disk → RegResult × Disk
store_data so beyond k =
    if not (length so == data_size) || not (word_at 44 so == 5)
    then (RegResult.invalid_parameter, k)
    else stored
        (write_data (tl_data_path (take 16 (drop 52 so))) (data_file_name (word_at 68 so))
          (data_written so beyond) k)
        k
