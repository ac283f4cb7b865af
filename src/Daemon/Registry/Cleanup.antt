-- ===== src/Daemon/Registry/Cleanup.antt =====
-- The deletion of containers with all that stands below them.
use android_hardware_samsung.Common.{
  ℕ, ◌-◌, ◌^◌, Bool, true, false, List, [], ◌∷◌, replicate, length, ◌==◌, if◌then◌else◌,
}
use android_hardware_samsung.Daemon.Registry.Bytes.{
  same_bytes, root_size, sp_size, root_children, sp_children,
}
use android_hardware_samsung.Daemon.Registry.Names.{
  root_cont_file_path, sp_cont_file_path, tl_cont_file_path, sp_data_path, tl_data_path,
}
use android_hardware_samsung.Daemon.Registry.Disk.{
  Disk, folder, remove_file, remove_folder, tl_bin_file_path,
}
use android_hardware_samsung.Daemon.Registry.Containers.{RegResult, removed, read_root, read_sp}

-- From the directory of data on: the binary may be missing.
abbrev pub cleanup_tl_files : List ℕ → ℕ → Bool × Disk → RegResult × Disk
cleanup_tl_files uuid spid (false, k) = (RegResult.unknown, k)
cleanup_tl_files uuid spid (true, k) =
    removed (remove_file (tl_cont_file_path uuid spid) (remove_file (tl_bin_file_path uuid k) k).1)

unfoldable pub cleanup_trustlet : List ℕ → ℕ → Disk → RegResult × Disk
cleanup_trustlet uuid spid k =
    cleanup_tl_files uuid spid
      (remove_folder (tl_data_path uuid) (folder (tl_data_path uuid) k.folders) k)

-- MC_UUID_FREE
abbrev pub uuid_free : List ℕ
uuid_free = replicate 16 255

-- MC_SPID_FREE
abbrev pub spid_free : ℕ
spid_free = 2 ^ 32 - 1

-- A loop over children goes on while the result is ok.
abbrev pub after : (Disk → RegResult × Disk) → RegResult × Disk → RegResult × Disk
after next (RegResult.ok, t) = next t
after next (e, t) = (e, t)

unfoldable pub cleanup_children : List (List ℕ) → ℕ → Disk → RegResult × Disk
cleanup_children [] spid k = (RegResult.ok, k)
cleanup_children (uuid ∷ uuids) spid k =
    let next = cleanup_children uuids spid in
    if same_bytes uuid uuid_free then next k else after next (cleanup_trustlet uuid spid k)

abbrev pub cleanup_sp_files : ℕ → Bool × Disk → RegResult × Disk
cleanup_sp_files spid (false, k) = (RegResult.unknown, k)
cleanup_sp_files spid (true, k) = removed (remove_file (sp_cont_file_path spid) k)

abbrev pub cleanup_sp_below : ℕ → RegResult × Disk → RegResult × Disk
cleanup_sp_below spid (RegResult.ok, k) =
    cleanup_sp_files spid
      (remove_folder (sp_data_path spid) (folder (sp_data_path spid) k.folders) k)
cleanup_sp_below spid (e, k) = (e, k)

-- A container of another length ends the cleanup with the result of the read.
abbrev pub cleanup_sp_read : ℕ → RegResult × List ℕ → Disk → RegResult × Disk
cleanup_sp_read spid (RegResult.ok, so) k =
    if length so == sp_size
    then cleanup_sp_below spid (cleanup_children (sp_children so) spid k)
    else (RegResult.ok, k)
cleanup_sp_read spid (e, so) k = (e, k)

unfoldable pub cleanup_sp : ℕ → Disk → RegResult × Disk
cleanup_sp spid k =
    if spid == 0
    then (RegResult.invalid_parameter, k)
    else cleanup_sp_read spid (read_sp spid sp_size k) k

unfoldable pub cleanup_sps : List ℕ → Disk → RegResult × Disk
cleanup_sps [] k = (RegResult.ok, k)
cleanup_sps (spid ∷ spids) k =
    let next = cleanup_sps spids in
    if spid == spid_free then next k else after next (cleanup_sp spid k)

abbrev pub cleanup_root_file : RegResult × Disk → RegResult × Disk
cleanup_root_file (RegResult.ok, k) = removed (remove_file root_cont_file_path k)
cleanup_root_file (e, k) = (e, k)

abbrev pub cleanup_root_read : RegResult × List ℕ → Disk → RegResult × Disk
cleanup_root_read (RegResult.ok, so) k =
    if length so == root_size
    then cleanup_root_file (cleanup_sps (root_children so) k)
    else (RegResult.ok, k)
cleanup_root_read (e, so) k = (e, k)

unfoldable pub cleanup_root : Disk → RegResult × Disk
cleanup_root k = cleanup_root_read (read_root root_size k) k
