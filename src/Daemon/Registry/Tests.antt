-- ===== src/Daemon/Registry/Tests.antt =====
-- The registry at concrete inputs.
use android_hardware_samsung.Common.{
  ℕ, ◌+◌, ◌≤◌, ◌≡◌, true, false, some, none, List, [], ◌∷◌, ◌++◌, replicate, take, length, refl,
  arith,
}
use android_hardware_samsung.Daemon.Registry.Bytes.{word_at, sp_size, sp_children}
use android_hardware_samsung.Daemon.Registry.Names.{
  FilePath, root_cont_file_path, sp_cont_file_path, tl_cont_file_path, byte_array_to_string,
  uint32_to_string, sp_data_path, tl_data_path,
}
use android_hardware_samsung.Daemon.Registry.Disk.{
  Disk, lookup, put, delete, remove_file, tl_bin_file_path,
}
use android_hardware_samsung.Daemon.Registry.Containers.{
  RegResult, read_root, read_sp, read_trustlet_con, store_root,
}
use android_hardware_samsung.Daemon.Registry.Cleanup.{
  cleanup_trustlet, cleanup_children, cleanup_sp,
}
use android_hardware_samsung.Daemon.Registry.Blob.{
  RegObject, header_magic, mem_get_service_blob, tl_cont_room,
}
use android_hardware_samsung.Daemon.Registry.Distinct.{Container}
use android_hardware_samsung.Daemon.Registry.Store.{read-store}
use android_hardware_samsung.Daemon.Registry.Bounds.{blob_bound}
use android_hardware_samsung.Daemon.Registry.Deletion.{IsUnique}
use android_hardware_samsung.Daemon.Registry.Gone.{AllGone, cleanup_sp_gone}

abbrev disk : List (FilePath × List ℕ) → Disk
disk fs = record {
  files = fs;
  folders = [];
  system_exists = false;
  token_path_exists = true;
  can_write = λ p. true;
  kept = λ b. b;
  can_remove = λ p. true;
  can_remove_data = λ n. true;
  can_write_data = λ n. true;
}

abbrev small : List ℕ
small = 1 ∷ 2 ∷ 3 ∷ []

abbrev uuid : List ℕ
uuid = replicate 16 7

-- A container of a service provider with one trustlet, the other entries being free.
abbrev provider : List ℕ
provider = replicate 60 0 ++ (uuid ++ replicate 320 255)

abbrev full : Disk
full = disk (
    (root_cont_file_path, replicate 220 1)
    ∷ (sp_cont_file_path 9, provider)
    ∷ (tl_cont_file_path uuid 9, replicate 960 2)
    ∷ (tl_bin_file_path uuid (disk []), small)
    ∷ [])

stores : store_root small (disk []) ≡ (RegResult.ok, disk ((root_cont_file_path, small) ∷ []))
unfolding store_root put
stores = refl

read-store_example :
    (read_root 512 (disk ((root_cont_file_path, small) ∷ [])) ≡ (RegResult.ok, small))
    × (read_sp 7 512 (disk ((root_cont_file_path, small) ∷ [])) ≡ read_sp 7 512 (disk []))
read-store_example =
    read-store Container.root (Container.sp 7) small 512 512 (disk [])
      (disk ((root_cont_file_path, small) ∷ [])) tt (omega arith) (λ e. cc) stores
      (λ e. omega arith)

abbrev trustlet : List ℕ
trustlet =
    b'M'
    ∷ b'C'
    ∷ b'L'
    ∷ b'F'
    ∷ (replicate 12 0 ++ (2 ∷ 0 ∷ 0 ∷ 0 ∷ (replicate 4 0 ++ (uuid ++ replicate 8 0))))

magic : word_at 0 trustlet ≡ header_magic
unfolding word_at
magic = refl

kind : word_at 16 trustlet ≡ 2
unfolding word_at
kind = refl

root_there : lookup root_cont_file_path full.files ≡ some (replicate 220 1)
unfolding lookup root_cont_file_path
root_there = refl

sp_there : lookup (sp_cont_file_path 9) full.files ≡ some provider
unfolding lookup root_cont_file_path sp_cont_file_path uint32_to_string
sp_there = refl

tl_there : lookup (tl_cont_file_path uuid 9) full.files ≡ some (replicate 960 2)
unfolding lookup root_cont_file_path sp_cont_file_path uint32_to_string tl_cont_file_path
    byte_array_to_string
tl_there = refl

abbrev blob : RegObject
blob = record {
  info = some (record { root = 220; sp = 396; tl = 960 });
  service = trustlet;
  containers = replicate 220 1 ++ (provider ++ replicate 960 2);
  len = 32 + length trustlet + 220 + 396 + 960;
  tl_start_offset = 32;
  allocated = length trustlet + 32 + 1536;
}

loads_blob : mem_get_service_blob 9 trustlet full ≡ some blob
unfolding mem_get_service_blob read_root read_sp read_trustlet_con tl_cont_room word_at lookup
    root_cont_file_path sp_cont_file_path uint32_to_string tl_cont_file_path byte_array_to_string
loads_blob = refl

blob_bound_example : blob.len ≤ blob.allocated + 64
blob_bound_example = blob_bound 9 trustlet full blob loads_blob

names_differ : IsUnique full.files
unfolding lookup root_cont_file_path sp_cont_file_path uint32_to_string tl_cont_file_path
    byte_array_to_string tl_bin_file_path
names_differ = (refl, (refl, (refl, (refl, tt))))

cleans : (cleanup_sp 9 full).0 ≡ RegResult.ok
unfolding cleanup_sp cleanup_children cleanup_trustlet read_sp sp_children lookup delete remove_file
    root_cont_file_path sp_cont_file_path uint32_to_string tl_cont_file_path byte_array_to_string
    tl_bin_file_path sp_data_path tl_data_path
cleans = refl

cleanup_sp_gone_example :
    (lookup (sp_cont_file_path 9) (cleanup_sp 9 full).1.files ≡ none)
    × AllGone (sp_children (take sp_size provider)) 9 (cleanup_sp 9 full).1
cleanup_sp_gone_example =
    cleanup_sp_gone 9 provider full sp_there (λ e. omega arith) (omega arith) names_differ cleans
