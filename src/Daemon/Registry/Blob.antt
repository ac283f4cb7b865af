-- ===== src/Daemon/Registry/Blob.antt =====
-- What is loaded for a service: its binary, and for the trustlet of a service provider the three
-- containers behind it.
use android_hardware_samsung.Common.{
  ℕ, ◌+◌, ◌-◌, ◌*◌, not, ◌||◌, Option, some, none, List, [], ◌++◌, take, drop, length, ltb, ◌==◌,
  if◌then◌else◌,
}
use android_hardware_samsung.Daemon.Registry.Bytes.{
  word_at, root_size, sp_size, blob_len_info_size, max_so_cont_size, max_tl_size,
}
use android_hardware_samsung.Daemon.Registry.Names.{FilePath}
use android_hardware_samsung.Daemon.Registry.Disk.{Disk, lookup, tl_bin_file_path}
use android_hardware_samsung.Daemon.Registry.Containers.{
  RegResult, read_root, read_sp, read_trustlet_con,
}

-- `mcBlobLenInfo_t`, but for its magic number.
pub record LenInfo : Type 0 where
  pub root : ℕ
  pub sp : ℕ
  pub tl : ℕ

-- `regObject_t`: `info` is the structure at the start of `value`, where there is one, and
-- `allocated` the bytes of `value` that have been allocated.
pub record RegObject : Type 0 where
  pub info : Option LenInfo
  pub service : List ℕ
  pub containers : List ℕ
  pub len : ℕ
  pub tl_start_offset : ℕ
  pub allocated : ℕ

-- `regObjValueSize`
abbrev pub value_size : ℕ → ℕ
value_size tl_size = tl_size + blob_len_info_size + 3 * max_so_cont_size

-- `soTltContSize`: what is taken to be left for the third container.
unfoldable pub tl_cont_room : ℕ → ℕ → ℕ → ℕ
tl_cont_room tl_size root sp = value_size tl_size - tl_size + blob_len_info_size - sp - root

abbrev pub with_tl : List ℕ → List ℕ → List ℕ → RegResult × List ℕ → Option RegObject
with_tl trustlet root sp (RegResult.ok, tl) = some (record {
  info = some (record { root = length root; sp = length sp; tl = length tl });
  service = trustlet;
  containers = root ++ (sp ++ tl);
  len = blob_len_info_size + length trustlet + length root + length sp + length tl;
  tl_start_offset = blob_len_info_size;
  allocated = value_size (length trustlet);
})
with_tl trustlet root sp (e, tl) = none

-- `uuid` of the header.
abbrev pub header_uuid : List ℕ → List ℕ
header_uuid trustlet = take 16 (drop 24 trustlet)

abbrev pub with_sp : ℕ → List ℕ → List ℕ → RegResult × List ℕ → Disk → Option RegObject
with_sp spid trustlet root (RegResult.ok, sp) k = with_tl trustlet root sp (
    read_trustlet_con (header_uuid trustlet) spid
      (tl_cont_room (length trustlet) (length root) (length sp)) k)
with_sp spid trustlet root (e, sp) k = none

abbrev pub with_root : ℕ → List ℕ → RegResult × List ℕ → Disk → Option RegObject
with_root spid trustlet (RegResult.ok, root) k =
    with_sp spid trustlet root (read_sp spid sp_size k) k
with_root spid trustlet (e, root) k = none

abbrev pub as_is : List ℕ → RegObject
as_is trustlet = record {
  info = none;
  service = trustlet;
  containers = [];
  len = length trustlet;
  tl_start_offset = 0;
  allocated = length trustlet;
}

-- `serviceType`: a driver is 1, the trustlet of a service provider 2, a system trustlet 3.
abbrev pub service_type : List ℕ → ℕ
service_type trustlet = word_at 16 trustlet

-- MC_SERVICE_HEADER_MAGIC_BE, "MCLF"
abbrev pub header_magic : ℕ
header_magic = b'M' + 256 * (b'C' + 256 * (b'L' + 256 * b'F'))

-- `mcRegistryMemGetServiceBlob`; memory does not run out. A trustlet shorter than its header is
-- read as if zeros followed.
unfoldable pub mem_get_service_blob : ℕ → List ℕ → Disk → Option RegObject
mem_get_service_blob spid trustlet k =
    if ltb max_tl_size (length trustlet) || not (word_at 0 trustlet == header_magic)
    then none
    else if service_type trustlet == 1 || service_type trustlet == 3
    then some (as_is trustlet)
    else if service_type trustlet == 2
    then with_root spid trustlet (read_root root_size k) k
    else none

-- `mcRegistryFileGetServiceBlob`: the service provider is 0.
abbrev pub file_get_service_blob : Option (List ℕ) → Disk → Option RegObject
file_get_service_blob none k = none
file_get_service_blob (some b) k = mem_get_service_blob 0 b k

-- `mcRegistryGetServiceBlob`
unfoldable pub get_service_blob : List ℕ → Disk → Option RegObject
get_service_blob uuid k = file_get_service_blob (lookup (tl_bin_file_path uuid k) k.files) k

abbrev pub only_driver : Option RegObject → Option RegObject
only_driver none = none
only_driver (some o) = if service_type o.service == 1 then some o else none

-- `mcRegistryGetDriverBlob`
unfoldable pub get_driver_blob : FilePath → Disk → Option RegObject
get_driver_blob p k = only_driver (file_get_service_blob (lookup p k.files) k)
