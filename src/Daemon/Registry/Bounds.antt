-- ===== src/Daemon/Registry/Bounds.antt =====
-- The memory that the registry allocates and reads, against what it needs.
use android_hardware_samsung.Common.{
  ℕ, ◌+◌, ◌-◌, ◌*◌, ◌≤◌, ◌<◌, ◌≡◌, ◌≢◌, Option, some, none, List, ◌++◌, take, length,
  length-take_le, take_all, take-append, refl, ap, ◌∙◌, arith,
}
use android_hardware_samsung.Daemon.Registry.Bytes.{
  word_at, so_size, so_header_size, data_size, root_size, sp_size, max_so_cont_size, max_tl_size,
}
use android_hardware_samsung.Daemon.Registry.Names.{
  root_cont_file_path, sp_cont_file_path, tl_cont_file_path,
}
use android_hardware_samsung.Daemon.Registry.Disk.{Disk, lookup}
use android_hardware_samsung.Daemon.Registry.Containers.{
  RegResult, read_some, read_root, read_sp, read_trustlet_con, data_written,
}
use android_hardware_samsung.Daemon.Registry.Blob.{
  RegObject, tl_cont_room, with_tl, with_sp, with_root, header_uuid, service_type, header_magic,
  mem_get_service_blob,
}

-- A read gives at most what it is asked for.
read_some_le : (n : ℕ) (o : Option (List ℕ)) → length (read_some n o).1 ≤ n
read_some_le n none = omega arith
read_some_le n (some b) = ground (arith, length-take_le n b)

with_tl_bound :
    (trustlet root sp : List ℕ) (r : RegResult × List ℕ) (o : RegObject)
    → length r.1 ≤ tl_cont_room (length trustlet) (length root) (length sp)
    → length root ≤ root_size
    → length sp ≤ sp_size
    → with_tl trustlet root sp r ≡ some o
    → o.len ≤ o.allocated + 64
unfolding tl_cont_room
with_tl_bound trustlet root sp (RegResult.ok, tl) o h a b e = ground arith
with_tl_bound trustlet root sp (RegResult.invalid_parameter, tl) o h a b e = cc
with_tl_bound trustlet root sp (RegResult.invalid_device_file, tl) o h a b e = cc
with_tl_bound trustlet root sp (RegResult.out_of_resources, tl) o h a b e = cc
with_tl_bound trustlet root sp (RegResult.unknown, tl) o h a b e = cc
with_tl_bound trustlet root sp (RegResult.invalid_operation, tl) o h a b e = cc

with_sp_bound :
    (spid : ℕ) (trustlet root : List ℕ) (r : RegResult × List ℕ) (k : Disk) (o : RegObject)
    → length r.1 ≤ sp_size
    → length root ≤ root_size
    → with_sp spid trustlet root r k ≡ some o
    → o.len ≤ o.allocated + 64
unfolding read_trustlet_con
with_sp_bound spid trustlet root (RegResult.ok, sp) k o h a e =
    with_tl_bound trustlet root sp _ o
      (read_some_le (tl_cont_room (length trustlet) (length root) (length sp))
        (lookup (tl_cont_file_path (header_uuid trustlet) spid) k.files))
      a h e
with_sp_bound spid trustlet root (RegResult.invalid_parameter, sp) k o h a e = cc
with_sp_bound spid trustlet root (RegResult.invalid_device_file, sp) k o h a e = cc
with_sp_bound spid trustlet root (RegResult.out_of_resources, sp) k o h a e = cc
with_sp_bound spid trustlet root (RegResult.unknown, sp) k o h a e = cc
with_sp_bound spid trustlet root (RegResult.invalid_operation, sp) k o h a e = cc

read_sp_le : (spid n : ℕ) (k : Disk) → length (read_sp spid n k).1 ≤ n
unfolding read_sp
read_sp_le spid n k = ground (arith, read_some_le n (lookup (sp_cont_file_path spid) k.files))

with_root_bound :
    (spid : ℕ) (trustlet : List ℕ) (r : RegResult × List ℕ) (k : Disk) (o : RegObject)
    → length r.1 ≤ root_size
    → with_root spid trustlet r k ≡ some o
    → o.len ≤ o.allocated + 64
with_root_bound spid trustlet (RegResult.ok, root) k o h e =
    with_sp_bound spid trustlet root (read_sp spid sp_size k) k o (read_sp_le spid sp_size k) h e
with_root_bound spid trustlet (RegResult.invalid_parameter, root) k o h e = cc
with_root_bound spid trustlet (RegResult.invalid_device_file, root) k o h e = cc
with_root_bound spid trustlet (RegResult.out_of_resources, root) k o h e = cc
with_root_bound spid trustlet (RegResult.unknown, root) k o h e = cc
with_root_bound spid trustlet (RegResult.invalid_operation, root) k o h e = cc

-- Whatever the files hold, the blob of a service is at most 64 bytes longer than the memory that
-- is allocated for it: twice the size of the length info.
pub blob_bound :
    (spid : ℕ) (trustlet : List ℕ) (k : Disk) (o : RegObject)
    → mem_get_service_blob spid trustlet k ≡ some o
    → o.len ≤ o.allocated + 64
unfolding mem_get_service_blob read_root
blob_bound spid trustlet k o e =
    let r = read_some root_size (lookup root_cont_file_path k.files) in
    ground (
      arith,
      with_root_bound spid trustlet r k o
          (read_some_le root_size (lookup root_cont_file_path k.files)),
    )

read_all :
    (n : ℕ) (b : List ℕ) → length b ≤ n → length b ≢ 0 → read_some n (some b) ≡ (RegResult.ok, b)
read_all n b h z = ground (arith, take_all n b h)

provider :
    (spid : ℕ) (k : Disk)
    → spid ≢ 0
    → read_sp spid sp_size k ≡ read_some sp_size (lookup (sp_cont_file_path spid) k.files)
unfolding read_sp
provider spid k z = ground arith

loads :
    (spid : ℕ) (trustlet : List ℕ) (k : Disk)
    → length trustlet ≤ max_tl_size
    → word_at 0 trustlet ≡ header_magic
    → service_type trustlet ≡ 2
    → mem_get_service_blob spid trustlet k ≡ with_root spid trustlet (read_root root_size k) k
unfolding mem_get_service_blob
loads spid trustlet k l m ty = ground arith

-- The blob of a service provider's trustlet is longer than the memory allocated for it whenever
-- the three containers have more than 1536 bytes together, the first two having their full size
-- and the third at most what the code takes to be left: the bytes behind are overwritten.
pub blob_overflow :
    (spid : ℕ) (trustlet root sp tl : List ℕ) (k : Disk)
    → length trustlet ≤ max_tl_size
    → word_at 0 trustlet ≡ header_magic
    → service_type trustlet ≡ 2
    → spid ≢ 0
    → lookup root_cont_file_path k.files ≡ some root
    → lookup (sp_cont_file_path spid) k.files ≡ some sp
    → lookup (tl_cont_file_path (header_uuid trustlet) spid) k.files ≡ some tl
    → length root ≡ root_size
    → length sp ≡ sp_size
    → 3 * max_so_cont_size < root_size + sp_size + length tl
    → length tl ≤ 3 * max_so_cont_size + 64 - root_size - sp_size
    → ((o : RegObject) × (mem_get_service_blob spid trustlet k ≡ some o) × (o.allocated < o.len))
unfolding read_root read_sp read_trustlet_con tl_cont_room
blob_overflow spid trustlet root sp tl k l m ty z r s t lr ls over fits =
    let e1 : read_root root_size k ≡ (RegResult.ok, root) =
      ap (read_some root_size) r ∙ read_all root_size root (omega arith) (λ e. omega arith) in
    let e2 : read_sp spid sp_size k ≡ (RegResult.ok, sp) =
      provider spid k z
      ∙ (ap (read_some sp_size) s ∙ read_all sp_size sp (omega arith) (λ e. omega arith)) in
    let room = tl_cont_room (length trustlet) (length root) (length sp) in
    let e3 : read_trustlet_con (header_uuid trustlet) spid room k ≡ (RegResult.ok, tl) =
      ap (read_some room) t ∙ read_all room tl (omega arith) (λ e. omega arith) in
    (
      _,
      loads spid trustlet k l m ty
          ∙ (ap (λ q. with_root spid trustlet q k) e1
              ∙ (ap (λ q. with_sp spid trustlet root q k) e2 ∙ ap (with_tl trustlet root sp) e3)),
      omega arith,
    )

-- `mcRegistryStoreData` writes as many bytes as the header of the data container says, not as
-- many as it has: where the lengths of its parts say more, the file holds the memory behind the
-- buffer, up to a million bytes.
pub data_overread :
    (so beyond : List ℕ) (n : ℕ)
    → length so ≡ data_size
    → word_at 36 so + word_at 40 so ≡ data_size - (so_header_size + 32 + 16) + n
    → word_at 36 so + word_at 40 so ≤ 1000000
    → data_written so beyond ≡ so ++ take n beyond
unfolding data_written so_size
data_overread so beyond n l e h =
    ap (λ m. take m (so ++ beyond)) size ∙ take-append so beyond _ n refl
  where
    size : so_size (word_at 36 so) (word_at 40 so) ≡ length so + n
    size = ground arith
