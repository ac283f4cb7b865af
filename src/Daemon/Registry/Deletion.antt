-- ===== src/Daemon/Registry/Deletion.antt =====
-- Deletion of a service provider's container, with those of its trustlets.
use android_hardware_samsung.Common.{
  ℕ, ◌≡◌, inl, inr, Bool, true, false, Option, some, none, List, [], ◌∷◌, Bool-cases, refl, sym,
  arith,
}
use android_hardware_samsung.Daemon.Registry.Names.{
  FilePath, same_path, tl_cont_file_path, tl_data_path,
}
use android_hardware_samsung.Daemon.Registry.Disk.{
  Disk, Folder, lookup, delete, folder, remove_file, remove_found, remove_folder, remove_dir,
  emptied, tl_bin_file_path,
}
use android_hardware_samsung.Daemon.Registry.Containers.{RegResult, removed}
use android_hardware_samsung.Daemon.Registry.Cleanup.{cleanup_tl_files, cleanup_trustlet}
use android_hardware_samsung.Daemon.Registry.Distinct.{same_path-eq}

-- No path has two files.
abbrev pub IsUnique : List (FilePath × List ℕ) → Type 0
IsUnique [] = Unit {0}
IsUnique ((p, b) ∷ fs) = (lookup p fs ≡ none) × IsUnique fs

lookup-delete_self :
    (p : FilePath) (fs : List (FilePath × List ℕ)) → IsUnique fs → lookup p (delete p fs) ≡ none
unfolding lookup delete
lookup-delete_self p [] u = refl
lookup-delete_self p ((q, o) ∷ fs) u = elim (Bool-cases (same_path q p)) [
  | inl y ↦ rw y (rw (sym (same_path-eq q p y)) u.0)
  | inr n ↦ rw n (rw n (lookup-delete_self p fs u.1))
]

lookup-delete_none :
    (p q : FilePath) (fs : List (FilePath × List ℕ))
    → lookup q fs ≡ none
    → lookup q (delete p fs) ≡ none
unfolding lookup delete
lookup-delete_none p q [] e = refl
lookup-delete_none p q ((r, o) ∷ fs) e = ground (arith, lookup-delete_none p q fs)

delete-IsUnique :
    (p : FilePath) (fs : List (FilePath × List ℕ)) → IsUnique fs → IsUnique (delete p fs)
unfolding delete
delete-IsUnique p [] u = tt
delete-IsUnique p ((q, o) ∷ fs) u = elim (Bool-cases (same_path q p)) [
  | inl y ↦ rw y u.1
  | inr n ↦ rw n (lookup-delete_none p q fs u.0, delete-IsUnique p fs u.1)
]

-- What a deletion does to the files: none comes up, and no path gets two.
pub record Shrinks (k t : Disk) : Type 0 where
  pub unique : IsUnique k.files → IsUnique t.files
  pub absent : (q : FilePath) → lookup q k.files ≡ none → lookup q t.files ≡ none

pub shrink_refl : (k t : Disk) → t.files ≡ k.files → Shrinks k t
shrink_refl k t e = record { unique = λ u. rw e u; absent = λ q h. rw e h }

pub shrink_trans : (k t u : Disk) → Shrinks k t → Shrinks t u → Shrinks k u
shrink_trans k t u a b = record {
  unique = λ h. b.unique (a.unique h);
  absent = λ q h. b.absent q (a.absent q h);
}

remove_found-Shrinks :
    (p : FilePath) (o : Option (List ℕ)) (k : Disk) → Shrinks k (remove_found p o k).1
remove_found-Shrinks p none k = shrink_refl k k refl
remove_found-Shrinks p (some b) k = elim (Bool-cases (k.can_remove p)) [
  | inl y ↦ rw y (record {
    unique = delete-IsUnique p k.files;
    absent = λ q h. lookup-delete_none p q k.files h;
  })
  | inr n ↦ rw n (shrink_refl k k refl)
]

pub remove_file-Shrinks : (p : FilePath) (k : Disk) → Shrinks k (remove_file p k).1
unfolding remove_file
remove_file-Shrinks p k = remove_found-Shrinks p (lookup p k.files) k

removed_ok : (r : Bool × Disk) → (removed r).0 ≡ RegResult.ok → r.0 ≡ true
removed_ok (b, k) e = ground arith

pub removed_disk : (r : Bool × Disk) → (removed r).1 ≡ r.1
removed_disk (b, k) = ground arith

pub remove_file_gone :
    (p : FilePath) (k : Disk)
    → IsUnique k.files
    → (removed (remove_file p k)).0 ≡ RegResult.ok
    → lookup p (removed (remove_file p k)).1.files ≡ none
unfolding remove_file
remove_file_gone p k u e = go (lookup p k.files) (removed_ok _ e)
  where
    go :
        (o : Option (List ℕ))
        → (remove_found p o k).0 ≡ true
        → lookup p (removed (remove_found p o k)).1.files ≡ none
    go none h = cc
    go (some b) h = ground (arith, lookup-delete_self p k.files u)

pub remove_folder_files :
    (dir : List ℕ) (o : Option Folder) (k : Disk) → (remove_folder dir o k).1.files ≡ k.files
remove_folder_files dir none k = refl
remove_folder_files dir (some f) k = go (emptied k.can_remove_data f)
  where
    go : (f : Folder) → (remove_dir dir f k).1.files ≡ k.files
    go [] = refl
    go (e ∷ f) = refl

tl_files-Shrinks :
    (uuid : List ℕ) (spid : ℕ) (b : Bool) (k : Disk)
    → Shrinks k (cleanup_tl_files uuid spid (b, k)).1
tl_files-Shrinks uuid spid false k = shrink_refl k k refl
tl_files-Shrinks uuid spid true k =
    let t = (remove_file (tl_bin_file_path uuid k) k).1 in
    let r = remove_file (tl_cont_file_path uuid spid) t in
    shrink_trans k t _ (remove_file-Shrinks (tl_bin_file_path uuid k) k)
      (rw (removed_disk r) (remove_file-Shrinks (tl_cont_file_path uuid spid) t))

pub cleanup_trustlet-Shrinks :
    (uuid : List ℕ) (spid : ℕ) (k : Disk) → Shrinks k (cleanup_trustlet uuid spid k).1
unfolding cleanup_trustlet
cleanup_trustlet-Shrinks uuid spid k =
    let r = remove_folder (tl_data_path uuid) (folder (tl_data_path uuid) k.folders) k in
    shrink_trans k r.1 _
      (shrink_refl k r.1
        (remove_folder_files (tl_data_path uuid) (folder (tl_data_path uuid) k.folders) k))
      (tl_files-Shrinks uuid spid r.0 r.1)

tl_files_gone :
    (uuid : List ℕ) (spid : ℕ) (b : Bool) (k : Disk)
    → IsUnique k.files
    → (cleanup_tl_files uuid spid (b, k)).0 ≡ RegResult.ok
    → lookup (tl_cont_file_path uuid spid) (cleanup_tl_files uuid spid (b, k)).1.files ≡ none
tl_files_gone uuid spid false k u e = cc
tl_files_gone uuid spid true k u e =
    let t = (remove_file (tl_bin_file_path uuid k) k).1 in
    remove_file_gone (tl_cont_file_path uuid spid) t
      ((remove_file-Shrinks (tl_bin_file_path uuid k) k).unique u) e

pub cleanup_trustlet_gone :
    (uuid : List ℕ) (spid : ℕ) (k : Disk)
    → IsUnique k.files
    → (cleanup_trustlet uuid spid k).0 ≡ RegResult.ok
    → lookup (tl_cont_file_path uuid spid) (cleanup_trustlet uuid spid k).1.files ≡ none
unfolding cleanup_trustlet
cleanup_trustlet_gone uuid spid k u e =
    let r = remove_folder (tl_data_path uuid) (folder (tl_data_path uuid) k.folders) k in
    tl_files_gone uuid spid r.0 r.1
      ((shrink_refl k r.1
          (remove_folder_files (tl_data_path uuid) (folder (tl_data_path uuid) k.folders) k)).unique
        u)
      e
