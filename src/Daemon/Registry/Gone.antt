-- ===== src/Daemon/Registry/Gone.antt =====
-- `mcRegistryCleanupSp`: what is gone behind it, and when nothing is.
use android_hardware_samsung.Common.{
  ℕ, ◌≤◌, ◌<◌, ◌≡◌, ◌≢◌, ◌⊎◌, inl, inr, Bool, true, false, some, none, List, [], ◌∷◌, take, length,
  Bool-cases, ==_false, take_all, length-take, refl, ap, sym, ◌∙◌, arith,
}
use android_hardware_samsung.Daemon.Registry.Bytes.{same_bytes, sp_size, sp_children}
use android_hardware_samsung.Daemon.Registry.Names.{
  sp_cont_file_path, tl_cont_file_path, sp_data_path,
}
use android_hardware_samsung.Daemon.Registry.Disk.{Disk, lookup, folder, remove_file, remove_folder}
use android_hardware_samsung.Daemon.Registry.Containers.{RegResult, read_sp}
use android_hardware_samsung.Daemon.Registry.Cleanup.{
  after, cleanup_trustlet, cleanup_children, cleanup_sp_files, cleanup_sp_below, cleanup_sp_read,
  cleanup_sp, uuid_free,
}
use android_hardware_samsung.Daemon.Registry.Deletion.{
  IsUnique, Shrinks, shrink_refl, shrink_trans, remove_file-Shrinks, removed_disk, remove_file_gone,
  remove_folder_files, cleanup_trustlet-Shrinks, cleanup_trustlet_gone,
}

-- The container of every trustlet of a list is gone, the free entries apart.
abbrev pub AllGone : List (List ℕ) → ℕ → Disk → Type 0
AllGone [] spid t = Unit {0}
AllGone (uuid ∷ uuids) spid t =
    ((same_bytes uuid uuid_free ≡ true) ⊎ (lookup (tl_cont_file_path uuid spid) t.files ≡ none))
    × AllGone uuids spid t

AllGone-shrink :
    (uuids : List (List ℕ)) (spid : ℕ) (k t : Disk)
    → Shrinks k t
    → AllGone uuids spid k
    → AllGone uuids spid t
AllGone-shrink [] spid k t s a = tt
AllGone-shrink (uuid ∷ uuids) spid k t s (inl f, a) = (inl f, AllGone-shrink uuids spid k t s a)
AllGone-shrink (uuid ∷ uuids) spid k t s (inr g, a) =
    (inr (s.absent _ g), AllGone-shrink uuids spid k t s a)

after-Shrinks :
    (next : Disk → RegResult × Disk) (k : Disk) (r : RegResult × Disk)
    → ((z : Disk) → Shrinks z (next z).1)
    → Shrinks k r.1
    → Shrinks k (after next r).1
after-Shrinks next k (RegResult.ok, t) h s = shrink_trans k t _ s (h t)
after-Shrinks next k (RegResult.invalid_parameter, t) h s = s
after-Shrinks next k (RegResult.invalid_device_file, t) h s = s
after-Shrinks next k (RegResult.out_of_resources, t) h s = s
after-Shrinks next k (RegResult.unknown, t) h s = s
after-Shrinks next k (RegResult.invalid_operation, t) h s = s

children-Shrinks :
    (uuids : List (List ℕ)) (spid : ℕ) (k : Disk) → Shrinks k (cleanup_children uuids spid k).1
unfolding cleanup_children
children-Shrinks [] spid k = shrink_refl k k refl
children-Shrinks (uuid ∷ uuids) spid k = elim (Bool-cases (same_bytes uuid uuid_free)) [
  | inl y ↦ rw y (children-Shrinks uuids spid k)
  | inr n ↦ rw n (
      after-Shrinks (cleanup_children uuids spid) k (cleanup_trustlet uuid spid k)
        (children-Shrinks uuids spid) (cleanup_trustlet-Shrinks uuid spid k))
]

after_ok :
    (next : Disk → RegResult × Disk) (r : RegResult × Disk)
    → (after next r).0 ≡ RegResult.ok
    → (r.0 ≡ RegResult.ok) × (after next r ≡ next r.1)
after_ok next (RegResult.ok, t) e = (refl, refl)
after_ok next (RegResult.invalid_parameter, t) e = cc
after_ok next (RegResult.invalid_device_file, t) e = cc
after_ok next (RegResult.out_of_resources, t) e = cc
after_ok next (RegResult.unknown, t) e = cc
after_ok next (RegResult.invalid_operation, t) e = cc

children_free :
    (uuid : List ℕ) (uuids : List (List ℕ)) (spid : ℕ) (k : Disk)
    → same_bytes uuid uuid_free ≡ true
    → cleanup_children (uuid ∷ uuids) spid k ≡ cleanup_children uuids spid k
unfolding cleanup_children
children_free uuid uuids spid k y = rw y refl

children_used :
    (uuid : List ℕ) (uuids : List (List ℕ)) (spid : ℕ) (k : Disk)
    → same_bytes uuid uuid_free ≡ false
    → cleanup_children (uuid ∷ uuids) spid k
      ≡ after (cleanup_children uuids spid) (cleanup_trustlet uuid spid k)
unfolding cleanup_children
children_used uuid uuids spid k n = rw n refl

gone_used :
    (uuid : List ℕ) (uuids : List (List ℕ)) (spid : ℕ) (k z : Disk)
    → same_bytes uuid uuid_free ≡ false
    → (cleanup_trustlet uuid spid k).1 ≡ z
    → IsUnique k.files
    → (cleanup_children (uuid ∷ uuids) spid k).0 ≡ RegResult.ok
    → ((cleanup_children uuids spid z).0 ≡ RegResult.ok
        → AllGone uuids spid (cleanup_children uuids spid z).1)
    → AllGone (uuid ∷ uuids) spid (cleanup_children (uuid ∷ uuids) spid k).1
gone_used uuid uuids spid k z n p u e ih =
    let q = children_used uuid uuids spid k n in
    let (first, rest) =
      after_ok (cleanup_children uuids spid) (cleanup_trustlet uuid spid k)
        (sym (ap (λ r. r.0) q) ∙ e) in
    let whole = q ∙ rest ∙ ap (cleanup_children uuids spid) p in
    let gone : lookup (tl_cont_file_path uuid spid) z.files ≡ none =
      rw (sym p) (cleanup_trustlet_gone uuid spid k u first) in
    rw whole
      (inr ((children-Shrinks uuids spid z).absent _ gone), ih (sym (ap (λ r. r.0) whole) ∙ e))

children_gone :
    (uuids : List (List ℕ)) (spid : ℕ) (k : Disk)
    → IsUnique k.files
    → (cleanup_children uuids spid k).0 ≡ RegResult.ok
    → AllGone uuids spid (cleanup_children uuids spid k).1
children_gone [] spid k u e = tt
children_gone (uuid ∷ uuids) spid k u e = elim (Bool-cases (same_bytes uuid uuid_free)) [
  | inl y ↦ (
    inl y,
    rw (children_free uuid uuids spid k y) (
        children_gone uuids spid k u (sym (ap (λ r. r.0) (children_free uuid uuids spid k y)) ∙ e)),
  )
  | inr n ↦ gone_used uuid uuids spid k (cleanup_trustlet uuid spid k).1 n refl u e (
      children_gone uuids spid (cleanup_trustlet uuid spid k).1
        ((cleanup_trustlet-Shrinks uuid spid k).unique u))
]

-- A container file that can be read.
cleanup_known :
    (spid : ℕ) (b : List ℕ) (k : Disk)
    → lookup (sp_cont_file_path spid) k.files ≡ some b
    → spid ≢ 0
    → 0 < length (take sp_size b)
    → cleanup_sp spid k ≡ cleanup_sp_read spid (RegResult.ok, take sp_size b) k
unfolding cleanup_sp read_sp
cleanup_known spid b k h z l =
    rw (h, ==_false spid 0 z, ==_false (length (take sp_size b)) 0 (omega arith)) refl

files_gone :
    (spid : ℕ) (uuids : List (List ℕ)) (r : Bool × Disk)
    → IsUnique r.1.files
    → (cleanup_sp_files spid r).0 ≡ RegResult.ok
    → AllGone uuids spid r.1
    → (lookup (sp_cont_file_path spid) (cleanup_sp_files spid r).1.files ≡ none)
      × AllGone uuids spid (cleanup_sp_files spid r).1
files_gone spid uuids (false, k) u e a = cc
files_gone spid uuids (true, k) u e a = (
  remove_file_gone (sp_cont_file_path spid) k u e,
  rw (removed_disk (remove_file (sp_cont_file_path spid) k))
      (AllGone-shrink uuids spid k _ (remove_file-Shrinks (sp_cont_file_path spid) k) a),
)

below_gone :
    (spid : ℕ) (uuids : List (List ℕ)) (r : RegResult × Disk)
    → IsUnique r.1.files
    → (cleanup_sp_below spid r).0 ≡ RegResult.ok
    → (r.0 ≡ RegResult.ok → AllGone uuids spid r.1)
    → (lookup (sp_cont_file_path spid) (cleanup_sp_below spid r).1.files ≡ none)
      × AllGone uuids spid (cleanup_sp_below spid r).1
below_gone spid uuids (RegResult.ok, k) u e a =
    let r = remove_folder (sp_data_path spid) (folder (sp_data_path spid) k.folders) k in
    let s =
      shrink_refl k r.1
        (remove_folder_files (sp_data_path spid) (folder (sp_data_path spid) k.folders) k) in
    files_gone spid uuids r (s.unique u) e (AllGone-shrink uuids spid k r.1 s (a refl))
below_gone spid uuids (RegResult.invalid_parameter, k) u e a = cc
below_gone spid uuids (RegResult.invalid_device_file, k) u e a = cc
below_gone spid uuids (RegResult.out_of_resources, k) u e a = cc
below_gone spid uuids (RegResult.unknown, k) u e a = cc
below_gone spid uuids (RegResult.invalid_operation, k) u e a = cc

sp_size_pos : (b : List ℕ) → 0 < length b → 0 < length (take sp_size b)
sp_size_pos [] h = absurd (omega arith)
sp_size_pos (x ∷ b) h = omega arith

cleanup_full :
    (spid : ℕ) (b : List ℕ) (k : Disk)
    → lookup (sp_cont_file_path spid) k.files ≡ some b
    → spid ≢ 0
    → sp_size ≤ length b
    → cleanup_sp spid k
      ≡ cleanup_sp_below spid (cleanup_children (sp_children (take sp_size b)) spid k)
cleanup_full spid b k h z l =
    cleanup_known spid b k h z (sp_size_pos b (omega arith)) ∙ rw (length-take sp_size b l) refl

-- A cleanup of a service provider that answers `ok`, its container file having at least the size
-- of a container, and no path having two files: the file is gone, and so is the container of every
-- trustlet that it lists, but for the free entries.
pub cleanup_sp_gone :
    (spid : ℕ) (b : List ℕ) (k : Disk)
    → lookup (sp_cont_file_path spid) k.files ≡ some b
    → spid ≢ 0
    → sp_size ≤ length b
    → IsUnique k.files
    → (cleanup_sp spid k).0 ≡ RegResult.ok
    → (lookup (sp_cont_file_path spid) (cleanup_sp spid k).1.files ≡ none)
      × AllGone (sp_children (take sp_size b)) spid (cleanup_sp spid k).1
cleanup_sp_gone spid b k h z l u e =
    let uuids = sp_children (take sp_size b) in
    let q = cleanup_full spid b k h z l in
    rw q (
      below_gone spid uuids (cleanup_children uuids spid k)
        ((children-Shrinks uuids spid k).unique u) (sym (ap (λ r. r.0) q) ∙ e)
        (children_gone uuids spid k u))

-- A container file that is not empty, but shorter than a container: the cleanup answers `ok` and
-- nothing is deleted.
pub cleanup_sp_short :
    (spid : ℕ) (b : List ℕ) (k : Disk)
    → lookup (sp_cont_file_path spid) k.files ≡ some b
    → spid ≢ 0
    → 0 < length b
    → length b < sp_size
    → cleanup_sp spid k ≡ (RegResult.ok, k)
cleanup_sp_short spid b k h z p l =
    cleanup_known spid b k h z (sp_size_pos b p)
    ∙ rw (take_all sp_size b (omega arith), ==_false (length b) sp_size (omega arith)) refl
