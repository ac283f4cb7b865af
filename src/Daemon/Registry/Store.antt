-- ===== src/Daemon/Registry/Store.antt =====
-- Stores and reads of the containers together.
use android_hardware_samsung.Common.{
  ℕ, ◌≡◌, ◌≢◌, inl, inr, some, List, [], ◌∷◌, take, length, ◌==◌, if◌then◌else◌, Bool-cases, refl,
  ap, sym, ◌∙◌, arith,
}
use android_hardware_samsung.Daemon.Registry.Names.{
  FilePath, same_path, root_cont_file_path, sp_cont_file_path, tl_cont_file_path,
}
use android_hardware_samsung.Daemon.Registry.Disk.{Disk, lookup, put}
use android_hardware_samsung.Daemon.Registry.Containers.{
  RegResult, store, store_root, store_sp, store_trustlet_con, read_some, read_root, read_sp,
  read_trustlet_con,
}
use android_hardware_samsung.Daemon.Registry.Distinct.{
  Container, root, sp, tl, path_of, IsId, path_of_inj, same_path-eq, same_path_refl,
}

-- The store and the read of each kind of container.
abbrev pub store_of : Container → List ℕ → Disk → RegResult × Disk
store_of root so k = store_root so k
store_of (sp spid) so k = store_sp spid so k
store_of (tl uuid spid) so k = store_trustlet_con uuid spid so k

abbrev pub read_of : Container → ℕ → Disk → RegResult × List ℕ
read_of root n k = read_root n k
read_of (sp spid) n k = read_sp spid n k
read_of (tl uuid spid) n k = read_trustlet_con uuid spid n k

lookup-put_self :
    (p : FilePath) (b : List ℕ) (fs : List (FilePath × List ℕ)) → lookup p (put p b fs) ≡ some b
unfolding lookup put
lookup-put_self p b [] = rw (same_path_refl p) refl
lookup-put_self p b ((q, o) ∷ fs) = ground (arith, lookup-put_self p b fs)

lookup-put_ne :
    (p q : FilePath) (b : List ℕ) (fs : List (FilePath × List ℕ))
    → p ≢ q
    → lookup q (put p b fs) ≡ lookup q fs
unfolding lookup put
lookup-put_ne p q b [] n = elim (Bool-cases (same_path p q)) [
  | inl y ↦ absurd (n (same_path-eq p q y))
  | inr e ↦ rw e refl
]
lookup-put_ne p q b ((r, o) ∷ fs) n =
    ground (arith, same_path-eq r p, same_path-eq r q, lookup-put_ne p q b fs n)

store_inv :
    (p : FilePath) (so : List ℕ) (k t : Disk)
    → store p so k ≡ (RegResult.ok, t)
    → t ≡ record k { files = put p (k.kept so) k.files }
store_inv p so k t e = ground arith

-- A store that succeeds writes the file of the container.
store_of_inv :
    (c : Container) (so : List ℕ) (k t : Disk)
    → store_of c so k ≡ (RegResult.ok, t)
    → t ≡ record k { files = put (path_of c) (k.kept so) k.files }
unfolding store_root store_sp store_trustlet_con
store_of_inv root so k t e = store_inv root_cont_file_path so k t e
store_of_inv (sp spid) so k t e = ground (arith, store_inv (sp_cont_file_path spid) so k t)
store_of_inv (tl uuid spid) so k t e = store_inv (tl_cont_file_path uuid spid) so k t e

-- A read depends on the container's file alone.
read_same :
    (d : Container) (m : ℕ) (k t : Disk)
    → lookup (path_of d) t.files ≡ lookup (path_of d) k.files
    → read_of d m t ≡ read_of d m k
unfolding read_root read_sp read_trustlet_con
read_same root m k t e = ap (read_some m) e
read_same (sp spid) m k t e =
    ap (λ o. if spid == 0 then (RegResult.invalid_parameter, []) else read_some m o) e
read_same (tl uuid spid) m k t e = ap (read_some m) e

read_stored :
    (c : Container) (n : ℕ) (so b : List ℕ) (k t : Disk)
    → store_of c so k ≡ (RegResult.ok, t)
    → lookup (path_of c) t.files ≡ some b
    → length (take n b) ≢ 0
    → read_of c n t ≡ (RegResult.ok, take n b)
unfolding read_root read_sp read_trustlet_con store_sp
read_stored root n so b k t s e h = rw e (some_read n b h)
  where
    some_read :
        (n : ℕ) (b : List ℕ)
        → length (take n b) ≢ 0
        → read_some n (some b) ≡ (RegResult.ok, take n b)
    some_read n b h = ground arith
read_stored (sp spid) n so b k t s e h = rw e (ground arith)
read_stored (tl uuid spid) n so b k t s e h = rw e (ground arith)

-- After a successful store of a container, a read of it gives back what the file system kept of
-- the bytes, cut off at the length asked for, if that is not empty; and a read of any other
-- container answers as before the store.
pub read-store :
    (c d : Container) (so : List ℕ) (n m : ℕ) (k t : Disk)
    → IsId c
    → IsId d
    → d ≢ c
    → store_of c so k ≡ (RegResult.ok, t)
    → length (take n (k.kept so)) ≢ 0
    → (read_of c n t ≡ (RegResult.ok, take n (k.kept so))) × (read_of d m t ≡ read_of d m k)
read-store c d so n m k t i j ne s h =
    let w = store_of_inv c so k t s in
    let own : lookup (path_of c) t.files ≡ some (k.kept so) =
      ap (λ (z : Disk). lookup (path_of c) z.files) w
      ∙ lookup-put_self (path_of c) (k.kept so) k.files in
    let other : lookup (path_of d) t.files ≡ lookup (path_of d) k.files =
      ap (λ (z : Disk). lookup (path_of d) z.files) w
      ∙ lookup-put_ne (path_of c) (path_of d) (k.kept so) k.files
          (λ e. ne (sym (path_of_inj c d i j e))) in
    (read_stored c n so (k.kept so) k t s own h, read_same d m k t other)
