-- ===== src/Daemon/RegistryClient/Serving.antt =====
-- The daemon's side of a store: the fields that it reads, and what it does with them.
use android_hardware_samsung.Common.{
  ℕ, suc, zero, ◌+◌, ◌<◌, ◌^◌, ◌≡◌, true, List, [], ◌∷◌, ◌++◌, length, take, drop, refl, ap, ◌∙◌,
  arith,
}
use android_hardware_samsung.Daemon.Registry.Distinct.{Container, root, sp, tl, IsId}
use android_hardware_samsung.Daemon.Registry.Store.{store_of}
use android_hardware_samsung.Daemon.Registry.Disk.{Disk}
use android_hardware_samsung.Daemon.Registry.Bytes.{word_at}
use android_hardware_samsung.Daemon.Driver.Wire.{received, read_length, overlay, Command}
use android_hardware_samsung.Daemon.Driver.State as Server
use android_hardware_samsung.Daemon.Driver.State.{Driver, check_permission}
use android_hardware_samsung.Daemon.Driver.Registry.{update, get_data}
use android_hardware_samsung.Daemon.Client.Wire.{word}
use android_hardware_samsung.Daemon.Client.Messages.{four_bytes}
use android_hardware_samsung.Daemon.RegistryClient.{first_command}

abbrev pub write_command : Container → Command
write_command root = Command.write_root_cont
write_command (sp spid) = Command.write_sp_cont
write_command (tl uuid spid) = Command.write_tl_cont

abbrev pub command_id : Container → ℕ
command_id root = first_command + 4
command_id (sp spid) = first_command + 7
command_id (tl uuid spid) = first_command + 10

-- The daemon's reads of a store: the header, the size, the key and the object.
abbrev pub read_sizes : Container → ℕ → List ℕ
read_sizes root size = 4 ∷ 4 ∷ size ∷ []
read_sizes (sp spid) size = 4 ∷ 4 ∷ 4 ∷ size ∷ []
read_sizes (tl uuid spid) size = 4 ∷ 4 ∷ 16 ∷ 4 ∷ size ∷ []

module _ {ℓ} {A : Type ℓ} where
  pub append_assoc : (xs ys zs : List A) → (xs ++ ys) ++ zs ≡ xs ++ (ys ++ zs)
  append_assoc [] ys zs = refl
  append_assoc (x ∷ xs) ys zs = ap (λ l. x ∷ l) (append_assoc xs ys zs)

  pub take-length : (xs ys : List A) (n : ℕ) → length xs ≡ n → take n (xs ++ ys) ≡ xs
  take-length [] ys zero e = refl
  take-length [] ys (suc n) e = absurd (omega arith)
  take-length (x ∷ xs) ys zero e = absurd (omega arith)
  take-length (x ∷ xs) ys (suc n) e = ap (λ l. x ∷ l) (take-length xs ys n (omega arith))

  pub drop-length : (xs ys : List A) (n : ℕ) → length xs ≡ n → drop n (xs ++ ys) ≡ ys
  drop-length [] ys zero e = refl
  drop-length [] ys (suc n) e = absurd (omega arith)
  drop-length (x ∷ xs) ys zero e = absurd (omega arith)
  drop-length (x ∷ xs) ys (suc n) e = drop-length xs ys n (omega arith)

  pub length-drop : (n m : ℕ) (xs : List A) → length xs ≡ n + m → length (drop n xs) ≡ m
  length-drop zero m xs e = omega (arith, e)
  length-drop (suc n) m [] e = absurd (omega arith)
  length-drop (suc n) m (x ∷ xs) e = length-drop n m xs (omega arith)

-- A read that brings as much as is asked for.
module _ (env : Server.Env) (n : ℕ) (bytes : List ℕ) (e : env.reads n ≡ received bytes) where
  got_data : (k : ℕ) → length bytes ≡ k → (get_data env n k).0 ≡ true
  got_data k l = ground (arith, ap read_length e)

  data_read : (k : ℕ) → length bytes ≡ k → take k (get_data env n k).1 ≡ bytes
  data_read k l =
      ap (λ r. take k (overlay r (env.stale n))) e
      ∙ take-length bytes (drop (length bytes) (env.stale n)) k l

pub word_read :
    (env : Server.Env) (n m : ℕ)
    → m < 2 ^ 32
    → env.reads n ≡ received (word m)
    → ((get_data env n 4).0 ≡ true) × (word_at 0 (get_data env n 4).1 ≡ m)
unfolding word_at
word_read env n m h e = (
  got_data env n (word m) e 4 refl,
  ap (λ r. word_at 0 (overlay r (env.stale n))) e ∙ four_bytes m h,
)

-- The reads of the daemon are the fields of the message.
abbrev pub ReadsFields : Container → List ℕ → Server.Env → Type 0
ReadsFields root so env = env.reads 2 ≡ received so
ReadsFields (sp spid) so env = (env.reads 2 ≡ received (word spid)) × (env.reads 3 ≡ received so)
ReadsFields (tl uuid spid) so env =
    (env.reads 2 ≡ received uuid)
    × (env.reads 3 ≡ received (word spid))
    × (env.reads 4 ≡ received so)

pub updated :
    (k : Container) (so : List ℕ) (env : Server.Env) (files : Disk)
    → IsId k
    → ReadsFields k so env
    → update env (write_command k) (length so) files ≡ store_of k so files
unfolding update
updated root so env files i r =
    rw (got_data env 2 so r (length so) refl, data_read env 2 so r (length so) refl) refl
updated (sp spid) so env files i (r, q) =
    let (got, read) = word_read env 2 spid i r in
    rw (got, read, got_data env 3 so q (length so) refl, data_read env 3 so q (length so) refl) refl
updated (tl uuid spid) so env files (l, a, i) (r, q, p) =
    let (got, read) = word_read env 3 spid i q in
    rw
      (
        got_data env 2 uuid r 16 l,
        data_read env 2 uuid r 16 l,
        got,
        read,
        got_data env 4 so p (length so) refl,
        data_read env 4 so p (length so) refl,
      )
      refl
