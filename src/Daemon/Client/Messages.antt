-- ===== src/Daemon/Client/Messages.antt =====
-- What the library writes, as the daemon reads it.
use android_hardware_samsung.Common.{
  ℕ, suc, zero, ◌+◌, ◌*◌, ◌/◌, ◌%◌, ◌^◌, ◌<◌, ◌≡◌, List, [], ◌∷◌, ◌++◌, get_or, length, take, drop,
  refl, ap, ◌∙◌, arith,
}
use android_hardware_samsung.Daemon.Driver.Wire.{received, get_word, overlay, command_of}
use android_hardware_samsung.Daemon.Driver.State.{Env}
use android_hardware_samsung.Daemon.Driver.Dispatch.{header_command}
use android_hardware_samsung.Daemon.Client.Wire.{word, words}

pub four_bytes :
    (n : ℕ)
    → n < 2 ^ 32
    → n % 256 + 256 * (n / 256 % 256 + 256 * (n / 256 ^ 2 % 256 + 256 * (n / 256 ^ 3 % 256))) ≡ n
four_bytes n h = omega arith

pub get_word-word : (n : ℕ) (bytes : List ℕ) → n < 2 ^ 32 → get_word 0 (word n ++ bytes) ≡ n
unfolding get_word
get_word-word n bytes h = four_bytes n h

module _ (a b c d : ℕ) (bytes : List ℕ) where
  get_or-skip :
      (i j k l : ℕ)
      → k ≡ suc (suc (suc (suc l)))
      → get_or (a ∷ b ∷ c ∷ d ∷ bytes) k 0 ≡ get_or bytes l 0
  get_or-skip i j k l e = ap (λ m. get_or (a ∷ b ∷ c ∷ d ∷ bytes) m 0) e

  get_word-skip : (i : ℕ) → get_word (suc i) (a ∷ b ∷ c ∷ d ∷ bytes) ≡ get_word i bytes
  unfolding get_word
  get_word-skip i = omega (
    arith,
    get_or-skip i 0 (4 * suc i) (4 * i) (omega arith),
    get_or-skip i 1 (4 * suc i + 1) (4 * i + 1) (omega arith),
    get_or-skip i 2 (4 * suc i + 2) (4 * i + 2) (omega arith),
    get_or-skip i 3 (4 * suc i + 3) (4 * i + 3) (omega arith),
  )

pub get_word-second :
    (m n : ℕ) (bytes : List ℕ) → n < 2 ^ 32 → get_word 1 (word m ++ word n ++ bytes) ≡ n
get_word-second m n bytes h =
    get_word-skip (m % 256) (m / 256 % 256) (m / 256 ^ 2 % 256) (m / 256 ^ 3 % 256)
      (word n ++ bytes) 0
    ∙ get_word-word n bytes h

-- Each is a `uint32_t`.
unfoldable pub AreWords : List ℕ → Type 0
AreWords [] = Unit
AreWords (n ∷ ns) = (n < 2 ^ 32) × AreWords ns

get_word-nil : (i : ℕ) → get_word i [] ≡ 0
unfolding get_word
get_word-nil i = refl

pub get_word-words : (i : ℕ) (ns : List ℕ) → AreWords ns → get_word i (words ns) ≡ get_or ns i 0
unfolding AreWords
get_word-words i [] w = get_word-nil i
get_word-words zero (n ∷ ns) (h, w) = get_word-word n (words ns) h
get_word-words (suc i) (n ∷ ns) (h, w) =
    get_word-skip (n % 256) (n / 256 % 256) (n / 256 ^ 2 % 256) (n / 256 ^ 3 % 256) (words ns) i
    ∙ get_word-words i ns w

drop-nil : (n : ℕ) → drop {A = ℕ} n [] ≡ []
drop-nil zero = refl
drop-nil (suc n) = refl

append-nil : (bytes : List ℕ) → bytes ++ [] ≡ bytes
append-nil [] = refl
append-nil (b ∷ bytes) = ap (λ bs. b ∷ bs) (append-nil bytes)

-- A read into an empty buffer.
pub overlay-nil : (bytes : List ℕ) → overlay (received bytes) [] ≡ bytes
overlay-nil bytes = ap (λ bs. bytes ++ bs) (drop-nil (length bytes)) ∙ append-nil bytes

-- The daemon reads a message of the library in two, the header and the rest: it finds the command
-- that was written, whatever its stack held, and each of the words behind it.
pub message_read :
    (env : Env) (cmd : ℕ) (ns : List ℕ)
    → cmd < 2 ^ 32
    → AreWords ns
    → env.reads 0 ≡ received (take 4 (words (cmd ∷ ns)))
    → env.reads 1 ≡ received (drop 4 (words (cmd ∷ ns)))
    → (header_command env ≡ command_of cmd)
      × ((i : ℕ) → get_word i (overlay (env.reads 1) []) ≡ get_or ns i 0)
message_read env cmd ns h w e f = (
  ap (λ r. command_of (get_word 0 (overlay r (env.stale 0)))) e
      ∙ ap command_of (get_word-word cmd (drop 4 (env.stale 0)) h),
  λ i.
      ap (λ r. get_word i (overlay r [])) f
      ∙ (ap (get_word i) (overlay-nil (words ns)) ∙ get_word-words i ns w),
)
