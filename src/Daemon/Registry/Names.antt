-- ===== src/Daemon/Registry/Names.antt =====
-- The names of the registry's files.
use android_hardware_samsung.Common.{
  ℕ, zero, suc, ◌+◌, ◌/◌, ◌%◌, Bool, true, false, ◌&&◌, List, [], ◌∷◌, ◌++◌, ltb, if◌then◌else◌,
}
use android_hardware_samsung.Daemon.Registry.Bytes.{same_bytes}

-- A digit of "%X" and of "%x".
abbrev pub upper_digit : ℕ → ℕ
upper_digit n = if ltb n 10 then 48 + n else 55 + n

abbrev pub lower_digit : ℕ → ℕ
lower_digit n = if ltb n 10 then 48 + n else 87 + n

abbrev pub digits : ℕ → ℕ → List ℕ
digits zero v = []
digits (suc n) v = upper_digit (v % 16) ∷ digits n (v / 16)

-- `uint32ToString`: the eight digits in reverse, the lowest first.
unfoldable pub uint32_to_string : ℕ → List ℕ
uint32_to_string v = digits 8 v

-- `byteArrayToString`: "%02x" of each byte.
unfoldable pub byte_array_to_string : List ℕ → List ℕ
byte_array_to_string [] = []
byte_array_to_string (b ∷ bs) =
    lower_digit (b / 16) ∷ lower_digit (b % 16) ∷ byte_array_to_string bs

-- ".spcont", ".tlcont", ".tlbin", ".datacont", "00000000.authtokcont" and "00000000.rootcont"
abbrev pub sp_cont_ext : List ℕ
sp_cont_ext = b'.' ∷ b's' ∷ b'p' ∷ b'c' ∷ b'o' ∷ b'n' ∷ b't' ∷ []

abbrev pub tl_cont_ext : List ℕ
tl_cont_ext = b'.' ∷ b't' ∷ b'l' ∷ b'c' ∷ b'o' ∷ b'n' ∷ b't' ∷ []

abbrev pub tl_bin_ext : List ℕ
tl_bin_ext = b'.' ∷ b't' ∷ b'l' ∷ b'b' ∷ b'i' ∷ b'n' ∷ []

abbrev pub data_cont_ext : List ℕ
data_cont_ext = b'.' ∷ b'd' ∷ b'a' ∷ b't' ∷ b'a' ∷ b'c' ∷ b'o' ∷ b'n' ∷ b't' ∷ []

abbrev pub zeros : List ℕ
zeros = b'0' ∷ b'0' ∷ b'0' ∷ b'0' ∷ b'0' ∷ b'0' ∷ b'0' ∷ b'0' ∷ []

abbrev pub auth_token_name : List ℕ
auth_token_name =
    zeros
    ++ (b'.' ∷ b'a' ∷ b'u' ∷ b't' ∷ b'h' ∷ b't' ∷ b'o' ∷ b'k' ∷ b'c' ∷ b'o' ∷ b'n' ∷ b't' ∷ [])

abbrev pub root_name : List ℕ
root_name = zeros ++ (b'.' ∷ b'r' ∷ b'o' ∷ b'o' ∷ b't' ∷ b'c' ∷ b'o' ∷ b'n' ∷ b't' ∷ [])

-- The directories: "/data/app/mcRegistry", "/system/app/mcRegistry" and $MC_AUTH_TOKEN_PATH.
pub data Place : Type 0 where
  data_registry system_registry token_path : Place

abbrev pub same_place : Place → Place → Bool
same_place Place.data_registry Place.data_registry = true
same_place Place.system_registry Place.system_registry = true
same_place Place.token_path Place.token_path = true
same_place _ _ = false

pub record FilePath : Type 0 where
  pub place : Place
  pub name : List ℕ

abbrev pub same_path : FilePath → FilePath → Bool
same_path p q = same_place p.place q.place && same_bytes p.name q.name

unfoldable pub root_cont_file_path : FilePath
root_cont_file_path = record { place = Place.data_registry; name = root_name }

unfoldable pub sp_cont_file_path : ℕ → FilePath
sp_cont_file_path spid = record {
  place = Place.data_registry;
  name = uint32_to_string spid ++ sp_cont_ext;
}

unfoldable pub tl_cont_file_path : List ℕ → ℕ → FilePath
tl_cont_file_path uuid spid = record {
  place = Place.data_registry;
  name = byte_array_to_string uuid ++ (b'.' ∷ (uint32_to_string spid ++ tl_cont_ext));
}

-- The directories of the data of a service provider and of a trustlet, and a file's name in it.
unfoldable pub sp_data_path : ℕ → List ℕ
sp_data_path spid = uint32_to_string spid

unfoldable pub tl_data_path : List ℕ → List ℕ
tl_data_path uuid = byte_array_to_string uuid

unfoldable pub data_file_name : ℕ → List ℕ
data_file_name pid = uint32_to_string pid ++ data_cont_ext
