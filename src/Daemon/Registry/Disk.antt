-- ===== src/Daemon/Registry/Disk.antt =====
-- The file system under the registry: files by their path, the directories of data, and what it
-- permits. The standard library's calls have their documented results: `fopen` for reading fails
-- where there is no file, `remove` fails on a missing file, `rmdir` on a directory that is not
-- empty.
use android_hardware_samsung.Common.{
  ℕ, Bool, true, false, not, ◌||◌, Option, some, none, List, [], ◌∷◌, ◌++◌, ◌==◌, if◌then◌else◌,
}
use android_hardware_samsung.Daemon.Registry.Bytes.{same_bytes}
use android_hardware_samsung.Daemon.Registry.Names.{
  Place, FilePath, same_path, auth_token_name, byte_array_to_string, tl_bin_ext,
}

-- The files of one directory, by name.
abbrev pub Folder : Type 0
Folder = List (List ℕ × List ℕ)

pub record Disk : Type 0 where
  pub files : List (FilePath × List ℕ)
  -- The directories of data, by name.
  pub folders : List (List ℕ × Folder)
  pub system_exists : Bool
  pub token_path_exists : Bool
  pub can_write : FilePath → Bool
  -- What a write leaves in a file: all of the bytes, or fewer on an error.
  pub kept : List ℕ → List ℕ
  pub can_remove : FilePath → Bool
  pub can_remove_data : List ℕ → Bool
  -- Whether `mkdir` and `fopen` can make a directory of data and write in it.
  pub can_write_data : List ℕ → Bool

unfoldable pub lookup : FilePath → List (FilePath × List ℕ) → Option (List ℕ)
lookup p [] = none
lookup p ((q, b) ∷ fs) = if same_path q p then some b else lookup p fs

unfoldable pub put : FilePath → List ℕ → List (FilePath × List ℕ) → List (FilePath × List ℕ)
put p b [] = (p, b) ∷ []
put p b ((q, o) ∷ fs) = if same_path q p then (q, b) ∷ fs else (q, o) ∷ put p b fs

unfoldable pub delete : FilePath → List (FilePath × List ℕ) → List (FilePath × List ℕ)
delete p [] = []
delete p ((q, o) ∷ fs) = if same_path q p then fs else (q, o) ∷ delete p fs

-- `fopen(…, "wb")`, `fwrite` and `fclose`; none if the file cannot be opened.
abbrev pub write_file : FilePath → List ℕ → Disk → Option Disk
write_file p b k =
    if k.can_write p then some (record k { files = put p (k.kept b) k.files }) else none

-- `remove`: whether it succeeds, and the disk.
abbrev pub remove_found : FilePath → Option (List ℕ) → Disk → Bool × Disk
remove_found p none k = (false, k)
remove_found p (some b) k =
    if k.can_remove p then (true, record k { files = delete p k.files }) else (false, k)

unfoldable pub remove_file : FilePath → Disk → Bool × Disk
remove_file p k = remove_found p (lookup p k.files) k

abbrev pub folder : List ℕ → List (List ℕ × Folder) → Option Folder
folder n [] = none
folder n ((m, f) ∷ fs) = if same_bytes m n then some f else folder n fs

abbrev pub put_folder : List ℕ → Folder → List (List ℕ × Folder) → List (List ℕ × Folder)
put_folder n f [] = (n, f) ∷ []
put_folder n f ((m, g) ∷ fs) = if same_bytes m n then (m, f) ∷ fs else (m, g) ∷ put_folder n f fs

abbrev pub delete_folder : List ℕ → List (List ℕ × Folder) → List (List ℕ × Folder)
delete_folder n [] = []
delete_folder n ((m, g) ∷ fs) = if same_bytes m n then fs else (m, g) ∷ delete_folder n fs

abbrev pub put_data : List ℕ → List ℕ → Folder → Folder
put_data n b [] = (n, b) ∷ []
put_data n b ((m, o) ∷ f) = if same_bytes m n then (m, b) ∷ f else (m, o) ∷ put_data n b f

abbrev pub folder_or_empty : Option Folder → Folder
folder_or_empty none = []
folder_or_empty (some f) = f

-- `mkdir` of the directory, and the write of a file in it.
unfoldable pub write_data : List ℕ → List ℕ → List ℕ → Disk → Option Disk
write_data dir n b k =
    if k.can_write_data dir
    then some (record k {
      folders =
          put_folder dir (put_data n (k.kept b) (folder_or_empty (folder dir k.folders))) k.folders;
    })
    else none

-- A name that starts with a dot is left.
abbrev pub is_hidden : List ℕ → Bool
is_hidden [] = false
is_hidden (c ∷ cs) = c == b'.'

-- The loop over `readdir`.
abbrev pub emptied : (List ℕ → Bool) → Folder → Folder
emptied can_remove [] = []
emptied can_remove ((n, b) ∷ f) =
    if is_hidden n || not (can_remove n)
    then (n, b) ∷ emptied can_remove f
    else emptied can_remove f

abbrev pub remove_dir : List ℕ → Folder → Disk → Bool × Disk
remove_dir dir [] k = (true, record k { folders = delete_folder dir k.folders })
remove_dir dir (e ∷ f) k = (false, record k { folders = put_folder dir (e ∷ f) k.folders })

-- `opendir`, the removal of the files, and `rmdir`; a missing directory is no failure.
abbrev pub remove_folder : List ℕ → Option Folder → Disk → Bool × Disk
remove_folder dir none k = (true, k)
remove_folder dir (some f) k = remove_dir dir (emptied k.can_remove_data f) k

-- `getAuthTokenFilePath`
unfoldable pub auth_token_file_path : Disk → FilePath
auth_token_file_path k = record {
  place = if k.token_path_exists then Place.token_path else Place.data_registry;
  name = auth_token_name;
}

-- `getTlRegistryPath` and `getTlBinFilePath`: the fallback path is the default one.
unfoldable pub tl_bin_file_path : List ℕ → Disk → FilePath
tl_bin_file_path uuid k = record {
  place = if k.system_exists then Place.system_registry else Place.data_registry;
  name = byte_array_to_string uuid ++ tl_bin_ext;
}
