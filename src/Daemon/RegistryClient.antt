-- ===== src/Daemon/RegistryClient.antt =====
-- mobicore/daemon/Registry/Registry.cpp: the registry's operations, asked of the daemon. `mcSpid_t`
-- is a `uint32_t` and `mcUuid_t` 16 bytes. A read of -1 (an error) or -2 (a timeout) is
-- `socket_error`. `size_t` is unsigned, so that neither it nor a failed write is `<= 0`.
pub mod Serving
pub mod Reading
pub mod Tests
use android_hardware_samsung.Common.{
  ℕ, ◌+◌, ◌-◌, ◌<◌, Bool, true, false, Option, some, none, List, [], ◌∷◌, ◌++◌, length, take, ◌==◌,
  if◌then◌else◌,
}
use android_hardware_samsung.Daemon.Driver.Wire.{Read, received, socket_error, overlay, get_word}
use android_hardware_samsung.Daemon.Client.Wire.{word, words}

-- What a call finds: whether the daemon can be connected, what it answers and then sends, and what
-- `malloc` returns for a number of bytes.
pub record Env : Type 0 where
  pub connect_ok : Bool
  pub response : Read
  pub content : Read
  pub malloc : ℕ → List ℕ

-- The code, what is handed to `writeData`, and the caller's buffer and its size as they are left.
pub record Outcome : Type 0 where
  pub code : ℕ
  pub written : List ℕ
  pub buffer : List ℕ
  pub size : ℕ

abbrev pub err_invalid_parameter : ℕ
err_invalid_parameter = 17

abbrev pub err_daemon_socket : ℕ
err_daemon_socket = 15

-- `readData(…) <= 0`, of an unsigned length.
abbrev pub is_closed : Read → Bool
is_closed (received []) = true
is_closed _ = false

-- `rsp.responseId`, which is INVALID_PARAMETER to begin with.
abbrev pub response_id : Read → ℕ
response_id r = get_word 0 (overlay r (word err_invalid_parameter))

unfoldable pub write_blob_data : Env → List ℕ → Outcome
write_blob_data env buff =
    if env.connect_ok
    then record {
      code = if is_closed env.response then err_daemon_socket else response_id env.response;
      written = buff;
      buffer = [];
      size = 0;
    }
    else record { code = err_daemon_socket; written = []; buffer = []; size = 0 }

-- The length goes into an `int32_t` first here, so that -1 and -2 are found.
abbrev pub read_content : Read → ℕ → List ℕ → List ℕ → Outcome
read_content socket_error code buff rbuff = record {
  code = err_daemon_socket;
  written = buff;
  buffer = rbuff;
  size = length rbuff;
}
read_content (received []) code buff rbuff = record {
  code = err_daemon_socket;
  written = buff;
  buffer = rbuff;
  size = length rbuff;
}
read_content (received (b ∷ bs)) code buff rbuff = record {
  code = code;
  written = buff;
  buffer = overlay (received (b ∷ bs)) rbuff;
  size = length (b ∷ bs);
}

abbrev pub unread : List ℕ → List ℕ → Outcome
unread buff rbuff = record {
  code = err_daemon_socket;
  written = buff;
  buffer = rbuff;
  size = length rbuff;
}

-- The caller's buffer is of `*rlen` bytes.
unfoldable pub read_blob_data : Env → List ℕ → List ℕ → Outcome
read_blob_data env buff rbuff =
    if length rbuff == 0
    then unread [] rbuff
    else if env.connect_ok
    then (if is_closed env.response
        then unread buff rbuff
        else read_content env.content (response_id env.response) buff rbuff)
    else unread [] rbuff

-- A `storeCmd` on the heap: `sizeof` is that of its fields in front of `so`, and 4 more, since a
-- byte is padded; `sizeof(storeCmd) + size - 1` bytes are allocated and sent.
unfoldable pub store_cmd : Env → List ℕ → List ℕ → List ℕ
store_cmd env fields so =
    overlay (received (fields ++ so)) (env.malloc (length fields + 4 + length so - 1))

-- MC_DRV_REG_STORE_AUTH_TOKEN is 0x100000, and the others follow.
abbrev pub first_command : ℕ
first_command = 1048576

unfoldable pub mc_registry_store_auth_token : Env → List ℕ → Outcome
mc_registry_store_auth_token env so =
    write_blob_data env (store_cmd env (words (first_command ∷ length so ∷ [])) so)

unfoldable pub mc_registry_read_auth_token : Env → List ℕ → Outcome
mc_registry_read_auth_token env so = read_blob_data env (words ((first_command + 1) ∷ [])) so

unfoldable pub mc_registry_delete_auth_token : Env → Outcome
mc_registry_delete_auth_token env = write_blob_data env (words ((first_command + 2) ∷ []))

unfoldable pub mc_registry_store_root : Env → List ℕ → Outcome
mc_registry_store_root env so =
    write_blob_data env (store_cmd env (words ((first_command + 4) ∷ length so ∷ [])) so)

unfoldable pub mc_registry_read_root : Env → List ℕ → Outcome
mc_registry_read_root env so = read_blob_data env (words ((first_command + 3) ∷ [])) so

unfoldable pub mc_registry_cleanup_root : Env → Outcome
mc_registry_cleanup_root env = write_blob_data env (words ((first_command + 5) ∷ []))

unfoldable pub mc_registry_store_sp : Env → ℕ → List ℕ → Outcome
mc_registry_store_sp env spid so =
    write_blob_data env (store_cmd env (words ((first_command + 7) ∷ length so ∷ spid ∷ [])) so)

unfoldable pub mc_registry_read_sp : Env → ℕ → List ℕ → Outcome
mc_registry_read_sp env spid so = read_blob_data env (words ((first_command + 6) ∷ spid ∷ [])) so

unfoldable pub mc_registry_cleanup_sp : Env → ℕ → Outcome
mc_registry_cleanup_sp env spid = write_blob_data env (words ((first_command + 8) ∷ spid ∷ []))

unfoldable pub mc_registry_store_trustlet_con : Env → List ℕ → ℕ → List ℕ → Outcome
mc_registry_store_trustlet_con env uuid spid so =
    write_blob_data env
      (store_cmd env (words ((first_command + 10) ∷ length so ∷ []) ++ uuid ++ word spid) so)

unfoldable pub mc_registry_read_trustlet_con : Env → List ℕ → ℕ → List ℕ → Outcome
mc_registry_read_trustlet_con env uuid spid so =
    read_blob_data env (words ((first_command + 9) ∷ []) ++ uuid ++ word spid) so

unfoldable pub mc_registry_cleanup_trustlet : Env → List ℕ → ℕ → Outcome
mc_registry_cleanup_trustlet env uuid spid =
    write_blob_data env (words ((first_command + 11) ∷ []) ++ uuid ++ word spid)

-- `mcRegistryStoreData` and `mcRegistryReadData` do nothing.
unfoldable pub mc_registry_store_data : List ℕ → Outcome
mc_registry_store_data so = record {
  code = err_invalid_parameter;
  written = [];
  buffer = [];
  size = 0;
}

unfoldable pub mc_registry_read_data : List ℕ → Outcome
mc_registry_read_data so = record {
  code = err_invalid_parameter;
  written = [];
  buffer = so;
  size = length so;
}
