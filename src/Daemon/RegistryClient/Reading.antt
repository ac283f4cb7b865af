-- ===== src/Daemon/RegistryClient/Reading.antt =====
-- What the library of the registry writes, as the daemon reads it.
use android_hardware_samsung.Common.{
  ℕ, suc, zero, ◌+◌, ◌-◌, ◌<◌, ◌^◌, ◌≡◌, true, List, [], ◌∷◌, ◌++◌, length, length-append, take,
  drop, refl, ap, ◌∙◌, arith,
}
use android_hardware_samsung.Daemon.Registry.Distinct.{Container, root, sp, tl, IsId}
use android_hardware_samsung.Daemon.Registry.Store.{store_of}
use android_hardware_samsung.Daemon.Driver.Wire.{Read, received, overlay, get_word, command_of}
use android_hardware_samsung.Daemon.Driver.State as Server
use android_hardware_samsung.Daemon.Driver.State.{Driver, check_permission}
use android_hardware_samsung.Daemon.Driver.Registry.{answer_update, process_registry_write_data}
use android_hardware_samsung.Daemon.Driver.Dispatch.{header_command}
use android_hardware_samsung.Daemon.Client.Wire.{word, words}
use android_hardware_samsung.Daemon.Client.Messages.{get_word-word}
use android_hardware_samsung.Daemon.RegistryClient.{
  Env, Outcome, write_blob_data, store_cmd, first_command, mc_registry_store_root,
  mc_registry_store_sp, mc_registry_store_trustlet_con,
}
use android_hardware_samsung.Daemon.RegistryClient.Serving.{
  append_assoc, take-length, drop-length, length-drop, word_read, write_command, command_id,
  read_sizes, ReadsFields, updated,
}

-- The store of each kind of container, and the command that it is.
abbrev pub mc_registry_store : Env → Container → List ℕ → Outcome
mc_registry_store env root so = mc_registry_store_root env so
mc_registry_store env (sp spid) so = mc_registry_store_sp env spid so
mc_registry_store env (tl uuid spid) so = mc_registry_store_trustlet_con env uuid spid so

-- The n-th read of a message, and what is left in the socket after all of them.
abbrev pub read_at : List ℕ → ℕ → List ℕ → Read
read_at [] n bytes = received []
read_at (k ∷ ks) zero bytes = received (take k bytes)
read_at (k ∷ ks) (suc n) bytes = read_at ks n (drop k bytes)

abbrev pub left_over : List ℕ → List ℕ → List ℕ
left_over [] bytes = bytes
left_over (k ∷ ks) bytes = left_over ks (drop k bytes)

-- The message of a store, and what the heap held behind it.
abbrev pub fields : Container → ℕ → List ℕ
fields root size = words ((first_command + 4) ∷ size ∷ [])
fields (sp spid) size = words ((first_command + 7) ∷ size ∷ spid ∷ [])
fields (tl uuid spid) size = words ((first_command + 10) ∷ size ∷ []) ++ uuid ++ word spid

abbrev pub behind : Env → Container → List ℕ → List ℕ
behind env k so =
    drop (length (fields k (length so) ++ so))
      (env.malloc (length (fields k (length so)) + 4 + length so - 1))

abbrev pub message : Env → Container → List ℕ → List ℕ
message env k so = (fields k (length so) ++ so) ++ behind env k so

store_written :
    (env : Env) (k : Container) (so : List ℕ)
    → env.connect_ok ≡ true
    → (mc_registry_store env k so).written ≡ message env k so
unfolding mc_registry_store_root mc_registry_store_sp mc_registry_store_trustlet_con write_blob_data
    store_cmd
store_written env root so e = rw e refl
store_written env (sp spid) so e = rw e refl
store_written env (tl uuid spid) so e = rw e refl

tl_rest : (uuid id so pad : List ℕ) → ((uuid ++ id) ++ so) ++ pad ≡ uuid ++ (id ++ (so ++ pad))
tl_rest uuid id so pad = append_assoc (uuid ++ id) so pad ∙ append_assoc uuid id (so ++ pad)

command_read :
    (server : Server.Env) (k : Container)
    → server.reads 0 ≡ received (word (command_id k))
    → header_command server ≡ write_command k
unfolding command_of
command_read server root e =
    ap (λ r. command_of (get_word 0 (overlay r (server.stale 0)))) e
    ∙ ap command_of (get_word-word (first_command + 4) (drop 4 (server.stale 0)) (omega arith))
command_read server (sp spid) e =
    ap (λ r. command_of (get_word 0 (overlay r (server.stale 0)))) e
    ∙ ap command_of (get_word-word (first_command + 7) (drop 4 (server.stale 0)) (omega arith))
command_read server (tl uuid spid) e =
    ap (λ r. command_of (get_word 0 (overlay r (server.stale 0)))) e
    ∙ ap command_of (get_word-word (first_command + 10) (drop 4 (server.stale 0)) (omega arith))

fields_read :
    (env : Env) (k : Container) (so : List ℕ) (server : Server.Env)
    → IsId k
    → ((n : ℕ) → server.reads n ≡ read_at (read_sizes k (length so)) n (message env k so))
    → (server.reads 0 ≡ received (word (command_id k)))
      × (server.reads 1 ≡ received (word (length so)))
      × ReadsFields k so server
      × (left_over (read_sizes k (length so)) (message env k so) ≡ behind env k so)
fields_read env root so server i r = (
  r 0,
  r 1,
  r 2 ∙ ap received (take-length so (behind env root so) (length so) refl),
  drop-length so (behind env root so) (length so) refl,
)
fields_read env (sp spid) so server i r = (
  r 0,
  r 1,
  (r 2, r 3 ∙ ap received (take-length so (behind env (sp spid) so) (length so) refl)),
  drop-length so (behind env (sp spid) so) (length so) refl,
)
fields_read env (tl uuid spid) so server (l, a, i) r =
    let pad = behind env (tl uuid spid) so in
    let rest = tl_rest uuid (word spid) so pad in
    let next = ap (drop 16) rest ∙ drop-length uuid (word spid ++ (so ++ pad)) 16 l in
    (
      r 0,
      r 1,
      (
        r 2 ∙ ap received (ap (take 16) rest ∙ take-length uuid (word spid ++ (so ++ pad)) 16 l),
        r 3 ∙ ap (λ bs. received (take 4 bs)) next,
        r 4
            ∙ ap received (
                ap (λ bs. take (length so) (drop 4 bs)) next ∙ take-length so pad (length so) refl),
      ),
      ap (λ bs. drop (length so) (drop 4 bs)) next ∙ drop-length so pad (length so) refl,
    )

length-behind :
    (env : Env) (k : Container) (so : List ℕ)
    → ((n : ℕ) → length (env.malloc n) ≡ n)
    → length (behind env k so) ≡ 3
length-behind env k so h =
    let n = length (fields k (length so)) in
    length-drop (length (fields k (length so) ++ so)) 3 (env.malloc (n + 4 + length so - 1))
      (omega (arith, h (n + 4 + length so - 1), length-append (fields k (length so)) so))

-- A store of a container by a permitted client that is connected, the daemon reading what the
-- library writes: the daemon takes it for the store of that kind of container, and stores the whole
-- object under the same key as the registry itself would, answering the registry's result. Three
-- bytes of the heap, which the padding of `storeCmd` has had sent, are left for the daemon's next
-- command.
pub store_linked :
    (env : Env) (k : Container) (so : List ℕ) (server : Server.Env) (conn : ℕ) (v : Driver)
    → IsId k
    → length so < 2 ^ 32
    → env.connect_ok ≡ true
    → ((n : ℕ) → length (env.malloc n) ≡ n)
    → check_permission server ≡ true
    → ((n : ℕ)
        → server.reads n
          ≡ read_at (read_sizes k (length so)) n (mc_registry_store env k so).written)
    → (header_command server ≡ write_command k)
      × (process_registry_write_data server (write_command k) conn v
          ≡ answer_update conn (store_of k so v.disk) v)
      × (length (left_over (read_sizes k (length so)) (mc_registry_store env k so).written) ≡ 3)
unfolding process_registry_write_data
store_linked env k so server conn v i small e malloc p r =
    let written = store_written env k so e in
    let (command, size, key, rest) =
      fields_read env k so server i
        (λ n. r n ∙ ap (read_at (read_sizes k (length so)) n) written) in
    let (got, word) = word_read server 1 (length so) small size in
    (
      command_read server k command,
      rw (p, got, word, updated k so server v.disk i key) refl,
      ap (λ bs. length (left_over (read_sizes k (length so)) bs)) written
          ∙ (ap length rest ∙ length-behind env k so malloc),
    )
