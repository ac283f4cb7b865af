-- ===== src/Daemon/Driver/Answers.antt =====
-- How often the commands of `handleConnection` answer, and whom.
use android_hardware_samsung.Common.{
  ℕ, ◌≡◌, Bool, true, false, Option, some, none, List, [], ◌∷◌, take, drop, ◌==◌, Bool-cases, inl,
  inr, refl, arith,
}
use android_hardware_samsung.Daemon.Session.{Wsm}
use android_hardware_samsung.Daemon.Device.State.{DrvResult, Device, call, lock_wsm}
use android_hardware_samsung.Daemon.Device.Close.{close}
use android_hardware_samsung.Daemon.Device.Commands as Commands
use android_hardware_samsung.Daemon.Registry.Blob.{
  RegObject, mem_get_service_blob, get_service_blob,
}
use android_hardware_samsung.Daemon.Driver.Wire.{Read, overlay, get_word, Command}
use android_hardware_samsung.Daemon.Driver.State.{
  Code, drv, Answer, Env, Driver, write_result, with_payload, with_device,
}
use android_hardware_samsung.Daemon.Driver.Sessions.{
  open_checked, process_open_device, closed_device, process_close_device, finish_open,
  open_registered, open_blob, process_open_session, process_open_trustlet, process_close_session,
  process_get_version, process_get_mobicore_version, answer_version, load_of,
}
use android_hardware_samsung.Daemon.Driver.Bulk.{
  answer_map, map_buffer, process_map_bulk_buf, answer_unmap, unmap_buffer, process_unmap_bulk_buf,
}
use android_hardware_samsung.Daemon.Driver.Registry.{
  process_registry_write_data, process_registry_delete_data,
}
use android_hardware_samsung.Daemon.Driver.Dispatch.{process}

-- What has been written last.
abbrev pub latest : List (ℕ × Answer) → Answer
latest [] = Answer.version 0
latest ((c, a) ∷ s) = a

-- Between `d` and `t` one answer has been written, and to `c`.
pub record Answered (c : ℕ) (d t : Driver) : Type 0 where
  pub once : t.sent ≡ (c, latest t.sent) ∷ d.sent

-- The commands that answer once whatever happens: not a notify, which answers never, the two
-- whose answer has parts, and the unknown.
abbrev pub answers_once : Command → Bool
answers_once Command.notify = false
answers_once Command.nq_connect = false
answers_once Command.read_auth_token = false
answers_once Command.read_root_cont = false
answers_once Command.read_sp_cont = false
answers_once Command.read_tl_cont = false
answers_once Command.unknown = false
answers_once _ = true

with_payload-Answered :
    (c n : ℕ) (r : Read) (d : Driver) (k : List ℕ → Driver)
    → ((bytes : List ℕ) → Answered c d (k bytes))
    → Answered c d (with_payload c n r d k)
with_payload-Answered c n r d k h = ground (arith, h (overlay r []))

with_device-Answered : (c : ℕ) (d k : Driver) → Answered c d k → Answered c d (with_device c d k)
with_device-Answered c d k h = ground arith

open_device-Answered : (env : Env) (c : ℕ) (d : Driver) → Answered c d (process_open_device env c d)
unfolding process_open_device
open_device-Answered env c d =
    with_payload-Answered c 4 (env.reads 1) d (λ bytes. open_checked c bytes d)
      (λ bytes. ground arith)

closed_device-Answered :
    (c : ℕ) (d t : Driver) (o : Option Device) → closed_device c d o ≡ some t → Answered c d t
closed_device-Answered c d t none e = cc
closed_device-Answered c d t (some v) e = ground arith

close_device-Answered :
    (env : Env) (c : ℕ) (d t : Driver) → process_close_device env c d ≡ some t → Answered c d t
unfolding process_close_device
close_device-Answered env c d t e =
    ground (arith, closed_device-Answered c d t (close c env.worlds d.device))

finish_open-Answered :
    (env : Env) (c h : ℕ) (r : DrvResult) (d t : Driver)
    → t.sent ≡ d.sent
    → Answered c d (finish_open env c h r t)
finish_open-Answered env c h r d t e = ground arith

open_blob-Answered :
    (env : Env) (c : ℕ) (o : Option RegObject) (handle len tci : ℕ) (d : Driver)
    → Answered c d (open_blob env c o handle len tci d)
unfolding open_blob
open_blob-Answered env c none handle len tci d = record { once = refl }
open_blob-Answered env c (some o) handle len tci d = elim (Bool-cases (o.len == 0)) [
  | inl y ↦ rw y (record { once = refl })
  | inr n ↦ rw n (go (env.register_wsm env.blob_address o.len))
]
  where
    go :
        (w : Option Wsm)
        → Answered c d (elim w [
          | none ↦ write_result c Code.kmod_error d
          | some v ↦ open_registered env c o v handle len tci d
        ])
    go none = record { once = refl }
    go (some v) =
        finish_open-Answered env c v.handle
          (Commands.open_session c (load_of env o v) handle len tci env.world d.device).0 d
          (record d {
            device =
                (Commands.open_session c (load_of env o v) handle len tci env.world d.device).1;
            shared = v.handle ∷ d.shared;
          })
          refl

open_session-Answered :
    (env : Env) (c : ℕ) (d : Driver) → Answered c d (process_open_session env c d)
unfolding process_open_session
open_session-Answered env c d = with_payload-Answered c 32 (env.reads 1) d _ (λ bytes.
    with_device-Answered c d _ (
      open_blob-Answered env c (get_service_blob (take 16 (drop 4 bytes)) d.disk) (get_word 6 bytes)
        (get_word 7 bytes) (get_word 5 bytes) d))

open_trustlet-Answered :
    (env : Env) (c : ℕ) (d : Driver) → Answered c d (process_open_trustlet env c d)
unfolding process_open_trustlet
open_trustlet-Answered env c d = with_payload-Answered c 24 (env.reads 1) d _ (λ bytes.
    with_device-Answered c d _ (
      with_payload-Answered c (get_word 2 bytes) (env.reads 2) d _ (λ trustlet.
        open_blob-Answered env c (mem_get_service_blob (get_word 1 bytes) trustlet d.disk)
          (get_word 4 bytes) (get_word 5 bytes) (get_word 3 bytes) d)))

close_session-Answered :
    (env : Env) (c : ℕ) (d : Driver) → Answered c d (process_close_session env c d)
unfolding process_close_session
close_session-Answered env c d = with_payload-Answered c 4 (env.reads 1) d _ (λ bytes.
    with_device-Answered c d
      (write_result c (drv (Commands.close_session c (get_word 0 bytes) env.world d.device).0)
        (record d { device = (Commands.close_session c (get_word 0 bytes) env.world d.device).1 }))
      (record { once = refl }))

answer_map-Answered :
    (c id : ℕ) (r : DrvResult × Option ℕ × Device) (d t : Driver)
    → t.sent ≡ d.sent
    → Answered c d (answer_map c id r t)
answer_map-Answered c id (r, o, v) d t e = ground arith

map_buffer-Answered :
    (env : Env) (c id handle offset len : ℕ) (d : Driver)
    → Answered c d (map_buffer env c id handle offset len d)
unfolding map_buffer
map_buffer-Answered env c id handle offset len d =
    let t = record d { device = call (lock_wsm handle) d.device } in
    ground (
      arith,
      answer_map-Answered c id
          (Commands.map_bulk c id handle (env.world.l2 handle c) offset len env.world t.device) d t
          refl,
    )

map-Answered : (env : Env) (c : ℕ) (d : Driver) → Answered c d (process_map_bulk_buf env c d)
unfolding process_map_bulk_buf
map-Answered env c d = with_payload-Answered c 20 (env.reads 1) d _ (λ bytes.
    with_device-Answered c d _ (
      map_buffer-Answered env c (get_word 0 bytes) (get_word 1 bytes) (get_word 3 bytes)
        (get_word 4 bytes) d))

unmap_buffer-Answered :
    (env : Env) (c id handle adr len : ℕ) (d : Driver)
    → Answered c d (unmap_buffer env c id handle adr len d)
unfolding unmap_buffer
unmap_buffer-Answered env c id handle adr len d =
    go (Commands.unmap_bulk c id handle adr len env.world d.device)
  where
    go : (r : DrvResult × Device) → Answered c d (answer_unmap c handle r d)
    go (r, v) = ground arith

unmap-Answered : (env : Env) (c : ℕ) (d : Driver) → Answered c d (process_unmap_bulk_buf env c d)
unfolding process_unmap_bulk_buf
unmap-Answered env c d = with_payload-Answered c 16 (env.reads 1) d _ (λ bytes.
    with_device-Answered c d _ (
      unmap_buffer-Answered env c (get_word 0 bytes) (get_word 1 bytes) (get_word 2 bytes)
        (get_word 3 bytes) d))

version-Answered :
    (env : Env) (c : ℕ) (d : Driver) → Answered c d (process_get_mobicore_version env c d)
unfolding process_get_mobicore_version
version-Answered env c d =
    with_device-Answered c d _ (go (Commands.get_mobicore_version env.world d.device))
  where
    go : (r : DrvResult × Option ℕ × Device) → Answered c d (answer_version c r d)
    go (r, o, v) = ground arith

write-Answered :
    (env : Env) (cmd : Command) (c : ℕ) (d : Driver)
    → Answered c d (process_registry_write_data env cmd c d)
unfolding process_registry_write_data
write-Answered env cmd c d = ground arith

delete-Answered :
    (env : Env) (cmd : Command) (c : ℕ) (d : Driver)
    → Answered c d (process_registry_delete_data env cmd c d)
unfolding process_registry_delete_data
delete-Answered env cmd c d = ground arith

answered : (c : ℕ) (d t u : Driver) → some u ≡ some t → Answered c d u → Answered c d t
answered c d t u e h = record { once = ground (arith, h.once) }

-- Every command of which `answers_once` holds, from whatever state and with whatever is read, the
-- undefined behaviour of a close apart, writes exactly one answer, and it writes it to the
-- connection that the command came from.
pub one_answer :
    (cmd : Command) (env : Env) (c : ℕ) (d t : Driver)
    → answers_once cmd ≡ true
    → process cmd env c d ≡ some t
    → Answered c d t
unfolding process process_get_version
one_answer Command.open_device env c d t a e = answered c d t _ e (open_device-Answered env c d)
one_answer Command.close_device env c d t a e = close_device-Answered env c d t e
one_answer Command.nq_connect env c d t a e = cc
one_answer Command.open_session env c d t a e = answered c d t _ e (open_session-Answered env c d)
one_answer Command.close_session env c d t a e = answered c d t _ e (close_session-Answered env c d)
one_answer Command.notify env c d t a e = cc
one_answer Command.map_bulk_buf env c d t a e = answered c d t _ e (map-Answered env c d)
one_answer Command.unmap_bulk_buf env c d t a e = answered c d t _ e (unmap-Answered env c d)
one_answer Command.get_version env c d t a e = answered c d t _ e (record { once = refl })
one_answer Command.get_mobicore_version env c d t a e =
    answered c d t _ e (version-Answered env c d)
one_answer Command.open_trustlet env c d t a e = answered c d t _ e (open_trustlet-Answered env c d)
one_answer Command.store_auth_token env c d t a e = answered c d t _ e (write-Answered env _ c d)
one_answer Command.read_auth_token env c d t a e = cc
one_answer Command.delete_auth_token env c d t a e = answered c d t _ e (delete-Answered env _ c d)
one_answer Command.read_root_cont env c d t a e = cc
one_answer Command.write_root_cont env c d t a e = answered c d t _ e (write-Answered env _ c d)
one_answer Command.delete_root_cont env c d t a e = answered c d t _ e (delete-Answered env _ c d)
one_answer Command.read_sp_cont env c d t a e = cc
one_answer Command.write_sp_cont env c d t a e = answered c d t _ e (write-Answered env _ c d)
one_answer Command.delete_sp_cont env c d t a e = answered c d t _ e (delete-Answered env _ c d)
one_answer Command.read_tl_cont env c d t a e = cc
one_answer Command.write_tl_cont env c d t a e = answered c d t _ e (write-Answered env _ c d)
one_answer Command.delete_tl_cont env c d t a e = answered c d t _ e (delete-Answered env _ c d)
one_answer Command.write_so_data env c d t a e = answered c d t _ e (write-Answered env _ c d)
one_answer Command.unknown env c d t a e = cc
