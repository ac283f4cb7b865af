-- ===== src/Daemon/Client/Memory.antt =====
-- `mcMallocWsm` and `mcFreeWsm` of mobicore/daemon/ClientLib/ClientLib.cpp, and the contiguous
-- memory of a device, Device.cpp.
use android_hardware_samsung.Common.{ℕ, Bool, some, none, List, [], ◌∷◌, ◌++◌, ◌==◌, if◌then◌else◌}
use android_hardware_samsung.Daemon.Session.{Wsm}
use android_hardware_samsung.Daemon.Client.Codes.{drv_ok, err_null_pointer, err_invalid_length}
use android_hardware_samsung.Daemon.Client.State.{
  Device, Client, Env, Reply, failed, at_device, free,
}
use android_hardware_samsung.Daemon.Client.Wire.{check_device, check_device_closed}
use android_hardware_samsung.Daemon.Client.Opening.{find_wsm}

abbrev pub at_wsms : ℕ → (List Wsm → List Wsm) → List Device → List Device
at_wsms id f ds = at_device id (λ (d : Device). record d { wsms = f d.wsms }) ds

-- `Device::allocateContiguousWsm`; what is written is the address.
unfoldable pub allocate_contiguous_wsm : Env → ℕ → ℕ → Client → Reply
allocate_contiguous_wsm env id len c =
    if len == 0
    then failed err_invalid_length c
    else (let (code, handle, virt, phys) = env.map_wsm len in
        let w : Wsm = record { virt_addr = virt; len = len; handle = handle; phys_addr = phys } in
        if code == 0
        then record {
          code = drv_ok;
          out = virt ∷ [];
          client = record c {
            devices = at_wsms id (λ ws. ws ++ w ∷ []) c.devices;
            allocated = handle ∷ c.allocated;
          };
        }
        else failed code c)

-- `wsm` is whether it is given.
unfoldable pub mc_malloc_wsm : Env → ℕ → ℕ → Bool → Client → Reply
mc_malloc_wsm env id len wsm c =
    check_device_closed id c
      (λ d. if wsm then allocate_contiguous_wsm env id len c else failed err_null_pointer c)

abbrev pub without_wsm : ℕ → List Wsm → List Wsm
without_wsm a [] = []
without_wsm a (w ∷ ws) = if w.virt_addr == a then ws else w ∷ without_wsm a ws

-- `Device::freeContiguousWsm` of memory that has been found by its address.
unfoldable pub free_contiguous_wsm : Env → ℕ → Wsm → Client → Reply
free_contiguous_wsm env id w c =
    if env.free_wsm w.handle == 0
    then failed drv_ok (record c {
      devices = at_wsms id (without_wsm w.virt_addr) c.devices;
      allocated = free env w.handle c.allocated;
    })
    else failed (env.free_wsm w.handle) c

-- WSM_NOT_FOUND is the number of NULL_POINTER.
unfoldable pub mc_free_wsm : Env → ℕ → ℕ → Client → Reply
mc_free_wsm env id wsm c = check_device id c (λ d. elim (find_wsm wsm d.wsms) [
  | none ↦ failed err_null_pointer c
  | some w ↦ free_contiguous_wsm env id w c
])
