-- ===== src/Daemon/RegistryClient/Tests.antt =====
-- The library of the registry at concrete inputs.
use android_hardware_samsung.Common.{
  ℕ, zero, suc, ◌≡◌, true, List, [], ◌∷◌, length, replicate, refl, ap, arith,
}
use android_hardware_samsung.Daemon.Registry.Distinct.{sp}
use android_hardware_samsung.Daemon.Registry.Store.{store_of}
use android_hardware_samsung.Daemon.Driver.Wire.{received, Command}
use android_hardware_samsung.Daemon.Driver.State as Server
use android_hardware_samsung.Daemon.Driver.State.{check_permission}
use android_hardware_samsung.Daemon.Driver.Registry.{answer_update, process_registry_write_data}
use android_hardware_samsung.Daemon.Driver.Dispatch.{header_command}
use android_hardware_samsung.Daemon.Driver.Tests as ServerTests
use android_hardware_samsung.Daemon.Client.Wire.{word}
use android_hardware_samsung.Daemon.RegistryClient.{Env, mc_registry_store_sp}
use android_hardware_samsung.Daemon.RegistryClient.Serving.{read_sizes}
use android_hardware_samsung.Daemon.RegistryClient.Reading.{read_at, left_over, store_linked}

length-replicate : (n a : ℕ) → length (replicate n a) ≡ n
length-replicate zero a = refl
length-replicate (suc n) a = ap suc (length-replicate n a)

abbrev env : Env
env = record {
  connect_ok = true;
  response = received (word 0);
  content = received [];
  malloc = λ n. replicate n 170;
}

abbrev object : List ℕ
object = 1 ∷ 2 ∷ 3 ∷ []

abbrev server : Server.Env
server = record (ServerTests.opens) {
  reads = λ n. read_at (read_sizes (sp 9) 3) n (mc_registry_store_sp env 9 object).written;
}

permitted : check_permission server ≡ true
unfolding check_permission
permitted = refl

store_linked_example :
    (header_command server ≡ Command.write_sp_cont)
    × (process_registry_write_data server Command.write_sp_cont 4 ServerTests.driver
        ≡ answer_update 4 (store_of (sp 9) object ServerTests.disk) ServerTests.driver)
    × (length (left_over (read_sizes (sp 9) 3) (mc_registry_store_sp env 9 object).written) ≡ 3)
store_linked_example =
    store_linked env (sp 9) object server 4 ServerTests.driver (omega arith) (omega arith) refl
      (λ n. length-replicate n 170) permitted (λ n. refl)
