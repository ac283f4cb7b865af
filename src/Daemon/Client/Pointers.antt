-- ===== src/Daemon/Client/Pointers.antt =====
-- What a change through a pointer of the library does to the handles that are named.
use android_hardware_samsung.Common.{ℕ, ◌+◌, ◌≡◌, some, List, [], ◌∷◌, ◌++◌, arith}
use android_hardware_samsung.Daemon.Session.{Wsm}
use android_hardware_samsung.Daemon.Client.State.{
  BulkBufferDescriptor, Session, Device, resolve_device, resolve_session, at_device, at_session,
  without_device,
}
use android_hardware_samsung.Daemon.Client.Closing.{without_session}
use android_hardware_samsung.Daemon.Client.Counts.{
  in_buffers, in_sessions, in_devices, in_wsms, in_memory,
}

pub in_devices-append :
    (k : ℕ) (ds es : List Device) → in_devices k (ds ++ es) ≡ in_devices k ds + in_devices k es
in_devices-append k [] es = omega arith
in_devices-append k (d ∷ ds) es = omega (arith, in_devices-append k ds es)

pub in_memory-append :
    (k : ℕ) (ds es : List Device) → in_memory k (ds ++ es) ≡ in_memory k ds + in_memory k es
in_memory-append k [] es = omega arith
in_memory-append k (d ∷ ds) es = omega (arith, in_memory-append k ds es)

pub in_sessions-append :
    (k : ℕ) (ds es : List Session) → in_sessions k (ds ++ es) ≡ in_sessions k ds + in_sessions k es
in_sessions-append k [] es = omega arith
in_sessions-append k (d ∷ ds) es = omega (arith, in_sessions-append k ds es)

pub in_buffers-append :
    (k : ℕ) (ds es : List BulkBufferDescriptor)
    → in_buffers k (ds ++ es) ≡ in_buffers k ds + in_buffers k es
in_buffers-append k [] es = omega arith
in_buffers-append k (d ∷ ds) es = omega (arith, in_buffers-append k ds es)

pub in_wsms-append : (k : ℕ) (ds es : List Wsm) → in_wsms k (ds ++ es) ≡ in_wsms k ds + in_wsms k es
in_wsms-append k [] es = omega arith
in_wsms-append k (d ∷ ds) es = omega (arith, in_wsms-append k ds es)

-- Through the pointer to a device.
pub at_device_counts :
    (k id : ℕ) (f : Device → Device) (ds : List Device) (d : Device)
    → resolve_device id ds ≡ some d
    → (in_devices k (at_device id f ds) + in_sessions k d.sessions
        ≡ in_devices k ds + in_sessions k (f d).sessions)
      × (in_memory k (at_device id f ds) + in_wsms k d.wsms ≡ in_memory k ds + in_wsms k (f d).wsms)
unfolding resolve_device
at_device_counts k id f [] d e = cc
at_device_counts k id f (x ∷ ds) d e = ground (arith, at_device_counts k id f ds d)

pub at_session_counts :
    (k id : ℕ) (f : Session → Session) (ss : List Session) (s : Session)
    → resolve_session id ss ≡ some s
    → in_sessions k (at_session id f ss) + in_buffers k s.buffers
      ≡ in_sessions k ss + in_buffers k (f s).buffers
unfolding resolve_session
at_session_counts k id f [] s e = cc
at_session_counts k id f (x ∷ ss) s e = ground (arith, at_session_counts k id f ss s)

pub without_device_counts :
    (k id : ℕ) (ds : List Device) (d : Device)
    → resolve_device id ds ≡ some d
    → (in_devices k ds ≡ in_sessions k d.sessions + in_devices k (without_device id ds))
      × (in_memory k ds ≡ in_wsms k d.wsms + in_memory k (without_device id ds))
unfolding resolve_device
without_device_counts k id [] d e = cc
without_device_counts k id (x ∷ ds) d e = ground (arith, without_device_counts k id ds d)

pub without_session_counts :
    (k id : ℕ) (ss : List Session) (s : Session)
    → resolve_session id ss ≡ some s
    → in_sessions k ss ≡ in_buffers k s.buffers + in_sessions k (without_session id ss)
unfolding resolve_session
without_session_counts k id [] s e = cc
without_session_counts k id (x ∷ ss) s e = ground (arith, without_session_counts k id ss s)

pub resolve-at_device_self :
    (id : ℕ) (f : Device → Device) (ds : List Device) (d : Device)
    → ((x : Device) → (f x).device_id ≡ x.device_id)
    → resolve_device id ds ≡ some d
    → resolve_device id (at_device id f ds) ≡ some (f d)
unfolding resolve_device
resolve-at_device_self id f [] d same e = cc
resolve-at_device_self id f (x ∷ ds) d same e =
    ground (arith, resolve-at_device_self id f ds d same, same x)

pub resolve-at_session_self :
    (id : ℕ) (f : Session → Session) (ss : List Session) (s : Session)
    → ((x : Session) → (f x).session_id ≡ x.session_id)
    → resolve_session id ss ≡ some s
    → resolve_session id (at_session id f ss) ≡ some (f s)
unfolding resolve_session
resolve-at_session_self id f [] s same e = cc
resolve-at_session_self id f (x ∷ ss) s same e =
    ground (arith, resolve-at_session_self id f ss s same, same x)
