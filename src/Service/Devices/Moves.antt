-- ===== src/Service/Devices/Moves.antt =====
-- What `TransitionDevice` of devices.go does to the stored device.
use orbit_telemetry_orchestr.Prelude.{
  ℕ, suc, String, ◌≡◌, refl, ◌∙◌, ap, inl, inr, some, arith, if◌then◌else◌, pos, lookup, insert,
  lookup-insert, ok, err, inc64, dec64, dec64-inc64, InInt64, ◌==◌, int_eq, Time, string_eq,
  eqb_ℤ_iff, Option, none, ◌⊎◌,
}
use orbit_telemetry_orchestr.Prelude.Exec.{◌>>=◌, return}
use orbit_telemetry_orchestr.Events.{Bus}
use orbit_telemetry_orchestr.Store.Devices.Versions.{accepted}
use orbit_telemetry_orchestr.Prelude.Errors.{conflict, publish_blocks}
use orbit_telemetry_orchestr.Domain.Device
use orbit_telemetry_orchestr.Domain.Device.{Device, DeviceStatus, device_status_eq, same_status_iff}
use orbit_telemetry_orchestr.Domain.Device.Lifecycle.{Edge, moved, transition_of_Edge}
use orbit_telemetry_orchestr.Store.{Memory}
use orbit_telemetry_orchestr.Store.Devices.{get_device, update_device}
use orbit_telemetry_orchestr.Service.{App, live, ensure_context, now, published, emit, record_audit}
use orbit_telemetry_orchestr.Service.Devices.{transition_device}

same_is_ok : (d : Device) (t : Time) → Device.transition d d.status t ≡ ok d
unfolding Device.transition
same_is_ok d t = ground (arith, same_status_iff d.status d.status)

module _ {F : Type 0} where
  stale_refused :
      (m : Memory F) (d : Device) (n : ℕ)
      → lookup d.id m.devices ≡ some d
      → d.version ≡ pos (suc (suc n))
      → update_device d (dec64 d.version) m ≡ (err conflict, m)
  unfolding update_device
  stale_refused m d n found v = ground arith

  -- A request for the status that the stored device already has is refused with a conflict, and
  -- stores nothing, wherever the device's version is above 1.
  pub transition_device_same :
      (a : App F) (actor : String) (d : Device) (n : ℕ)
      → lookup d.id a.repository.devices ≡ some d
      → d.version ≡ pos (suc (suc n))
      → ((transition_device live actor d.id d.status a).0 ≡ err conflict)
        × ((transition_device live actor d.id d.status a).1.repository ≡ a.repository)
  unfolding transition_device ensure_context now get_device
  transition_device_same a actor d n found v =
      rw (found, same_is_ok d (a.clock a.reads), stale_refused a.repository d n found v)
        (refl, refl)

  fresh_accepted :
      (m : Memory F) (d : Device) (status : DeviceStatus) (t : Time)
      → lookup d.id m.devices ≡ some d
      → InInt64 d.version
      → update_device (moved d status t) (dec64 (inc64 d.version)) m
        ≡ (ok tt, record m { devices = insert d.id (moved d status t) m.devices })
  fresh_accepted m d status t found range = rw (dec64-inc64 d.version range) (
      accepted (moved d status t) d d.version m found
        (ground (arith, eqb_ℤ_iff d.version d.version)))

  -- An event that is published, or waits for ever, leaves the repository as it is.
  published-return :
      {A : Type 0} (o : Option Bus) (a : App F) (x : A)
      → let (r, a') = (published o >>= λ u. return x) a in
        ((r ≡ ok x) ⊎ (r ≡ err publish_blocks)) × (a'.repository ≡ a.repository)
  unfolding published
  published-return none a x = (inr refl, refl)
  published-return (some b) a x = (inl refl, refl)

  -- A request along an edge of the diagram moves the stored device: what is stored under its id now
  -- has the new status, the next version and the time of the request, and every other device is as
  -- before. That device is returned too, unless the event of the move waits for a subscriber.
  pub transition_device_moves :
      (a : App F) (actor : String) (d : Device) (status : DeviceStatus)
      → lookup d.id a.repository.devices ≡ some d
      → InInt64 d.version
      → Edge d.status status
      → let d' = moved d status (a.clock a.reads) in
        let (r, a') = transition_device live actor d.id status a in
        ((r ≡ ok d') ⊎ (r ≡ err publish_blocks))
        × ((id : String)
            → lookup id a'.repository.devices
              ≡ (if d.id == id then some d' else lookup id a.repository.devices))
  unfolding transition_device ensure_context now get_device record_audit emit
  transition_device_moves a actor d status found range edge =
      let t = a.clock a.reads in
      rw (found, transition_of_Edge d t edge, fresh_accepted a.repository d status t found range)
        (let q = published-return _ _ (moved d status t) in
          (
            q.0,
            λ id.
                ap (λ (m : Memory F). lookup id m.devices) q.1
                ∙ lookup-insert d.id id (moved d status t) a.repository.devices,
          ))
