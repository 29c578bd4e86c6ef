-- ===== src/Domain/Device/Lifecycle.antt =====
-- The life of a device: the transition diagram of device.go, and histories of requests.
use orbit_telemetry_orchestr.Prelude.{
  ◌≡◌, refl, ◌⊎◌, inl, inr, false, List, [], ◌∷◌, arith, ◌≢◌, inc64, Time, Result, ok, err,
}
use orbit_telemetry_orchestr.Domain.Device.{
  DeviceStatus, pending, ready, degraded, retired, Device, transition, same_status_iff,
  device_status_eq, can_receive_telemetry,
}

-- The moves that the code means to allow.
pub data Edge : DeviceStatus → DeviceStatus → Type 0 where
  commission : Edge pending ready
  abandon : Edge pending retired
  degrade : Edge ready degraded
  recover : Edge degraded ready
  retire_ready : Edge ready retired
  retire_degraded : Edge degraded retired

ruleset edges = (commission, abandon, degrade, recover, retire_ready, retire_degraded)

-- The device after a move.
abbrev pub moved : Device → DeviceStatus → Time → Device
moved d status now = record d { status = status; version = inc64 d.version; updated_at = now }

-- A request that succeeds either names the present status and changes nothing, or moves the device
-- along an edge of the diagram, with the new status, the next version and the time of the request.
pub transition-Edge :
    (d : Device) (status : DeviceStatus) (now : Time) {d' : Device}
    → transition d status now ≡ ok d'
    → ((status ≡ d.status) × (d' ≡ d)) ⊎ (Edge d.status status × (d' ≡ moved d status now))
unfolding transition
transition-Edge d status now h = grind (arith, edges, same_status_iff status d.status)

transition_along :
    {from to : DeviceStatus}
    → Edge from to
    → (d : Device) (now : Time) → d.status ≡ from
    → transition d to now ≡ ok (moved d to now)
unfolding transition
transition_along commission d now e = ground arith
transition_along abandon d now e = ground arith
transition_along degrade d now e = ground arith
transition_along recover d now e = ground arith
transition_along retire_ready d now e = ground arith
transition_along retire_degraded d now e = ground arith

-- Every edge of the diagram is accepted, and moves the device along it.
pub transition_of_Edge :
    (d : Device) {status : DeviceStatus} (now : Time)
    → Edge d.status status
    → transition d status now ≡ ok (moved d status now)
transition_of_Edge d now e = transition_along e d now refl

-- Paths of the diagram.
pub data Reach : DeviceStatus → DeviceStatus → Type 0 where
  here : {s : DeviceStatus} → Reach s s
  step : {s t u : DeviceStatus} → Edge s t → Reach t u → Reach s u

-- The device after a list of requests, where a refused one changes nothing.
abbrev pub after : Result Device → Device → Device
after (ok d') d = d'
after (err e) d = d

unfoldable pub history : Device → List (DeviceStatus × Time) → Device
history d [] = d
history d ((status, now) ∷ rest) = history (after (transition d status now) d) rest

after-Reach :
    (d : Device) (status : DeviceStatus) (now : Time) (r : Result Device)
    → transition d status now ≡ r
    → Reach d.status (after r d).status
after-Reach d status now (err e) h = here
after-Reach d status now (ok d') h = elim (transition-Edge d status now h) [
  | inl (_, q) ↦ rw q here
  | inr (edge, q) ↦ rw q (step edge here)
]

Reach-trans : {s t u : DeviceStatus} → Reach s t → Reach t u → Reach s u
Reach-trans here r = r
Reach-trans (step e q) r = step e (Reach-trans q r)

-- Whatever is requested, and however often, the status walks along the diagram.
history-Reach :
    (d : Device) (requests : List (DeviceStatus × Time))
    → Reach d.status (history d requests).status
unfolding history
history-Reach d [] = here
history-Reach d ((status, now) ∷ rest) =
    Reach-trans (after-Reach d status now (transition d status now) refl)
      (history-Reach (after (transition d status now) d) rest)

Reach-retired : {s t : DeviceStatus} → Reach s t → s ≡ retired → t ≡ retired
Reach-retired here h = h
Reach-retired (step commission r) h = cc
Reach-retired (step abandon r) h = cc
Reach-retired (step degrade r) h = cc
Reach-retired (step recover r) h = cc
Reach-retired (step retire_ready r) h = cc
Reach-retired (step retire_degraded r) h = cc

Reach-not_pending : {s t : DeviceStatus} → Reach s t → s ≢ pending → t ≢ pending
Reach-not_pending here h = h
Reach-not_pending (step commission r) h = Reach-not_pending r (λ e. cc)
Reach-not_pending (step abandon r) h = Reach-not_pending r (λ e. cc)
Reach-not_pending (step degrade r) h = Reach-not_pending r (λ e. cc)
Reach-not_pending (step recover r) h = Reach-not_pending r (λ e. cc)
Reach-not_pending (step retire_ready r) h = Reach-not_pending r (λ e. cc)
Reach-not_pending (step retire_degraded r) h = Reach-not_pending r (λ e. cc)

-- After any list of requests, a device that was retired is still retired and receives no telemetry.
pub history_retired :
    (d : Device) (requests : List (DeviceStatus × Time))
    → d.status ≡ retired
    → ((history d requests).status ≡ retired) × (can_receive_telemetry (history d requests) ≡ false)
unfolding can_receive_telemetry
history_retired d requests h = ground (arith, Reach-retired (history-Reach d requests) h)

-- After any list of requests, a device that was not pending is not pending.
pub history_commissioned :
    (d : Device) (requests : List (DeviceStatus × Time))
    → d.status ≢ pending
    → (history d requests).status ≢ pending
history_commissioned d requests = Reach-not_pending (history-Reach d requests)
