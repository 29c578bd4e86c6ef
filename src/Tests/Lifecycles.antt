-- ===== src/Tests/Lifecycles.antt =====
-- Runs of devices, incidents and actions.
use orbit_telemetry_orchestr.Prelude.{
  ◌≡◌, refl, ◌⊎◌, false, [], ◌∷◌, String, contains, Distinct, ◌==◌, string_eq, if◌then◌else◌,
}
use orbit_telemetry_orchestr.Domain.Device
use orbit_telemetry_orchestr.Domain.Device.{
  DeviceStatus, ready, pending, degraded, retired, pending, can_receive_telemetry, normalize_labels,
}
use orbit_telemetry_orchestr.Domain.Device.Lifecycle
use orbit_telemetry_orchestr.Domain.Device.Lifecycle.{
  Edge, moved, transition-Edge, history_retired, history_commissioned,
}
use orbit_telemetry_orchestr.Domain.Device.Labels.{normalize_labels_lem, given}
use orbit_telemetry_orchestr.Tests.{probe}

transition-Edge_example :
    ((degraded ≡ ready) × (moved probe degraded 7 ≡ probe))
    ⊎ (Edge ready degraded × (moved probe degraded 7 ≡ moved probe degraded 7))
unfolding Device.transition
transition-Edge_example = transition-Edge probe degraded 7 refl

abbrev scrapped : Device.Device
scrapped = record probe { status = retired }

history_retired_example :
    let d = Lifecycle.history scrapped ((ready, 5) ∷ (degraded, 6) ∷ []) in
    (d.status ≡ retired) × (can_receive_telemetry d ≡ false)
history_retired_example = history_retired scrapped ((ready, 5) ∷ (degraded, 6) ∷ []) refl

normalize_labels_lem_example :
    Distinct (normalize_labels (λ s. s) ("b" ∷ "" ∷ "b" ∷ []))
    × ((label : String)
        → contains label (normalize_labels (λ s. s) ("b" ∷ "" ∷ "b" ∷ []))
          ≡ (if label == "" then false else given (λ s. s) label ("b" ∷ "" ∷ "b" ∷ [])))
normalize_labels_lem_example = normalize_labels_lem (λ s. s) ("b" ∷ "" ∷ "b" ∷ [])
