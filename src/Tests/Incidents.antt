-- ===== src/Tests/Incidents.antt =====
-- Runs of the incident of the test data.
use orbit_telemetry_orchestr.Prelude.{◌≡◌, refl, ◌⊎◌, [], ◌∷◌, arith, pos}
use orbit_telemetry_orchestr.Domain.Incident.{resolved, closed, investigating, transition}
use orbit_telemetry_orchestr.Domain.Incident.Lifecycle.{Move, moved, transition-Move}
use orbit_telemetry_orchestr.Domain.Incident.Invariant.{Inv, anomaly, move, evidence}
use orbit_telemetry_orchestr.Domain.Incident.History.{
  history, history-Inv, closed_final, Extends, history-Extends,
}
use orbit_telemetry_orchestr.Tests.{resolved_incident}

resolved-Inv : Inv resolved_incident
resolved-Inv = record {
  severe = (refl, refl);
  known = refl;
  anomalous = omega arith;
  anomalies_distinct = ground arith;
  actions_distinct = tt;
  evidence_distinct = ground arith;
  resolved_stamped = λ e. ground arith;
  closed_stamped = λ e. ground arith;
  stamp_closed = λ h. absurd (h refl);
}

transition-Move_example :
    ((closed ≡ resolved) × (moved resolved_incident closed 5 ≡ resolved_incident))
    ⊎ (Move resolved closed × (moved resolved_incident closed 5 ≡ moved resolved_incident closed 5))
unfolding transition
transition-Move_example = transition-Move resolved_incident closed 5 refl

history-Inv_example : Inv (history resolved_incident (anomaly "a2" (pos 5) 6 ∷ move closed 7 ∷ []))
history-Inv_example =
    history-Inv resolved_incident (anomaly "a2" (pos 5) 6 ∷ move closed 7 ∷ [])
      ((refl, refl), (tt, tt)) resolved-Inv

closed_final_example :
    history
      (record resolved_incident { status = closed })
      (anomaly "a2" (pos 5) 6 ∷ evidence "e2" 7 ∷ [])
    ≡ record resolved_incident { status = closed }
closed_final_example =
    closed_final (record resolved_incident { status = closed })
      (anomaly "a2" (pos 5) 6 ∷ evidence "e2" 7 ∷ []) refl

history-Extends_example :
    Extends resolved_incident
      (history resolved_incident (move investigating 6 ∷ anomaly "a2" (pos 5) 7 ∷ []))
history-Extends_example =
    history-Extends resolved_incident (move investigating 6 ∷ anomaly "a2" (pos 5) 7 ∷ [])
