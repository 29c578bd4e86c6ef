-- ===== src/Service/Report/Timelines.antt =====
-- `Timeline` of report.go: the evidence and the actions of an incident, in the order of their times.
use orbit_telemetry_orchestr.Prelude.{
  ◌+◌, ◌≤◌, String, ◌≡◌, false, Time, Pairs, Sorted-Pairs, ◌∙◌, Bool, List, ◌++◌, map, none, inl,
  inr, arith, pos, ok, Result-cases, sort_slice, StrictOrder, sort_slice-Sorted, tally,
  tally-append, tally-sort_slice,
}
use orbit_telemetry_orchestr.Store.{Memory}
use orbit_telemetry_orchestr.Store.Incidents.{get_incident}
use orbit_telemetry_orchestr.Store.Actions.{list_evidence, list_actions}
use orbit_telemetry_orchestr.Service.{App, live, ensure_context}
use orbit_telemetry_orchestr.Service.Actions.{actions_listed}
use orbit_telemetry_orchestr.Service.Incidents.{get_incident_by_id}
use orbit_telemetry_orchestr.Service.Evidence.{evidence_listed}
use orbit_telemetry_orchestr.Service.Report.{Moment, evidence, action, moment_less, timeline}

-- When a moment lies: the creation of the evidence or of the action.
abbrev pub lies_at : Moment → Time
lies_at (evidence e) = e.created_at
lies_at (action a) = a.created_at

-- No moment lies before one that stands ahead of it.
abbrev pub IsChronicle : List Moment → Type 0
IsChronicle = Pairs (λ x y. lies_at x ≤ lies_at y)

lies_at_le : (x y : Moment) → moment_less y x ≡ false → lies_at x ≤ lies_at y
lies_at_le (evidence e) (evidence f) h = ground arith
lies_at_le (evidence e) (action b) h = ground arith
lies_at_le (action a) (evidence f) h = ground arith
lies_at_le (action a) (action b) h = ground arith

moment_order : StrictOrder moment_less
moment_order = record { asymm = λ x y h. ground arith; not_trans = λ x y z h k. ground arith }

module _ {F : Type 0} where
  -- The moments of an incident before they are sorted.
  abbrev pub moments : Memory F → String → List Moment
  moments m id =
      map evidence (list_evidence m id (pos 0)) ++ map action (list_actions m id none (pos 0))

  timeline_sorted :
      (id : String) (a : App F) {xs : List Moment}
      → (timeline live id a).0 ≡ ok xs
      → xs ≡ sort_slice moment_less (moments a.repository id)
  unfolding timeline ensure_context get_incident_by_id evidence_listed actions_listed
  timeline_sorted id a h = elim (Result-cases (get_incident a.repository id)) [
    | inl (i, found) ↦ ground arith
    | inr (e, missing) ↦ absurd (ground arith)
  ]

  -- In a timeline that is returned the earlier moments stand first, by the times at which the
  -- evidence and the actions were created; and it holds each item of evidence and each
  -- action that the repository lists for the incident, as often as it is listed, and nothing else:
  -- any test passes on as many of its moments as on those two lists together.
  pub timeline_lem :
      (id : String) (a : App F) (p : Moment → Bool) {xs : List Moment}
      → (timeline live id a).0 ≡ ok xs
      → IsChronicle xs
        × (tally p xs
            ≡ tally p (map evidence (list_evidence a.repository id (pos 0)))
              + tally p (map action (list_actions a.repository id none (pos 0))))
  timeline_lem id a p {xs} h =
      let same = timeline_sorted id a {xs = xs} h in
      rw same (
        Sorted-Pairs _ moment_less lies_at_le _ (sort_slice-Sorted moment_less moment_order _),
        tally-sort_slice p moment_less _ ∙ tally-append p _ _,
      )
