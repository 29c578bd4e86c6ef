-- ===== src/Tests/Reports.antt =====
-- Reports, timelines, maintenance windows and repeated executions over the test data.
use orbit_telemetry_orchestr.Prelude.{
  ◌+◌, ◌≡◌, refl, true, false, Bool, ◌&&◌, ◌||◌, some, none, [], ◌∷◌, pos, if◌then◌else◌, map, ok,
  err, lookup, length, tally, All, ℕ, ◌≤◌, List, String, Time, insert, insert_by, sort_slice,
  values, ◌==◌, string_eq,
}
use orbit_telemetry_orchestr.Prelude.Errors.{invalid_maintenance}
use orbit_telemetry_orchestr.Domain.Action.{ResponseAction, succeeded, is_known_type}
use orbit_telemetry_orchestr.Domain.Evidence.{Evidence, EvidenceKind}
use orbit_telemetry_orchestr.Domain.Anomaly.{Anomaly, AnomalyStatus}
use orbit_telemetry_orchestr.Store.{Memory, cap_list}
use orbit_telemetry_orchestr.Store.Actions.{list_evidence, list_actions}
use orbit_telemetry_orchestr.Store.Incidents.{list_anomalies, get_incident}
use orbit_telemetry_orchestr.Service.{App, live, ensure_context}
use orbit_telemetry_orchestr.Service.Actions.{execute_action, actions_listed}
use orbit_telemetry_orchestr.Service.Actions.Completion.{execute_action_twice}
use orbit_telemetry_orchestr.Service.Incidents.{get_incident_by_id}
use orbit_telemetry_orchestr.Service.Evidence.{evidence_listed}
use orbit_telemetry_orchestr.Service.Report.{
  Moment, evidence, action, timeline, report_of, SignalSummary, signal_counts,
}
use orbit_telemetry_orchestr.Service.Report.Timelines.{IsChronicle, timeline_lem}
use orbit_telemetry_orchestr.Service.Report.Signals.{
  MostFirst, of_signal, sum_anomalies, report_of_signals,
}
use orbit_telemetry_orchestr.Service.Maintenance.{MaintenanceWindow, add_window, in_maintenance}
use orbit_telemetry_orchestr.Service.Maintenance.Windows.{is_valid, covers, add_window_lem}
use orbit_telemetry_orchestr.Tests.{nat_float, orbit, fleet, queued_action, mild_window}

abbrev is_action : Moment → Bool
is_action (evidence e) = false
is_action (action a) = true

-- Evidence that is younger than the action of the test data.
abbrev late_evidence : Evidence
late_evidence = record {
  id = "e1";
  incident_id = "i1";
  kind = EvidenceKind.operator_note;
  title = "note";
  body = "fan replaced";
  source = "ann";
  collected_at = 3;
  created_at = 3;
}

-- The timeline joins the evidence before the action, and the sort puts it behind.
abbrev documented : App ℕ
documented = record orbit { repository = record fleet { evidence = ("e1", late_evidence) ∷ [] } }

abbrev moments_of_i1 : List Moment
moments_of_i1 = action queued_action ∷ evidence late_evidence ∷ []

timeline_lem_example :
    IsChronicle moments_of_i1
    × (tally is_action moments_of_i1
        ≡ tally is_action (map evidence (list_evidence documented.repository "i1" (pos 0)))
          + tally is_action (map action (list_actions documented.repository "i1" none (pos 0))))
unfolding timeline ensure_context get_incident_by_id evidence_listed actions_listed get_incident
    list_evidence list_actions lookup sort_slice cap_list values
timeline_lem_example = timeline_lem "i1" documented is_action {xs = moments_of_i1} refl

-- One anomaly with the signal "cold" and two with "heat".
abbrev anomaly_at : String → String → Time → Anomaly ℕ
anomaly_at id signal t = record {
  id = id;
  device_id = "d1";
  stream_id = "s1";
  signal = signal;
  policy_id = "p1";
  rule_index = 0;
  severity = pos 3;
  observed = 60;
  threshold = "above>50, observed=60";
  window = mild_window;
  status = AnomalyStatus.open_;
  incident_id = "i1";
  created_at = t;
  updated_at = t;
}

abbrev troubled : Memory ℕ
troubled = record fleet {
  anomalies =
      ("a1", anomaly_at "a1" "cold" 7)
      ∷ ("a2", anomaly_at "a2" "heat" 5)
      ∷ ("a3", anomaly_at "a3" "heat" 6)
      ∷ [];
}

report_of_signals_example :
    MostFirst (report_of troubled 9).top_signals
    × (tally (λ (x : SignalSummary). x.signal == "heat") (report_of troubled 9).top_signals ≤ 1)
    × All
        (λ (x : SignalSummary).
          x.anomalies ≡ tally (of_signal x.signal) (list_anomalies troubled "" none (pos 0)))
        (report_of troubled 9).top_signals
    × (sum_anomalies (report_of troubled 9).top_signals
        ≡ length (list_anomalies troubled "" none (pos 0)))
report_of_signals_example = report_of_signals troubled 9 "heat"

-- The signals of that report.
top_signals_of_troubled :
    map {B = String × ℕ}
      (λ (x : SignalSummary). (x.signal, x.anomalies))
      (report_of troubled 9).top_signals
    ≡ ("heat", 2) ∷ ("cold", 1) ∷ []
unfolding report_of signal_counts list_anomalies lookup insert sort_slice insert_by values cap_list
top_signals_of_troubled = refl

abbrev repair : MaintenanceWindow
repair = record { id = "w1"; device_id = "d1"; reason = "repair"; started_at = 3; ended_at = 8 }

add_window_lem_example :
    ((add_window [] repair).0 ≡ (if is_valid repair then ok tt else err invalid_maintenance))
    × (in_maintenance (add_window [] repair).1 "d1" 5 ≡ (
        in_maintenance [] "d1" 5
        || (is_valid repair && repair.device_id == "d1" && covers repair 5)))
add_window_lem_example = add_window_lem [] repair "d1" 5

execute_action_twice_example :
    (y : ResponseAction) × (lookup "r1"
        (execute_action live "r1" (execute_action live "r1" orbit).1).1.repository.actions
      ≡ some y)
    × (y.status ≡ succeeded)
unfolding lookup is_known_type
execute_action_twice_example = execute_action_twice orbit queued_action refl refl refl refl refl
