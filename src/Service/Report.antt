-- ===== src/Service/Report.antt =====
-- internal/service/report.go; `F` is `float64`.
pub mod Timelines
pub mod Signals
use orbit_telemetry_orchestr.Prelude.{
  ℕ, ◌+◌, String, Bool, true, false, ◌&&◌, Option, none, some, List, [], ◌∷◌, ◌++◌, map, ◌==◌, ◌!=◌,
  string_eq, if◌then◌else◌, ltb, ℤ, pos, Time, before, Float, length, keep, lookup, insert, Dict,
  sort_slice, ok,
}
use orbit_telemetry_orchestr.Prelude.Exec.{Exec, ◌>>=◌, ◌>>◌, return}
use orbit_telemetry_orchestr.Domain.Device.{Device, degraded, device_status_eq}
use orbit_telemetry_orchestr.Domain.Incident.{Incident, closed, resolved, incident_status_eq}
use orbit_telemetry_orchestr.Domain.Anomaly.{Anomaly}
use orbit_telemetry_orchestr.Domain.Action.{ResponseAction, succeeded, action_status_eq}
use orbit_telemetry_orchestr.Domain.Evidence.{Evidence}
use orbit_telemetry_orchestr.Store.{Memory}
use orbit_telemetry_orchestr.Store.Devices.{list_devices}
use orbit_telemetry_orchestr.Store.Incidents.{list_incidents, list_anomalies}
use orbit_telemetry_orchestr.Store.Actions.{list_actions, Counts, counts}
use orbit_telemetry_orchestr.Service.{App, Context, now, ensure_context, query}
use orbit_telemetry_orchestr.Service.Actions.{actions_listed}
use orbit_telemetry_orchestr.Service.Incidents.{get_incident_by_id}
use orbit_telemetry_orchestr.Service.Evidence.{evidence_listed, count_or_zero}

pub record SignalSummary : Type 0 where
  pub signal : String
  pub anomalies : ℕ

pub record OperationsReport (F : Type 0) : Type 0 where
  pub generated_at : Time
  pub totals : Counts
  pub open_incidents : ℕ
  pub critical_devices : List Device
  pub top_signals : List SignalSummary
  pub action_success_rate : F

-- `incident.Status != domain.IncidentClosed && incident.Status != domain.IncidentResolved`
abbrev pub is_unsettled : Incident → Bool
is_unsettled i = i.status != closed && i.status != resolved

abbrev pub is_degraded : Device → Bool
is_degraded d = d.status == degraded

abbrev pub has_succeeded : ResponseAction → Bool
has_succeeded a = a.status == succeeded

-- `signalCounts[anomaly.Signal]++`
unfoldable pub signal_counts : {F : Type 0} → Dict ℕ → List (Anomaly F) → Dict ℕ
signal_counts counted [] = counted
signal_counts counted (a ∷ rest) =
    signal_counts (insert a.signal (count_or_zero (lookup a.signal counted) + 1) counted) rest

-- More anomalies first.
abbrev pub summary_less : SignalSummary → SignalSummary → Bool
summary_less a b = ltb b.anomalies a.anomalies

abbrev pub summaries : Dict ℕ → List SignalSummary
summaries [] = []
summaries ((s, n) ∷ rest) = record { signal = s; anomalies = n } ∷ summaries rest

-- `float64(successful) / float64(len(actions))`, and 0 for no actions.
unfoldable pub success_rate : {F : Type 0} → ⦃fl : Float F⦄ → List ResponseAction → F
success_rate ⦃fl⦄ [] = fl.of_ℕ 0
success_rate ⦃fl⦄ (a ∷ rest) =
    fl.divf (fl.of_ℕ (length (keep has_succeeded (a ∷ rest)))) (fl.of_ℕ (length (a ∷ rest)))

module _ {F : Type 0} ⦃fl : Float F⦄ where
  unfoldable pub report_of : Memory F → Time → OperationsReport F
  unfolding signal_counts success_rate
  report_of m t = record {
    generated_at = t;
    totals = counts m t;
    open_incidents = length (keep is_unsettled (list_incidents m "" none (pos 0)));
    critical_devices = keep is_degraded (list_devices m none (pos 0));
    top_signals =
        sort_slice summary_less (summaries (signal_counts [] (list_anomalies m "" none (pos 0))));
    action_success_rate = success_rate (list_actions m "" none (pos 0));
  }

  unfoldable pub report : Context → Exec (App F) (OperationsReport F)
  unfolding report_of
  report ctx = do ensure_context ctx; t ← now; query (λ m. ok (report_of m t))

-- An entry of the timeline, with its kind.
pub data Moment : Type 0 where
  evidence : Evidence → Moment
  action : ResponseAction → Moment

abbrev pub at : Moment → Time
at (evidence e) = e.created_at
at (action a) = a.created_at

-- The earlier first.
abbrev pub moment_less : Moment → Moment → Bool
moment_less a b = before (at a) (at b)

module _ {F : Type 0} where
  unfoldable pub timeline : Context → String → Exec (App F) (List Moment)
  unfolding get_incident_by_id evidence_listed actions_listed
  timeline ctx incident_id = do
    get_incident_by_id ctx incident_id
    items ← evidence_listed ctx incident_id (pos 0)
    actions ← actions_listed ctx incident_id none (pos 0)
    return (sort_slice moment_less (map evidence items ++ map action actions))
