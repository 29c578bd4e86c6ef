-- ===== src/Domain/Anomaly.antt =====
-- internal/domain/anomaly.go; `F` is `float64`.
use orbit_telemetry_orchestr.Prelude.{
  ℕ, String, ◌≡◌, Bool, true, false, ◌↔◌, arith, eq_iff, Eq, ◌==◌, ◌!=◌, string_eq, if◌then◌else◌,
  ℤ, Time, Result, ok,
}
use orbit_telemetry_orchestr.Prelude.Errors.{◌>>◌, refuse_if, only_open_anomalies}
use orbit_telemetry_orchestr.Domain.Telemetry.{Window}

-- `other s` is a text that is none of the three constants.
pub data AnomalyStatus : Type 0 where
  open_ acknowledged resolved : AnomalyStatus
  other : String → AnomalyStatus

abbrev pub same_status : AnomalyStatus → AnomalyStatus → Bool
same_status open_ open_ = true
same_status acknowledged acknowledged = true
same_status resolved resolved = true
same_status (other s) (other t) = s == t
same_status _ _ = false

pub same_status_iff : (a b : AnomalyStatus) → (same_status a b ≡ true) ↔ (a ≡ b)
same_status_iff (other s) (other t) = ground (arith, eq_iff s t)
same_status_iff open_ b = ground arith
same_status_iff acknowledged b = ground arith
same_status_iff resolved b = ground arith
same_status_iff (other s) b = ground arith

instance abbrev pub anomaly_status_eq : Eq AnomalyStatus
anomaly_status_eq = record { beq = same_status; beq_iff = same_status_iff }

pub record Anomaly (F : Type 0) : Type 0 where
  pub id : String
  pub device_id : String
  pub stream_id : String
  pub signal : String
  pub policy_id : String
  pub rule_index : ℕ
  pub severity : ℤ
  pub observed : F
  pub threshold : String
  pub window : Window F
  pub status : AnomalyStatus
  pub incident_id : String
  pub created_at : Time
  pub updated_at : Time

module _ {F : Type 0} where
  unfoldable pub acknowledge : Anomaly F → Time → Result (Anomaly F)
  acknowledge a now = do
    refuse_if (a.status != open_) only_open_anomalies
    ok (record a { status = acknowledged; updated_at = now })

  unfoldable pub resolve : Anomaly F → Time → Result (Anomaly F)
  resolve a now =
      if a.status == resolved then ok a else ok (record a { status = resolved; updated_at = now })
