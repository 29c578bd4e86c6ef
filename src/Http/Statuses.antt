-- ===== src/Http/Statuses.antt =====
-- The conversions of a query's text to a status, as `domain.DeviceStatus(text)`; an empty text is no
-- filter.
use orbit_telemetry_orchestr.Prelude.{String, Option, none, some, ◌==◌, string_eq, if◌then◌else◌}
use orbit_telemetry_orchestr.Domain.Device.{DeviceStatus}
use orbit_telemetry_orchestr.Domain.Policy.{PolicyStatus}
use orbit_telemetry_orchestr.Domain.Anomaly.{AnomalyStatus}
use orbit_telemetry_orchestr.Domain.Incident.{IncidentStatus}
use orbit_telemetry_orchestr.Domain.Action.{ActionStatus}

unfoldable pub device_status_of : String → DeviceStatus
device_status_of s =
    if s == "pending"
    then DeviceStatus.pending
    else if s == "ready"
    then DeviceStatus.ready
    else if s == "degraded"
    then DeviceStatus.degraded
    else if s == "retired"
    then DeviceStatus.retired
    else DeviceStatus.other s

unfoldable pub policy_status_of : String → PolicyStatus
policy_status_of s =
    if s == "draft"
    then PolicyStatus.draft
    else if s == "published"
    then PolicyStatus.published
    else if s == "locked"
    then PolicyStatus.locked
    else if s == "retired"
    then PolicyStatus.retired
    else PolicyStatus.other s

unfoldable pub anomaly_status_of : String → AnomalyStatus
anomaly_status_of s =
    if s == "open"
    then AnomalyStatus.open_
    else if s == "acknowledged"
    then AnomalyStatus.acknowledged
    else if s == "resolved"
    then AnomalyStatus.resolved
    else AnomalyStatus.other s

unfoldable pub incident_status_of : String → IncidentStatus
incident_status_of s =
    if s == "open"
    then IncidentStatus.open_
    else if s == "investigating"
    then IncidentStatus.investigating
    else if s == "contained"
    then IncidentStatus.contained
    else if s == "resolved"
    then IncidentStatus.resolved
    else if s == "closed"
    then IncidentStatus.closed
    else IncidentStatus.other s

unfoldable pub action_status_of : String → ActionStatus
action_status_of s =
    if s == "queued"
    then ActionStatus.queued
    else if s == "running"
    then ActionStatus.running
    else if s == "succeeded"
    then ActionStatus.succeeded
    else if s == "failed"
    then ActionStatus.failed
    else if s == "skipped"
    then ActionStatus.skipped
    else ActionStatus.other s

-- The filter of a query's text.
abbrev pub filter_of : {A : Type 0} → (String → A) → String → Option A
filter_of f s = if s == "" then none else some (f s)
