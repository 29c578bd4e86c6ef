-- ===== src/Service/Maintenance.antt =====
-- internal/service/maintenance.go
pub mod Windows
use orbit_telemetry_orchestr.Prelude.{
  String, Bool, true, false, ◌&&◌, ◌||◌, not, if◌then◌else◌, Option, none, some, List, [], ◌∷◌,
  ◌++◌, ◌==◌, string_eq, Dict, lookup, insert, Time, is_zero, before, Result, ok, err,
}
use orbit_telemetry_orchestr.Prelude.Errors.{refuse_if, invalid_maintenance}
use orbit_telemetry_orchestr.Service.{App, Context}

pub record MaintenanceWindow : Type 0 where
  pub id : String
  pub device_id : String
  pub reason : String
  pub started_at : Time
  pub ended_at : Time

-- The field `windows` of the registry.
abbrev pub Maintenances : Type 0
Maintenances = Dict (List MaintenanceWindow)

-- `m.windows[deviceID]`, which is nil for a missing key.
abbrev pub windows_or_nil : Option (List MaintenanceWindow) → List MaintenanceWindow
windows_or_nil none = []
windows_or_nil (some ws) = ws

unfoldable pub add_window : Maintenances → MaintenanceWindow → Result (Unit {0}) × Maintenances
add_window m w =
    if w.device_id == "" || is_zero w.started_at || not (before w.started_at w.ended_at)
    then (err invalid_maintenance, m)
    else (ok tt, insert w.device_id (windows_or_nil (lookup w.device_id m) ++ w ∷ []) m)

unfoldable pub any_open : List MaintenanceWindow → Time → Bool
any_open [] now = false
any_open (w ∷ ws) now = (not (before now w.started_at) && before now w.ended_at) || any_open ws now

unfoldable pub in_maintenance : Maintenances → String → Time → Bool
unfolding any_open
in_maintenance m device_id now = any_open (windows_or_nil (lookup device_id m)) now

-- `Maintenance` of an `App`, which has no registry: every path returns false.
unfoldable pub maintenance : {F : Type 0} → Context → String → App F → Bool
maintenance ctx device_id a = false
