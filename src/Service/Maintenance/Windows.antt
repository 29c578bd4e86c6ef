-- ===== src/Service/Maintenance/Windows.antt =====
-- When a device is in maintenance, by the windows that were added.
use orbit_telemetry_orchestr.Prelude.{
  String, ◌≡◌, refl, ◌∙◌, Bool, ◌&&◌, ◌||◌, not, List, [], ◌∷◌, ◌++◌, inl, inr, Bool-cases, arith,
  eq_iff, ◌==◌, string_eq, if◌then◌else◌, lookup, lookup-insert, Time, is_zero, before, ok, err,
}
use orbit_telemetry_orchestr.Prelude.Errors.{invalid_maintenance}
use orbit_telemetry_orchestr.Service.Maintenance.{
  MaintenanceWindow, Maintenances, windows_or_nil, add_window, any_open, in_maintenance,
}

-- The window covers the time: its start does, its end does not.
abbrev pub covers : MaintenanceWindow → Time → Bool
covers w t = not (before t w.started_at) && before t w.ended_at

any_open-append :
    (ws : List MaintenanceWindow) (w : MaintenanceWindow) (t : Time)
    → any_open (ws ++ w ∷ []) t ≡ (any_open ws t || covers w t)
unfolding any_open
any_open-append [] w t = ground arith
any_open-append (v ∷ ws) w t = ground (arith, any_open-append ws w t)

-- What `Add` demands: a device, a start other than the zero Time, and an end after it.
abbrev pub is_valid : MaintenanceWindow → Bool
is_valid w = not (w.device_id == "" || is_zero w.started_at || not (before w.started_at w.ended_at))

-- A window is added exactly if it names a device, has a start other than the zero Time, and ends after
-- it. From then on a device is in maintenance when it was before, and when the window is valid, is its
-- own and covers the time; a window that is refused changes nothing of this.
pub add_window_lem :
    (m : Maintenances) (w : MaintenanceWindow) (id : String) (t : Time)
    → ((add_window m w).0 ≡ (if is_valid w then ok tt else err invalid_maintenance))
      × (in_maintenance (add_window m w).1 id t
          ≡ (in_maintenance m id t || (is_valid w && w.device_id == id && covers w t)))
unfolding add_window in_maintenance
add_window_lem m w id t =
    let bad = w.device_id == "" || is_zero w.started_at || not (before w.started_at w.ended_at) in
    let old = windows_or_nil (lookup w.device_id m) in
    elim (Bool-cases bad) [
      | inl is ↦ rw is (refl, ground arith)
      | inr isnt ↦ rw isnt (
        refl,
        elim (Bool-cases (w.device_id == id)) [
          | inl own ↦
              let same : w.device_id ≡ id = (eq_iff w.device_id id).0 own in
              rw (lookup-insert w.device_id id (old ++ w ∷ []) m, own)
                (any_open-append old w t ∙ rw same refl)
          | inr foreign ↦
              rw (lookup-insert w.device_id id (old ++ w ∷ []) m, foreign) (ground arith)
        ],
      )
    ]
