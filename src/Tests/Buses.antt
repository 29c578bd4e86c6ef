-- ===== src/Tests/Buses.antt =====
-- An open bus with no subscription.
use orbit_telemetry_orchestr.Prelude.{◌≡◌, refl, true, false, []}
use orbit_telemetry_orchestr.Events.{Bus, panics, subscribe, close_at, close_bus}
use orbit_telemetry_orchestr.Events.Closing.{close_at-close_bus}

abbrev quiet : Bus
quiet = record { buffer = 4; drop_when_full = true; next_id = 0; subs = []; closed = false }

close_at-close_bus_example : close_at (close_bus (subscribe quiet "alarms")) 0 ≡ panics
close_at-close_bus_example = close_at-close_bus quiet "alarms" refl
