-- ===== src/Service/Telemetry/Touching.antt =====
-- The loop that touches the streams of a batch.
use orbit_telemetry_orchestr.Prelude.{
  String, ◌≡◌, refl, ◌∙◌, inl, inr, Bool-cases, List, [], ◌∷◌, ok, Result-cases, Time, Float, ℤ,
}
use orbit_telemetry_orchestr.Prelude.Exec.{Exec, ◌>>=◌}
use orbit_telemetry_orchestr.Domain.Device.{Device, retired, device_status_eq}
use orbit_telemetry_orchestr.Domain.Stream.{TelemetryStream}
use orbit_telemetry_orchestr.Prelude.{◌==◌}
use orbit_telemetry_orchestr.Store.Devices.Versions.{update_device_lem}
use orbit_telemetry_orchestr.Store.{Memory}
use orbit_telemetry_orchestr.Store.Devices.{get_device, update_device}
use orbit_telemetry_orchestr.Service.{
  App, Context, nil, live, done, ensure_context, now, submit_job,
}
use orbit_telemetry_orchestr.Service.Devices.{touch_device}
use orbit_telemetry_orchestr.Service.Telemetry.{touch_streams}

module _ {F : Type 0} where
  -- The loop over the streams never fails.
  touch_streams-ok :
      ⦃fl : Float F⦄ (ctx : Context) (t : Time) (streams : List TelemetryStream) (a : App F)
      → (touch_streams ctx t streams a).0 ≡ ok tt
  unfolding touch_streams submit_job
  touch_streams-ok ctx t [] a = refl
  touch_streams-ok ctx t (s ∷ rest) a = touch_streams-ok ctx t rest _

  samples-update_device :
      (d : Device) (expected : ℤ) (m : Memory F)
      → (update_device d expected m).1.samples ≡ m.samples
  samples-update_device d expected m = elim (update_device_lem d expected m) [
    | inl (c, got, fresh, e) ↦ rw e refl
    | inr (inl (c, got, stale, e)) ↦ rw e refl
    | inr (inr (got, e)) ↦ rw e refl
  ]

  samples-touch_device :
      (ctx : Context) (id : String) (t : Time) (a : App F)
      → (touch_device ctx id t a).1.repository.samples ≡ a.repository.samples
  unfolding touch_device ensure_context now
  samples-touch_device nil id t a = refl
  samples-touch_device done id t a = refl
  samples-touch_device live id t a = elim (Result-cases (get_device a.repository id)) [
    | inr (e, got) ↦ rw got refl
    | inl (d, got) ↦ elim (Bool-cases (d.status == retired)) [
      | inl gone ↦ rw (got, gone) refl
      | inr here ↦ rw (got, here) (samples-update_device _ _ a.repository)
    ]
  ]

  pub samples-touch_streams :
      ⦃fl : Float F⦄ (ctx : Context) (t : Time) (streams : List TelemetryStream) (a : App F)
      → (touch_streams ctx t streams a).1.repository.samples ≡ a.repository.samples
  unfolding touch_streams submit_job
  samples-touch_streams ctx t [] a = refl
  samples-touch_streams ctx t (s ∷ rest) a =
      samples-touch_streams ctx t rest _ ∙ samples-touch_device ctx s.device_id t a

module _ {F : Type 0} ⦃fl : Float F⦄ where
  pub touch_streams_then :
      {A : Type 0} (ctx : Context) (t : Time) (streams : List TelemetryStream)
      (next : Exec (App F) A) (a : App F)
      → (touch_streams ctx t streams >>= λ u. next) a ≡ next (touch_streams ctx t streams a).1
  touch_streams_then ctx t streams next a = rw (touch_streams-ok ctx t streams a) refl
