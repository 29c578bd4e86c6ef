-- ===== src/Service/Soundness.antt =====
-- The steps that the methods of the service share, against the invariant of the repository.
pub mod Devices
pub mod Policies
pub mod Actions
pub mod Incidents
pub mod Telemetry
use orbit_telemetry_orchestr.Prelude.{
  ℕ, String, ◌≡◌, refl, sym, ◌∙◌, ap, subst, Bool, true, false, List, [], ◌∷◌, ◌++◌, Float, Option,
  none, some, Result, ok, err, Time, arith, All, values, lookup, Dict, inl, inr, ℤ, pos, ◌<ℤ◌,
  Bool-cases,
}
use orbit_telemetry_orchestr.Prelude.Exec.{Exec, ◌>>=◌, ◌>>◌, return, lift, catch, ignore}
use orbit_telemetry_orchestr.Prelude.Maps.{or_not_found-ok, All-of_lookup}
use orbit_telemetry_orchestr.Domain.Policy.{CollectionPolicy}
use orbit_telemetry_orchestr.Domain.Policy.Rules.{IsSound}
use orbit_telemetry_orchestr.Domain.Incident.{Incident}
use orbit_telemetry_orchestr.Domain.Incident.Invariant
use orbit_telemetry_orchestr.Store.{Memory}
use orbit_telemetry_orchestr.Store.Policies.{get_policy, put_policy, update_policy}
use orbit_telemetry_orchestr.Store.Incidents.{
  get_incident, put_incident, update_incident, put_anomaly, update_anomaly,
}
use orbit_telemetry_orchestr.Store.Devices.{put_device, update_device, put_stream, update_stream}
use orbit_telemetry_orchestr.Store.Actions.{put_evidence}
use orbit_telemetry_orchestr.Store.Sound.Methods.{
  put_device-Sound, update_device-Sound, put_stream-Sound, update_stream-Sound, put_policy-Sound,
  update_policy-Sound, put_incident-Sound, update_incident-Sound, put_anomaly-Sound,
  update_anomaly-Sound, put_evidence-Sound,
}
use orbit_telemetry_orchestr.Domain.Device.{Device}
use orbit_telemetry_orchestr.Domain.Stream.{TelemetryStream}
use orbit_telemetry_orchestr.Domain.Anomaly.{Anomaly}
use orbit_telemetry_orchestr.Domain.Evidence.{Evidence}
use orbit_telemetry_orchestr.Store.Sound.{Sound}
use orbit_telemetry_orchestr.Service.{App, query, update}
use orbit_telemetry_orchestr.Service.Contracts.{
  Meets, Anything, Stored, then-Meets, bind-Meets, lift-Meets, if-Meets, ignore-Meets,
  any_return-Meets, any_lift-Meets, any_reads-Meets, ensure_context-Meets, now-Meets, emit-Meets,
  record_audit-Meets, submit_job-Meets, inc_metric-Meets, add_metric-Meets, next_id-Meets,
  query-Meets, update-Meets,
}

module _ {F : Type 0} ⦃fl : Float F⦄ where
  -- The method leaves a sound repository sound, whether it succeeds or not.
  abbrev pub Keeps : {A : Type 0} → Exec (App F) A → Type 0
  Keeps m = Meets (Stored Sound) Anything m

  -- It also returns only values with `Q`.
  abbrev pub Gives : {A : Type 0} → (A → Type 0) → Exec (App F) A → Type 0
  Gives Q m = Meets (Stored Sound) Q m

  pub any_query-Meets : {A : Type 0} (f : Memory F → Result A) → Keeps (query f)
  any_query-Meets f = query-Meets Sound f (λ m s x e. tt)

  -- What the code knows of an entry that it reads from a sound repository.
  pub get_incident-Inv : (id : String) → Gives Invariant.Inv (query (λ m. get_incident m id))
  unfolding get_incident
  get_incident-Inv id =
      query-Meets Sound (λ m. get_incident m id)
        (λ m s i e. (s.incidents_sound id i (or_not_found-ok _ e)).1)

  pub get_policy-IsSound :
      (id : String) → Gives (λ p. All IsSound p.rules) (query (λ m. get_policy m id))
  unfolding get_policy
  get_policy-IsSound id =
      query-Meets Sound (λ m. get_policy m id)
        (λ m s p e. (s.policies_sound id p (or_not_found-ok _ e)).1)

  pub get_incident_then-Keeps :
      {B : Type 0} (id : String) (f : Incident → Exec (App F) B)
      → ((i : Incident) → Invariant.Inv i → Keeps (f i))
      → Keeps (query (λ m. get_incident m id) >>= f)
  get_incident_then-Keeps id f h = bind-Meets Invariant.Inv _ f (get_incident-Inv id) h

  pub get_policy_then-Keeps :
      {B : Type 0} (id : String) (f : CollectionPolicy F → Exec (App F) B)
      → ((p : CollectionPolicy F) → All IsSound p.rules → Keeps (f p))
      → Keeps (query (λ m. get_policy m id) >>= f)
  get_policy_then-Keeps id f h = bind-Meets (λ p. All IsSound p.rules) _ f (get_policy-IsSound id) h

  -- The same of a value that the code computes.
  pub lift_then-Keeps :
      {A B : Type 0} (Q : A → Type 0) (r : Result A) (f : A → Exec (App F) B)
      → ((x : A) → r ≡ ok x → Q x)
      → ((x : A) → Q x → Keeps (f x))
      → Keeps (lift r >>= f)
  lift_then-Keeps Q r f q h = bind-Meets Q _ f (lift-Meets r q) h

  pub put_device-Keeps : (d : Device) → Keeps (update (put_device {F = F} d))
  put_device-Keeps d = update-Meets Sound (put_device d) (put_device-Sound d)

  pub update_device-Keeps :
      (d : Device) (expected : ℤ) → Keeps (update (update_device {F = F} d expected))
  update_device-Keeps d expected =
      update-Meets Sound (update_device d expected) (update_device-Sound d expected)

  pub put_stream-Keeps : (t : TelemetryStream) → Keeps (update (put_stream {F = F} t))
  put_stream-Keeps t = update-Meets Sound (put_stream t) (put_stream-Sound t)

  pub update_stream-Keeps :
      (t : TelemetryStream) (expected : ℤ) → Keeps (update (update_stream {F = F} t expected))
  update_stream-Keeps t expected =
      update-Meets Sound (update_stream t expected) (update_stream-Sound t expected)

  pub put_policy-Keeps :
      (p : CollectionPolicy F) → All IsSound p.rules → Keeps (update (put_policy p))
  put_policy-Keeps p h = update-Meets Sound (put_policy p) (λ m. put_policy-Sound p m h)

  pub update_policy-Keeps :
      (p : CollectionPolicy F) (expected : ℤ)
      → All IsSound p.rules
      → Keeps (update (update_policy p expected))
  update_policy-Keeps p expected h =
      update-Meets Sound (update_policy p expected) (λ m. update_policy-Sound p expected m h)

  pub put_incident-Keeps : (i : Incident) → Invariant.Inv i → Keeps (update (put_incident i))
  put_incident-Keeps i h = update-Meets Sound (put_incident i) (λ m. put_incident-Sound i m h)

  pub update_incident-Keeps : (i : Incident) → Invariant.Inv i → Keeps (update (update_incident i))
  update_incident-Keeps i h =
      update-Meets Sound (update_incident i) (λ m. update_incident-Sound i m h)

  pub put_anomaly-Keeps :
      (x : Anomaly F) → Invariant.IsSeverity x.severity → Keeps (update (put_anomaly x))
  put_anomaly-Keeps x h = update-Meets Sound (put_anomaly x) (λ m. put_anomaly-Sound x m h)

  pub update_anomaly-Keeps :
      (x : Anomaly F) → Invariant.IsSeverity x.severity → Keeps (update (update_anomaly x))
  update_anomaly-Keeps x h = update-Meets Sound (update_anomaly x) (λ m. update_anomaly-Sound x m h)

  pub put_evidence-Keeps : (e : Evidence) → Keeps (update (put_evidence {F = F} e))
  put_evidence-Keeps e = update-Meets Sound (put_evidence e) (put_evidence-Sound e)

-- How the service's methods are built, and the calls that leave the repository alone.
pub ruleset keeping_rules = (
  then-Meets, if-Meets, ignore-Meets, any_return-Meets, any_query-Meets, any_lift-Meets,
  any_reads-Meets, ensure_context-Meets, now-Meets, emit-Meets, record_audit-Meets,
  submit_job-Meets, inc_metric-Meets, add_metric-Meets, next_id-Meets,
)
