-- ===== src/Service/Soundness/Telemetry.antt =====
-- The methods of telemetry.go that write, against the invariant of the repository.
use orbit_telemetry_orchestr.Prelude.{
  ℕ, String, ◌≡◌, refl, List, [], ◌∷◌, ◌++◌, Float, Option, none, some, Result, ok, err, Time, All,
  inl, inr, Bool-cases,
}
use orbit_telemetry_orchestr.Prelude.Exec.{Exec, ◌>>=◌, return, catch}
use orbit_telemetry_orchestr.Prelude.{◌+◌, string_eq, ◌!=◌}
use orbit_telemetry_orchestr.Prelude.Errors
use orbit_telemetry_orchestr.Prelude.Errors.{Error}
use orbit_telemetry_orchestr.Prelude.Maps.{All-of_lookup}
use orbit_telemetry_orchestr.Domain.Stream.{TelemetryStream}
use orbit_telemetry_orchestr.Domain.Policy.{CollectionPolicy, Rule}
use orbit_telemetry_orchestr.Domain.Policy.Rules.{IsSound}
use orbit_telemetry_orchestr.Domain.Telemetry.{Window, Sample}
use orbit_telemetry_orchestr.Domain.Anomaly.{Anomaly}
use orbit_telemetry_orchestr.Domain.Incident.{Incident}
use orbit_telemetry_orchestr.Domain.Incident.Invariant.{IsSeverity}
use orbit_telemetry_orchestr.Aggregate.{Detection, triggers, detect, detect_from}
use orbit_telemetry_orchestr.Store.Policies.{active_policy}
use orbit_telemetry_orchestr.Store.Policies.Newest.{active_policy-All}
use orbit_telemetry_orchestr.Store.Incidents.{put_anomaly}
use orbit_telemetry_orchestr.Store.Samples.{add_samples}
use orbit_telemetry_orchestr.Store.Sound.{Sound}
use orbit_telemetry_orchestr.Store.Sound.Methods.{add_samples-Sound}
use orbit_telemetry_orchestr.Service.{App, Context, query, update}
use orbit_telemetry_orchestr.Service.Telemetry.{
  TelemetryInput, ingest_telemetry, touch_streams, evaluate_telemetry, evaluate_policy,
  evaluate_window, raise_all, stored_anomaly, raise_anomaly, tie_incident, anomaly_of,
}
use orbit_telemetry_orchestr.Service.Contracts.{
  bind-Meets, query-Meets, update-Meets, catch-Meets, any_return-Meets, any_lift-Meets,
}
use orbit_telemetry_orchestr.Service.Soundness.{
  Keeps, keeping_rules, put_anomaly-Keeps, update_anomaly-Keeps,
}
use orbit_telemetry_orchestr.Service.Soundness.Devices.{touch_device-Keeps}
use orbit_telemetry_orchestr.Service.Soundness.Incidents.{
  correlate_incident-Keeps, catch_then-Keeps,
}

module _ {F : Type 0} ⦃fl : Float F⦄ where
  touch_streams-Keeps :
      (ctx : Context) (t : Time) (streams : List TelemetryStream)
      → Keeps (touch_streams {F = F} ctx t streams)
  unfolding touch_streams
  touch_streams-Keeps ctx t [] = any_return-Meets _
  touch_streams-Keeps ctx t (s ∷ rest) =
      let later = λ (u : Unit {0}). touch_streams-Keeps ctx t rest in
      search (keeping_rules, touch_device-Keeps, later) depth 30

  add_samples-Keeps : (xs : List (Sample F)) → Keeps (update (λ m. (ok tt, add_samples xs m)))
  add_samples-Keeps xs = update-Meets Sound (λ m. (ok tt, add_samples xs m)) (add_samples-Sound xs)

  pub ingest_telemetry-Keeps :
      (ctx : Context) (actor : String) (batch : List (TelemetryInput F))
      → Keeps (ingest_telemetry ctx actor batch)
  unfolding ingest_telemetry
  ingest_telemetry-Keeps ctx actor batch =
      search (keeping_rules, add_samples-Keeps, touch_streams-Keeps) depth 30

  -- A detection has the severity of a rule.
  detect_from-IsSeverity :
      (index : ℕ) (w : Window F) (rules : List (Rule F))
      → All IsSound rules
      → All (λ (d : Detection). IsSeverity d.severity) (detect_from index w rules)
  unfolding detect_from
  detect_from-IsSeverity index w [] all = tt
  detect_from-IsSeverity index w (r ∷ rules) all =
      let rest = detect_from-IsSeverity (index + 1) w rules all.1 in
      elim (Bool-cases (r.signal != w.signal)) [
        | inl other ↦ rw other rest
        | inr own ↦ elim (Bool-cases (triggers r.comparator r w)) [
          | inl broken ↦ rw (own, broken) (all.0.severe, rest)
          | inr quiet ↦ rw (own, quiet) rest
        ]
      ]

  tie_incident-Keeps :
      (x : Anomaly F) (o : Option Incident) → IsSeverity x.severity → Keeps (tie_incident x o)
  unfolding tie_incident
  tie_incident-Keeps x none s = any_return-Meets _
  tie_incident-Keeps x (some i) s =
      let tied = update_anomaly-Keeps (record x { incident_id = i.id }) s in
      search (keeping_rules, tied) depth 30

  raise_anomaly-Keeps :
      (ctx : Context) (device_id : String) (x : Anomaly F)
      → IsSeverity x.severity
      → Keeps (raise_anomaly ctx device_id x)
  unfolding raise_anomaly
  raise_anomaly-Keeps ctx device_id x s =
      search (keeping_rules, correlate_incident-Keeps, tie_incident-Keeps, s) depth 30

  stored_anomaly-Keeps :
      (ctx : Context) (device_id : String) (x : Anomaly F) (r : Result (Unit {0}))
      → IsSeverity x.severity
      → Keeps (stored_anomaly ctx device_id x r)
  unfolding stored_anomaly
  stored_anomaly-Keeps ctx device_id x (ok u) s =
      let raised = raise_anomaly-Keeps ctx device_id x s in search (keeping_rules, raised) depth 30
  stored_anomaly-Keeps ctx device_id x (err Errors.exists) s = any_return-Meets _
  stored_anomaly-Keeps ctx device_id x (err e) s = any_lift-Meets (err e)

  -- One turn of the loop over the detections, where `m` is the rest of it.
  one_anomaly-Keeps :
      (ctx : Context) (device_id : String) (x : Anomaly F) (m : Exec (App F) (List (Anomaly F)))
      → IsSeverity x.severity
      → (Unit {0} → Keeps m)
      → Keeps (
          catch (update (put_anomaly x)) >>= λ r.
          stored_anomaly ctx device_id x r >>= λ first. m >>= λ more. return (first ++ more))
  one_anomaly-Keeps ctx device_id x m s h =
      search (catch_then-Keeps, keeping_rules, put_anomaly-Keeps, stored_anomaly-Keeps, s, h) depth
        30

  anomaly_of-IsSeverity :
      (stream_id device_id : String) (policy : CollectionPolicy F) (signal : String) (w : Window F)
      (d : Detection)
      → IsSeverity d.severity
      → (id : String) (t t' : Time)
      → IsSeverity (anomaly_of stream_id device_id policy signal w d id t t').severity
  unfolding anomaly_of
  anomaly_of-IsSeverity stream_id device_id policy signal w d s id t t' = s

  raise_all-Keeps :
      (ctx : Context) (stream_id device_id : String) (policy : CollectionPolicy F) (signal : String)
      (w : Window F) (ds : List Detection)
      → All (λ (d : Detection). IsSeverity d.severity) ds
      → Keeps (raise_all ctx stream_id device_id policy signal w ds)
  unfolding raise_all
  raise_all-Keeps ctx stream_id device_id policy signal w [] all = any_return-Meets _
  raise_all-Keeps ctx stream_id device_id policy signal w (d ∷ ds) all =
      let rest =
        λ (u : Unit {0}). raise_all-Keeps ctx stream_id device_id policy signal w ds all.1 in
      let severe = anomaly_of-IsSeverity stream_id device_id policy signal w d all.0 in
      let one = λ (id : String) (t t' : Time).
        one_anomaly-Keeps ctx device_id (anomaly_of stream_id device_id policy signal w d id t t') _
          (severe id t t') rest in
      search (keeping_rules, one) depth 30

  evaluate_window-Keeps :
      (ctx : Context) (stream_id device_id : String) (policy : CollectionPolicy F) (signal : String)
      (r : Result (Window F))
      → All IsSound policy.rules
      → Keeps (evaluate_window ctx stream_id device_id policy signal r)
  unfolding evaluate_window
  evaluate_window-Keeps ctx stream_id device_id policy signal (err e) all = any_return-Meets _
  evaluate_window-Keeps ctx stream_id device_id policy signal (ok w) all =
      raise_all-Keeps ctx stream_id device_id policy signal w (detect w policy.rules)
        (unfold detect in detect_from-IsSeverity 0 w policy.rules all)

  abbrev HasSoundRules : Result (CollectionPolicy F) → Type 0
  HasSoundRules r = (p : CollectionPolicy F) → r ≡ ok p → All IsSound p.rules

  evaluate_policy-Keeps :
      (ctx : Context) (stream_id device_id : String) (r : Result (CollectionPolicy F))
      → HasSoundRules r
      → Keeps (evaluate_policy ctx stream_id device_id r)
  unfolding evaluate_policy
  evaluate_policy-Keeps ctx stream_id device_id (err e) h = any_return-Meets _
  evaluate_policy-Keeps ctx stream_id device_id (ok p) h =
      let windows = λ (signal : String) (r : Result (Window F)).
        evaluate_window-Keeps ctx stream_id device_id p signal r (h p refl) in
      search (keeping_rules, windows) depth 30

  active_policy_then-Keeps :
      {B : Type 0} (device_id : String) (t : Time)
      (f : Result (CollectionPolicy F) → Exec (App F) B)
      → ((r : Result (CollectionPolicy F)) → HasSoundRules r → Keeps (f r))
      → Keeps (catch (query (λ m. active_policy m device_id t)) >>= f)
  active_policy_then-Keeps device_id t f k =
      bind-Meets HasSoundRules _ f
        (catch-Meets (λ (p : CollectionPolicy F). All IsSound p.rules) _
          (query-Meets Sound (λ m. active_policy m device_id t)
            (λ m s p e.
              active_policy-All m device_id t (λ q. All IsSound q.rules) {p = p}
                (All-of_lookup _ m.policies s.policies_keyed
                  (λ id q h. (s.policies_sound id q h).1))
                e)))
        k

  pub evaluate_telemetry-Keeps :
      (ctx : Context) (stream_id device_id : String)
      → Keeps (evaluate_telemetry {F = F} ctx stream_id device_id)
  unfolding evaluate_telemetry
  evaluate_telemetry-Keeps ctx stream_id device_id =
      search (active_policy_then-Keeps, evaluate_policy-Keeps, keeping_rules) depth 30
