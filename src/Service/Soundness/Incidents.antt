-- ===== src/Service/Soundness/Incidents.antt =====
-- The methods of incidents.go and evidence.go that write, against the invariant of the repository.
use orbit_telemetry_orchestr.Prelude.{
  String, ◌≡◌, refl, Float, Option, none, some, Result, ok, err, Time, values, inl, inr, ℤ,
  Result-cases, ℕ, rotated, rotated-All,
}
use orbit_telemetry_orchestr.Prelude.Exec.{Exec, ◌>>=◌, lift, catch}
use orbit_telemetry_orchestr.Prelude.Maps.{All-of_lookup}
use orbit_telemetry_orchestr.Prelude.Sort.{All-find_first}
use orbit_telemetry_orchestr.Domain.Anomaly.{Anomaly}
use orbit_telemetry_orchestr.Domain.Incident.{
  Incident, IncidentStatus, new_incident, add_anomaly, attach_evidence, transition,
  incident_status_eq,
}
use orbit_telemetry_orchestr.Domain.Incident.Invariant.{
  IsSeverity, Inv, new_incident-Inv, add_anomaly-Inv, transition-Inv, attach_evidence-Inv,
}
use orbit_telemetry_orchestr.Store.{Memory}
use orbit_telemetry_orchestr.Store.Incidents.{find_open_incident, is_open_match}
use orbit_telemetry_orchestr.Store.Sound.{Sound}
use orbit_telemetry_orchestr.Service.{App, Context}
use orbit_telemetry_orchestr.Service.Incidents.{
  joined, join_incident, create_incident, announce, open_incident, join_or_open, after_context,
  find_existing, correlate_incident, transition_incident, evaluate_incident, get_incident_by_id,
}
use orbit_telemetry_orchestr.Service.Evidence.{
  EvidenceInput, attached, add_evidence, rollup_evidence,
}
use orbit_telemetry_orchestr.Service.Contracts.{
  bind-Meets, read-Meets, query-Meets, catch-Meets, any_return-Meets, Anything,
}
use orbit_telemetry_orchestr.Service.Soundness.{
  keeping_rules, get_incident_then-Keeps, lift_then-Keeps, Keeps, put_incident-Keeps,
  update_incident-Keeps, put_evidence-Keeps,
}

joined-Inv :
    (i : Incident) (id : String) (severity : ℤ) (t : Time)
    → IsSeverity severity
    → Inv i
    → Inv (joined (add_anomaly i id severity t) i)
joined-Inv i id severity t s v = elim (Result-cases (add_anomaly i id severity t)) [
  | inl (i', e) ↦ rw e (add_anomaly-Inv i id severity t {i' = i'} s v e)
  | inr (c, e) ↦ rw e v
]

attached-Inv :
    (i : Incident) (id : String) (t : Time) → Inv i → Inv (attached (attach_evidence i id t) i)
attached-Inv i id t v = elim (Result-cases (attach_evidence i id t)) [
  | inl (i', e) ↦ rw e (attach_evidence-Inv i id t {i' = i'} v e)
  | inr (c, e) ↦ rw e v
]

module _ {F : Type 0} ⦃fl : Float F⦄ where
  find_open_incident-Inv :
      (from : ℕ) (m : Memory F) (device_id signal : String) (since : Time) {i : Incident}
      → Sound m
      → find_open_incident from m device_id signal since ≡ some i
      → Inv i
  unfolding find_open_incident
  find_open_incident-Inv from m device_id signal since {i} s h =
      All-find_first Inv (is_open_match m device_id signal since)
        (rotated from (values m.incidents)) i
        (rotated-All Inv from (values m.incidents)
          (All-of_lookup Inv m.incidents s.incidents_keyed (λ k v e. (s.incidents_sound k v e).1)))
        h

  join_incident-Keeps :
      (x : Anomaly F) (i : Incident) → IsSeverity x.severity → Inv i → Keeps (join_incident x i)
  unfolding join_incident
  join_incident-Keeps x i s v =
      let grown = λ (t : Time). joined-Inv i x.id x.severity t s v in
      search (keeping_rules, update_incident-Keeps, grown) depth 30

  new_incident_then-Keeps :
      {B : Type 0} (id device_id title : String) (severity : ℤ) (anomaly_id : String) (t : Time)
      (f : Incident → Exec (App F) B)
      → ((i : Incident) → Inv i → Keeps (f i))
      → Keeps (lift (new_incident id device_id title severity anomaly_id t) >>= f)
  new_incident_then-Keeps id device_id title severity anomaly_id t f k =
      lift_then-Keeps Inv _ f
        (λ i e. new_incident-Inv id device_id title severity anomaly_id t {i = i} e) k

  create_incident-Keeps : (x : Anomaly F) (id : String) (t : Time) → Keeps (create_incident x id t)
  unfolding create_incident
  create_incident-Keeps x id t =
      search (new_incident_then-Keeps, keeping_rules, put_incident-Keeps) depth 30

  announce-Keeps : (r : Result Incident) → Keeps (announce {F = F} r)
  unfolding announce
  announce-Keeps (err e) = any_return-Meets _
  announce-Keeps (ok i) = search (keeping_rules) depth 30

  -- A call whose error is a value.
  pub catch_then-Keeps :
      {A B : Type 0} (m : Exec (App F) A) (f : Result A → Exec (App F) B)
      → Keeps m
      → ((r : Result A) → Keeps (f r))
      → Keeps (catch m >>= f)
  catch_then-Keeps m f h k = bind-Meets _ (catch m) f (catch-Meets Anything m h) (λ r q. k r)

  open_incident-Keeps : (x : Anomaly F) → Keeps (open_incident x)
  unfolding open_incident
  open_incident-Keeps x =
      search (catch_then-Keeps, keeping_rules, create_incident-Keeps, announce-Keeps) depth 30

  join_or_open-Keeps :
      (x : Anomaly F) (o : Option Incident)
      → IsSeverity x.severity
      → ((i : Incident) → o ≡ some i → Inv i)
      → Keeps (join_or_open x o)
  unfolding join_or_open
  join_or_open-Keeps x (some i) s h = join_incident-Keeps x i s (h i refl)
  join_or_open-Keeps x none s h = open_incident-Keeps x

  find_existing_then-Keeps :
      {B : Type 0} (x : Anomaly F) (since : Time) (f : Option Incident → Exec (App F) B)
      → ((o : Option Incident) → ((i : Incident) → o ≡ some i → Inv i) → Keeps (f o))
      → Keeps (find_existing x since >>= f)
  unfolding find_existing
  find_existing_then-Keeps x since f k =
      bind-Meets (λ o. (i : Incident) → o ≡ some i → Inv i) _ f
        (read-Meets _ λ a p.
          query-Meets Sound
            (λ m. ok (find_open_incident (a.range_from a.reads) m x.device_id x.signal since))
            (λ m sound o e i found.
              find_open_incident-Inv (a.range_from a.reads) m x.device_id x.signal since {i = i}
                sound (cc)))
        k

  after_context-Keeps :
      (x : Anomaly F) (r : Result (Unit {0})) → IsSeverity x.severity → Keeps (after_context x r)
  unfolding after_context
  after_context-Keeps x (err e) s = any_return-Meets _
  after_context-Keeps x (ok u) s =
      search (find_existing_then-Keeps, join_or_open-Keeps, keeping_rules, s) depth 30

  pub correlate_incident-Keeps :
      (ctx : Context) (x : Anomaly F) → IsSeverity x.severity → Keeps (correlate_incident ctx x)
  unfolding correlate_incident
  correlate_incident-Keeps ctx x s =
      search (catch_then-Keeps, after_context-Keeps, keeping_rules, s) depth 30

  transition_then-Keeps :
      {B : Type 0} (i : Incident) (status : IncidentStatus) (t : Time)
      (f : Incident → Exec (App F) B)
      → Inv i
      → ((i' : Incident) → Inv i' → Keeps (f i'))
      → Keeps (lift (transition i status t) >>= f)
  transition_then-Keeps i status t f v k =
      lift_then-Keeps Inv _ f (λ i' e. transition-Inv i status t {i' = i'} v e) k

  pub transition_incident-Keeps :
      (ctx : Context) (actor id : String) (status : IncidentStatus)
      → Keeps (transition_incident {F = F} ctx actor id status)
  unfolding transition_incident
  transition_incident-Keeps ctx actor id status =
      search (get_incident_then-Keeps, transition_then-Keeps, keeping_rules, update_incident-Keeps)
        depth 30

  evaluate_incident-Keeps : (ctx : Context) (id : String) → Keeps (evaluate_incident {F = F} ctx id)
  unfolding evaluate_incident get_incident_by_id
  evaluate_incident-Keeps ctx id = search (keeping_rules, transition_incident-Keeps) depth 30

  pub add_evidence-Keeps :
      (ctx : Context) (actor incident_id : String) (input : EvidenceInput)
      → Keeps (add_evidence {F = F} ctx actor incident_id input)
  unfolding add_evidence
  add_evidence-Keeps ctx actor incident_id input =
      search
        (
          get_incident_then-Keeps, keeping_rules, put_evidence-Keeps, update_incident-Keeps,
          attached-Inv,
        )
        depth 30

  pub rollup_evidence-Keeps :
      (ctx : Context) (incident_id : String) → Keeps (rollup_evidence {F = F} ctx incident_id)
  unfolding rollup_evidence
  rollup_evidence-Keeps ctx incident_id =
      search
        (
          get_incident_then-Keeps, keeping_rules, put_evidence-Keeps, update_incident-Keeps,
          attached-Inv,
        )
        depth 30
