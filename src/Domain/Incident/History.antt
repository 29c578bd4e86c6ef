-- ===== src/Domain/Incident/History.antt =====
-- Lists of operations of incident.go on one incident.
use orbit_telemetry_orchestr.Prelude.{
  String, ◌≡◌, refl, true, false, List, [], ◌∷◌, arith, string_eq, ◌<ℤ◌, contains, contains-append,
  All, Result, ok, err,
}
use orbit_telemetry_orchestr.Domain.Incident.{
  closed, Incident, add_anomaly, transition, attach_action, attach_evidence, append_unique,
  same_status_iff, incident_status_eq,
}
use orbit_telemetry_orchestr.Domain.Incident.Invariant.{
  Inv, Op, anomaly, move, action, evidence, apply, IsSound, apply-Inv,
}

-- The incident after an operation, where a refused one changes nothing.
abbrev pub after : Result Incident → Incident → Incident
after (ok i') i = i'
after (err e) i = i

unfoldable pub history : Incident → List Op → Incident
history i [] = i
history i (op ∷ ops) = history (after (apply i op) i) ops

after-Inv :
    (i : Incident) (op : Op) (r : Result Incident)
    → IsSound op
    → Inv i
    → apply i op ≡ r
    → Inv (after r i)
after-Inv i op (err e) s v h = v
after-Inv i op (ok i') s v h = apply-Inv i op s v h

-- Any list of operations whose anomalies have a severity of 1 to 5 keeps the invariant of an
-- incident: severity 1 to 5, a known status, at least one anomaly, no id listed twice, and a time
-- stamped for each of the states `resolved` and `closed` that it is in.
pub history-Inv : (i : Incident) (ops : List Op) → All IsSound ops → Inv i → Inv (history i ops)
unfolding history
history-Inv i [] s v = v
history-Inv i (op ∷ ops) s v =
    history-Inv (after (apply i op) i) ops s.1 (after-Inv i op (apply i op) s.0 v refl)

closed_apply : (i : Incident) (op : Op) → i.status ≡ closed → after (apply i op) i ≡ i
unfolding apply add_anomaly transition attach_action attach_evidence
closed_apply i (anomaly id severity now) h = ground arith
closed_apply i (move status now) h = ground (arith, same_status_iff status i.status)
closed_apply i (action id now) h = ground arith
closed_apply i (evidence id now) h = ground arith

-- No list of operations changes a closed incident.
pub closed_final : (i : Incident) (ops : List Op) → i.status ≡ closed → history i ops ≡ i
unfolding history
closed_final i [] h = refl
closed_final i (op ∷ ops) h = rw (closed_apply i op h) (closed_final i ops h)

-- `j` has all that `i` has: its anomalies, actions and evidence, and at least its severity.
pub record Extends (i j : Incident) : Type 0 where
  pub keeps_anomaly :
      (a : String) → contains a i.anomaly_ids ≡ true → contains a j.anomaly_ids ≡ true
  pub keeps_action : (a : String) → contains a i.action_ids ≡ true → contains a j.action_ids ≡ true
  pub keeps_evidence :
      (a : String) → contains a i.evidence_ids ≡ true → contains a j.evidence_ids ≡ true
  pub as_severe : (j.severity <ℤ i.severity) ≡ false

Extends-refl : (i : Incident) → Extends i i
Extends-refl i = record {
  keeps_anomaly = λ a h. h;
  keeps_action = λ a h. h;
  keeps_evidence = λ a h. h;
  as_severe = ground arith;
}

Extends-trans : {i j k : Incident} → Extends i j → Extends j k → Extends i k
Extends-trans p q = record {
  keeps_anomaly = λ a h. q.keeps_anomaly a (p.keeps_anomaly a h);
  keeps_action = λ a h. q.keeps_action a (p.keeps_action a h);
  keeps_evidence = λ a h. q.keeps_evidence a (p.keeps_evidence a h);
  as_severe = ground (arith, p.as_severe, q.as_severe);
}

contains-append_unique :
    (a v : String) (xs : List String)
    → contains a xs ≡ true
    → contains a (append_unique xs v) ≡ true
unfolding append_unique
contains-append_unique a v xs h = ground (arith, contains-append a xs (v ∷ []))

apply-Extends : (i : Incident) (op : Op) → Extends i (after (apply i op) i)
apply-Extends i (anomaly id severity now) = record {
  keeps_anomaly =
      λ a h. unfold apply add_anomaly in ground (arith, contains-append a i.anomaly_ids (id ∷ []));
  keeps_action = λ a h. unfold apply add_anomaly in ground arith;
  keeps_evidence = λ a h. unfold apply add_anomaly in ground arith;
  as_severe = unfold apply add_anomaly in ground arith;
}
apply-Extends i (move status now) = record {
  keeps_anomaly = λ a h. unfold apply transition in ground arith;
  keeps_action = λ a h. unfold apply transition in ground arith;
  keeps_evidence = λ a h. unfold apply transition in ground arith;
  as_severe = unfold apply transition in ground arith;
}
apply-Extends i (action id now) = record {
  keeps_anomaly = λ a h. unfold apply attach_action in ground arith;
  keeps_action = λ a h.
      unfold apply attach_action in ground (arith, contains-append_unique a id i.action_ids h);
  keeps_evidence = λ a h. unfold apply attach_action in ground arith;
  as_severe = unfold apply attach_action in ground arith;
}
apply-Extends i (evidence id now) = record {
  keeps_anomaly = λ a h. unfold apply attach_evidence in ground arith;
  keeps_action = λ a h. unfold apply attach_evidence in ground arith;
  keeps_evidence = λ a h.
      unfold apply attach_evidence in ground (arith, contains-append_unique a id i.evidence_ids h);
  as_severe = unfold apply attach_evidence in ground arith;
}

-- No list of operations loses an anomaly, an action or a piece of evidence, or lowers the severity.
pub history-Extends : (i : Incident) (ops : List Op) → Extends i (history i ops)
unfolding history
history-Extends i [] = Extends-refl i
history-Extends i (op ∷ ops) =
    Extends-trans (apply-Extends i op) (history-Extends (after (apply i op) i) ops)
