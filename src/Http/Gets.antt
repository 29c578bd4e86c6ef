-- ===== src/Http/Gets.antt =====
-- Requests with `GET`, and what they may change.
use orbit_telemetry_orchestr.Prelude.{
  append-All, if_rule, true, false, ◌≡◌, ◌≢◌, refl, All, Float, arith,
}
use orbit_telemetry_orchestr.Service.{App}
use orbit_telemetry_orchestr.Http.{Method, get, head, post, other, Request, Response, Decoders}
use orbit_telemetry_orchestr.Http.Routes.{
  routes, common_routes, device_routes, stream_routes, policy_routes, incident_routes,
  action_routes, answers, is_clean, mux,
}
use orbit_telemetry_orchestr.Http.Serving.{Safe, serve_from-Holding}
use orbit_telemetry_orchestr.Http.Reads.{
  Blind, health-Read, ready-Read, metrics-Read, get_stats-Read, get_report-Read, list_audit-Read,
  events_stream-Read, list_devices-Read, get_device-Read, list_streams-Read, get_stream-Read,
  list_samples-Read, list_policies-Read, get_policy-Read, list_anomalies-Read, list_incidents-Read,
  get_incident-Read, list_actions-Read, list_evidence-Read, get_timeline-Read, get_action-Read,
}

-- What is stored is what was stored at the outset.
pub record Unchanged {F : Type 0} (before after : App F) : Type 0 where
  pub same_repository : after.repository ≡ before.repository
  pub same_audit : after.audit ≡ before.audit
  pub same_queue : after.queue ≡ before.queue
  pub same_metrics : after.metrics ≡ before.metrics
  pub same_sequence : after.sequence ≡ before.sequence

Unchanged-Blind : {F : Type 0} (before : App F) → Blind (Unchanged before)
Unchanged-Blind before a n b u = record {
  same_repository = u.same_repository;
  same_audit = u.same_audit;
  same_queue = u.same_queue;
  same_metrics = u.same_metrics;
  same_sequence = u.same_sequence;
}

not_both : (m : Method) → answers get m ≡ true → answers post m ≢ true
not_both get h e = ground arith
not_both head h e = ground arith
not_both post h e = ground arith
not_both other h e = ground arith

module _ {F : Type 0} ⦃fl : Float F⦄ where
  common_routes-Safe :
      (P : App F → Type 0)
      → Blind P
      → (r : Request) → answers get r.method ≡ true
      → All (Safe P r) common_routes
  unfolding common_routes
  common_routes-Safe P blind r h = (
    (λ own given. health-Read P blind given r),
    (
      (λ own given. ready-Read P blind given r),
      (
        (λ own given. metrics-Read P blind given r),
        (
          (λ own given. get_stats-Read P blind given r),
          (
            (λ own given. get_report-Read P blind given r),
            (
              (λ own given. list_audit-Read P blind given r),
              ((λ own given. events_stream-Read P blind given r), tt),
            ),
          ),
        ),
      ),
    ),
  )

  device_routes-Safe :
      (P : App F → Type 0)
      → Blind P
      → (d : Decoders F) (r : Request) → answers get r.method ≡ true
      → All (Safe P r) (device_routes d)
  unfolding device_routes
  device_routes-Safe P blind d r h = (
    (λ own given. list_devices-Read P blind given r),
    (
      (λ own. absurd (not_both r.method h own)),
      (
        (λ own given. get_device-Read P blind given r),
        ((λ own. absurd (not_both r.method h own)), tt),
      ),
    ),
  )

  stream_routes-Safe :
      (P : App F → Type 0)
      → Blind P
      → (d : Decoders F) (r : Request) → answers get r.method ≡ true
      → All (Safe P r) (stream_routes d)
  unfolding stream_routes
  stream_routes-Safe P blind d r h = (
    (λ own given. list_streams-Read P blind given r),
    (
      (λ own. absurd (not_both r.method h own)),
      (
        (λ own given. get_stream-Read P blind given r),
        (
          (λ own. absurd (not_both r.method h own)),
          ((λ own given. list_samples-Read P blind given r), tt),
        ),
      ),
    ),
  )

  policy_routes-Safe :
      (P : App F → Type 0)
      → Blind P
      → (d : Decoders F) (r : Request) → answers get r.method ≡ true
      → All (Safe P r) (policy_routes d)
  unfolding policy_routes
  policy_routes-Safe P blind d r h = (
    (λ own given. list_policies-Read P blind given r),
    (
      (λ own. absurd (not_both r.method h own)),
      (
        (λ own given. get_policy-Read P blind given r),
        (
          (λ own. absurd (not_both r.method h own)),
          ((λ own. absurd (not_both r.method h own)), tt),
        ),
      ),
    ),
  )

  incident_routes-Safe :
      (P : App F → Type 0)
      → Blind P
      → (d : Decoders F) (r : Request) → answers get r.method ≡ true
      → All (Safe P r) (incident_routes d)
  unfolding incident_routes
  incident_routes-Safe P blind d r h = (
    (λ own. absurd (not_both r.method h own)),
    (
      (λ own given. list_anomalies-Read P blind given r),
      (
        (λ own given. list_incidents-Read P blind given r),
        (
          (λ own given. get_incident-Read P blind given r),
          (
            (λ own. absurd (not_both r.method h own)),
            (
              (λ own given. list_actions-Read P blind given r),
              (
                (λ own. absurd (not_both r.method h own)),
                (
                  (λ own given. list_evidence-Read P blind given r),
                  (
                    (λ own. absurd (not_both r.method h own)),
                    ((λ own given. get_timeline-Read P blind given r), tt),
                  ),
                ),
              ),
            ),
          ),
        ),
      ),
    ),
  )

  action_routes-Safe :
      (P : App F → Type 0)
      → Blind P
      → (r : Request) → answers get r.method ≡ true
      → All (Safe P r) action_routes
  unfolding action_routes
  action_routes-Safe P blind r h = (
    (λ own given. get_action-Read P blind given r),
    ((λ own. absurd (not_both r.method h own)), ((λ own. absurd (not_both r.method h own)), tt)),
  )

  gets-Safe :
      (P : App F → Type 0)
      → Blind P
      → (d : Decoders F) (r : Request) → answers get r.method ≡ true
      → All (Safe P r) (routes d)
  unfolding routes
  gets-Safe P blind d r h =
      search
        (
          append-All,
          common_routes-Safe P blind r h,
          device_routes-Safe P blind d r h,
          stream_routes-Safe P blind d r h,
          policy_routes-Safe P blind d r h,
          incident_routes-Safe P blind d r h,
          action_routes-Safe P blind r h,
        )
        depth 12

  unchanged : (a : App F) → Unchanged a a
  unchanged a = record {
    same_repository = refl;
    same_audit = refl;
    same_queue = refl;
    same_metrics = refl;
    same_sequence = refl;
  }

  -- A request with `GET` or `HEAD`, whatever its path, its query and its answer, leaves the repository,
  -- the audit log, the queue of jobs, the metrics and the sequence of ids as they were.
  pub mux_get :
      (d : Decoders F) (r : Request) (a : App F)
      → answers get r.method ≡ true
      → Unchanged a (mux d r a).1
  unfolding mux
  mux_get d r a h =
      if_rule (λ (x : Response F × App F). Unchanged a x.1) (is_clean r.path)
        (serve_from-Holding (Unchanged a) r false (routes d)
          (gets-Safe (Unchanged a) (Unchanged-Blind a) d r h) a (unchanged a))
        (unchanged a)
