-- ===== src/Http/Soundness.antt =====
-- The routes, against the invariant of the repository.
use orbit_telemetry_orchestr.Prelude.{append-All, if_rule, false, All, Float}
use orbit_telemetry_orchestr.Service.{App}
use orbit_telemetry_orchestr.Service.Contracts.{Stored}
use orbit_telemetry_orchestr.Store.Sound.{Sound}
use orbit_telemetry_orchestr.Http.{Request, Response, Decoders}
use orbit_telemetry_orchestr.Http.Routes.{
  routes, common_routes, device_routes, stream_routes, policy_routes, incident_routes,
  action_routes, is_clean, mux,
}
use orbit_telemetry_orchestr.Http.Reads.{
  Blind, health-Read, ready-Read, metrics-Read, get_stats-Read, get_report-Read, list_audit-Read,
  events_stream-Read, list_devices-Read, get_device-Read, list_streams-Read, get_stream-Read,
  list_samples-Read, list_policies-Read, get_policy-Read, list_anomalies-Read, list_incidents-Read,
  get_incident-Read, list_actions-Read, list_evidence-Read, get_timeline-Read, get_action-Read,
}
use orbit_telemetry_orchestr.Http.Serving.{Safe, serve_from-Holding}
use orbit_telemetry_orchestr.Http.Posting.{
  post_device-Held, move_device-Held, post_stream-Held, move_stream-Held, post_policy-Held,
  post_publish-Held, post_lock-Held, post_telemetry-Held, move_incident-Held, post_action-Held,
  post_evidence-Held, post_execute-Held, post_cancel-Held,
}

module _ {F : Type 0} ⦃fl : Float F⦄ where
  Sound-Blind : Blind {F = F} (Stored Sound)
  Sound-Blind a n b p = p

  common_routes-Safe :
      Decoders F → (r : Request) → All (Safe {F = F} (Stored Sound) r) common_routes
  unfolding common_routes
  common_routes-Safe d r =
      let P : App F → Type 0 = Stored Sound in
      let blind = Sound-Blind in
      (
        (λ own given. health-Read P blind given r),
        (
          (λ own given. ready-Read P blind given r),
          (
            (λ own given. metrics-Read P blind given r),
            (
              (λ own given. get_stats-Read P blind given r),
              (
                (λ own given. get_report-Read P blind given r),
                (
                  (λ own given. list_audit-Read P blind given r),
                  ((λ own given. events_stream-Read P blind given r), tt),
                ),
              ),
            ),
          ),
        ),
      )

  device_routes-Safe :
      (d : Decoders F) (r : Request) → All (Safe (Stored Sound) r) (device_routes d)
  unfolding device_routes
  device_routes-Safe d r =
      let P : App F → Type 0 = Stored Sound in
      let blind = Sound-Blind in
      (
        (λ own given. list_devices-Read P blind given r),
        (
          (λ own given. post_device-Held d given r),
          (
            (λ own given. get_device-Read P blind given r),
            ((λ own given. move_device-Held d given r), tt),
          ),
        ),
      )

  stream_routes-Safe :
      (d : Decoders F) (r : Request) → All (Safe (Stored Sound) r) (stream_routes d)
  unfolding stream_routes
  stream_routes-Safe d r =
      let P : App F → Type 0 = Stored Sound in
      let blind = Sound-Blind in
      (
        (λ own given. list_streams-Read P blind given r),
        (
          (λ own given. post_stream-Held d given r),
          (
            (λ own given. get_stream-Read P blind given r),
            (
              (λ own given. move_stream-Held d given r),
              ((λ own given. list_samples-Read P blind given r), tt),
            ),
          ),
        ),
      )

  policy_routes-Safe :
      (d : Decoders F) (r : Request) → All (Safe (Stored Sound) r) (policy_routes d)
  unfolding policy_routes
  policy_routes-Safe d r =
      let P : App F → Type 0 = Stored Sound in
      let blind = Sound-Blind in
      (
        (λ own given. list_policies-Read P blind given r),
        (
          (λ own given. post_policy-Held d given r),
          (
            (λ own given. get_policy-Read P blind given r),
            ((λ own given. post_publish-Held given r), ((λ own given. post_lock-Held given r), tt)),
          ),
        ),
      )

  incident_routes-Safe :
      (d : Decoders F) (r : Request) → All (Safe (Stored Sound) r) (incident_routes d)
  unfolding incident_routes
  incident_routes-Safe d r =
      let P : App F → Type 0 = Stored Sound in
      let blind = Sound-Blind in
      (
        (λ own given. post_telemetry-Held d given r),
        (
          (λ own given. list_anomalies-Read P blind given r),
          (
            (λ own given. list_incidents-Read P blind given r),
            (
              (λ own given. get_incident-Read P blind given r),
              (
                (λ own given. move_incident-Held d given r),
                (
                  (λ own given. list_actions-Read P blind given r),
                  (
                    (λ own given. post_action-Held d given r),
                    (
                      (λ own given. list_evidence-Read P blind given r),
                      (
                        (λ own given. post_evidence-Held d given r),
                        ((λ own given. get_timeline-Read P blind given r), tt),
                      ),
                    ),
                  ),
                ),
              ),
            ),
          ),
        ),
      )

  action_routes-Safe :
      Decoders F → (r : Request) → All (Safe {F = F} (Stored Sound) r) action_routes
  unfolding action_routes
  action_routes-Safe d r =
      let P : App F → Type 0 = Stored Sound in
      let blind = Sound-Blind in
      (
        (λ own given. get_action-Read P blind given r),
        ((λ own given. post_execute-Held given r), ((λ own given. post_cancel-Held given r), tt)),
      )

  routes-Safe : (d : Decoders F) (r : Request) → All (Safe (Stored Sound) r) (routes d)
  unfolding routes
  routes-Safe d r =
      search
        (
          append-All,
          common_routes-Safe d r,
          device_routes-Safe d r,
          stream_routes-Safe d r,
          policy_routes-Safe d r,
          incident_routes-Safe d r,
          action_routes-Safe d r,
        )
        depth 12

  -- Every request, whatever its method, path, body and answer, leaves a sound repository sound.
  pub mux-Sound :
      (d : Decoders F) (r : Request) (a : App F)
      → Sound a.repository
      → Sound (mux d r a).1.repository
  unfolding mux
  mux-Sound d r a s =
      if_rule (λ (x : Response F × App F). Sound x.1.repository) (is_clean r.path)
        (serve_from-Holding (Stored Sound) r false (routes d) (routes-Safe d r) a s) s
