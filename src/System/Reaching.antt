-- ===== src/System/Reaching.antt =====
-- The states that the program reaches, and the invariant of the repository.
use orbit_telemetry_orchestr.Prelude.{
  ℕ, String, ◌≡◌, subst, List, [], ◌∷◌, Option, some, none, inl, inr, Bool-cases, Option-cases,
  Float, Time, ◌==◌, string_eq, ◌+◌,
}
use orbit_telemetry_orchestr.Prelude.Exec.{Exec}
use orbit_telemetry_orchestr.RateLimit.{allow}
use orbit_telemetry_orchestr.Queue.{Job, Payload}
use orbit_telemetry_orchestr.Store.Sound.{Sound, new_memory-Sound}
use orbit_telemetry_orchestr.Service.{App, Context}
use orbit_telemetry_orchestr.Service.Jobs.{
  seed, work, take_job, handle, handler_of, process_incident_evaluation, process_response_action,
  process_evidence_rollup,
}
use orbit_telemetry_orchestr.Service.Soundness.{Keeps, keeping_rules, put_device-Keeps}
use orbit_telemetry_orchestr.Service.Soundness.Actions.{execute_action-Keeps}
use orbit_telemetry_orchestr.Service.Soundness.Incidents.{rollup_evidence-Keeps}
use orbit_telemetry_orchestr.Service.Soundness.Telemetry.{evaluate_telemetry-Keeps}
use orbit_telemetry_orchestr.Http.{Request, Decoders}
use orbit_telemetry_orchestr.Http.Routes.{Server, serve, client_key}
use orbit_telemetry_orchestr.Http.Soundness.{mux-Sound}
use orbit_telemetry_orchestr.System.{new_app, boot, Step, request, turn, step, run}

module _ {F : Type 0} ⦃fl : Float F⦄ where
  seed-Keeps : Keeps (seed {F = F})
  unfolding seed
  seed-Keeps = search (keeping_rules, put_device-Keeps) depth 30

  process_incident_evaluation-Keeps :
      (ctx : Context) (type id : String) (p : Payload) (t : Time)
      → Keeps (
          process_incident_evaluation {F = F} ctx
            (record { id = id; type = type; payload = p; created = t }))
  unfolding process_incident_evaluation
  process_incident_evaluation-Keeps ctx type id (Payload.incident_evaluation s d) t =
      search (keeping_rules, evaluate_telemetry-Keeps) depth 12
  process_incident_evaluation-Keeps ctx type id (Payload.response_action i) t =
      search (keeping_rules)
  process_incident_evaluation-Keeps ctx type id (Payload.evidence_rollup i) t =
      search (keeping_rules)
  process_incident_evaluation-Keeps ctx type id Payload.foreign t = search (keeping_rules)

  process_response_action-Keeps :
      (ctx : Context) (type id : String) (p : Payload) (t : Time)
      → Keeps (
          process_response_action {F = F} ctx
            (record { id = id; type = type; payload = p; created = t }))
  unfolding process_response_action
  process_response_action-Keeps ctx type id (Payload.response_action i) t =
      search (keeping_rules, execute_action-Keeps) depth 12
  process_response_action-Keeps ctx type id (Payload.incident_evaluation s d) t =
      search (keeping_rules)
  process_response_action-Keeps ctx type id (Payload.evidence_rollup i) t = search (keeping_rules)
  process_response_action-Keeps ctx type id Payload.foreign t = search (keeping_rules)

  process_evidence_rollup-Keeps :
      (ctx : Context) (type id : String) (p : Payload) (t : Time)
      → Keeps (
          process_evidence_rollup {F = F} ctx
            (record { id = id; type = type; payload = p; created = t }))
  unfolding process_evidence_rollup
  process_evidence_rollup-Keeps ctx type id (Payload.evidence_rollup i) t =
      search (keeping_rules, rollup_evidence-Keeps) depth 12
  process_evidence_rollup-Keeps ctx type id (Payload.incident_evaluation s d) t =
      search (keeping_rules)
  process_evidence_rollup-Keeps ctx type id (Payload.response_action i) t = search (keeping_rules)
  process_evidence_rollup-Keeps ctx type id Payload.foreign t = search (keeping_rules)

  abbrev HandlerKeeps : Option (Context → Job → Exec (App F) (Unit {0})) → Type 0
  HandlerKeeps none = Unit
  HandlerKeeps (some h) = (ctx : Context) (job : Job) → Keeps (h ctx job)

  handler_of-HandlerKeeps :
      (type : String) (o : Option (Context → Job → Exec (App F) (Unit {0})))
      → handler_of type ≡ o
      → HandlerKeeps o
  unfolding handler_of
  handler_of-HandlerKeeps type o e =
      subst HandlerKeeps e (elim (Bool-cases (type == "incident-evaluation")) [
        | inl is ↦ rw is (λ ctx job.
            process_incident_evaluation-Keeps ctx job.type job.id job.payload job.created)
        | inr isnt ↦ elim (Bool-cases (type == "response-action")) [
          | inl is ↦
              rw (isnt, is)
                (λ ctx job.
                  process_response_action-Keeps ctx job.type job.id job.payload job.created)
          | inr neither ↦ elim (Bool-cases (type == "evidence-rollup")) [
            | inl is ↦
                rw (isnt, neither, is)
                  (λ ctx job.
                    process_evidence_rollup-Keeps ctx job.type job.id job.payload job.created)
            | inr unknown ↦ rw (isnt, neither, unknown) tt
          ]
        ]
      ])

  handle-Sound :
      (ctx : Context) (job : Job) (a : App F)
      → Sound a.repository
      → Sound (handle ctx job a).repository
  unfolding handle
  handle-Sound ctx job a s = elim (Option-cases (handler_of {F = F} job.type)) [
    | inl missing ↦ rw (missing, handle) s
    | inr (h, found) ↦
        let keeps : HandlerKeeps (some h) = handler_of-HandlerKeeps job.type (some h) found in
        rw (found, handle) ((keeps ctx job).keeps a s)
  ]

  -- A worker's turn keeps the repository sound, whatever job it takes.
  work-Sound : (a : App F) → Sound a.repository → Sound (work a).repository
  unfolding work
  work-Sound a s = elim (Option-cases (take_job a.queue)) [
    | inl idle ↦ rw (idle, work) s
    | inr ((ctx, job, q), took) ↦
        rw (took, work) (handle-Sound ctx job (record a { queue = some q }) s)
  ]

  serve-Sound :
      (d : Decoders F) (r : Request) (s : Server F)
      → Sound s.app.repository
      → Sound (serve d r s).1.app.repository
  unfolding serve
  serve-Sound d r s h =
      elim (Bool-cases (allow s.limiter (client_key r) (s.app.clock s.app.reads)).0) [
        | inl passed ↦ rw passed (mux-Sound d r (record s.app { reads = s.app.reads + 1 }) h)
        | inr refused ↦ rw refused h
      ]

  run-Sound :
      (d : Decoders F) (steps : List Step) (s : Server F)
      → Sound s.app.repository
      → Sound (run d steps s).app.repository
  unfolding run step
  run-Sound d [] s h = h
  run-Sound d (request r ∷ rest) s h = run-Sound d rest (serve d r s).1 (serve-Sound d r s h)
  run-Sound d (turn ∷ rest) s h =
      run-Sound d rest (record s { app = work s.app }) (work-Sound s.app h)

  -- After the start and any list of requests, each with any method, path and body, and of turns of the
  -- workers, one after another, the repository is sound: every entry has its own id as its key; every
  -- rule of a stored policy validates; at most 10000 samples are kept; every anomaly has a severity of
  -- 1 to 5; every incident has its invariant; no action has made more attempts than it may; and one
  -- action stands for each idempotency key.
  pub run-boot-Sound :
      (d : Decoders F) (clock : ℕ → Time) (to_lower : String → String) (range_from : ℕ → ℕ)
      (steps : List Step)
      → Sound (run d steps (boot clock to_lower range_from)).app.repository
  unfolding boot new_app
  run-boot-Sound d clock to_lower range_from steps =
      run-Sound d steps (boot clock to_lower range_from)
        (seed-Keeps.keeps (new_app clock to_lower range_from) new_memory-Sound)
