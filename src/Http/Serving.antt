-- ===== src/Http/Serving.antt =====
-- How a property of the app passes from each endpoint to the routes.
use orbit_telemetry_orchestr.Prelude.{
  ℕ, String, Bool, true, false, ◌≡◌, Option, List, [], ◌∷◌, All, inl, inr, Bool-cases, Option-cases,
  Result-cases,
}
use orbit_telemetry_orchestr.Prelude.Exec.{Exec}
use orbit_telemetry_orchestr.Service.{App}
use orbit_telemetry_orchestr.Service.Contracts.{Meets, Anything}
use orbit_telemetry_orchestr.Http.{Request, Response, path_id, decode}
use orbit_telemetry_orchestr.Http.Endpoints.{answered, with_id, with_body}
use orbit_telemetry_orchestr.Http.Routes.{Route, match_path, answers, serve_from}

module _ {F : Type 0} (P : App F → Type 0) where
  -- What a handler does, once it is given its request, keeps `P`.
  abbrev pub Holding : (App F → Response F × App F) → Type 0
  Holding h = (a : App F) → P a → P (h a).1

  pub answered-Holding :
      {A : Type 0} (m : Exec (App F) A) (f : A → Response F)
      → Meets P Anything m
      → Holding (answered m f)
  answered-Holding m f h a p = elim (Result-cases (m a).0) [
    | inl (x, e) ↦ rw (e, answered) (h.keeps a p)
    | inr (c, e) ↦ rw (e, answered) (h.keeps a p)
  ]

  pub with_id-Holding :
      (given : String) (next : String → App F → Response F × App F)
      → ((id : String) → Holding (next id))
      → Holding (with_id given next)
  with_id-Holding given next h a p = elim (Result-cases (path_id given)) [
    | inl (id, e) ↦ rw (e, with_id) (h id a p)
    | inr (c, e) ↦ rw (e, with_id) p
  ]

  pub with_body-Holding :
      {A : Type 0} (decoder : List ℕ → Option A) (r : Request)
      (next : A → App F → Response F × App F)
      → ((input : A) → Holding (next input))
      → Holding (with_body decoder r next)
  with_body-Holding decoder r next h a p = elim (Result-cases (decode decoder r)) [
    | inl (input, e) ↦ rw (e, with_body) (h input a p)
    | inr (c, e) ↦ rw (e, with_body) p
  ]

  -- The route keeps `P` for the requests that it answers.
  abbrev pub Safe : Request → Route F → Type 0
  Safe r route =
      answers route.method r.method ≡ true → (given : String) → Holding (route.endpoint given r)

  pub serve_from-Holding :
      (r : Request) (seen : Bool) (routes : List (Route F))
      → All (Safe r) routes
      → Holding (serve_from seen routes r)
  unfolding serve_from
  serve_from-Holding r true [] all a p = p
  serve_from-Holding r false [] all a p = p
  serve_from-Holding r seen (route ∷ rest) all a p =
      elim (Option-cases (match_path route.pattern r.path "")) [
        | inl missed ↦ rw (missed, serve_from) (serve_from-Holding r seen rest all.1 a p)
        | inr (given, matched) ↦ elim (Bool-cases (answers route.method r.method)) [
          | inl own ↦ rw (matched, serve_from) (rw own (all.0 own given a p))
          | inr foreign ↦
              rw (matched, serve_from) (rw foreign (serve_from-Holding r true rest all.1 a p))
        ]
      ]
