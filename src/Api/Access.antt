-- ===== src/Api/Access.antt =====
-- internal/api/server.go: what a request gets that has none of the tokens.
use codex_tempo.Common.{
  ℕ, ◌≤◌, ◌≡◌, refl, ◌⊎◌, inl, inr, false, some, List, [], ◌∷◌, arith, Option-cases, Bool-cases,
  sym,
}
use mathlib.Core.Path.{subst}
use codex_tempo.Common.Text.{Text, codes, text_eq}
use codex_tempo.Postgres.{Engine, Database}
use codex_tempo.Postgres.Machines.{authenticate_machine}
use codex_tempo.Api.{
  Server, Method, answer, plain, Request, IngestRequest, Wire, Response, bearer_matches,
  trim_prefix,
}
use codex_tempo.Api.Handlers.{register, ingest_batch, ingest_handler}
use codex_tempo.Api.Routes.{
  same_method, Endpoint, healthz, readyz, post_register, post_ingest, internal, Routed, routed,
  unrouted, routes, find_route, internal_auth, Random, serve, handle,
}

-- Both tokens are set, and the request has neither, nor that of the machine that its body names.
pub record IsStranger (server : Server) (engine : Engine) (wire : Wire) (request : Request)
    (db : Database) : Type 0 where
  pub admin_set : text_eq server.admin_token [] ≡ false
  pub no_admin : bearer_matches request server.admin_token ≡ false
  pub internal_set : text_eq server.internal_token [] ≡ false
  pub no_internal : bearer_matches request server.internal_token ≡ false
  pub no_machine :
      (input : IngestRequest)
      → wire.parse_ingest request.body ≡ some input
      → authenticate_machine engine input.machine_id
          (trim_prefix (codes "Bearer ") request.authorization)
          db
        ≡ false

-- An answer of the public endpoints, or a refusal.
data IsHarmless (db : Database) (r : Response × Database) : Endpoint → Type 0 where
  is_health : r.1 ≡ db → IsHarmless db r healthz
  is_ready : r.1 ≡ db → IsHarmless db r readyz
  is_refusal : (e : Endpoint) → r.1 ≡ db → 400 ≤ r.0.status_code → IsHarmless db r e

batch-refusal :
    (engine : Engine) (now : ℕ) (authorization : Text) (input : IngestRequest) (db : Database)
    → authenticate_machine engine input.machine_id (trim_prefix (codes "Bearer ") authorization) db
      ≡ false
    → ((ingest_batch engine now authorization input db).1 ≡ db)
      × (400 ≤ (ingest_batch engine now authorization input db).0.status_code)
unfolding ingest_batch
batch-refusal engine now authorization input db h = rw h (refl, omega arith)

module _ (server : Server) (engine : Engine) (wire : Wire) (now : ℕ) (random : Random)
    (request : Request) (db : Database) (stranger : IsStranger server engine wire request db) where
  register-refusal :
      let r = register server engine wire now random.fresh random.secret request db in
      (r.1 ≡ db) × (400 ≤ r.0.status_code)
  unfolding register
  register-refusal = rw (register, stranger.admin_set, stranger.no_admin) (refl, omega arith)

  ingest-refusal :
      let r = ingest_handler engine wire now request db in (r.1 ≡ db) × (400 ≤ r.0.status_code)
  unfolding ingest_handler
  ingest-refusal = elim (Option-cases (wire.parse_ingest request.body)) [
    | inl e ↦ rw (ingest_handler, e) (refl, omega arith)
    | inr (input, e) ↦
        rw (ingest_handler, e)
          (batch-refusal engine now request.authorization input db (stranger.no_machine input e))
  ]

  internal_auth-refusal : internal_auth server request ≡ false
  unfolding internal_auth
  internal_auth-refusal = rw (internal_auth, stranger.internal_set, stranger.no_internal) refl

  serve-IsHarmless :
      (e : Endpoint) → IsHarmless db (serve e server engine wire now random request db) e
  unfolding serve
  serve-IsHarmless healthz = is_health refl
  serve-IsHarmless readyz = is_ready refl
  serve-IsHarmless post_register = let (a, b) = register-refusal in is_refusal post_register a b
  serve-IsHarmless post_ingest = let (a, b) = ingest-refusal in is_refusal post_ingest a b
  serve-IsHarmless (internal endpoint) =
      rw (serve, internal_auth-refusal) (is_refusal (internal endpoint) refl (omega arith))

-- The router's own answers are refusals.
find_route-code :
    (request : Request) (list : List (Method × Text × Endpoint)) (code c : ℕ)
    → 400 ≤ code
    → find_route request code list ≡ unrouted c
    → 400 ≤ c
unfolding find_route
find_route-code request [] code c h e = ground (arith, h, e)
find_route-code request ((m, path, endpoint) ∷ rest) code c h e =
    elim (Bool-cases (text_eq path request.path)) [
      | inl p ↦ elim (Bool-cases (same_method m request.method)) [
        | inl q ↦ ground (arith, e, p, q)
        | inr q ↦ find_route-code request rest 405 c (omega arith) (ground (arith, e, p, q))
      ]
      | inr p ↦ find_route-code request rest code c h (ground (arith, e, p))
    ]

-- The database is as before, and the answer is one of the two public endpoints or a refusal.
abbrev pub IsPublic : Request → Database → Response × Database → Type 0
IsPublic request db r =
    (r.1 ≡ db)
    × ((find_route request 404 routes ≡ routed healthz)
        ⊎ ((find_route request 404 routes ≡ routed readyz) ⊎ (400 ≤ r.0.status_code)))

IsHarmless-IsPublic :
    (request : Request) (db : Database) (r : Response × Database) (e : Endpoint)
    → find_route request 404 routes ≡ routed e
    → IsHarmless db r e
    → IsPublic request db r
IsHarmless-IsPublic request db r healthz p (is_health same) = (same, inl p)
IsHarmless-IsPublic request db r readyz p (is_ready same) = (same, inr (inl p))
IsHarmless-IsPublic request db r e p (is_refusal _ same code) = (same, inr (inr code))

route_cases : (r : Routed) → ((e : Endpoint) × (r ≡ routed e)) ⊎ ((c : ℕ) × (r ≡ unrouted c))
route_cases (routed e) = inl (e, refl)
route_cases (unrouted c) = inr (c, refl)

handle-routed :
    (server : Server) (engine : Engine) (wire : Wire) (now : ℕ) (random : Random)
    (request : Request) (db : Database) (e : Endpoint)
    → find_route request 404 routes ≡ routed e
    → handle server engine wire now random request db
      ≡ serve e server engine wire now random request db
unfolding handle
handle-routed server engine wire now random request db e p = rw (handle, p) refl

handle-unrouted :
    (server : Server) (engine : Engine) (wire : Wire) (now : ℕ) (random : Random)
    (request : Request) (db : Database) (code : ℕ)
    → find_route request 404 routes ≡ unrouted code
    → handle server engine wire now random request db ≡ (answer code (plain []), db)
unfolding handle
handle-unrouted server engine wire now random request db code p = rw (handle, p) refl

-- Where both tokens are set, a request with neither of them and without the token of the machine that
-- its body names leaves the database as it is; it gets a status of at least 400, unless it is for one of
-- the two health endpoints.
pub handle-IsPublic :
    (server : Server) (engine : Engine) (wire : Wire) (now : ℕ) (random : Random)
    (request : Request) (db : Database)
    → IsStranger server engine wire request db
    → IsPublic request db (handle server engine wire now random request db)
handle-IsPublic server engine wire now random request db stranger =
    elim (route_cases (find_route request 404 routes)) [
      | inl (e, p) ↦
          subst (IsPublic request db)
            (sym (handle-routed server engine wire now random request db e p))
            (IsHarmless-IsPublic request db _ e p
              (serve-IsHarmless server engine wire now random request db stranger e))
      | inr (code, p) ↦
          subst (IsPublic request db)
            (sym (handle-unrouted server engine wire now random request db code p))
            (refl, inr (inr (find_route-code request routes 404 code (omega arith) p)))
    ]
