-- ===== src/Api/Routes.antt =====
-- internal/api/server.go: `Handler`, the routes and who may use them.
use codex_tempo.Common.{ℕ, Bool, true, false, ◌||◌, List, [], ◌∷◌, if◌then◌else◌}
use codex_tempo.Common.Text.{Text, codes, text_eq}
use codex_tempo.Postgres.{Engine, Database}
use codex_tempo.Api.{
  Server, Method, get, post, Request, Wire, status, projects, sessions, machines, plain, Response,
  answer, write_error, bearer_matches,
}
use codex_tempo.Postgres.Queries.{list_projects, list_sessions, list_machines}
use codex_tempo.Api.Handlers.{
  register, ingest_handler, summary_handler, timeline_handler, active_handler, rebuild_handler,
}

-- The routes of `Handler`.
pub data Internal : Type 0 where
  get_projects get_summary get_timeline get_active get_sessions get_machines post_rebuild : Internal

pub data Endpoint : Type 0 where
  healthz readyz post_register post_ingest : Endpoint
  internal : Internal → Endpoint

abbrev pub routes : List (Method × Text × Endpoint)
routes =
    (get, codes "/healthz", healthz)
    ∷ (get, codes "/readyz", readyz)
    ∷ (post, codes "/api/v1/ingest/register", post_register)
    ∷ (post, codes "/api/v1/ingest/events", post_ingest)
    ∷ (get, codes "/api/v1/projects", internal get_projects)
    ∷ (get, codes "/api/v1/reports/summary", internal get_summary)
    ∷ (get, codes "/api/v1/reports/timeline", internal get_timeline)
    ∷ (get, codes "/api/v1/runs", internal get_timeline)
    ∷ (get, codes "/api/v1/runs/active", internal get_active)
    ∷ (get, codes "/api/v1/sessions", internal get_sessions)
    ∷ (get, codes "/api/v1/machines", internal get_machines)
    ∷ (post, codes "/api/v1/admin/rebuild", internal post_rebuild)
    ∷ []

abbrev pub same_method : Method → Method → Bool
same_method get get = true
same_method post post = true
same_method _ _ = false

-- The endpoint of a request, or the status code of the router.
pub data Routed : Type 0 where
  routed : Endpoint → Routed
  unrouted : ℕ → Routed

unfoldable pub find_route : Request → ℕ → List (Method × Text × Endpoint) → Routed
find_route request code [] = unrouted code
find_route request code ((m, path, endpoint) ∷ rest) = elim (text_eq path request.path) [
  | false ↦ find_route request code rest
  | true ↦ elim (same_method m request.method) [
    | true ↦ routed endpoint
    | false ↦ find_route request 405 rest
  ]
]

unfoldable pub internal_handler :
    Internal → Engine → Wire → ℕ → Request → Database → Response × Database
unfolding summary_handler timeline_handler active_handler rebuild_handler
internal_handler get_projects engine wire now request db =
    (answer 200 (projects (list_projects db)), db)
internal_handler get_summary engine wire now request db = summary_handler engine wire now request db
internal_handler get_timeline engine wire now request db =
    timeline_handler engine wire now request db
internal_handler get_active engine wire now request db = active_handler engine now db
internal_handler get_sessions engine wire now request db =
    (answer 200 (sessions (list_sessions db)), db)
internal_handler get_machines engine wire now request db =
    (answer 200 (machines (list_machines db)), db)
internal_handler post_rebuild engine wire now request db = rebuild_handler engine now db

-- `internalAuth`
unfoldable pub internal_auth : Server → Request → Bool
unfolding bearer_matches
internal_auth server request =
    text_eq server.internal_token [] || bearer_matches request server.internal_token

-- The values that are random: the id and the secret of a registration.
pub record Random : Type 0 where
  pub fresh : Text
  pub secret : Text

unfoldable pub serve :
    Endpoint → Server → Engine → Wire → ℕ → Random → Request → Database → Response × Database
unfolding register ingest_handler internal_auth internal_handler
serve healthz server engine wire now random request db = (answer 200 (status (codes "ok")), db)
serve readyz server engine wire now random request db = (answer 200 (status (codes "ready")), db)
serve post_register server engine wire now random request db =
    register server engine wire now random.fresh random.secret request db
serve post_ingest server engine wire now random request db =
    ingest_handler engine wire now request db
serve (internal endpoint) server engine wire now random request db =
    if internal_auth server request
    then internal_handler endpoint engine wire now request db
    else (write_error 401 (codes "invalid internal token"), db)

-- `Handler`
unfoldable pub handle :
    Server → Engine → Wire → ℕ → Random → Request → Database → Response × Database
unfolding find_route serve
handle server engine wire now random request db = elim (find_route request 404 routes) [
  | unrouted code ↦ (answer code (plain []), db)
  | routed endpoint ↦ serve endpoint server engine wire now random request db
]
