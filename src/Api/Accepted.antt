-- ===== src/Api/Accepted.antt =====
-- internal/api/server.go: what the answer to a batch of events says, as the client sees it.
use codex_tempo.Common.{
  ℕ, ◌/◌, ◌≡◌, refl, sym, ap, ◌∙◌, Option, none, some, arith, length, ltb, Bool-cases, inl, inr,
}
use mathlib.Core.Path.{subst}
use codex_tempo.Common.Text.{Text, codes, text_eq}
use codex_tempo.Sync
use codex_tempo.Sync.{
  Client, IngestResponse, request_of, is_rejected, handle_response, send, sync_once, batch_size,
}
use codex_tempo.Sync.Delivery.{Answers}
use codex_tempo.Postgres.{Engine, Database}
use codex_tempo.Postgres.Machines.{authenticate_machine}
use codex_tempo.Postgres.Ingest.{IngestResult, ingest}
use codex_tempo.Api.{
  Server, Method, post, Request, IngestRequest, Wire, Body, ingested, Response, trim_prefix,
}
use codex_tempo.Api.Handlers.{ingest_answer, max_batch, ingest_batch, ingest_handler}
use codex_tempo.Api.Routes.{Random, post_ingest, routed, routes, find_route, serve, handle}

-- The way of a request to the server and of its answer back: the encoding of the client's request, and
-- the client's decoding of a body.
pub record Link : Type 0 where
  pub encode : Sync.Request → Request
  pub decode : Body → Option IngestResponse

abbrev pub ingest_path : Text
ingest_path = codes "/api/v1/ingest/events"

abbrev pub response_of : IngestResult → IngestResponse
response_of result = record {
  accepted = result.accepted;
  duplicates = result.duplicates;
  rejected = result.rejected;
}

-- The request reaches the server's route as it was sent, and JSON is read as it was written.
pub record IsFaithful (wire : Wire) (link : Link) (r : Sync.Request) : Type 0 where
  pub routed : (link.encode r).method ≡ post
  pub path : (link.encode r).path ≡ ingest_path
  pub authorization : (link.encode r).authorization ≡ r.authorization
  pub parsed :
      wire.parse_ingest (link.encode r).body
      ≡ some (record { machine_id = r.machine_id; events = r.events })
  pub answered : (result : IngestResult) → link.decode (ingested result) ≡ some (response_of result)

-- The server as the client sees it.
abbrev pub answer_of : Link → Response → Sync.Response
answer_of link r = record { status_code = r.status_code; decoded = link.decode r.body }

module _ (server : Server) (engine : Engine) (wire : Wire) (link : Link) (now : ℕ) (random : Random)
    (db : Database) where
  abbrev pub call : Sync.Request → Response × Database
  call r = handle server engine wire now random (link.encode r) db

  abbrev pub post_to : Sync.Request → Option Sync.Response
  post_to r = some (answer_of link (call r).0)

-- A request for the route of the events.
find_route-ingest :
    (request : Request)
    → request.method ≡ post
    → request.path ≡ ingest_path
    → find_route request 404 routes ≡ routed post_ingest
unfolding find_route text_eq
find_route-ingest request m p =
    subst
      (λ (method : Method).
        find_route (record request { method = method }) 404 routes ≡ routed post_ingest)
      (sym m)
      (subst
        (λ (path : Text).
          find_route (record request { method = post; path = path }) 404 routes
          ≡ routed post_ingest)
        (sym p) refl)

handle-ingest :
    (server : Server) (engine : Engine) (wire : Wire) (now : ℕ) (random : Random)
    (request : Request) (db : Database)
    → request.method ≡ post
    → request.path ≡ ingest_path
    → handle server engine wire now random request db ≡ ingest_handler engine wire now request db
unfolding handle serve
handle-ingest server engine wire now random request db m p =
    rw (handle, find_route-ingest request m p) refl

-- A success of the handler is one of `Ingest`.
answer-success :
    (o : Option IngestResult × Database)
    → (ingest_answer o).0.status_code / 100 ≡ 2
    → (result : IngestResult) × (o.0 ≡ some result)
      × ((ingest_answer o).0.body ≡ ingested result)
      × ((ingest_answer o).1 ≡ o.1)
answer-success (none, db) h = ground (arith, h)
answer-success (some result, db) h = (result, refl, refl, refl)

-- What a success of a batch stands for.
record Accepts (engine : Engine) (now : ℕ) (input : IngestRequest) (db : Database)
    (r : Response × Database) : Type 0 where
  pub result : IngestResult
  pub next : Database
  pub done : ingest engine now input.machine_id input.events db ≡ (some result, next)
  body : r.0.body ≡ ingested result
  last : r.1 ≡ next

answer-Accepts :
    (engine : Engine) (now : ℕ) (input : IngestRequest) (db : Database)
    → (ingest_answer (ingest engine now input.machine_id input.events db)).0.status_code / 100 ≡ 2
    → Accepts engine now input db
        (ingest_answer (ingest engine now input.machine_id input.events db))
answer-Accepts engine now input db h =
    let o = ingest engine now input.machine_id input.events db in
    let (result, e, body, last) = answer-success o h in
    record { result = result; next = o.1; done = λ i. (e i, o.1); body = body; last = last }

batch-Accepts :
    (engine : Engine) (now : ℕ) (authorization : Text) (input : IngestRequest) (db : Database)
    → (ingest_batch engine now authorization input db).0.status_code / 100 ≡ 2
    → Accepts engine now input db (ingest_batch engine now authorization input db)
unfolding ingest_batch
batch-Accepts engine now authorization input db h =
    elim (Bool-cases (
      authenticate_machine engine input.machine_id (trim_prefix (codes "Bearer ") authorization)
        db)) [
          | inl e ↦ elim (Bool-cases (ltb max_batch (length input.events))) [
            | inl l ↦ ground (arith, h, e, l)
            | inr l ↦ rw (e, l) (answer-Accepts engine now input db (ground (arith, h, e, l)))
          ]
          | inr e ↦ ground (arith, h, e)
        ]

handler-parsed :
    (engine : Engine) (wire : Wire) (now : ℕ) (request : Request) (input : IngestRequest)
    (db : Database)
    → wire.parse_ingest request.body ≡ some input
    → ingest_handler engine wire now request db
      ≡ ingest_batch engine now request.authorization input db
unfolding ingest_handler
handler-parsed engine wire now request input db p = rw (ingest_handler, p) refl

module _ (server : Server) (engine : Engine) (wire : Wire) (link : Link) (now : ℕ) (random : Random)
    (db : Database) (r : Sync.Request) (faithful : IsFaithful wire link r) where
  call-batch :
      call server engine wire link now random db r
      ≡ ingest_batch engine now r.authorization
          (record { machine_id = r.machine_id; events = r.events })
          db
  call-batch =
      handle-ingest server engine wire now random (link.encode r) db faithful.routed faithful.path
      ∙ handler-parsed engine wire now (link.encode r) _ db faithful.parsed
      ∙ ap
          (λ a.
            ingest_batch engine now a (record { machine_id = r.machine_id; events = r.events }) db)
          faithful.authorization

  -- The server's success, as the client sees it.
  pub call-Answers :
      (call server engine wire link now random db r).0.status_code / 100 ≡ 2
      → (result : IngestResult) × (ingest engine now r.machine_id r.events db
          ≡ (some result, (call server engine wire link now random db r).1))
        × Answers (post_to server engine wire link now random db) r (response_of result)
  call-Answers h =
      let same = call-batch in
      let a =
        batch-Accepts engine now r.authorization
          (record { machine_id = r.machine_id; events = r.events }) db
          (ap (λ (x : Response × Database). x.0.status_code / 100) (sym same) ∙ h) in
      let last : (call server engine wire link now random db r).1 ≡ a.next =
        ap (λ (x : Response × Database). x.1) same ∙ a.last in
      let body : (call server engine wire link now random db r).0.body ≡ ingested a.result =
        ap (λ (x : Response × Database). x.0.body) same ∙ a.body in
      (
        a.result,
        a.done ∙ ap (λ (d : Database). (some a.result, d)) (sym last),
        record {
          response = answer_of link (call server engine wire link now random db r).0;
          posted = refl;
          success = h;
          body = ap link.decode body ∙ faithful.answered a.result;
        },
      )
