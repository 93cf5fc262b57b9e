-- ===== src/Examples/Servers.antt =====
-- A concrete server, to which the theorems of the server's store and interface are applied.
use codex_tempo.Common.{◌≡◌, ◌≢◌, refl, true, false, not, Option, none, some, [], ◌∷◌, All, filter}
use codex_tempo.Common.Text.{codes, text_eq}
use codex_tempo.Postgres.Machines.{authenticate_machine}
use codex_tempo.Postgres.Ingest.{ingest}
use codex_tempo.Projector.{project}
use codex_tempo.Common.Sort.{sort_by}
use codex_tempo.Common.Assoc.{get, put, values}
use codex_tempo.Common.{◌&&◌}
use codex_tempo.Localdb.{Store, pending}
use codex_tempo.Localdb.Queue.{is_pending, pending_events}
use codex_tempo.Localdb.Reach.{no_rows}
use codex_tempo.Api.{
  Server, post, Request, IngestRequest, Wire, ingested, bearer_matches, trim_prefix,
}
use codex_tempo.Api.Routes.{Random, handle}
use codex_tempo.Api.Access.{IsStranger, IsPublic, handle-IsPublic}
use codex_tempo.Api.Delivered.{IsStored, sync_once_delivered}
use codex_tempo.Api.Accepted.{Link, ingest_path, response_of, IsFaithful, call, post_to}
use codex_tempo.Sync.{Client, IngestResponse, request_of, is_rejected, sync_once, batch_size}
use codex_tempo.Sync.Delivery.{sends}
use mathlib.Core.Path.{subst}
use codex_tempo.Examples.Stores.{engine, event_one, database, machine_of, result}

abbrev server : Server
server = record { admin_token = 1 ∷ []; internal_token = 2 ∷ [] }

abbrev random : Random
random = record { fresh = 5 ∷ []; secret = 6 ∷ [] }

abbrev batch : IngestRequest
batch = record { machine_id = 7 ∷ []; events = event_one ∷ [] }

abbrev wire : Wire
wire = record { parse_register = λ t. none; parse_ingest = λ t. some batch; parse_time = λ t. none }

abbrev link : Link
link = record {
  encode = λ r. record {
    method = post;
    path = ingest_path;
    authorization = r.authorization;
    from = [];
    to = [];
    project_id = [];
    body = [];
  };
  decode = λ body. elim body [ ingested result ↦ some (response_of result) | _ ↦ none ];
}

-- A request to the route of the events with a wrong token.
abbrev strange : Request
strange = record {
  method = post;
  path = ingest_path;
  authorization = 9 ∷ [];
  from = [];
  to = [];
  project_id = [];
  body = [];
}

wrong_token :
    authenticate_machine engine
      (7 ∷ [])
      (trim_prefix (codes "Bearer ") strange.authorization)
      database
    ≡ false
unfolding authenticate_machine trim_prefix text_eq
wrong_token = refl

tokens :
    (text_eq server.admin_token [] ≡ false)
    × (bearer_matches strange server.admin_token ≡ false)
    × (text_eq server.internal_token [] ≡ false)
    × (bearer_matches strange server.internal_token ≡ false)
unfolding text_eq bearer_matches
tokens = (refl, refl, refl, refl)

stranger : IsStranger server engine wire strange database
stranger = record {
  admin_set = tokens.0;
  no_admin = tokens.1;
  internal_set = tokens.2;
  no_internal = tokens.3;
  no_machine = λ input e.
      subst
        (λ (o : Option IngestRequest).
          authenticate_machine engine (machine_of o)
            (trim_prefix (codes "Bearer ") strange.authorization) database
          ≡ false)
        e wrong_token;
}

handle-IsPublic_example :
    IsPublic strange database (handle server engine wire 9000 random strange database)
handle-IsPublic_example = handle-IsPublic server engine wire 9000 random strange database stranger

-- The client with the right token and the event.
abbrev client : Client
client = record { server_url = 104 ∷ []; token = 3 ∷ []; machine_id = 7 ∷ [] }

abbrev waiting : Store
waiting = record no_rows {
  events = record { event = event_one; sync_state = pending; error = [] } ∷ [];
}

faithful : IsFaithful wire link (request_of client (pending_events batch_size waiting))
unfolding request_of pending_events sort_by
faithful = record {
  routed = refl;
  path = refl;
  authorization = refl;
  parsed = refl;
  answered = λ result. refl;
}

configured : text_eq client.server_url [] ≡ false
unfolding text_eq
configured = refl

some_waiting : pending_events batch_size waiting ≢ []
unfolding pending_events sort_by
some_waiting e = cc e

succeeds :
    (sync_once (post_to server engine wire link 9000 random database) client waiting).0 ≡ true
unfolding sync_once pending_events sort_by text_eq handle ingest project values get put
succeeds = refl

sync_once_delivered_example :
    let sent = pending_events batch_size waiting in
    let respond = post_to server engine wire link 9000 random database in
    let next = (call server engine wire link 9000 random database (request_of client sent)).1 in
    (result : IngestResponse) × (filter is_pending (sync_once respond client waiting).1.events
      ≡ filter
          (λ row.
            is_pending row
            && not (sends sent row.event.id && not (is_rejected result row.event.id)))
          waiting.events)
    × All (λ e. is_rejected result e.id ≡ false → IsStored engine next.events e) sent
sync_once_delivered_example =
    sync_once_delivered server engine wire link 9000 random database client waiting faithful
      configured some_waiting succeeds
