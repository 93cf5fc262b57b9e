-- ===== src/Api/Delivered.antt =====
-- internal/sync/client.go with internal/api/server.go and internal/postgres/store.go: a call of the
-- client's `SyncOnce` that this server answers.
use codex_tempo.Common.{
  ℕ, ◌/◌, ◌≡◌, ◌≢◌, refl, sym, ap, ◌∙◌, Bool, true, false, not, ◌&&◌, Option, some, List, [], ◌∷◌,
  arith, All, All-imp, any, filter,
}
use codex_tempo.Common.Text.{Text, text_eq}
use codex_tempo.Domain.{Event}
use codex_tempo.Localdb.{Store}
use codex_tempo.Localdb.Queue.{is_pending, pending_events}
use codex_tempo.Sync
use codex_tempo.Sync.{
  Client, IngestResponse, request_of, is_rejected, handle_response, send, sync_once, batch_size,
}
use codex_tempo.Sync.Delivery.{sends, sync_once-pending}
use codex_tempo.Postgres.{Engine, Database}
use codex_tempo.Postgres.Ingest.{is_event, IngestResult}
use codex_tempo.Postgres.Counts.{IsHandled, is_stored}
use codex_tempo.Postgres.Stored.{ingest_lem}
use codex_tempo.Api.{Server, Wire}
use codex_tempo.Api.Routes.{Random}
use codex_tempo.Api.Accepted.{Link, response_of, IsFaithful, call, post_to, call-Answers}

-- A call that sends events and has no error was answered by a success.
send-success :
    (respond : Sync.Request → Option Sync.Response) (client : Client) (events : List Event)
    (s : Store) (answer : Sync.Response)
    → events ≢ []
    → respond (request_of client events) ≡ some answer
    → (send respond client events s).0 ≡ true
    → answer.status_code / 100 ≡ 2
unfolding send handle_response
send-success respond client [] s answer n p h = absurd (n refl)
send-success respond client (e ∷ events) s answer n p h = ground (arith, p, h)

-- A row of the server's table has the event's id.
abbrev pub IsStored : Engine → List Event → Event → Type 0
IsStored engine rows event =
    (id : Text) × (engine.cast_uuid event.id ≡ some id) × (any (is_event id) rows ≡ true)

handled-IsStored :
    (engine : Engine) (result : IngestResult) (rows : List Event) (event : Event)
    → IsHandled engine result.rejected rows event
    → is_rejected (response_of result) event.id ≡ false
    → IsStored engine rows event
handled-IsStored engine result rows event (IsHandled.is_rejected r) h = ground (arith, r, h)
handled-IsStored engine result rows event (is_stored id c a) h = (id, c, a)

sync_once-sent :
    (respond : Sync.Request → Option Sync.Response) (client : Client) (s : Store)
    → text_eq client.server_url [] ≡ false
    → sync_once respond client s ≡ send respond client (pending_events batch_size s) s
unfolding sync_once
sync_once-sent respond client s e = rw e refl

-- Where the client's request reaches this server as it was sent, a call of `SyncOnce` that sends
-- events and has no error takes from the client's pending events only those of the batch that the
-- server did not reject, and each of them has a row in the server's table `events`.
pub sync_once_delivered :
    (server : Server) (engine : Engine) (wire : Wire) (link : Link) (now : ℕ) (random : Random)
    (db : Database) (client : Client) (s : Store)
    → IsFaithful wire link (request_of client (pending_events batch_size s))
    → text_eq client.server_url [] ≡ false
    → pending_events batch_size s ≢ []
    → (sync_once (post_to server engine wire link now random db) client s).0 ≡ true
    → let batch = pending_events batch_size s in
      let next = (call server engine wire link now random db (request_of client batch)).1 in
      (result : IngestResponse) × (filter is_pending
          (sync_once (post_to server engine wire link now random db) client s).1.events
        ≡ filter
            (λ row.
              is_pending row
              && not (sends batch row.event.id && not (is_rejected result row.event.id)))
            s.events)
      × All (λ e. is_rejected result e.id ≡ false → IsStored engine next.events e) batch
sync_once_delivered server engine wire link now random db client s faithful url some_events h =
    let batch = pending_events batch_size s in
    let respond = post_to server engine wire link now random db in
    let code =
      send-success respond client batch s _ some_events refl
        (ap (λ (x : Bool × Store). x.0) (sym (sync_once-sent respond client s url)) ∙ h) in
    let (result, done, answers) =
      call-Answers server engine wire link now random db (request_of client batch) faithful code in
    let (_, handled) = ingest_lem engine now _ _ db _ result done in
    (
      response_of result,
      sync_once-pending respond client (response_of result) s url answers,
      All-imp (λ e k. handled-IsStored engine result _ e k) batch (unfold request_of in handled),
    )
