-- ===== src/Sync/Delivery.antt =====
-- internal/sync/client.go: what a call of `SyncOnce` does to the events of the store.
use codex_tempo.Common.{
  ◌≡◌, refl, inl, inr, Bool, true, false, not, ◌&&◌, Option, none, some, List, [], ◌∷◌, map, arith,
  any, filter, ◌==◌, ◌/◌, if◌then◌else◌, Bool-cases, ◌∙◌,
}
use codex_tempo.Common.Text.{Text, text_eq, text_eq_iff}
use codex_tempo.Domain.{Event}
use codex_tempo.Localdb.{Row, Store}
use codex_tempo.Localdb.Queue.{
  is_pending, acknowledge, update_where, mark_rows, mark_acknowledged, pending_events,
}
use codex_tempo.Sync.{
  Client, IngestResponse, Request, Response, is_rejected, request_of, acknowledged_ids,
  handle_response, send, sync_once, batch_size,
}

abbrev pub names : List Text → Text → Bool
names ids id = any (λ i. text_eq id i) ids

events-update :
    (p : Row → Bool) (rows : List Row)
    → map (λ row. row.event) (update_where p acknowledge rows) ≡ map (λ row. row.event) rows
unfolding update_where acknowledge
events-update p [] = refl
events-update p (row ∷ rows) = ground (arith, events-update p rows)

pub events-mark_rows :
    (ids : List Text) (rows : List Row)
    → map (λ row. row.event) (mark_rows ids rows) ≡ map (λ row. row.event) rows
unfolding mark_rows
events-mark_rows [] rows = refl
events-mark_rows (id ∷ ids) rows =
    events-mark_rows ids (update_where (λ row. text_eq row.event.id id) acknowledge rows)
    ∙ events-update (λ row. text_eq row.event.id id) rows

pending-update :
    (id : Text) (q : Text → Bool) (rows : List Row)
    → filter
        (λ row. is_pending row && not (q row.event.id))
        (update_where (λ row. text_eq row.event.id id) acknowledge rows)
      ≡ filter
          (λ row. is_pending row && not (if text_eq row.event.id id then true else q row.event.id))
          rows
unfolding update_where acknowledge
pending-update id q [] = refl
pending-update id q (row ∷ rows) = ground (arith, pending-update id q rows)

no-names : (rows : List Row) → filter is_pending rows ≡ filter (λ row. is_pending row && true) rows
no-names [] = refl
no-names (row ∷ rows) = ground (arith, no-names rows)

-- The rows still pending after some ids are acknowledged.
pub pending-mark_rows :
    (ids : List Text) (rows : List Row)
    → filter is_pending (mark_rows ids rows)
      ≡ filter (λ row. is_pending row && not (names ids row.event.id)) rows
unfolding mark_rows
pending-mark_rows [] rows = no-names rows
pending-mark_rows (id ∷ ids) rows =
    pending-mark_rows ids (update_where (λ row. text_eq row.event.id id) acknowledge rows)
    ∙ pending-update id (names ids) rows

-- The call's outcome keeps the events.
record Keeps (s : Store) (r : Bool × Store) : Type 0 where
  same : map (λ row. row.event) r.1.events ≡ map (λ row. row.event) s.events
  undone : r.0 ≡ false → r.1 ≡ s

mark-Keeps : (ids : List Text) (s : Store) → Keeps s (true, mark_acknowledged ids s)
unfolding mark_acknowledged
mark-Keeps ids s = record { same = events-mark_rows ids s.events; undone = λ e. cc }

same-Keeps : (b : Bool) (s : Store) → Keeps s (b, s)
same-Keeps b s = record { same = refl; undone = λ e. refl }

decoded-Keeps :
    (o : Option IngestResponse) (events : List Event) (s : Store)
    → Keeps s (elim o [
      | none ↦ (false, s)
      | some result ↦ (true, mark_acknowledged (acknowledged_ids result events) s)
    ])
decoded-Keeps none events s = same-Keeps false s
decoded-Keeps (some result) events s = mark-Keeps (acknowledged_ids result events) s

handle-Keeps :
    (o : Option Response) (events : List Event) (s : Store) → Keeps s (handle_response o events s)
unfolding handle_response
handle-Keeps none events s = same-Keeps false s
handle-Keeps (some response) events s = elim (Bool-cases (response.status_code / 100 == 2)) [
  | inl e ↦ rw e (decoded-Keeps response.decoded events s)
  | inr e ↦ rw e (same-Keeps false s)
]

send-Keeps :
    (post : Request → Option Response) (client : Client) (events : List Event) (s : Store)
    → Keeps s (send post client events s)
unfolding send
send-Keeps post client [] s = same-Keeps true s
send-Keeps post client (e ∷ events) s =
    handle-Keeps (post (request_of client (e ∷ events))) (e ∷ events) s

keeps :
    (post : Request → Option Response) (client : Client) (s : Store)
    → Keeps s (sync_once post client s)
unfolding sync_once
keeps post client s = elim (Bool-cases (text_eq client.server_url [])) [
  | inl e ↦ rw e (same-Keeps true s)
  | inr e ↦ rw e (send-Keeps post client (pending_events batch_size s) s)
]

-- With any server, a call of `SyncOnce` keeps the events of the store and their order, and one that
-- returns an error leaves the store as it was.
pub sync_once_keeps :
    (post : Request → Option Response) (client : Client) (s : Store)
    → (map (λ row. row.event) (sync_once post client s).1.events ≡ map (λ row. row.event) s.events)
      × ((sync_once post client s).0 ≡ false → (sync_once post client s).1 ≡ s)
sync_once_keeps post client s = let k = keeps post client s in (k.same, k.undone)

abbrev pub sends : List Event → Text → Bool
sends events id = any (λ e. text_eq id e.id) events

-- What is acknowledged: the events sent whose id is not rejected.
names-acknowledged :
    (result : IngestResponse) (events : List Event) (id : Text)
    → names (acknowledged_ids result events) id ≡ (sends events id && not (is_rejected result id))
unfolding acknowledged_ids
names-acknowledged result [] id = refl
names-acknowledged result (e ∷ events) id =
    ground (arith, names-acknowledged result events id, text_eq_iff id e.id)

-- The server's answer to this request is a success with a result.
pub record Answers (post : Request → Option Response) (request : Request) (result : IngestResponse)
    : Type 0 where
  pub response : Response
  pub posted : post request ≡ some response
  pub success : response.status_code / 100 ≡ 2
  pub body : response.decoded ≡ some result

pub handle-Answers :
    (response : Response) (result : IngestResponse) (events : List Event) (s : Store)
    → response.status_code / 100 ≡ 2
    → response.decoded ≡ some result
    → handle_response (some response) events s
      ≡ (true, mark_acknowledged (acknowledged_ids result events) s)
unfolding handle_response
handle-Answers response result events s c e = ground (arith, c, e)

still-pending :
    (result : IngestResponse) (events : List Event) (rows : List Row)
    → filter
        (λ row. is_pending row && not (names (acknowledged_ids result events) row.event.id))
        rows
      ≡ filter
          (λ row.
            is_pending row
            && not (sends events row.event.id && not (is_rejected result row.event.id)))
          rows
still-pending result events [] = refl
still-pending result events (row ∷ rows) =
    rw (names-acknowledged result events row.event.id)
      (ground (arith, still-pending result events rows))

send-pending :
    (post : Request → Option Response) (client : Client) (result : IngestResponse)
    (events : List Event) (s : Store)
    → Answers post (request_of client events) result
    → filter is_pending (send post client events s).1.events
      ≡ filter
          (λ row.
            is_pending row
            && not (sends events row.event.id && not (is_rejected result row.event.id)))
          s.events
unfolding send
send-pending post client result [] s a = no-names s.events
send-pending post client result (e ∷ events) s a =
    rw (a.posted, handle-Answers a.response result (e ∷ events) s a.success a.body)
      (unfold mark_acknowledged in
        (pending-mark_rows (acknowledged_ids result (e ∷ events)) s.events
          ∙ still-pending result (e ∷ events) s.events))

-- Where a server is configured and answers the request with the oldest pending events by success, the
-- rows pending afterwards are those that were pending, less those sent and not rejected.
pub sync_once-pending :
    (post : Request → Option Response) (client : Client) (result : IngestResponse) (s : Store)
    → text_eq client.server_url [] ≡ false
    → Answers post (request_of client (pending_events batch_size s)) result
    → filter is_pending (sync_once post client s).1.events
      ≡ filter
          (λ row.
            is_pending row
            && not (
                sends (pending_events batch_size s) row.event.id
                && not (is_rejected result row.event.id)))
          s.events
unfolding sync_once
sync_once-pending post client result s e a =
    rw e (send-pending post client result (pending_events batch_size s) s a)
