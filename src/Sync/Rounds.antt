-- ===== src/Sync/Rounds.antt =====
-- internal/sync/client.go: repeated calls of `SyncOnce`, with a server that accepts every event and
-- with one that rejects every event.
use codex_tempo.Common.{
  ℕ, zero, suc, ◌+◌, ◌-◌, ◌≡◌, ◌≤◌, refl, Bool, true, false, not, ◌&&◌, Option, List, [], ◌∷◌, map,
  arith, filter, count, total, length, All, if◌then◌else◌, ap, sym, ◌∙◌,
}
use codex_tempo.Common.Text.{Text, text_eq, text_eq_iff, text_eq_refl}
use codex_tempo.Common.Sort.{sort_by, total-sort_by}
use codex_tempo.Domain.{Event}
use codex_tempo.Localdb.{Row, Store}
use codex_tempo.Localdb.Queue.{
  is_pending, take, stamp_less, pending_events, mark_acknowledged, mark_rows,
}
use codex_tempo.Sync.{
  Client, IngestResponse, Request, Response, Round, is_rejected, request_of, acknowledged_ids, send,
  sync_once, batch_size, next_delay, run_rounds, run, loop_interval,
}
use codex_tempo.Sync.Delivery.{sends, Answers, handle-Answers, sync_once-pending}

-- Calls of `SyncOnce`, one after another.
unfoldable pub rounds : (Request → Option Response) → Client → ℕ → Store → Store
rounds post client zero s = s
rounds post client (suc n) s = rounds post client n (sync_once post client s).1

-- The server takes every event of every request.
abbrev pub AcceptsAll : (Request → Option Response) → Client → Type 0
AcceptsAll post client =
    (events : List Event)
    → (result : IngestResponse) × Answers post (request_of client events) result
      × (result.rejected ≡ [])

count-filter : (p : Row → Bool) (rows : List Row) → count p rows ≡ length (filter p rows)
count-filter p [] = refl
count-filter p (r ∷ rows) = ground (arith, count-filter p rows)

abbrev left_after : List Event → Row → Bool
left_after batch row = is_pending row && not (sends batch row.event.id)

-- One id of the batch is enough for the number of pending rows to fall.
count-left :
    (batch : List Event) (id : Text) (rows : List Row)
    → sends batch id ≡ true
    → count (left_after batch) rows
        + count (λ e. text_eq e.id id) (map (λ row. row.event) (filter is_pending rows))
      ≤ count is_pending rows
count-left batch id [] h = omega arith
count-left batch id (r ∷ rows) h =
    ground (arith, count-left batch id rows h, text_eq_iff r.event.id id)

left-rejects :
    (result : IngestResponse) (batch : List Event) (rows : List Row)
    → result.rejected ≡ []
    → filter
        (λ row.
          is_pending row && not (sends batch row.event.id && not (is_rejected result row.event.id)))
        rows
      ≡ filter (left_after batch) rows
left-rejects result batch [] e = refl
left-rejects result batch (r ∷ rows) e = rw e (ground (arith, left-rejects result batch rows e))

pub count-map :
    (rows : List Row)
    → count is_pending rows ≡ total (λ e. 1) (map (λ row. row.event) (filter is_pending rows))
count-map [] = refl
count-map (r ∷ rows) = ground (arith, count-map rows)

left_le :
    (batch : List Event) (rows : List Row) → count (left_after batch) rows ≤ count is_pending rows
left_le batch [] = omega arith
left_le batch (r ∷ rows) = ground (arith, left_le batch rows)

abbrev pending_sorted : List Row → List Event
pending_sorted rows = sort_by stamp_less (map (λ row. row.event) (filter is_pending rows))

count-batch :
    (rows : List Row) (sorted : List Event)
    → sorted ≡ pending_sorted rows
    → count (left_after (take batch_size sorted)) rows ≤ count is_pending rows - 1
count-batch rows [] e =
    let es = map (λ row. row.event) (filter is_pending rows) in
    let none : total (λ e. 1) es ≡ 0 =
      sym (total-sort_by stamp_less (λ e. 1) es) ∙ ap (total (λ e. 1)) (sym e) in
    omega (arith, left_le [] rows, count-map rows, none)
count-batch rows (x ∷ sorted) e =
    let es = map (λ row. row.event) (filter is_pending rows) in
    let same = total-sort_by stamp_less (λ y. if text_eq y.id x.id then 1 else 0) es in
    let some : 1 ≤ count (λ y. text_eq y.id x.id) es =
      rw (sym same) (rw (sym e) (rw (text_eq_refl x.id) (omega arith))) in
    omega (
      arith,
      some,
      count-left (take batch_size (x ∷ sorted)) x.id rows (rw (text_eq_refl x.id) refl),
    )

-- The server answers the oldest pending events, of which there is one, by rejecting them all.
pub record RejectsBatch (post : Request → Option Response) (client : Client) (s : Store)
    : Type 0 where
  pub result : IngestResponse
  pub answer : Answers post (request_of client (pending_events batch_size s)) result
  pub rejects : All (λ e. is_rejected result e.id ≡ true) (pending_events batch_size s)
  pub some_pending : 1 ≤ length (pending_events 1 s)

module _ (post : Request → Option Response) (client : Client)
    (configured : text_eq client.server_url [] ≡ false) where
  module _ (accepts : AcceptsAll post client) where
    send-accepted : (events : List Event) (s : Store) → (send post client events s).0 ≡ true
    unfolding send
    send-accepted [] s = refl
    send-accepted (e ∷ events) s =
        let (result, a, none) = accepts (e ∷ events) in
        rw (a.posted, handle-Answers a.response result (e ∷ events) s a.success a.body) refl

    pub pending-falls :
        (s : Store)
        → count is_pending (sync_once post client s).1.events ≤ count is_pending s.events - 1
    unfolding pending_events
    pending-falls s =
        let batch = pending_events batch_size s in
        let a = accepts batch in
        rw (count-filter is_pending (sync_once post client s).1.events) (
          rw (sync_once-pending post client a.0 s configured a.1) (
            rw (left-rejects a.0 batch s.events a.2) (
              rw (sym (count-filter (left_after batch) s.events))
                (count-batch s.events (pending_sorted s.events) refl))))

    -- With a server configured that takes every event of every request, no event is pending after as
    -- many calls of `SyncOnce` as events were pending, or more.
    pub rounds_done :
        (n : ℕ) (s : Store)
        → count is_pending s.events ≤ n
        → count is_pending (rounds post client n s).events ≡ 0
    unfolding rounds
    rounds_done zero s h = omega (arith, h)
    rounds_done (suc n) s h =
        rounds_done n (sync_once post client s).1 (omega (arith, h, pending-falls s))

    -- Such a call has no error.
    pub sync_once-accepted : (s : Store) → (sync_once post client s).0 ≡ true
    unfolding sync_once
    sync_once-accepted s = rw configured (send-accepted (pending_events batch_size s) s)

  no-acknowledged :
      (result : IngestResponse) (events : List Event)
      → All (λ e. is_rejected result e.id ≡ true) events
      → acknowledged_ids result events ≡ []
  unfolding acknowledged_ids
  no-acknowledged result [] a = refl
  no-acknowledged result (e ∷ events) a = ground (arith, a.0, no-acknowledged result events a.1)

  send-rejected :
      (result : IngestResponse) (events : List Event) (s : Store)
      → Answers post (request_of client events) result
      → All (λ e. is_rejected result e.id ≡ true) events
      → send post client events s ≡ (true, s)
  unfolding send
  send-rejected result [] s a r = refl
  send-rejected result (e ∷ events) s a r =
      rw
        (
          a.posted,
          handle-Answers a.response result (e ∷ events) s a.success a.body,
          no-acknowledged result (e ∷ events) r,
        )
        (unfold mark_acknowledged in unfold mark_rows in refl)

  sync_once-rejected :
      (s : Store) → RejectsBatch post client s → sync_once post client s ≡ (true, s)
  unfolding sync_once
  sync_once-rejected s r =
      rw configured (send-rejected r.result (pending_events batch_size s) s r.answer r.rejects)

  no_delay :
      (interval delay jitter : ℕ) (s : Store)
      → RejectsBatch post client s
      → next_delay interval delay jitter (true, s) ≡ 0
  unfolding next_delay
  no_delay interval delay jitter s r = ground (arith, r.some_pending)

run_rounds-rejected :
    (client : Client) (interval : ℕ) (rounds : List Round) (s : Store)
    → text_eq client.server_url [] ≡ false
    → All (λ r. RejectsBatch r.post client s) rounds
    → run_rounds client interval 0 rounds s ≡ (0 ∷ map (λ r. 0) rounds, s)
unfolding run_rounds
run_rounds-rejected client interval [] s configured a = refl
run_rounds-rejected client interval (round ∷ rest) s configured a =
    rw
      (
        sync_once-rejected round.post client configured s a.0,
        no_delay round.post client configured interval 0 round.jitter s a.0,
        run_rounds-rejected client interval rest s configured a.1,
      )
      refl

-- Where a server is configured that in each round answers by success and rejects each of the oldest
-- pending events, and there is one, the loop calls it again and again with no delay at all, however
-- long it runs, and the store stays as it is.
pub run-rejected :
    (client : Client) (interval : ℕ) (rounds : List Round) (s : Store)
    → text_eq client.server_url [] ≡ false
    → All (λ r. RejectsBatch r.post client s) rounds
    → run client interval rounds s ≡ (0 ∷ map (λ r. 0) rounds, s)
unfolding run loop_interval
run-rejected client interval rounds s configured a =
    run_rounds-rejected client (loop_interval interval) rounds s configured a
