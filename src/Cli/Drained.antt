-- ===== src/Cli/Drained.antt =====
-- apps/cli/main.go: the loop of deliveries at the end of `import wakapi`.
use codex_tempo.Common.{
  ℕ, zero, suc, ◌≡◌, ◌≤◌, refl, sym, ◌∙◌, false, Option, List, [], ◌∷◌, map, arith, filter, count,
  total,
}
use codex_tempo.Common.Text.{text_eq}
use codex_tempo.Common.Sort.{sort_by, total-sort_by}
use codex_tempo.Domain.{Event}
use codex_tempo.Localdb.{Store}
use codex_tempo.Localdb.Queue.{is_pending, take, stamp_less, pending_events}
use codex_tempo.Sync
use codex_tempo.Sync.{Client, sync_once}
use codex_tempo.Sync.Rounds.{AcceptsAll, count-map, pending-falls, sync_once-accepted}
use codex_tempo.Cli.Import.{drained, drain}

take-nil : (events : List Event) → take 1 events ≡ [] → total (λ e. 1) events ≡ 0
take-nil [] h = refl
take-nil (e ∷ events) h = ground (arith, h)

-- Where the query for one pending event finds none, none is pending.
none-pending : (s : Store) → pending_events 1 s ≡ [] → count is_pending s.events ≡ 0
unfolding pending_events
none-pending s h =
    let es = map (λ row. row.event) (filter is_pending s.events) in
    count-map s.events
    ∙ sym (total-sort_by stamp_less (λ e. 1) es)
    ∙ take-nil (sort_by stamp_less es) h

data Queue (s : Store) : Type 0 where
  empty : pending_events 1 s ≡ [] → Queue s
  waiting : (e : Event) (rest : List Event) → pending_events 1 s ≡ e ∷ rest → Queue s

queue_of : (s : Store) → (events : List Event) → pending_events 1 s ≡ events → Queue s
queue_of s [] h = empty h
queue_of s (e ∷ rest) h = waiting e rest h

module _ (post : Sync.Request → Option Sync.Response) (client : Client)
    (configured : text_eq client.server_url [] ≡ false) (accepts : AcceptsAll post client) where
  -- The loop ends with an empty queue.
  IsDone : ℕ → Store → Type 0
  IsDone n s = (t : Store) × (drain post client n s ≡ drained t) × (count is_pending t.events ≡ 0)

  IsDone-empty : (n : ℕ) (s : Store) → pending_events 1 s ≡ [] → IsDone n s
  unfolding IsDone drain
  IsDone-empty zero s h = (s, rw (drain, h) refl, none-pending s h)
  IsDone-empty (suc n) s h = (s, rw (drain, h) refl, none-pending s h)

  take-cons :
      (events : List Event) (e : Event) (rest : List Event)
      → take 1 events ≡ e ∷ rest
      → 1 ≤ total (λ x. 1) events
  take-cons [] e rest h = ground (arith, h)
  take-cons (x ∷ events) e rest h = omega arith

  some-pending :
      (s : Store) (e : Event) (rest : List Event)
      → pending_events 1 s ≡ e ∷ rest
      → 1 ≤ count is_pending s.events
  unfolding pending_events
  some-pending s e rest h =
      let es = map (λ row. row.event) (filter is_pending s.events) in
      omega (
        arith,
        take-cons (sort_by stamp_less es) e rest h,
        count-map s.events,
        total-sort_by stamp_less (λ x. 1) es,
      )

  drain-waiting :
      (n : ℕ) (s : Store) (e : Event) (rest : List Event)
      → pending_events 1 s ≡ e ∷ rest
      → drain post client (suc n) s ≡ drain post client n (sync_once post client s).1
  unfolding drain
  drain-waiting n s e rest h =
      rw (drain, h, sync_once-accepted post client configured accepts s) refl

  IsDone-waiting :
      (n : ℕ) (s : Store) (e : Event) (rest : List Event)
      → pending_events 1 s ≡ e ∷ rest
      → IsDone n (sync_once post client s).1
      → IsDone (suc n) s
  unfolding IsDone
  IsDone-waiting n s e rest h (t, d, c) = (t, drain-waiting n s e rest h ∙ d, c)

  drain-IsDone : (n : ℕ) (s : Store) → count is_pending s.events ≤ n → IsDone n s
  drain-IsDone zero s h = elim (queue_of s (pending_events 1 s) refl) [
    | empty q ↦ IsDone-empty zero s q
    | waiting e rest q ↦ absurd (omega (arith, h, some-pending s e rest q))
  ]
  drain-IsDone (suc n) s h = elim (queue_of s (pending_events 1 s) refl) [
    | empty q ↦ IsDone-empty (suc n) s q
    | waiting e rest q ↦ IsDone-waiting n s e rest q (
        drain-IsDone n (sync_once post client s).1
          (omega (arith, h, pending-falls post client configured accepts s)))
  ]

-- With a server configured that takes every event of every request, the loop of deliveries ends without
-- an error, after at most as many rounds as events are pending, and then none is.
pub drain_done :
    (post : Sync.Request → Option Sync.Response) (client : Client) (n : ℕ) (s : Store)
    → text_eq client.server_url [] ≡ false
    → AcceptsAll post client
    → count is_pending s.events ≤ n
    → (t : Store) × (drain post client n s ≡ drained t) × (count is_pending t.events ≡ 0)
unfolding IsDone
drain_done post client n s configured accepts h = drain-IsDone post client configured accepts n s h
