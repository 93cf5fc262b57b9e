-- ===== src/Sync.antt =====
-- internal/sync/client.go: the delivery of pending events to the server, and the delays of its loop.
-- The server with the transport is the parameter `post`; the errors of the local database are not
-- modelled. A call's error is `false`, and a Duration is an int64 of nanoseconds.
pub mod Delivery
pub mod Rounds
pub mod Delay
use codex_tempo.Common.{
  ℕ, ◌*◌, ◌/◌, Bool, true, false, not, Option, none, some, List, [], ◌∷◌, ◌++◌, map, any, filter,
  ◌==◌, if◌then◌else◌,
}
use codex_tempo.Common.Text.{Text, codes, text_eq}
use codex_tempo.Common.Word.{add64, mul64, lt64}
use codex_tempo.Domain.{Event}
use codex_tempo.Localdb.{Store}
use codex_tempo.Localdb.Stamp.{second}
use codex_tempo.Localdb.Queue.{pending_events, mark_acknowledged}

pub record Client : Type 0 where
  pub server_url : Text
  pub token : Text
  pub machine_id : Text

pub record Rejection : Type 0 where
  pub id : Text
  pub reason : Text

pub record IngestResponse : Type 0 where
  pub accepted : ℕ
  pub duplicates : ℕ
  pub rejected : List Rejection

pub record Request : Type 0 where
  pub url : Text
  pub authorization : Text
  pub machine_id : Text
  pub events : List Event

-- `decoded` is `none` where the body is not the JSON that is wanted.
pub record Response : Type 0 where
  pub status_code : ℕ
  pub decoded : Option IngestResponse

-- `strings.TrimRight(url, "/")`
unfoldable pub trim_slashes : Text → Text
trim_slashes [] = []
trim_slashes (c ∷ url) = elim (trim_slashes url) [
  | [] ↦ if c == 47 then [] else c ∷ []
  | d ∷ rest ↦ c ∷ d ∷ rest
]

unfoldable pub request_of : Client → List Event → Request
unfolding trim_slashes
request_of client events = record {
  url = trim_slashes client.server_url ++ codes "/api/v1/ingest/events";
  authorization = codes "Bearer " ++ client.token;
  machine_id = client.machine_id;
  events = events;
}

abbrev pub is_rejected : IngestResponse → Text → Bool
is_rejected result id = any (λ item. text_eq item.id id) result.rejected

unfoldable pub acknowledged_ids : IngestResponse → List Event → List Text
acknowledged_ids result events =
    map (λ e. e.id) (filter (λ e. not (is_rejected result e.id)) events)

-- What follows the call of the server.
unfoldable pub handle_response : Option Response → List Event → Store → Bool × Store
unfolding acknowledged_ids
handle_response none events s = (false, s)
handle_response (some response) events s =
    if response.status_code / 100 == 2
    then elim response.decoded [
      | none ↦ (false, s)
      | some result ↦ (true, mark_acknowledged (acknowledged_ids result events) s)
    ]
    else (false, s)

unfoldable pub send : (Request → Option Response) → Client → List Event → Store → Bool × Store
unfolding handle_response request_of
send post client [] s = (true, s)
send post client (e ∷ events) s =
    handle_response (post (request_of client (e ∷ events))) (e ∷ events) s

abbrev pub batch_size : ℕ
batch_size = 250

unfoldable pub sync_once : (Request → Option Response) → Client → Store → Bool × Store
unfolding send
sync_once post client s =
    if text_eq client.server_url []
    then (true, s)
    else send post client (pending_events batch_size s) s

unfoldable pub loop_interval : ℕ → ℕ
loop_interval interval = if lt64 0 interval then interval else 30 * second

unfoldable pub backoff : ℕ → ℕ → ℕ → ℕ
backoff interval delay jitter =
    let from = if lt64 delay interval then interval else delay in
    let double = mul64 from 2 in
    add64 (if lt64 double (600 * second) then double else 600 * second) (mul64 jitter 1000000)

-- The delay before the next call, by the success of this one and the store it leaves; `jitter` is
-- the result of `rand.IntN(1000)`.
unfoldable pub next_delay : ℕ → ℕ → ℕ → Bool × Store → ℕ
unfolding backoff
next_delay interval delay jitter (ok, s) =
    if ok
    then elim (pending_events 1 s) [ [] ↦ interval | _ ∷ _ ↦ 0 ]
    else backoff interval delay jitter

-- A round of the loop: the server with the transport as it is at that time, and the jitter.
pub record Round : Type 0 where
  pub post : Request → Option Response
  pub jitter : ℕ

-- The delays that the loop of `Run` waits and the store at its end.
unfoldable pub run_rounds : Client → ℕ → ℕ → List Round → Store → List ℕ × Store
unfolding sync_once next_delay
run_rounds client interval delay [] s = (delay ∷ [], s)
run_rounds client interval delay (round ∷ rest) s =
    let r = sync_once round.post client s in
    let later = run_rounds client interval (next_delay interval delay round.jitter r) rest r.1 in
    (delay ∷ later.0, later.1)

unfoldable pub run : Client → ℕ → List Round → Store → List ℕ × Store
unfolding loop_interval run_rounds
run client interval rounds s = run_rounds client (loop_interval interval) 0 rounds s
