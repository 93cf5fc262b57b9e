-- ===== src/Sync/Delay.antt =====
-- internal/sync/client.go: how long the loop of `Run` waits.
use codex_tempo.Common.{
  ℕ, ◌+◌, ◌*◌, ◌≡◌, ◌≤◌, ◌<◌, Bool, true, false, List, [], ◌∷◌, arith, ltb, min, if◌then◌else◌, All,
}
use codex_tempo.Localdb.{Store}
use codex_tempo.Localdb.Stamp.{second}
use codex_tempo.Sync.{Client, Round, sync_once, loop_interval, backoff, next_delay, run_rounds, run}

-- Ten minutes and the largest jitter.
abbrev pub delay_limit : ℕ
delay_limit = 600 * second + 999 * 1000000

-- After an error: the interval or the last delay twice over, whichever is longer, at most ten minutes,
-- and the jitter on top.
pub backoff_lem :
    (interval delay jitter : ℕ)
    → interval ≤ delay_limit
    → delay ≤ delay_limit
    → jitter < 1000
    → backoff interval delay jitter
      ≡ min ((if ltb delay interval then interval else delay) * 2) (600 * second) + jitter * 1000000
unfolding backoff
backoff_lem interval delay jitter hi hd hj = ground (arith, hi, hd, hj)

next-bound :
    (interval delay jitter : ℕ) (r : Bool × Store)
    → interval ≤ 600 * second
    → delay ≤ delay_limit
    → jitter < 1000
    → next_delay interval delay jitter r ≤ delay_limit
unfolding next_delay
next-bound interval delay jitter (true, s) hi hd hj = ground (arith, hi)
next-bound interval delay jitter (false, s) hi hd hj =
    ground (arith, hi, hd, hj, backoff_lem interval delay jitter)

loop_interval_bound :
    (interval : ℕ) → interval ≤ 600 * second → loop_interval interval ≤ 600 * second
unfolding loop_interval
loop_interval_bound interval h = ground (arith, h)

run_rounds-delays :
    (client : Client) (interval delay : ℕ) (rounds : List Round) (s : Store)
    → interval ≤ 600 * second
    → delay ≤ delay_limit
    → All (λ r. r.jitter < 1000) rounds
    → All (λ d. d ≤ delay_limit) (run_rounds client interval delay rounds s).0
unfolding run_rounds
run_rounds-delays client interval delay [] s hi hd hj = (hd, tt)
run_rounds-delays client interval delay (round ∷ rest) s hi hd hj =
    let r = sync_once round.post client s in
    (
      hd,
      run_rounds-delays client interval (next_delay interval delay round.jitter r) rest r.1 hi
          (next-bound interval delay round.jitter r hi hd hj.0) hj.1,
    )

-- With an interval of at most ten minutes and jitters below 1000, no delay of the loop is longer than
-- ten minutes and 999 milliseconds, whatever the server answers or fails to answer in each round; and
-- after an error the delay is at least twice the interval, or ten minutes where that is less.
pub run-delays :
    (client : Client) (interval : ℕ) (rounds : List Round) (s : Store)
    → interval ≤ 600 * second
    → All (λ r. r.jitter < 1000) rounds
    → All (λ d. d ≤ delay_limit) (run client interval rounds s).0
      × ((delay jitter : ℕ) (t : Store)
          → delay ≤ delay_limit
          → jitter < 1000
          → min (loop_interval interval * 2) (600 * second)
            ≤ next_delay (loop_interval interval) delay jitter (false, t))
unfolding run next_delay
run-delays client interval rounds s hi hj =
    let bound = loop_interval_bound interval hi in
    (
      run_rounds-delays client (loop_interval interval) 0 rounds s bound (omega arith) hj,
      λ delay jitter t hd h.
          ground (arith, bound, hd, h, backoff_lem (loop_interval interval) delay jitter),
    )
