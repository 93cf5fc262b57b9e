-- ===== src/Interval/Report.antt =====
-- What the numbers of `Summarize` say of the runs.
use codex_tempo.Common.{
  ℕ, ◌+◌, ◌-◌, ◌≤◌, ◌<◌, ◌%◌, ◌≡◌, refl, sym, ap, ◌∙◌, inl, inr, Bool, none, some, List, [], ◌∷◌,
  arith, ltb, if◌then◌else◌, total, count, any, filter, All, All-imp,
}
use native.Mathlib.Decide.{dec_lt}
use codex_tempo.Common.Sort.{sort_by}
use codex_tempo.Common.Text.{Text}
use codex_tempo.Common.Word.{int64_mod, max_int64, lt64}
use codex_tempo.Domain.{Run}
use codex_tempo.Interval.{Interval, merge, duration}
use codex_tempo.Interval.Cover.{holds, covers, any-count}
use codex_tempo.Interval.Measure.{
  measure, measure_ext, measure-le, width, IsWithin, duration-merge, add_durations-total,
}
use codex_tempo.Interval.Summary.{no_tally, visit_all, summarize, no_sweep, point_less, sweep}
use codex_tempo.Interval.Sweep.{points_of, sweep_bound, sweep_reached}
use codex_tempo.Interval.Weight.{weighted-sweep}
use codex_tempo.Interval.Pieces.{
  pieces, pieces-proper, pieces-IsWithin, visit_all-all, visit_all-points, visit_all-session,
  under_way, count-pieces,
}
use codex_tempo.Interval.Groups.{
  group, span, span-project_spans, covers_some, span_sum, add_spans-span_sum, span_sum-le-held,
  covers_some-le-span_sum,
}
use codex_tempo.Interval.Filling.{
  of_project, group-visit_all, held-visit_all, covers-visit_all, visit_all-IsGroupsWithin,
}

-- The nanoseconds of the window in which a run that passes the test is under way.
pub busy : (Run → Bool) → List Run → ℕ → ℕ → ℕ → ℕ
busy p runs from to now =
    measure (λ t. any (under_way from to now t) (filter p runs)) from (to - from)

count_after :
    (from n t : ℕ) (l : List Interval)
    → from + n ≤ t
    → All (IsWithin from n) l
    → count (λ iv. holds iv t) l ≡ 0
count_after from n t [] h a = refl
count_after from n t (iv ∷ l) h a = ground (arith, count_after from n t l h a.1)

module _ (runs : List Run) (from to now : ℕ) (ordered : from ≤ to) where
  covers-pieces :
      (l : List Run) (t : ℕ)
      → from ≤ t
      → t < to
      → covers (pieces from to now l) t ≡ any (under_way from to now t) l
  covers-pieces l t h k =
      any-count (λ iv. holds iv t) (pieces from to now l)
      ∙ ap (λ (n : ℕ). ltb 0 n) (count-pieces from to now l t h k)
      ∙ sym (any-count (under_way from to now t) l)

  measure-pieces :
      (l : List Run)
      → measure (covers (pieces from to now l)) from (to - from)
        ≡ measure (λ t. any (under_way from to now t) l) from (to - from)
  measure-pieces l = measure_ext _ _ from (to - from) (λ t h k. covers-pieces l t h (omega arith))

  module _ (small : to - from ≤ max_int64) where
    duration-pieces :
        (l : List Run)
        → duration (merge (pieces from to now l))
          ≡ measure (λ t. any (under_way from to now t) l) from (to - from)
    duration-pieces l =
        duration-merge from (to - from) (pieces from to now l) small
          (pieces-IsWithin from to now ordered l)
        ∙ measure-pieces l

    session_eq :
        (summarize runs from to now).session_agent_time
        ≡ total width (pieces from to now runs) % int64_mod
    unfolding summarize
    session_eq =
        visit_all-session from to now no_tally runs
        ∙ add_durations-total from (to - from) 0 (pieces from to now runs) small
            (pieces-IsWithin from to now ordered runs) (pieces-proper from to now runs)
            (omega arith)
        ∙ omega arith

    agent_eq :
        (summarize runs from to now).agent_time
        ≡ span_sum from (to - from) small (visit_all from to now no_tally runs).by_project
          % int64_mod
    unfolding summarize
    agent_eq =
        add_spans-span_sum from (to - from) small 0 (visit_all from to now no_tally runs).by_project
          (visit_all-IsGroupsWithin from to now no_tally runs ordered tt) (omega arith)
        ∙ omega arith

    wall-le-spans :
        measure (λ t. any (under_way from to now t) runs) from (to - from)
        ≤ span_sum from (to - from) small (visit_all from to now no_tally runs).by_project
    wall-le-spans = omega (
      arith,
      measure_ext (covers_some (visit_all from to now no_tally runs).by_project)
          (covers (pieces from to now runs)) from (to - from)
          (λ t h k. covers-visit_all from to now no_tally runs t),
      measure-pieces runs,
      covers_some-le-span_sum from (to - from) small
          (visit_all from to now no_tally runs).by_project,
    )

    spans-le-session :
        span_sum from (to - from) small (visit_all from to now no_tally runs).by_project
        ≤ total width (pieces from to now runs)
    spans-le-session = omega (
      arith,
      held-visit_all from to now no_tally runs,
      span_sum-le-held from (to - from) small (visit_all from to now no_tally runs).by_project
          (visit_all-IsGroupsWithin from to now no_tally runs ordered tt),
    )

-- In a window that a Duration can measure, `WallClock` is the number of its nanoseconds in which
-- at least one run is under way.
pub summarize-wall_clock :
    (runs : List Run) (from to now : ℕ)
    → from ≤ to
    → to - from ≤ max_int64
    → (summarize runs from to now).wall_clock
      ≡ measure (λ t. any (under_way from to now t) runs) from (to - from)
unfolding summarize
summarize-wall_clock runs from to now h small =
    rw (visit_all-all from to now no_tally runs) (duration-pieces runs from to now h small runs)

-- In a window that a Duration can measure, `ProjectSpan` has for each project the number of nanoseconds in which at least
-- one run of that project is under way (0 where the map has no entry).
pub summarize-project_span :
    (runs : List Run) (from to now : ℕ) (key : Text)
    → from ≤ to
    → to - from ≤ max_int64
    → span key (summarize runs from to now).project_span ≡ busy (of_project key) runs from to now
unfolding summarize busy group
summarize-project_span runs from to now key h small =
    span-project_spans key (visit_all from to now no_tally runs).by_project
    ∙ rw (group-visit_all from to now key no_tally runs)
        (duration-pieces runs from to now h small (filter (of_project key) runs))

-- In a window that a Duration can measure, if the runs' durations in it add up to an int64, then wall clock ≤ agent time ≤
-- session agent time, and the last is the sum of the durations.
pub summarize_order :
    (runs : List Run) (from to now : ℕ)
    → from ≤ to
    → to - from ≤ max_int64
    → total width (pieces from to now runs) ≤ max_int64
    → ((summarize runs from to now).wall_clock ≤ (summarize runs from to now).agent_time)
      × ((summarize runs from to now).agent_time ≤ (summarize runs from to now).session_agent_time)
      × ((summarize runs from to now).session_agent_time ≡ total width (pieces from to now runs))
summarize_order runs from to now h small fits =
    let wall = summarize-wall_clock runs from to now h small in
    let agent = agent_eq runs from to now h small in
    let session = session_eq runs from to now h small in
    let below = wall-le-spans runs from to now h small in
    let above = spans-le-session runs from to now h small in (omega arith, omega arith, omega arith)

module _ (runs : List Run) (from to now : ℕ) where
  peak-bound :
      (t : ℕ)
      → from ≤ t
      → t < to
      → count (under_way from to now t) runs
        ≤ (sweep none no_sweep (sort_by point_less (points_of (pieces from to now runs)))).peak
  peak-bound t h k = omega (
    arith,
    count-pieces from to now runs t h k,
    sweep_bound (pieces from to now runs) (pieces-proper from to now runs) t,
  )

  peak-reached :
      from < to
      → (t : ℕ) × (from ≤ t)
        × (t < to)
        × ((sweep none no_sweep (sort_by point_less (points_of (pieces from to now runs)))).peak
            ≡ count (under_way from to now t) runs)
  peak-reached h =
      let within = pieces-IsWithin from to now (omega arith) runs in
      elim (sweep_reached (pieces from to now runs) (pieces-proper from to now runs) from
        (All-imp (λ iv w. w.0) (pieces from to now runs) within)) [
          | inl e ↦ (from, omega arith, h, omega (arith, peak-bound from (omega arith) h))
          | inr (t, later, e) ↦ elim (dec_lt t to) [
            | yes k ↦ (t, later, k, e ∙ count-pieces from to now runs t later k)
            | no k ↦ (
              from,
              omega arith,
              h,
              omega (
                arith,
                peak-bound from (omega arith) h,
                count_after from (to - from) t (pieces from to now runs) (omega arith) within,
              ),
            )
          ]
        ]

-- `ParallelismPeak` is the largest number of runs under way at one instant of the window: no instant
-- has more, and if the window is not empty some instant has as many.
pub summarize-parallelism_peak :
    (runs : List Run) (from to now : ℕ)
    → from < to
    → ((t : ℕ)
        → from ≤ t
        → t < to
        → count (under_way from to now t) runs ≤ (summarize runs from to now).parallelism_peak)
      × ((t : ℕ) × (from ≤ t)
          × (t < to)
          × ((summarize runs from to now).parallelism_peak ≡ count (under_way from to now t) runs))
unfolding summarize
summarize-parallelism_peak runs from to now h =
    rw (visit_all-points from to now no_tally runs)
      (peak-bound runs from to now, peak-reached runs from to now h)

average_lem :
    (runs : List Run) (from to now : ℕ)
    → from ≤ to
    → to - from ≤ max_int64
    → (summarize runs from to now).parallelism_average ≡ (
        if lt64 0 (summarize runs from to now).wall_clock
        then some (
          total width (pieces from to now runs) % int64_mod,
          (summarize runs from to now).wall_clock,
        )
        else none)
unfolding summarize
average_lem runs from to now h small = rw (
  visit_all-points from to now no_tally runs,
  weighted-sweep from (to - from) (pieces from to now runs) small (pieces-proper from to now runs)
      (pieces-IsWithin from to now h runs),
)

-- In a window that a Duration can measure, `ParallelismAverage` is the quotient of session agent
-- time and wall clock where the wall clock is positive, and 0 where it is not.
pub summarize-parallelism_average :
    (runs : List Run) (from to now : ℕ)
    → from ≤ to
    → to - from ≤ max_int64
    → (summarize runs from to now).parallelism_average ≡ (
        if ltb 0 (summarize runs from to now).wall_clock
        then some (
          (summarize runs from to now).session_agent_time,
          (summarize runs from to now).wall_clock,
        )
        else none)
summarize-parallelism_average runs from to now h small = ground (
  arith,
  average_lem runs from to now h small,
  session_eq runs from to now h small,
  summarize-wall_clock runs from to now h small,
  measure-le (λ t. any (under_way from to now t) runs) from (to - from),
)
