-- ===== src/Examples/Intervals.antt =====
-- Two overlapping runs of the README, in minutes after ten o'clock: 0 to 20 and 5 to 25.
use codex_tempo.Common.{
  ℕ, ◌≤◌, ◌<◌, ◌≡◌, refl, ◌↔◌, some, none, List, [], ◌∷◌, arith, ltb, if◌then◌else◌, count, any,
  total,
}
use codex_tempo.Common.Text.{Text, codes, text_eq}
use codex_tempo.Common.Sort.{sort_by}
use codex_tempo.Domain.{Run, completed}
use codex_tempo.Interval.{Interval, clip, interval_less, merge, duration}
use codex_tempo.Interval.Cover.{covers, covers-merge, merge-IsSeparated, IsSeparated}
use codex_tempo.Interval.Canonical.{merge_eq_iff}
use codex_tempo.Interval.Measure.{measure, duration-merge, width}
use codex_tempo.Interval.Summary.{append_to, run_interval, summarize}
use codex_tempo.Interval.Pieces.{under_way, pieces}
use codex_tempo.Interval.Groups.{span}
use codex_tempo.Interval.Filling.{of_project}
use codex_tempo.Interval.Report.{
  busy, summarize-wall_clock, summarize-project_span, summarize_order, summarize-parallelism_peak,
  summarize-parallelism_average,
}

abbrev first : Interval
first = record { start = 0; end = 20 }

abbrev second : Interval
second = record { start = 5; end = 25 }

abbrev both : List Interval
both = second ∷ first ∷ []

merge-both : merge both ≡ record { start = 0; end = 25 } ∷ []
unfolding merge sort_by interval_less
merge-both = refl

abbrev run_of : Text → ℕ → ℕ → Run
run_of project from to = record {
  id = codes "r";
  session_id = codes "s";
  project_id = project;
  started_at = from;
  ended_at = some to;
  last_activity_at = to;
  status = completed;
  model = [];
  reasoning_effort = [];
  input_tokens = 1;
  cached_input_tokens = 0;
  output_tokens = 2;
  reasoning_tokens = 0;
  close_reason = codes "explicit_completion";
  projection_version = 1;
}

abbrev runs : List Run
runs = run_of (codes "a") 0 20 ∷ run_of (codes "b") 5 25 ∷ []

readme :
    let s = summarize runs 0 60 60 in
    (s.agent_time ≡ 40)
    × (s.wall_clock ≡ 25)
    × (s.parallelism_peak ≡ 2)
    × (s.run_count ≡ 2)
    × (s.parallelism_average ≡ some (40, 25))
    × (s.input_tokens ≡ 2)
unfolding summarize merge sort_by interval_less duration clip text_eq append_to
readme = (refl, refl, refl, refl, refl, refl)

covers-merge_example : covers (merge both) 22 ≡ covers both 22
covers-merge_example = covers-merge both 22

merge-IsSeparated_example : IsSeparated (merge both)
merge-IsSeparated_example = merge-IsSeparated both

merge_eq_iff_example :
    (merge both ≡ merge (first ∷ second ∷ []))
    ↔ ((t : ℕ) → covers both t ≡ covers (first ∷ second ∷ []) t)
merge_eq_iff_example = merge_eq_iff both (first ∷ second ∷ [])

duration-merge_example : duration (merge both) ≡ measure (covers both) 0 60
duration-merge_example = duration-merge 0 60 both (omega arith) (omega arith)

summarize-wall_clock_example :
    (summarize runs 0 60 60).wall_clock ≡ measure (λ t. any (under_way 0 60 60 t) runs) 0 60
summarize-wall_clock_example = summarize-wall_clock runs 0 60 60 (omega arith) (omega arith)

summarize-project_span_example :
    span (codes "a") (summarize runs 0 60 60).project_span
    ≡ busy (of_project (codes "a")) runs 0 60 60
summarize-project_span_example =
    summarize-project_span runs 0 60 60 (codes "a") (omega arith) (omega arith)

summarize_order_example :
    ((summarize runs 0 60 60).wall_clock ≤ (summarize runs 0 60 60).agent_time)
    × ((summarize runs 0 60 60).agent_time ≤ (summarize runs 0 60 60).session_agent_time)
    × ((summarize runs 0 60 60).session_agent_time ≡ total width (pieces 0 60 60 runs))
summarize_order_example =
    summarize_order runs 0 60 60 (omega arith) (omega arith)
      (unfold pieces clip run_interval in omega arith)

summarize-parallelism_peak_example :
    ((t : ℕ)
      → 0 ≤ t
      → t < 60
      → count (under_way 0 60 60 t) runs ≤ (summarize runs 0 60 60).parallelism_peak)
    × ((t : ℕ) × (0 ≤ t)
        × (t < 60)
        × ((summarize runs 0 60 60).parallelism_peak ≡ count (under_way 0 60 60 t) runs))
summarize-parallelism_peak_example = summarize-parallelism_peak runs 0 60 60 (omega arith)

summarize-parallelism_average_example : (summarize runs 0 60 60).parallelism_average ≡ (
    if ltb 0 (summarize runs 0 60 60).wall_clock
    then some ((summarize runs 0 60 60).session_agent_time, (summarize runs 0 60 60).wall_clock)
    else none)
summarize-parallelism_average_example =
    summarize-parallelism_average runs 0 60 60 (omega arith) (omega arith)
