-- ===== src/Interval/Summary.antt =====
-- internal/interval/interval.go: `Summarize`.
-- The map `byProject` is an association list in the order of first use; the program only adds up
-- its values, so Go's order of iteration does not show. `ParallelismAverage` is a quotient of
-- floats: the model keeps its two numbers, and `none` is 0.
use codex_tempo.Common.{
  ℕ, ◌+◌, ◌-◌, Bool, true, false, not, ◌&&◌, Option, none, some, List, [], ◌∷◌, ◌++◌, ltb, ◌==◌,
  if◌then◌else◌,
}
use codex_tempo.Common.Text.{Text, text_eq}
use codex_tempo.Common.Sort.{sort_by}
use codex_tempo.Common.Word.{add64, mul64, lt64, time_sub}
use codex_tempo.Domain.{Run}
use codex_tempo.Interval.{Interval, clip, merge, duration}

pub record Summary : Type 0 where
  pub agent_time : ℕ
  pub session_agent_time : ℕ
  pub wall_clock : ℕ
  pub project_span : List (Text × ℕ)
  pub parallelism_peak : ℕ
  pub parallelism_average : Option (ℕ × ℕ)
  pub run_count : ℕ
  pub input_tokens : ℕ
  pub cached_input_tokens : ℕ
  pub output_tokens : ℕ
  pub reasoning_tokens : ℕ

-- The `delta` of a point: -1 or 1.
pub data Delta : Type 0 where
  leave enter : Delta

pub record Point : Type 0 where
  pub at : ℕ
  pub delta : Delta

abbrev pub delta_lt : Delta → Delta → Bool
delta_lt leave enter = true
delta_lt _ _ = false

-- The `less` of the second call of `sort.Slice`: of two points at one instant the -1 comes first.
unfoldable pub point_less : Point → Point → Bool
point_less a b = if a.at == b.at then delta_lt a.delta b.delta else ltb a.at b.at

-- The variables of the first loop.
pub record Tally : Type 0 where
  pub all : List Interval
  pub by_project : List (Text × List Interval)
  pub points : List Point
  pub run_count : ℕ
  pub session_agent_time : ℕ
  pub input_tokens : ℕ
  pub cached_input_tokens : ℕ
  pub output_tokens : ℕ
  pub reasoning_tokens : ℕ

abbrev pub no_tally : Tally
no_tally = record {
  all = [];
  by_project = [];
  points = [];
  run_count = 0;
  session_agent_time = 0;
  input_tokens = 0;
  cached_input_tokens = 0;
  output_tokens = 0;
  reasoning_tokens = 0;
}

-- `byProject[key] = append(byProject[key], iv)`
unfoldable pub append_to :
    Text → Interval → List (Text × List Interval) → List (Text × List Interval)
append_to key iv [] = (key, iv ∷ []) ∷ []
append_to key iv ((k, l) ∷ m) =
    if text_eq k key then (k, l ++ iv ∷ []) ∷ m else (k, l) ∷ append_to key iv m

unfoldable pub add_tokens : Run → Tally → Tally
add_tokens run t = record t {
  input_tokens = add64 t.input_tokens run.input_tokens;
  cached_input_tokens = add64 t.cached_input_tokens run.cached_input_tokens;
  output_tokens = add64 t.output_tokens run.output_tokens;
  reasoning_tokens = add64 t.reasoning_tokens run.reasoning_tokens;
}

-- A run that has not ended counts up to now.
unfoldable pub run_interval : ℕ → Run → Interval
run_interval now run = record {
  start = run.started_at;
  end = elim run.ended_at [ none ↦ now | some at ↦ at ];
}

unfoldable pub add_interval : Run → Interval → Tally → Tally
add_interval run iv t = record t {
  all = t.all ++ iv ∷ [];
  by_project = append_to run.project_id iv t.by_project;
  points =
      t.points
      ++ record { at = iv.start; delta = enter } ∷ record { at = iv.end; delta = leave } ∷ [];
  run_count = add64 t.run_count 1;
  session_agent_time = add64 t.session_agent_time (time_sub iv.end iv.start);
}

-- A run of no duration inside the window gives its tokens alone.
unfoldable pub is_instant_within : Interval → ℕ → ℕ → Bool
is_instant_within iv from to = (iv.start == iv.end) && (not (ltb iv.start from) && ltb iv.start to)

-- One round of the first loop.
unfoldable pub visit : ℕ → ℕ → ℕ → Tally → Run → Tally
unfolding add_tokens add_interval run_interval is_instant_within
visit from to now t run =
    let whole = run_interval now run in
    let (iv, ok) = clip whole from to in
    if ok
    then add_tokens run (add_interval run iv t)
    else (if is_instant_within whole from to then add_tokens run t else t)

unfoldable pub visit_all : ℕ → ℕ → ℕ → Tally → List Run → Tally
unfolding visit
visit_all from to now t [] = t
visit_all from to now t (run ∷ rest) = visit_all from to now (visit from to now t run) rest

unfoldable pub project_spans : List (Text × List Interval) → List (Text × ℕ)
project_spans [] = []
project_spans ((key, values) ∷ m) = (key, duration (merge values)) ∷ project_spans m

unfoldable pub add_spans : ℕ → List (Text × ℕ) → ℕ
add_spans acc [] = acc
add_spans acc ((key, span) ∷ m) = add_spans (add64 acc span) m

-- The variables of the last loop. `active` never falls below 0 (`Sweep.sweep_peak` rests on it), so
-- truncated subtraction is exact.
pub record Sweep : Type 0 where
  pub active : ℕ
  pub peak : ℕ
  pub weighted : ℕ

abbrev pub apply_delta : Delta → ℕ → ℕ
apply_delta enter n = n + 1
apply_delta leave n = n - 1

-- One round; `previous` is the instant of the point before, if there is one.
unfoldable pub sweep_point : Option ℕ → Point → Sweep → Sweep
sweep_point previous p s =
    let active = apply_delta p.delta s.active in
    record {
      active = active;
      peak = if ltb s.peak active then active else s.peak;
      weighted = elim previous [
        | none ↦ s.weighted
        | some at ↦ add64 s.weighted (mul64 s.active (time_sub p.at at))
      ];
    }

unfoldable pub sweep : Option ℕ → Sweep → List Point → Sweep
unfolding sweep_point
sweep previous s [] = s
sweep previous s (p ∷ rest) = sweep (some p.at) (sweep_point previous p s) rest

abbrev pub no_sweep : Sweep
no_sweep = record { active = 0; peak = 0; weighted = 0 }

unfoldable pub summarize : List Run → ℕ → ℕ → ℕ → Summary
unfolding visit_all project_spans add_spans sweep point_less
summarize runs from to now =
    let t = visit_all from to now no_tally runs in
    let wall_clock = duration (merge t.all) in
    let spans = project_spans t.by_project in
    let s = sweep none no_sweep (sort_by point_less t.points) in
    record {
      agent_time = add_spans 0 spans;
      session_agent_time = t.session_agent_time;
      wall_clock = wall_clock;
      project_span = spans;
      parallelism_peak = s.peak;
      parallelism_average = if lt64 0 wall_clock then some (s.weighted, wall_clock) else none;
      run_count = t.run_count;
      input_tokens = t.input_tokens;
      cached_input_tokens = t.cached_input_tokens;
      output_tokens = t.output_tokens;
      reasoning_tokens = t.reasoning_tokens;
    }
