-- ===== src/Wakapi/Gaps.antt =====
-- internal/wakapi/client.go: `unixTime` and `Export`. `fetch` is the request for the heartbeats of a day,
-- with `none` for an error, and `parse_date` is `time.Parse` of a date. JSON has no NaN.
use codex_tempo.Common.{
  ℕ, zero, suc, ◌+◌, ◌-◌, ◌*◌, ◌/◌, ltb, Bool, ◌&&◌, Option, none, some, List, [], ◌∷◌, length,
  if◌then◌else◌, ◌==◌,
}
use codex_tempo.Common.Text.{Text, codes, text_eq}
use codex_tempo.Common.Sort.{sort_by}
use codex_tempo.Common.Word.{int64_mod, add64, lt64, time_sub}
use codex_tempo.Localdb.Stamp.{second}
use codex_tempo.Codex.Lines.{trim_space}
use codex_tempo.Wakapi.{Interval, Export}

-- The float64 with the operations that the code uses: `<`, `-`, `*`, the constant 0, the two results of
-- `math.Modf`, `math.Round`, the conversions from and to an int64, and `Seconds` of a Duration.
pub record Float {ℓ} (F : Type ℓ) : Type ℓ where
  pub lt : F → F → Bool
  pub sub : F → F → F
  pub mul : F → F → F
  pub zero : F
  pub modf : F → F × F
  pub round : F → F
  pub of_int64 : ℕ → F
  pub to_int64 : F → ℕ
  pub seconds : ℕ → F

-- 1970-01-01T00:00:00Z
abbrev pub epoch : ℕ
epoch = 62135596800 * second

-- An instant moved by so many units, which may be negative.
abbrev pub move : ℕ → ℕ → ℕ → ℕ
move unit n at = if lt64 n 0 then at - (int64_mod - n) * unit else at + n * unit

-- `time.Unix`
unfoldable pub unix : ℕ → ℕ → ℕ
unix seconds nanoseconds = move 1 nanoseconds (move second seconds epoch)

pub record Heartbeat {ℓ} (F : Type ℓ) : Type ℓ where
  pub time : F
  pub project : Text

module _ {ℓ} {F : Type ℓ} (float : Float F) where
  -- `gap <= 0 || gap >= timeout.Seconds()` is that of numbers: a time is none of the NaNs.
  unfoldable pub is_gap : ℕ → Heartbeat F → Heartbeat F → Bool
  is_gap timeout a b =
      let gap = float.sub b.time a.time in
      float.lt float.zero gap && float.lt gap (float.seconds timeout)

  unfoldable pub unix_time : F → ℕ
  unfolding unix
  unix_time value =
      let (whole, fraction) = float.modf value in
      unix (float.to_int64 whole)
        (float.to_int64 (float.round (float.mul fraction (float.of_int64 second))))

  unfoldable pub project_of : Heartbeat F → Text
  unfolding trim_space
  project_of h =
      let project = trim_space h.project in if text_eq project [] then codes "unknown" else project

  -- The last interval grows, or a new one comes after it.
  unfoldable pub join_interval : Interval → List Interval → List Interval
  join_interval new [] = new ∷ []
  join_interval new (last ∷ []) =
      if text_eq last.project new.project && last.ended_at == new.started_at
      then record last { ended_at = new.ended_at } ∷ []
      else last ∷ new ∷ []
  join_interval new (first ∷ second ∷ rest) = first ∷ join_interval new (second ∷ rest)

  unfoldable pub interval_between : Heartbeat F → Heartbeat F → Interval
  unfolding project_of unix_time
  interval_between a b = record {
    project = project_of a;
    started_at = unix_time a.time;
    ended_at = unix_time b.time;
  }

  unfoldable pub append_interval : Interval → Export → Export
  unfolding join_interval
  append_interval new result = record result {
    intervals = join_interval new result.intervals;
    duration = add64 result.duration (time_sub new.ended_at new.started_at);
  }

  unfoldable pub add_gap : ℕ → Heartbeat F → Heartbeat F → Export → Export
  unfolding is_gap interval_between append_interval
  add_gap timeout a b result =
      if is_gap timeout a b then append_interval (interval_between a b) result else result

  -- The loop over the neighbours.
  unfoldable pub add_gaps : ℕ → List (Heartbeat F) → Export → Export
  unfolding add_gap
  add_gaps timeout [] result = result
  add_gaps timeout (a ∷ []) result = result
  add_gaps timeout (a ∷ b ∷ rest) result = add_gaps timeout (b ∷ rest) (add_gap timeout a b result)

  unfoldable pub add_day : ℕ → List (Heartbeat F) → Export → Export
  unfolding add_gaps
  add_day timeout heartbeats result =
      add_gaps timeout (sort_by (λ a b. float.lt a.time b.time) heartbeats)
        (record result { heartbeats = result.heartbeats + length heartbeats })

  -- The loop over the days, of which there are as many, up to the first error.
  unfoldable pub add_days : ℕ → (ℕ → Option (List (Heartbeat F))) → ℕ → ℕ → Export → Option Export
  unfolding add_day
  add_days timeout fetch zero at result = some result
  add_days timeout fetch (suc n) at result = elim (fetch at) [
    | none ↦ none
    | some heartbeats ↦
        add_days timeout fetch n (at + 86400 * second) (add_day timeout heartbeats result)
  ]

  -- What follows the parsing of the dates.
  unfoldable pub export_days :
      ℕ → (ℕ → Option (List (Heartbeat F))) → Option ℕ → Option ℕ → Text → Text → Option Export
  unfolding add_days
  export_days timeout fetch none end from to = none
  export_days timeout fetch (some start) none from to = none
  export_days timeout fetch (some start) (some end) from to =
      if ltb end start
      then none
      else add_days timeout fetch (suc ((end - start) / (86400 * second))) start
          (record { from = from; to = to; heartbeats = 0; intervals = []; duration = 0 })

  -- `Export`; `range` is the answer with the first and the last date, and `none` an error.
  unfoldable pub export :
      (Text → Option ℕ)
      → Option (Text × Text)
      → (ℕ → Option (List (Heartbeat F)))
      → Text
      → Text
      → ℕ
      → Option Export
  unfolding export_days
  export parse_date none fetch from to timeout = none
  export parse_date (some (first, last)) fetch from to timeout =
      let timeout' = if lt64 0 timeout then timeout else 600 * second in
      let from' = if text_eq from [] then first else from in
      let to' = if text_eq to [] then last else to in
      export_days timeout' fetch (parse_date from') (parse_date to') from' to'
