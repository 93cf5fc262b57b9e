-- ===== src/Wakapi/Sums.antt =====
-- internal/wakapi/client.go: the duration of an export and its intervals.
use codex_tempo.Common.{
  ℕ, zero, suc, ◌+◌, ◌-◌, ◌≤◌, ◌≡◌, refl, sym, ap, ◌∙◌, true, Option, none, some, List, [], ◌∷◌,
  arith, All, Bool-cases, Option-cases, inl, inr, ltb, if◌then◌else◌, ◌&&◌, ◌==◌, ◌*◌, ◌/◌,
}
use codex_tempo.Localdb.Stamp.{second}
use codex_tempo.Common.Text.{Text, text_eq}
use codex_tempo.Common.Sort.{sort_by, All-sort_by}
use codex_tempo.Common.Word.{max_int64, add64, lt64, time_sub, time_sub_exact}
use codex_tempo.Wakapi.{Interval, Export}
use codex_tempo.Wakapi.Gaps.{
  epoch, Float, Heartbeat, is_gap, join_interval, interval_between, append_interval, add_gap,
  add_gaps, add_day, add_days, export_days, export,
}
use codex_tempo.Wakapi.Clock.{IsFloat, IsWithin, unix_time_bounds, unix_time_mono}

-- Instants no further from the base than a Duration reaches.
abbrev pub IsNear : ℕ → ℕ → Type 0
IsNear base at = (base ≤ at) × (at ≤ base + max_int64)

abbrev pub IsProper : ℕ → Interval → Type 0
IsProper base i = IsNear base i.started_at × IsNear base i.ended_at × (i.started_at ≤ i.ended_at)

-- The sum of the lengths, in the arithmetic of a Duration.
unfoldable pub lengths : List Interval → ℕ → ℕ
lengths [] sum = sum
lengths (i ∷ is) sum = lengths is (add64 sum (i.ended_at - i.started_at))

length-exact :
    (base : ℕ) (i : Interval)
    → IsProper base i
    → time_sub i.ended_at i.started_at ≡ i.ended_at - i.started_at
length-exact base i (s, e, o) = time_sub_exact i.ended_at i.started_at o (omega (arith, s.0, e.1))

joined-length :
    (base sum : ℕ) (last new : Interval)
    → IsProper base last
    → IsProper base new
    → last.ended_at ≡ new.started_at
    → add64 sum (new.ended_at - last.started_at)
      ≡ add64 (add64 sum (last.ended_at - last.started_at)) (new.ended_at - new.started_at)
joined-length base sum last new (_, _, l) (_, _, n) e = omega (arith, l, n, e)

module _ {ℓ} {F : Type ℓ} (float : Float F) where
  -- Both a joined and a new interval add the length.
  lengths-join_interval :
      (base : ℕ) (new : Interval) (is : List Interval) (sum : ℕ)
      → IsProper base new
      → All (IsProper base) is
      → lengths (join_interval float new is) sum
        ≡ add64 (lengths is sum) (new.ended_at - new.started_at)
  unfolding join_interval lengths
  lengths-join_interval base new [] sum n a = refl
  lengths-join_interval base new (last ∷ []) sum n a =
      ground (arith, joined-length base sum last new a.0 n)
  lengths-join_interval base new (first ∷ second ∷ rest) sum n a =
      lengths-join_interval base new (second ∷ rest) (add64 sum (first.ended_at - first.started_at))
        n a.1

  join_interval-IsProper :
      (base : ℕ) (new : Interval) (is : List Interval)
      → IsProper base new
      → All (IsProper base) is
      → All (IsProper base) (join_interval float new is)
  unfolding join_interval
  join_interval-IsProper base new [] n a = (n, tt)
  join_interval-IsProper base new (last ∷ []) (s, e, o) ((t, f, q), _) =
      elim (Bool-cases (text_eq last.project new.project && last.ended_at == new.started_at)) [
        | inl h ↦ rw h ((t, e, ground (arith, h, q, o)), tt)
        | inr h ↦ rw h ((t, f, q), ((s, e, o), tt))
      ]
  join_interval-IsProper base new (first ∷ second ∷ rest) n a =
      (a.0, join_interval-IsProper base new (second ∷ rest) n a.1)

  -- Its duration is the sum of the lengths of its intervals.
  pub record IsSummed (base : ℕ) (result : Export) : Type 0 where
    pub duration : result.duration ≡ lengths result.intervals 0
    pub proper : All (IsProper base) result.intervals

  append_interval-IsSummed :
      (base : ℕ) (new : Interval) (result : Export)
      → IsProper base new
      → IsSummed base result
      → IsSummed base (append_interval float new result)
  unfolding append_interval
  append_interval-IsSummed base new result n k = record {
    duration =
        ap (add64 result.duration) (length-exact base new n)
        ∙ ap (λ d. add64 d (new.ended_at - new.started_at)) k.duration
        ∙ sym (lengths-join_interval base new result.intervals 0 n k.proper);
    proper = join_interval-IsProper base new result.intervals n k.proper;
  }

  -- The heartbeats of each day have times from 1970 to 2255.
  abbrev pub AreTimely : (ℕ → Option (List (Heartbeat F))) → Type ℓ
  AreTimely fetch =
      (at : ℕ) (hs : List (Heartbeat F)) → fetch at ≡ some hs → All (λ h. IsWithin float h.time) hs

  interval_between-IsProper :
      IsFloat float
      → (a b : Heartbeat F) → IsWithin float a.time
      → IsWithin float b.time
      → float.lt float.zero (float.sub b.time a.time) ≡ true
      → IsProper epoch (interval_between float a b)
  unfolding interval_between
  interval_between-IsProper law a b s t h = (
    unix_time_bounds float law a.time s,
    unix_time_bounds float law b.time t,
    unix_time_mono float law a.time b.time s t (inl (law.sub_positive a.time b.time s t h)),
  )

  module _ (law : IsFloat float) (timeout : ℕ) where
    add_gap-IsSummed :
        (a b : Heartbeat F) (result : Export)
        → IsWithin float a.time
        → IsWithin float b.time
        → IsSummed epoch result
        → IsSummed epoch (add_gap float timeout a b result)
    unfolding add_gap
    add_gap-IsSummed a b result s t k = elim (Bool-cases (is_gap float timeout a b)) [
      | inl h ↦ rw h (
          append_interval-IsSummed epoch (interval_between float a b) result
            (interval_between-IsProper law a b s t (unfold is_gap in ground (arith, h))) k)
      | inr h ↦ rw h k
    ]

    add_gaps-IsSummed :
        (hs : List (Heartbeat F)) (result : Export)
        → All (λ h. IsWithin float h.time) hs
        → IsSummed epoch result
        → IsSummed epoch (add_gaps float timeout hs result)
    unfolding add_gaps
    add_gaps-IsSummed [] result t k = k
    add_gaps-IsSummed (a ∷ []) result t k = k
    add_gaps-IsSummed (a ∷ b ∷ rest) result (s, (t, more)) k =
        add_gaps-IsSummed (b ∷ rest) (add_gap float timeout a b result) (t, more)
          (add_gap-IsSummed a b result s t k)

    add_day-IsSummed :
        (hs : List (Heartbeat F)) (result : Export)
        → All (λ h. IsWithin float h.time) hs
        → IsSummed epoch result
        → IsSummed epoch (add_day float timeout hs result)
    unfolding add_day
    add_day-IsSummed hs result t k =
        let less = λ (a b : Heartbeat F). float.lt a.time b.time in
        add_gaps-IsSummed (sort_by less hs) _ (All-sort_by less (λ h. IsWithin float h.time) hs t)
          (record { duration = k.duration; proper = k.proper })

    add_days-IsSummed :
        (fetch : ℕ → Option (List (Heartbeat F))) (n at : ℕ) (result next : Export)
        → AreTimely fetch
        → IsSummed epoch result
        → add_days float timeout fetch n at result ≡ some next
        → IsSummed epoch next
    unfolding add_days
    add_days-IsSummed fetch zero at result next t k e =
        let q : result ≡ next = ground (arith, e) in rw (← q) k
    add_days-IsSummed fetch (suc n) at result next t k e = elim (Option-cases (fetch at)) [
      | inl f ↦ ground (arith, e, f)
      | inr (hs, f) ↦
          add_days-IsSummed fetch n (at + 86400 * second) (add_day float timeout hs result) next t
            (add_day-IsSummed hs result (t at hs f) k) (ground (arith, e, f))
    ]

    export_days-IsSummed :
        (fetch : ℕ → Option (List (Heartbeat F))) (start end : Option ℕ) (from to : Text)
        (next : Export)
        → AreTimely fetch
        → export_days float timeout fetch start end from to ≡ some next
        → IsSummed epoch next
    unfolding export_days
    export_days-IsSummed fetch none end from to next t e = ground (arith, e)
    export_days-IsSummed fetch (some start) none from to next t e = ground (arith, e)
    export_days-IsSummed fetch (some start) (some end) from to next t e =
        elim (Bool-cases (ltb end start)) [
          | inl h ↦ ground (arith, e, h)
          | inr h ↦
              add_days-IsSummed fetch (suc ((end - start) / (86400 * second))) start
                (record { from = from; to = to; heartbeats = 0; intervals = []; duration = 0 }) next
                t (record { duration = unfold lengths in refl; proper = tt }) (ground (arith, e, h))
        ]

-- Where float64 is as `IsFloat` has it and the heartbeats have times from 1970 to 2255, the duration of an
-- export is the sum of the lengths of its intervals, none of which ends before it starts.
pub export-IsSummed {ℓ} :
    {F : Type ℓ} (float : Float F) (parse_date : Text → Option ℕ) (range : Option (Text × Text))
    (fetch : ℕ → Option (List (Heartbeat F))) (from to : Text) (timeout : ℕ) (next : Export)
    → IsFloat float
    → AreTimely float fetch
    → export float parse_date range fetch from to timeout ≡ some next
    → IsSummed float epoch next
unfolding export
export-IsSummed float parse_date none fetch from to timeout next law t e = ground (arith, e)
export-IsSummed float parse_date (some (first, last)) fetch from to timeout next law t e =
    let from' = if text_eq from [] then first else from in
    let to' = if text_eq to [] then last else to in
    export_days-IsSummed float law (if lt64 0 timeout then timeout else 600 * second) fetch
      (parse_date from') (parse_date to') from' to' next t e
