-- ===== src/Interval/Pieces.antt =====
-- What the first loop of `Summarize` gathers from the runs.
use codex_tempo.Common.{
  ℕ, ◌+◌, ◌-◌, ◌≤◌, ◌<◌, ◌≡◌, refl, sym, ◌∙◌, inl, inr, Bool, List, [], ◌∷◌, ◌++◌, arith,
  if◌then◌else◌, count, All, All-append, Bool-cases,
}
use mathlib.Core.List.{append_assoc, append-nil}
use codex_tempo.Common.Word.{add64, time_sub}
use codex_tempo.Domain.{Run}
use codex_tempo.Interval.{Interval, clip, add_durations}
use codex_tempo.Interval.Cover.{holds}
use codex_tempo.Interval.Measure.{IsWithin}
use codex_tempo.Interval.Summary.{Tally, run_interval, visit, visit_all}
use codex_tempo.Interval.Sweep.{points_of}

points-append : (a b : List Interval) → points_of (a ++ b) ≡ points_of a ++ points_of b
points-append [] b = refl
points-append (iv ∷ a) b = rw (points-append a b)

add_durations-append :
    (acc : ℕ) (a b : List Interval)
    → add_durations acc (a ++ b) ≡ add_durations (add_durations acc a) b
unfolding add_durations
add_durations-append acc [] b = refl
add_durations-append acc (iv ∷ a) b =
    add_durations-append (add64 acc (time_sub iv.end iv.start)) a b

count-append :
    (t : ℕ) (a b : List Interval)
    → count (λ iv. holds iv t) (a ++ b) ≡ count (λ iv. holds iv t) a + count (λ iv. holds iv t) b
count-append t [] b = omega arith
count-append t (iv ∷ a) b = omega (arith, count-append t a b)

module _ (from to now : ℕ) where
  -- What of the run lies in the window: one interval or none.
  unfoldable pub piece : Run → List Interval
  piece run = let (iv, ok) = clip (run_interval now run) from to in if ok then iv ∷ [] else []

  unfoldable pub pieces : List Run → List Interval
  unfolding piece
  pieces [] = []
  pieces (run ∷ rest) = piece run ++ pieces rest

  visit-all : (t : Tally) (run : Run) → (visit from to now t run).all ≡ t.all ++ piece run
  unfolding visit piece
  visit-all t run = ground (arith, append-nil t.all)

  visit-points :
      (t : Tally) (run : Run) → (visit from to now t run).points ≡ t.points ++ points_of (piece run)
  unfolding visit piece
  visit-points t run = ground (arith, append-nil t.points)

  visit-session :
      (t : Tally) (run : Run)
      → (visit from to now t run).session_agent_time
        ≡ add_durations t.session_agent_time (piece run)
  unfolding visit piece add_durations
  visit-session t run = ground arith

  pub visit_all-all :
      (t : Tally) (runs : List Run) → (visit_all from to now t runs).all ≡ t.all ++ pieces runs
  unfolding visit_all pieces
  visit_all-all t [] = sym (append-nil t.all)
  visit_all-all t (run ∷ rest) =
      visit_all-all (visit from to now t run) rest
      ∙ rw (visit-all t run) (append_assoc t.all (piece run) (pieces rest))

  pub visit_all-points :
      (t : Tally) (runs : List Run)
      → (visit_all from to now t runs).points ≡ t.points ++ points_of (pieces runs)
  unfolding visit_all pieces
  visit_all-points t [] = sym (append-nil t.points)
  visit_all-points t (run ∷ rest) =
      visit_all-points (visit from to now t run) rest
      ∙ rw (visit-points t run, points-append (piece run) (pieces rest))
          (append_assoc t.points (points_of (piece run)) (points_of (pieces rest)))

  pub visit_all-session :
      (t : Tally) (runs : List Run)
      → (visit_all from to now t runs).session_agent_time
        ≡ add_durations t.session_agent_time (pieces runs)
  unfolding visit_all pieces
  visit_all-session t [] = unfold add_durations in refl
  visit_all-session t (run ∷ rest) =
      visit_all-session (visit from to now t run) rest
      ∙ rw (visit-session t run) (sym (add_durations-append _ (piece run) (pieces rest)))

  piece-proper : (run : Run) → All (λ iv. iv.start < iv.end) (piece run)
  unfolding piece clip
  piece-proper run = elim (Bool-cases (clip (run_interval now run) from to).1) [
    | inl p ↦ rw p (ground arith, tt)
    | inr p ↦ rw p tt
  ]

  pub pieces-proper : (runs : List Run) → All (λ iv. iv.start < iv.end) (pieces runs)
  unfolding pieces
  pieces-proper [] = tt
  pieces-proper (run ∷ rest) =
      All-append _ (piece run) (pieces rest) (piece-proper run) (pieces-proper rest)

  piece-IsWithin : from ≤ to → (run : Run) → All (IsWithin from (to - from)) (piece run)
  unfolding piece clip
  piece-IsWithin h run = elim (Bool-cases (clip (run_interval now run) from to).1) [
    | inl p ↦ rw p ((ground arith, ground arith), tt)
    | inr p ↦ rw p tt
  ]

  pub pieces-IsWithin :
      from ≤ to → (runs : List Run) → All (IsWithin from (to - from)) (pieces runs)
  unfolding pieces
  pieces-IsWithin h [] = tt
  pieces-IsWithin h (run ∷ rest) =
      All-append _ (piece run) (pieces rest) (piece-IsWithin h run) (pieces-IsWithin h rest)

  -- Whether the run is under way at the instant, and how many of the runs are.
  abbrev pub under_way : ℕ → Run → Bool
  under_way t run = holds (run_interval now run) t

  count-piece :
      (run : Run) (t : ℕ)
      → from ≤ t
      → t < to
      → count (λ iv. holds iv t) (piece run) ≡ (if under_way t run then 1 else 0)
  unfolding piece clip
  count-piece run t h k = ground arith

  pub count-pieces :
      (runs : List Run) (t : ℕ)
      → from ≤ t
      → t < to
      → count (λ iv. holds iv t) (pieces runs) ≡ count (under_way t) runs
  unfolding pieces
  count-pieces [] t h k = refl
  count-pieces (run ∷ rest) t h k = omega (
    arith,
    count-append t (piece run) (pieces rest),
    count-piece run t h k,
    count-pieces rest t h k,
  )
