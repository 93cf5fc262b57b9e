-- ===== src/Interval.antt =====
-- internal/interval/interval.go: `Interval`, `Clip`, `Merge` and `Duration`.
pub mod Cover
pub mod Canonical
pub mod Measure
pub mod Summary
pub mod Sweep
pub mod Weight
pub mod Pieces
pub mod Groups
pub mod Filling
pub mod Report
use codex_tempo.Common.{ℕ, Bool, true, false, List, [], ◌∷◌, ltb, ◌==◌, if◌then◌else◌, filter}
use codex_tempo.Common.Sort.{sort_by}
use codex_tempo.Common.Word.{add64, time_sub}

pub record Interval : Type 0 where
  pub start : ℕ
  pub end : ℕ

-- The interval cut to the window, and whether anything of it is left.
unfoldable pub clip : Interval → ℕ → ℕ → Interval × Bool
clip iv from to =
    let later = if ltb iv.start from then record iv { start = from } else iv in
    let cut = if ltb to later.end then record later { end = to } else later in
    (cut, ltb cut.start cut.end)

unfoldable pub is_valid : Interval → Bool
is_valid iv = ltb iv.start iv.end

-- The `less` of the call of `sort.Slice`. Intervals that neither precede the other are equal, so
-- the sort has one result.
unfoldable pub interval_less : Interval → Interval → Bool
interval_less a b = if a.start == b.start then ltb a.end b.end else ltb a.start b.start

-- A later interval that does not start after the last merged one prolongs it.
unfoldable pub extend : Interval → Interval → Interval
extend last iv = if ltb last.end iv.end then record last { end = iv.end } else last

-- The loop over the sorted intervals: `last` is the last item of `merged`, and the result is
-- `merged` from that item on.
unfoldable pub merge_into : Interval → List Interval → List Interval
unfolding extend
merge_into last [] = last ∷ []
merge_into last (iv ∷ rest) = elim (ltb last.end iv.start) [
  | true ↦ last ∷ merge_into iv rest
  | false ↦ merge_into (extend last iv) rest
]

unfoldable pub merge_sorted : List Interval → List Interval
unfolding merge_into
merge_sorted [] = []
merge_sorted (iv ∷ rest) = merge_into iv rest

unfoldable pub merge : List Interval → List Interval
unfolding merge_sorted is_valid
merge intervals = merge_sorted (sort_by interval_less (filter is_valid intervals))

-- The loop of `Duration`, with its running total.
unfoldable pub add_durations : ℕ → List Interval → ℕ
add_durations acc [] = acc
add_durations acc (iv ∷ rest) = add_durations (add64 acc (time_sub iv.end iv.start)) rest

unfoldable pub duration : List Interval → ℕ
unfolding add_durations
duration intervals = add_durations 0 intervals
