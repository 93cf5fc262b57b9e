-- ===== src/Interval/Weight.antt =====
-- The last loop of `Summarize`: the time weighted by the number of open intervals is the sum of
-- the intervals' durations.
use codex_tempo.Common.{
  ℕ, zero, suc, ◌+◌, ◌-◌, ◌*◌, ◌≤◌, ◌<◌, ◌%◌, ◌≡◌, refl, ◌∙◌, none, some, List, [], ◌∷◌, arith,
  if◌then◌else◌, ap, sym, total, count, All,
}
use codex_tempo.Common.Sort.{IsSorted, sort_by, sort_by-IsSorted, total-sort_by, All-sort_by}
use codex_tempo.Common.Word.{int64_mod, max_int64, time_sub_exact}
use codex_tempo.Interval.{Interval}
use codex_tempo.Interval.Measure.{width, IsWithin}
use codex_tempo.Interval.Summary.{
  Point, point_less, Sweep, sweep_point, sweep, no_sweep, apply_delta,
}
use codex_tempo.Interval.Sweep.{
  point_order, points_of, is_enter, IsBalanced, NotBefore, IsSorted-NotBefore, leave_pos,
  IsBalanced-tail, sorted_points_IsBalanced,
}

-- The weighted time from an instant on, without the bound of an int64.
area : ℕ → ℕ → List Point → ℕ
area previous active [] = 0
area previous active (p ∷ l) = active * (p.at - previous) + area p.at (apply_delta p.delta active) l

abbrev enters : List Point → ℕ
enters = count (λ p. is_enter p.delta)

abbrev leaves : List Point → ℕ
leaves = total (λ p. if is_enter p.delta then 0 else 1)

abbrev entered : List Point → ℕ
entered = total (λ p. if is_enter p.delta then p.at else 0)

abbrev left : List Point → ℕ
left = total (λ p. if is_enter p.delta then 0 else p.at)

stretch : (a x y : ℕ) → y ≤ x → a * (x - y) + a * y ≡ a * x
stretch a x y h = grind arith

enter_step : (a x : ℕ) → (a + 1) * x ≡ a * x + x
enter_step a x = omega arith

leave_step : (a x : ℕ) → 1 ≤ a → (a - 1) * x + x ≡ a * x
leave_step zero x h = absurd (omega arith)
leave_step (suc b) x h = let e : suc b - 1 ≡ b = omega arith in rw e (omega arith)

zero_times : (a x : ℕ) → a ≡ 0 → a * x ≡ 0
zero_times a x e = rw e (omega arith)

area_step :
    (previous active : ℕ) (p : Point) (l : List Point)
    → IsSorted point_less (p ∷ l)
    → IsBalanced active (p ∷ l)
    → NotBefore previous (p ∷ l)
    → active + enters (p ∷ l) ≡ leaves (p ∷ l)
    → (apply_delta p.delta active + enters l ≡ leaves l
        → area p.at (apply_delta p.delta active) l + apply_delta p.delta active * p.at + entered l
          ≡ left l)
    → area previous active (p ∷ l) + active * previous + entered (p ∷ l) ≡ left (p ∷ l)
unfolding area
area_step previous active p l so b a e ih = ground (
  arith,
  stretch active p.at previous a.0,
  enter_step active p.at,
  leave_step active p.at,
  leave_pos active p l so b,
  ih,
)

area-eq :
    (previous active : ℕ) (l : List Point)
    → IsSorted point_less l
    → IsBalanced active l
    → NotBefore previous l
    → active + enters l ≡ leaves l
    → area previous active l + active * previous + entered l ≡ left l
unfolding area
area-eq previous active [] so b a e = omega (arith, zero_times active previous (omega arith))
area-eq previous active (p ∷ l) so b a e = area_step previous active p l so b a e (
    area-eq p.at (apply_delta p.delta active) l so.1 (IsBalanced-tail active p l so b)
      (IsSorted-NotBefore p l so))

sweep_point-weighted :
    (previous : ℕ) (p : Point) (s : Sweep)
    → previous ≤ p.at
    → p.at ≤ previous + max_int64
    → (sweep_point (some previous) p s).weighted
      ≡ (s.weighted + s.active * (p.at - previous)) % int64_mod
unfolding sweep_point
sweep_point-weighted previous p s h k = rw (time_sub_exact p.at previous h k) (omega arith)

module _ (from n : ℕ) (small : n ≤ max_int64) where
  abbrev IsPointWithin : Point → Type 0
  IsPointWithin p = (from ≤ p.at) × (p.at ≤ from + n)

  sweep-weighted :
      (previous : ℕ) (s : Sweep) (l : List Point)
      → IsSorted point_less l
      → NotBefore previous l
      → from ≤ previous
      → All IsPointWithin l
      → s.weighted < int64_mod
      → (sweep (some previous) s l).weighted ≡ (s.weighted + area previous s.active l) % int64_mod
  unfolding sweep area
  sweep-weighted previous s [] so nb h a w = omega arith
  sweep-weighted previous s (p ∷ l) so nb h a w =
      let step = sweep_point-weighted previous p s nb.0 (omega arith) in
      let rest =
        sweep-weighted p.at (sweep_point (some previous) p s) l so.1 (IsSorted-NotBefore p l so)
          a.0.0 a.1 (rw step (omega arith)) in
      ground (arith, step, rest)

  sweep_from_none :
      (l : List Point)
      → IsSorted point_less l
      → IsBalanced 0 l
      → All IsPointWithin l
      → enters l ≡ leaves l
      → (sweep none no_sweep l).weighted ≡ (left l - entered l) % int64_mod
  unfolding sweep area
  sweep_from_none [] so b a e = omega arith
  sweep_from_none (p ∷ l) so b a e =
      let later = IsSorted-NotBefore p l so in
      ground (
        arith,
        area-eq p.at 0 (p ∷ l) so b (omega arith, later) (omega arith),
        sweep-weighted p.at (sweep_point none p no_sweep) l so.1 later a.0.0 a.1 (omega arith),
      )

  points-IsPointWithin :
      (l : List Interval)
      → All (λ iv. iv.start < iv.end) l
      → All (IsWithin from n) l
      → All IsPointWithin (points_of l)
  points-IsPointWithin [] h a = tt
  points-IsPointWithin (iv ∷ l) h a = (omega arith, (omega arith, points-IsPointWithin l h.1 a.1))

enters-points_of : (l : List Interval) → enters (points_of l) ≡ leaves (points_of l)
enters-points_of [] = refl
enters-points_of (iv ∷ l) = omega (arith, enters-points_of l)

left-points_of :
    (l : List Interval)
    → All (λ iv. iv.start < iv.end) l
    → left (points_of l) ≡ total width l + entered (points_of l)
left-points_of [] h = refl
left-points_of (iv ∷ l) h = omega (arith, left-points_of l h.1)

-- In a window that a Duration can measure, the weighted time is the sum of the durations.
pub weighted-sweep :
    (from n : ℕ) (l : List Interval)
    → n ≤ max_int64
    → All (λ iv. iv.start < iv.end) l
    → All (IsWithin from n) l
    → (sweep none no_sweep (sort_by point_less (points_of l))).weighted ≡ total width l % int64_mod
weighted-sweep from n l small proper inside =
    let sorted : List Point = sort_by point_less (points_of l) in
    let sum = λ (f : Point → ℕ). total-sort_by point_less f (points_of l) in
    sweep_from_none from n small sorted (sort_by-IsSorted point_order (points_of l))
      (sorted_points_IsBalanced l proper)
      (All-sort_by point_less (IsPointWithin from n small) (points_of l)
        (points-IsPointWithin from n small l proper inside))
      (sum _ ∙ enters-points_of l ∙ sym (sum _))
    ∙ ap (λ (x : ℕ). x % int64_mod)
        (omega (
          arith,
          left-points_of l proper,
          sum (λ p. if is_enter p.delta then p.at else 0),
          sum (λ p. if is_enter p.delta then 0 else p.at),
        ))
