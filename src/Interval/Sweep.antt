-- ===== src/Interval/Sweep.antt =====
-- The last loop of `Summarize`: over points in order, the highest count is the largest number of
-- intervals that hold one instant.
use codex_tempo.Common.{
  ℕ, ◌+◌, ◌≤◌, ◌<◌, ◌≡◌, refl, ◌⊎◌, inl, inr, Bool, true, false, Option, none, some, List, [], ◌∷◌,
  arith, ltb, leb, if◌then◌else◌, total, count, All, All-imp,
}
use native.Mathlib.Decide.{dec_lt}
use codex_tempo.Common.Sort.{
  IsSorted, IsWeakOrder, sort_by, sort_by-IsSorted, total-sort_by, All-sort_by,
}
use codex_tempo.Interval.{Interval}
use codex_tempo.Interval.Cover.{holds}
use codex_tempo.Interval.Summary.{
  Delta, leave, enter, Point, point_less, Sweep, sweep_point, sweep, no_sweep, apply_delta,
}

pub point_order : IsWeakOrder point_less
unfolding point_less
point_order = record { asymm = λ a b h. ground arith; cotrans = λ a b c h. ground arith }

-- The points of the intervals, in the order in which the first loop adds them.
abbrev pub points_of : List Interval → List Point
points_of [] = []
points_of (iv ∷ l) =
    record { at = iv.start; delta = enter } ∷ record { at = iv.end; delta = leave } ∷ points_of l

abbrev pub is_enter : Delta → Bool
is_enter enter = true
is_enter leave = false

-- The openings up to an instant, those before it, and the closings up to it.
abbrev opened : ℕ → Point → ℕ
opened t p = if is_enter p.delta then (if leb p.at t then 1 else 0) else 0

abbrev opened_before : ℕ → Point → ℕ
opened_before t p = if is_enter p.delta then (if ltb p.at t then 1 else 0) else 0

abbrev closed : ℕ → Point → ℕ
closed t p = if is_enter p.delta then 0 else (if leb p.at t then 1 else 0)

-- No closing comes before its opening, when `active` intervals are open already.
abbrev pub IsBalanced : ℕ → List Point → Type 0
IsBalanced active l = (t : ℕ) → total (closed t) l ≤ active + total (opened_before t) l

abbrev pub NotBefore : ℕ → List Point → Type 0
NotBefore k l = All (λ p. k ≤ p.at) l

pub IsSorted-NotBefore :
    (p : Point) (l : List Point) → IsSorted point_less (p ∷ l) → NotBefore p.at l
unfolding point_less
IsSorted-NotBefore p l s = All-imp (λ q h. ground arith) l s.0

opened_none : (k t : ℕ) (l : List Point) → t < k → NotBefore k l → total (opened t) l ≡ 0
opened_none k t [] h a = refl
opened_none k t (p ∷ l) h a = ground (arith, opened_none k t l h a.1)

opened_before_none :
    (k t : ℕ) (l : List Point) → t ≤ k → NotBefore k l → total (opened_before t) l ≡ 0
opened_before_none k t [] h a = refl
opened_before_none k t (p ∷ l) h a = ground (arith, opened_before_none k t l h a.1)

closed_none : (k t : ℕ) (l : List Point) → t < k → NotBefore k l → total (closed t) l ≡ 0
closed_none k t [] h a = refl
closed_none k t (p ∷ l) h a = ground (arith, closed_none k t l h a.1)

-- After an opening no closing at the same instant is left.
closed_after_enter :
    (p : Point) (l : List Point)
    → p.delta ≡ enter
    → All (λ q. point_less q p ≡ false) l
    → total (closed p.at) l ≡ 0
unfolding point_less
closed_after_enter p [] e a = refl
closed_after_enter p (q ∷ l) e a = ground (arith, closed_after_enter p l e a.1)

module _ (active : ℕ) (p : Point) (l : List Point) where
  -- A closing finds an open interval, so the count does not fall below 0.
  pub leave_pos :
      IsSorted point_less (p ∷ l) → IsBalanced active (p ∷ l) → p.delta ≡ leave → 1 ≤ active
  leave_pos s b e =
      ground
        (arith, b p.at, opened_before_none p.at p.at l (omega arith) (IsSorted-NotBefore p l s))

  pub IsBalanced-tail :
      IsSorted point_less (p ∷ l)
      → IsBalanced active (p ∷ l)
      → IsBalanced (apply_delta p.delta active) l
  IsBalanced-tail s b t =
      ground (arith, b t, leave_pos s b, closed_none p.at t l, IsSorted-NotBefore p l s)

peak_mono : (previous : Option ℕ) (s : Sweep) (l : List Point) → s.peak ≤ (sweep previous s l).peak
unfolding sweep
peak_mono previous s [] = omega arith
peak_mono previous s (p ∷ l) = ground (arith, peak_mono (some p.at) (sweep_point previous p s) l)

active-sweep_point :
    (previous : Option ℕ) (p : Point) (s : Sweep)
    → (sweep_point previous p s).active ≡ apply_delta p.delta s.active
unfolding sweep_point
active-sweep_point previous p s = refl

peak-sweep_point :
    (previous : Option ℕ) (p : Point) (s : Sweep)
    → (sweep_point previous p s).peak
      ≡ (if ltb s.peak (apply_delta p.delta s.active) then apply_delta p.delta s.active else s.peak)
unfolding sweep_point
peak-sweep_point previous p s = refl

sweep-cons :
    (previous : Option ℕ) (s : Sweep) (p : Point) (l : List Point)
    → sweep previous s (p ∷ l) ≡ sweep (some p.at) (sweep_point previous p s) l
unfolding sweep
sweep-cons previous s p l = refl

-- At no instant are more intervals open than the final peak.
sweep_upper :
    (previous : Option ℕ) (s : Sweep) (l : List Point) (t : ℕ)
    → IsSorted point_less l
    → IsBalanced s.active l
    → s.active ≤ s.peak
    → s.active + total (opened t) l ≤ (sweep previous s l).peak + total (closed t) l
sweep_upper previous s [] t so b h = unfold sweep in omega arith
sweep_upper previous s (p ∷ l) t so b h =
    let s' = sweep_point previous p s in
    let active' = active-sweep_point previous p s in
    let peak' = peak-sweep_point previous p s in
    elim (dec_lt t p.at) [
      | yes early ↦ ground (
        arith,
        peak_mono previous s (p ∷ l),
        opened_none p.at t l early (IsSorted-NotBefore p l so),
      )
      | no late ↦
          let later =
            sweep_upper (some p.at) s' l t so.1 (rw active' (IsBalanced-tail s.active p l so b))
              (ground arith) in
          ground (arith, sweep-cons previous s p l, leave_pos s.active p l so b)
    ]

-- The final peak is the one given, or the number of intervals open at some later instant.
sweep_attained :
    (previous : Option ℕ) (s : Sweep) (l : List Point) (k : ℕ)
    → IsSorted point_less l
    → IsBalanced s.active l
    → s.active ≤ s.peak
    → NotBefore k l
    → ((sweep previous s l).peak ≡ s.peak)
      ⊎ ((t : ℕ) × (k ≤ t)
          × ((sweep previous s l).peak + total (closed t) l ≡ s.active + total (opened t) l))
sweep_attained previous s [] k so b h a = unfold sweep in inl refl
sweep_attained previous s (p ∷ l) k so b h a =
    let s' = sweep_point previous p s in
    let active' = active-sweep_point previous p s in
    let peak' = peak-sweep_point previous p s in
    let step = sweep-cons previous s p l in
    let b' : IsBalanced s'.active l = rw active' (IsBalanced-tail s.active p l so b) in
    let h' : s'.active ≤ s'.peak = ground arith in
    elim (sweep_attained (some p.at) s' l p.at so.1 b' h' (IsSorted-NotBefore p l so)) [
      | inr (t, later, e) ↦ inr (t, omega arith, ground (arith, leave_pos s.active p l so b))
      | inl e ↦ elim (dec_lt s.peak s'.active) [
        | yes more ↦ inr (
          p.at,
          a.0,
          ground
              (arith, closed_after_enter p l, so.0, sweep_upper (some p.at) s' l p.at so.1 b' h'),
        )
        | no same ↦ inl (ground arith)
      ]
    ]

module _ (t : ℕ) where
  closed-le :
      (l : List Interval)
      → All (λ iv. iv.start < iv.end) l
      → total (closed t) (points_of l) ≤ total (opened_before t) (points_of l)
  closed-le [] h = omega arith
  closed-le (iv ∷ l) h = ground (arith, closed-le l h.1)

  -- An instant is held by the intervals that have opened and not closed.
  opened-eq :
      (l : List Interval)
      → All (λ iv. iv.start < iv.end) l
      → total (opened t) (points_of l) ≡ count (λ iv. holds iv t) l + total (closed t) (points_of l)
  opened-eq [] h = refl
  opened-eq (iv ∷ l) h = ground (arith, opened-eq l h.1)

pub sorted_points_IsBalanced :
    (l : List Interval)
    → All (λ iv. iv.start < iv.end) l
    → IsBalanced 0 (sort_by point_less (points_of l))
sorted_points_IsBalanced l h t = omega (
  arith,
  closed-le t l h,
  total-sort_by point_less (closed t) (points_of l),
  total-sort_by point_less (opened_before t) (points_of l),
)

points_from :
    (k : ℕ) (l : List Interval)
    → All (λ iv. iv.start < iv.end) l
    → All (λ iv. k ≤ iv.start) l
    → NotBefore k (points_of l)
points_from k [] h a = tt
points_from k (iv ∷ l) h a = (a.0, (omega arith, points_from k l h.1 a.1))

module _ (l : List Interval) (proper : All (λ iv. iv.start < iv.end) l) where
  held :
      (t : ℕ)
      → total (opened t) (sort_by point_less (points_of l))
        ≡ count (λ iv. holds iv t) l + total (closed t) (sort_by point_less (points_of l))
  held t = omega (
    arith,
    opened-eq t l proper,
    total-sort_by point_less (closed t) (points_of l),
    total-sort_by point_less (opened t) (points_of l),
  )

  pub sweep_bound :
      (t : ℕ)
      → count (λ iv. holds iv t) l ≤ (sweep none no_sweep (sort_by point_less (points_of l))).peak
  sweep_bound t = omega (
    arith,
    held t,
    sweep_upper none no_sweep (sort_by point_less (points_of l)) t
        (sort_by-IsSorted point_order (points_of l)) (sorted_points_IsBalanced l proper)
        (omega arith),
  )

  pub sweep_reached :
      (k : ℕ)
      → All (λ iv. k ≤ iv.start) l
      → ((sweep none no_sweep (sort_by point_less (points_of l))).peak ≡ 0)
        ⊎ ((t : ℕ) × (k ≤ t)
            × ((sweep none no_sweep (sort_by point_less (points_of l))).peak
                ≡ count (λ iv. holds iv t) l))
  sweep_reached k from =
      elim (sweep_attained none no_sweep (sort_by point_less (points_of l)) k
        (sort_by-IsSorted point_order (points_of l)) (sorted_points_IsBalanced l proper)
        (omega arith)
        (All-sort_by point_less (λ p. k ≤ p.at) (points_of l) (points_from k l proper from))) [
          | inl e ↦ inl e
          | inr (t, later, e) ↦ inr (t, later, omega (arith, held t))
        ]
