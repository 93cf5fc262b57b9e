-- ===== src/Interval/Measure.antt =====
-- `Duration` of merged intervals counts the nanoseconds that the intervals cover.
use codex_tempo.Common.{
  ℕ, zero, suc, ◌+◌, ◌-◌, ◌≤◌, ◌<◌, ◌%◌, ◌≡◌, refl, ◌∙◌, Bool, false, List, [], ◌∷◌, arith,
  if◌then◌else◌, All, total, min, filter, Bool-cases, inl, inr,
}
use native.Mathlib.Decide.{dec_lt}
use codex_tempo.Common.Sort.{All-sort_by}
use codex_tempo.Common.Word.{int64_mod, max_int64, time_sub, time_sub_exact, add64}
use codex_tempo.Interval.{
  Interval, is_valid, interval_less, extend, merge_into, merge_sorted, merge, add_durations,
  duration,
}
use codex_tempo.Interval.Cover.{
  holds, covers, covers_before, IsSeparated, covers-merge, merge-IsSeparated, merge_into_apart,
  merge_into_meets,
}

-- How many of the `n` instants from `from` on pass the test.
pub measure : (ℕ → Bool) → ℕ → ℕ → ℕ
measure p from zero = 0
measure p from (suc n) = (if p (from + n) then 1 else 0) + measure p from n

pub measure_ext :
    (p q : ℕ → Bool) (from n : ℕ)
    → ((t : ℕ) → from ≤ t → t < from + n → p t ≡ q t)
    → measure p from n ≡ measure q from n
unfolding measure
measure_ext p q from zero h = refl
measure_ext p q from (suc n) h =
    ground (arith, h (from + n), measure_ext p q from n (λ t a b. h t a (omega arith)))

pub measure-le : (p : ℕ → Bool) (from n : ℕ) → measure p from n ≤ n
unfolding measure
measure-le p from zero = omega arith
measure-le p from (suc n) = ground (arith, measure-le p from n)

pub measure_none : (p : ℕ → Bool) (from n : ℕ) → ((t : ℕ) → p t ≡ false) → measure p from n ≡ 0
unfolding measure
measure_none p from zero h = refl
measure_none p from (suc n) h = ground (arith, h (from + n), measure_none p from n h)

-- A test that holds where one of two exclusive tests does.
measure_or :
    (p q r : ℕ → Bool) (from n : ℕ)
    → ((t : ℕ) → (if r t then 1 else 0) ≡ (if p t then 1 else 0) + (if q t then 1 else 0))
    → measure r from n ≡ measure p from n + measure q from n
unfolding measure
measure_or p q r from zero h = refl
measure_or p q r from (suc n) h = omega (arith, h (from + n), measure_or p q r from n h)

pub measure_or_le :
    (p q r : ℕ → Bool) (from n : ℕ)
    → ((t : ℕ) → (if r t then 1 else 0) ≤ (if p t then 1 else 0) + (if q t then 1 else 0))
    → measure r from n ≤ measure p from n + measure q from n
unfolding measure
measure_or_le p q r from zero h = omega arith
measure_or_le p q r from (suc n) h = omega (arith, h (from + n), measure_or_le p q r from n h)

abbrev pub width : Interval → ℕ
width iv = iv.end - iv.start

-- The interval lies in the window of `n` nanoseconds from `from` on.
abbrev pub IsWithin : ℕ → ℕ → Interval → Type 0
IsWithin from n iv = (from ≤ iv.start) × (iv.end ≤ from + n)

measure-holds-min :
    (iv : Interval) (from n : ℕ)
    → from ≤ iv.start
    → measure (holds iv) from n ≡ min iv.end (from + n) - iv.start
unfolding measure
measure-holds-min iv from zero h = omega arith
measure-holds-min iv from (suc n) h = ground (arith, measure-holds-min iv from n h)

pub measure-holds :
    (iv : Interval) (from n : ℕ) → IsWithin from n iv → measure (holds iv) from n ≡ width iv
measure-holds iv from n h = omega (arith, measure-holds-min iv from n h.0)

covers_one :
    (x : Interval) (xs : List Interval) (t : ℕ)
    → All (λ y. x.end < y.start) xs
    → (if covers (x ∷ xs) t then 1 else 0)
      ≡ (if holds x t then 1 else 0) + (if covers xs t then 1 else 0)
covers_one x xs t a = elim (dec_lt t x.end) [
  | yes p ↦ rw (covers_before x.end t xs (omega arith) a) (ground arith)
  | no p ↦ ground arith
]

pub measure-covers :
    (from n : ℕ) (l : List Interval)
    → All (IsWithin from n) l
    → IsSeparated l
    → measure (covers l) from n ≡ total width l
measure-covers from n [] w s = measure_none (λ t. false) from n (λ t. refl)
measure-covers from n (x ∷ xs) w s =
    measure_or (holds x) (covers xs) (covers (x ∷ xs)) from n (λ t. covers_one x xs t s.1)
    ∙ omega (arith, measure-holds x from n w.0, measure-covers from n xs w.1 s.2)

-- Overlaps count once in the left side, so it is the smaller one.
pub measure-covers-le :
    (from n : ℕ) (l : List Interval)
    → All (IsWithin from n) l
    → measure (covers l) from n ≤ total width l
measure-covers-le from n [] w = omega (arith, measure_none (λ t. false) from n (λ t. refl))
measure-covers-le from n (x ∷ xs) w = omega (
  arith,
  measure_or_le (holds x) (covers xs) (covers (x ∷ xs)) from n (λ t. ground arith),
  measure-holds x from n w.0,
  measure-covers-le from n xs w.1,
)

-- Items of positive length add up, modulo the range of an int64.
pub add_durations-total :
    (from n acc : ℕ) (l : List Interval)
    → n ≤ max_int64
    → All (IsWithin from n) l
    → All (λ iv. iv.start < iv.end) l
    → acc < int64_mod
    → add_durations acc l ≡ (acc + total width l) % int64_mod
unfolding add_durations
add_durations-total from n acc [] h w s b = omega arith
add_durations-total from n acc (x ∷ xs) h w s b =
    add_durations-total from n (add64 acc (time_sub x.end x.start)) xs h w.1 s.1 (omega arith)
    ∙ omega (arith, time_sub_exact x.end x.start (omega arith) (omega arith))

IsSeparated-proper : (l : List Interval) → IsSeparated l → All (λ iv. iv.start < iv.end) l
IsSeparated-proper [] s = tt
IsSeparated-proper (x ∷ xs) s = (s.0, IsSeparated-proper xs s.2)

extend-IsWithin :
    (from n : ℕ) (last iv : Interval)
    → IsWithin from n last
    → IsWithin from n iv
    → IsWithin from n (extend last iv)
unfolding extend
extend-IsWithin from n last iv h k = ground arith

module _ (from n : ℕ) where
  filter-IsWithin :
      (l : List Interval) → All (IsWithin from n) l → All (IsWithin from n) (filter is_valid l)
  filter-IsWithin [] h = tt
  filter-IsWithin (x ∷ xs) h = elim (Bool-cases (is_valid x)) [
    | inl p ↦ rw p (h.0, filter-IsWithin xs h.1)
    | inr p ↦ rw p (filter-IsWithin xs h.1)
  ]

  merge_into-IsWithin :
      (last : Interval) (rest : List Interval)
      → IsWithin from n last
      → All (IsWithin from n) rest
      → All (IsWithin from n) (merge_into last rest)
  merge_into-IsWithin last [] h a = unfold merge_into in (h, tt)
  merge_into-IsWithin last (iv ∷ rest) h a = elim (dec_lt last.end iv.start) [
    | yes apart ↦ rw (merge_into_apart last iv rest apart) (h, merge_into-IsWithin iv rest a.0 a.1)
    | no meets ↦
        rw (merge_into_meets last iv rest meets)
          (merge_into-IsWithin (extend last iv) rest (extend-IsWithin from n last iv h a.0) a.1)
  ]

  merge_sorted-IsWithin :
      (l : List Interval) → All (IsWithin from n) l → All (IsWithin from n) (merge_sorted l)
  unfolding merge_sorted
  merge_sorted-IsWithin [] a = tt
  merge_sorted-IsWithin (x ∷ xs) a = merge_into-IsWithin x xs a.0 a.1

  pub merge-IsWithin :
      (l : List Interval) → All (IsWithin from n) l → All (IsWithin from n) (merge l)
  unfolding merge
  merge-IsWithin l a = merge_sorted-IsWithin _ (All-sort_by interval_less _ _ (filter-IsWithin l a))

-- Within a window that a Duration can measure, `Duration` of the merged intervals is the number of
-- nanoseconds that some interval covers.
pub duration-merge :
    (from n : ℕ) (l : List Interval)
    → n ≤ max_int64
    → All (IsWithin from n) l
    → duration (merge l) ≡ measure (covers l) from n
unfolding duration
duration-merge from n l h a =
    let inside = merge-IsWithin from n l a in
    let sum = measure-covers from n (merge l) inside (merge-IsSeparated l) in
    add_durations-total from n 0 (merge l) h inside (IsSeparated-proper _ (merge-IsSeparated l))
      (omega arith)
    ∙ omega (
      arith,
      sum,
      measure-le (covers (merge l)) from n,
      measure_ext (covers (merge l)) (covers l) from n (λ t p q. covers-merge l t),
    )
