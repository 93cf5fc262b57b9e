-- ===== src/Interval/Cover.antt =====
-- The instants that intervals cover, and what `clip` and `merge` make of them.
use codex_tempo.Common.{
  ℕ, ◌≤◌, ◌<◌, ◌≡◌, refl, Bool, true, false, List, [], ◌∷◌, arith, ltb, leb, if◌then◌else◌, filter,
  count, any, All, All-imp, Bool-cases, inl, inr, ◌∙◌,
}
use native.Mathlib.Decide.{dec_lt}
use codex_tempo.Common.Sort.{
  sort_by, IsSorted, IsWeakOrder, sort_by-IsSorted, total-sort_by, All-sort_by,
}
use codex_tempo.Interval.{
  Interval, clip, is_valid, interval_less, extend, merge_into, merge_sorted, merge,
}

-- The instant lies in the half-open interval.
abbrev pub holds : Interval → ℕ → Bool
holds iv t = if leb iv.start t then ltb t iv.end else false

abbrev pub covers : List Interval → ℕ → Bool
covers l t = any (λ iv. holds iv t) l

-- Items are not empty, and between two of them lies an instant that neither covers.
abbrev pub IsSeparated : List Interval → Type 0
IsSeparated [] = Unit
IsSeparated (x ∷ xs) = (x.start < x.end) × All (λ y. x.end < y.start) xs × IsSeparated xs

pub covers_before :
    (k t : ℕ) (l : List Interval) → t ≤ k → All (λ y. k < y.start) l → covers l t ≡ false
covers_before k t [] h a = refl
covers_before k t (x ∷ xs) h a = ground (arith, covers_before k t xs h a.1)

-- `clip` keeps the instants of the window, and its flag says whether there are any.
pub clip_lem :
    (iv : Interval) (from to t : ℕ)
    → holds (clip iv from to).0 t
      ≡ (if leb from t then (if ltb t to then holds iv t else false) else false)
unfolding clip
clip_lem iv from to t = ground arith

pub interval_order : IsWeakOrder interval_less
unfolding interval_less
interval_order = record { asymm = λ a b h. ground arith; cotrans = λ a b c h. ground arith }

pub any-count {ℓ} : {A : Type ℓ} (p : A → Bool) (l : List A) → any p l ≡ ltb 0 (count p l)
any-count p [] = refl
any-count p (x ∷ xs) = ground (arith, any-count p xs)

covers-sort_by :
    (less : Interval → Interval → Bool) (l : List Interval) (t : ℕ)
    → covers (sort_by less l) t ≡ covers l t
covers-sort_by less l t = rw (
  any-count (λ iv. holds iv t) (sort_by less l),
  any-count (λ iv. holds iv t) l,
  total-sort_by less _ l,
)

covers-filter : (l : List Interval) (t : ℕ) → covers (filter is_valid l) t ≡ covers l t
unfolding is_valid
covers-filter [] t = refl
covers-filter (x ∷ xs) t = ground (arith, covers-filter xs t)

-- What starts no earlier.
abbrev StartsFrom : ℕ → List Interval → Type 0
StartsFrom s l = All (λ y. s ≤ y.start) l

abbrev IsAscending : List Interval → Type 0
IsAscending [] = Unit
IsAscending (x ∷ xs) = StartsFrom x.start xs × IsAscending xs

IsSorted-IsAscending : (l : List Interval) → IsSorted interval_less l → IsAscending l
unfolding interval_less
IsSorted-IsAscending [] s = tt
IsSorted-IsAscending (x ∷ xs) s =
    (All-imp (λ y h. ground arith) xs s.0, IsSorted-IsAscending xs s.1)

pub merge_into_apart :
    (last iv : Interval) (rest : List Interval)
    → last.end < iv.start
    → merge_into last (iv ∷ rest) ≡ last ∷ merge_into iv rest
unfolding merge_into
merge_into_apart last iv rest h = ground arith

pub merge_into_meets :
    (last iv : Interval) (rest : List Interval)
    → ¬ (last.end < iv.start)
    → merge_into last (iv ∷ rest) ≡ merge_into (extend last iv) rest
unfolding merge_into
merge_into_meets last iv rest h = ground arith

holds-extend :
    (last iv : Interval) (t : ℕ)
    → last.start ≤ iv.start
    → ¬ (last.end < iv.start)
    → holds (extend last iv) t ≡ (if holds last t then true else holds iv t)
unfolding extend
holds-extend last iv t h k = ground arith

pub start-extend : (last iv : Interval) → (extend last iv).start ≡ last.start
unfolding extend
start-extend last iv = ground arith

extend-IsProper :
    (last iv : Interval) → last.start < last.end → (extend last iv).start < (extend last iv).end
unfolding extend
extend-IsProper last iv h = ground arith

covers-merge_into :
    (last : Interval) (rest : List Interval) (t : ℕ)
    → StartsFrom last.start rest
    → IsAscending rest
    → covers (merge_into last rest) t ≡ covers (last ∷ rest) t
covers-merge_into last [] t h s = unfold merge_into in refl
covers-merge_into last (iv ∷ rest) t h s = elim (dec_lt last.end iv.start) [
  | yes apart ↦ rw (merge_into_apart last iv rest apart, covers-merge_into iv rest t s.0 s.1)
  | no meets ↦ rw (merge_into_meets last iv rest meets) (
      covers-merge_into (extend last iv) rest t (rw (start-extend last iv) h.1) s.1
      ∙ rw (holds-extend last iv t h.0 meets) (ground arith))
]

covers-merge_sorted :
    (l : List Interval) (t : ℕ) → IsAscending l → covers (merge_sorted l) t ≡ covers l t
unfolding merge_sorted
covers-merge_sorted [] t s = refl
covers-merge_sorted (x ∷ xs) t s = covers-merge_into x xs t s.0 s.1

-- `merge` covers exactly the instants that its input covers.
pub covers-merge : (l : List Interval) (t : ℕ) → covers (merge l) t ≡ covers l t
unfolding merge
covers-merge l t =
    covers-merge_sorted (sort_by interval_less (filter is_valid l)) t
      (IsSorted-IsAscending _ (sort_by-IsSorted interval_order (filter is_valid l)))
    ∙ covers-sort_by interval_less (filter is_valid l) t
    ∙ covers-filter l t

abbrev IsProper : Interval → Type 0
IsProper iv = iv.start < iv.end

filter-IsProper : (l : List Interval) → All IsProper (filter is_valid l)
unfolding is_valid
filter-IsProper [] = tt
filter-IsProper (x ∷ xs) = elim (Bool-cases (ltb x.start x.end)) [
  | inl p ↦ rw p (ground arith, filter-IsProper xs)
  | inr p ↦ rw p (filter-IsProper xs)
]

module _ (k : ℕ) where
  -- A merged item starts where an item does.
  merge_into-from :
      (last : Interval) (rest : List Interval)
      → k < last.start
      → All (λ y. k < y.start) rest
      → All (λ y. k < y.start) (merge_into last rest)
  merge_into-from last [] h a = unfold merge_into in (h, tt)
  merge_into-from last (iv ∷ rest) h a = elim (dec_lt last.end iv.start) [
    | yes apart ↦ rw (merge_into_apart last iv rest apart) (h, merge_into-from iv rest a.0 a.1)
    | no meets ↦
        rw (merge_into_meets last iv rest meets)
          (merge_into-from (extend last iv) rest (rw (start-extend last iv) h) a.1)
  ]

merge_into-IsSeparated :
    (last : Interval) (rest : List Interval)
    → IsProper last
    → All IsProper rest
    → IsAscending rest
    → IsSeparated (merge_into last rest)
merge_into-IsSeparated last [] p ps s = unfold merge_into in (p, tt, tt)
merge_into-IsSeparated last (iv ∷ rest) p ps s = elim (dec_lt last.end iv.start) [
  | yes apart ↦ rw (merge_into_apart last iv rest apart) (
    p,
    merge_into-from last.end iv rest apart (All-imp (λ y h. omega arith) rest s.0),
    merge_into-IsSeparated iv rest ps.0 ps.1 s.1,
  )
  | no meets ↦
      rw (merge_into_meets last iv rest meets)
        (merge_into-IsSeparated (extend last iv) rest (extend-IsProper last iv p) ps.1 s.1)
]

merge_sorted-IsSeparated :
    (l : List Interval) → All IsProper l → IsAscending l → IsSeparated (merge_sorted l)
unfolding merge_sorted
merge_sorted-IsSeparated [] p s = tt
merge_sorted-IsSeparated (x ∷ xs) p s = merge_into-IsSeparated x xs p.0 p.1 s.1

-- The merged intervals are in order, not empty, and neither overlap nor touch.
pub merge-IsSeparated : (l : List Interval) → IsSeparated (merge l)
unfolding merge
merge-IsSeparated l =
    merge_sorted-IsSeparated _ (All-sort_by interval_less _ _ (filter-IsProper l))
      (IsSorted-IsAscending _ (sort_by-IsSorted interval_order (filter is_valid l)))
