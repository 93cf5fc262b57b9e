-- ===== src/Interval/Groups.antt =====
-- The map `byProject` of `Summarize`, and the sum of its merged durations.
use codex_tempo.Common.{
  ℕ, ◌+◌, ◌≤◌, ◌<◌, ◌%◌, ◌≡◌, refl, ◌∙◌, Bool, true, false, List, [], ◌∷◌, ◌++◌, arith,
  if◌then◌else◌, total, any, All, All-append, Bool-cases, inl, inr,
}
use codex_tempo.Common.Text.{Text, text_eq, text_eq_iff}
use codex_tempo.Common.Word.{int64_mod, max_int64, add64}
use codex_tempo.Common.Sort.{sort_by}
use codex_tempo.Interval.{Interval, merge, duration}
use codex_tempo.Interval.Cover.{holds, covers}
use codex_tempo.Interval.Measure.{
  measure, measure-covers-le, measure_none, measure_or_le, width, IsWithin, duration-merge,
}
use codex_tempo.Interval.Summary.{append_to, project_spans, add_spans}

abbrev pub Groups : Type 0
Groups = List (Text × List Interval)

-- The intervals of a project; none, if the map has no entry.
unfoldable pub group : Text → Groups → List Interval
group key [] = []
group key ((k, l) ∷ m) = if text_eq k key then l else group key m

-- `result.ProjectSpan[key]`, which is 0 on a missing key.
unfoldable pub span : Text → List (Text × ℕ) → ℕ
span key [] = 0
span key ((k, d) ∷ m) = if text_eq k key then d else span key m

pub group-append_to :
    (key j : Text) (iv : Interval) (m : Groups)
    → group j (append_to key iv m) ≡ (if text_eq key j then group j m ++ iv ∷ [] else group j m)
unfolding group append_to
group-append_to key j iv [] = ground (arith, text_eq_iff key j)
group-append_to key j iv ((k, l) ∷ m) =
    ground
      (arith, group-append_to key j iv m, text_eq_iff key j, text_eq_iff k j, text_eq_iff k key)

pub span-project_spans :
    (key : Text) (m : Groups) → span key (project_spans m) ≡ duration (merge (group key m))
unfolding span project_spans group
span-project_spans key [] = unfold duration merge sort_by in refl
span-project_spans key ((k, l) ∷ m) = ground (arith, span-project_spans key m)

-- What the groups hold: their intervals' lengths, and the instants that some group covers.
abbrev pub held : Groups → ℕ
held = total (λ g. total width g.1)

abbrev pub covers_some : Groups → ℕ → Bool
covers_some m t = any (λ g. covers g.1 t) m

total-snoc :
    (iv : Interval) (l : List Interval) → total width (l ++ iv ∷ []) ≡ total width l + width iv
total-snoc iv [] = omega arith
total-snoc iv (x ∷ l) = omega (arith, total-snoc iv l)

covers-snoc :
    (iv : Interval) (l : List Interval) (t : ℕ)
    → covers (l ++ iv ∷ []) t ≡ (if covers l t then true else holds iv t)
covers-snoc iv [] t = ground arith
covers-snoc iv (x ∷ l) t = ground (arith, covers-snoc iv l t)

pub held-append_to :
    (key : Text) (iv : Interval) (m : Groups) → held (append_to key iv m) ≡ held m + width iv
unfolding append_to
held-append_to key iv [] = omega arith
held-append_to key iv ((k, l) ∷ m) = ground (arith, held-append_to key iv m, total-snoc iv l)

pub covers_some-append_to :
    (key : Text) (iv : Interval) (m : Groups) (t : ℕ)
    → covers_some (append_to key iv m) t ≡ (if covers_some m t then true else holds iv t)
unfolding append_to
covers_some-append_to key iv [] t = ground arith
covers_some-append_to key iv ((k, l) ∷ m) t =
    ground (arith, covers_some-append_to key iv m t, covers-snoc iv l t)

abbrev pub IsGroupsWithin : ℕ → ℕ → Groups → Type 0
IsGroupsWithin from n = All (λ g. All (IsWithin from n) g.1)

pub append_to-IsGroupsWithin :
    (from n : ℕ) (key : Text) (iv : Interval) (m : Groups)
    → IsWithin from n iv
    → IsGroupsWithin from n m
    → IsGroupsWithin from n (append_to key iv m)
unfolding append_to
append_to-IsGroupsWithin from n key iv [] h a = ((h, tt), tt)
append_to-IsGroupsWithin from n key iv ((k, l) ∷ m) h a = elim (Bool-cases (text_eq k key)) [
  | inl e ↦ rw e (All-append _ l (iv ∷ []) a.0 (h, tt), a.1)
  | inr e ↦ rw e (a.0, append_to-IsGroupsWithin from n key iv m h a.1)
]

module _ (from n : ℕ) (small : n ≤ max_int64) where
  -- The sum over the projects, without the bound of an int64.
  abbrev pub span_sum : Groups → ℕ
  span_sum = total (λ g. measure (covers g.1) from n)

  pub add_spans-span_sum :
      (acc : ℕ) (m : Groups)
      → IsGroupsWithin from n m
      → acc < int64_mod
      → add_spans acc (project_spans m) ≡ (acc + span_sum m) % int64_mod
  unfolding add_spans project_spans
  add_spans-span_sum acc [] a h = omega arith
  add_spans-span_sum acc ((k, l) ∷ m) a h =
      add_spans-span_sum (add64 acc (duration (merge l))) m a.1 (omega arith)
      ∙ omega (arith, duration-merge from n l small a.0)

  pub span_sum-le-held : (m : Groups) → IsGroupsWithin from n m → span_sum m ≤ held m
  span_sum-le-held [] a = omega arith
  span_sum-le-held ((k, l) ∷ m) a =
      omega (arith, measure-covers-le from n l a.0, span_sum-le-held m a.1)

  pub covers_some-le-span_sum : (m : Groups) → measure (covers_some m) from n ≤ span_sum m
  covers_some-le-span_sum [] = omega (arith, measure_none (λ t. false) from n (λ t. refl))
  covers_some-le-span_sum ((k, l) ∷ m) = omega (
    arith,
    measure_or_le (covers l) (covers_some m) (covers_some ((k, l) ∷ m)) from n (λ t. ground arith),
    covers_some-le-span_sum m,
  )
