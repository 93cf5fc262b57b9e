-- ===== src/Interval/Canonical.antt =====
-- `merge` is a normal form: its result depends only on the instants that its input covers.
use codex_tempo.Common.{ℕ, ◌≤◌, ◌<◌, ◌≡◌, refl, sym, ◌∙◌, ap, ◌↔◌, true, List, [], ◌∷◌, arith}
use native.Mathlib.Decide.{dec_lt}
use codex_tempo.Interval.{Interval, merge}
use codex_tempo.Interval.Cover.{covers, covers_before, IsSeparated, covers-merge, merge-IsSeparated}

module _ (x y : Interval) (xs ys : List Interval) where
  head_start-le :
      IsSeparated (x ∷ xs)
      → IsSeparated (y ∷ ys)
      → covers (x ∷ xs) x.start ≡ covers (y ∷ ys) x.start
      → y.start ≤ x.start
  head_start-le sx sy h = elim (dec_lt x.start y.start) [
    | yes p ↦ absurd (ground (arith, covers_before y.end x.start ys (omega arith) sy.1))
    | no p ↦ omega arith
  ]

  head_end-le :
      IsSeparated (x ∷ xs)
      → IsSeparated (y ∷ ys)
      → x.start ≡ y.start
      → covers (x ∷ xs) y.end ≡ covers (y ∷ ys) y.end
      → x.end ≤ y.end
  head_end-le sx sy e h = elim (dec_lt y.end x.end) [
    | yes p ↦ absurd (ground (arith, covers_before y.end y.end ys (omega arith) sy.1))
    | no p ↦ omega arith
  ]

  covers-tail :
      IsSeparated (x ∷ xs)
      → IsSeparated (y ∷ ys)
      → x.end ≡ y.end
      → (t : ℕ) → covers (x ∷ xs) t ≡ covers (y ∷ ys) t
      → covers xs t ≡ covers ys t
  covers-tail sx sy e t h = elim (dec_lt t x.end) [
    | yes p ↦
        covers_before x.end t xs (omega arith) sx.1
        ∙ sym (covers_before y.end t ys (omega arith) sy.1)
    | no p ↦ ground arith
  ]

covers-not-nil :
    (x : Interval) (xs : List Interval) → x.start < x.end → covers (x ∷ xs) x.start ≡ true
covers-not-nil x xs h = ground arith

interval_eq : (x y : Interval) → x.start ≡ y.start → x.end ≡ y.end → x ≡ y
interval_eq x y p q = ground arith

separated_eq :
    (a b : List Interval)
    → IsSeparated a
    → IsSeparated b
    → ((t : ℕ) → covers a t ≡ covers b t)
    → a ≡ b
separated_eq [] [] sa sb h = refl
separated_eq [] (y ∷ ys) sa sb h = cc (h y.start, covers-not-nil y ys sb.0)
separated_eq (x ∷ xs) [] sa sb h = cc (h x.start, covers-not-nil x xs sa.0)
separated_eq (x ∷ xs) (y ∷ ys) sa sb h =
    let starts : x.start ≡ y.start = omega (
      arith,
      head_start-le x y xs ys sa sb (h x.start),
      head_start-le y x ys xs sb sa (sym (h y.start)),
    ) in
    let ends : x.end ≡ y.end = omega (
      arith,
      head_end-le x y xs ys sa sb starts (h y.end),
      head_end-le y x ys xs sb sa (sym starts) (sym (h x.end)),
    ) in
    cc (
      interval_eq x y starts ends,
      separated_eq xs ys sa.2 sb.2 (λ t. covers-tail x y xs ys sa sb ends t (h t)),
    )

-- Two lists of intervals merge to one list exactly when they cover the same instants.
pub merge_eq_iff : (a b : List Interval) → (merge a ≡ merge b) ↔ ((t : ℕ) → covers a t ≡ covers b t)
merge_eq_iff a b = (
  λ e t. sym (covers-merge a t) ∙ ap (λ l. covers l t) e ∙ covers-merge b t,
  λ h.
      separated_eq (merge a) (merge b) (merge-IsSeparated a) (merge-IsSeparated b)
        (λ t. covers-merge a t ∙ h t ∙ sym (covers-merge b t)),
)

-- Merging what is merged changes nothing.
pub merge-merge : (l : List Interval) → merge (merge l) ≡ merge l
merge-merge l = (merge_eq_iff (merge l) l).1 (covers-merge l)
