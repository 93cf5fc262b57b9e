-- ===== src/Common/Sort.antt =====
-- `sort.SliceStable` and `sort.Slice`: a stable sort by a `less` function, with what it keeps.
-- Where the program calls the unstable one, items that neither precede the other may come in
-- any order.
use mathlib.Core.Path.{◌≡◌, refl, sym, ap₂, ◌∙◌}
use mathlib.Core.Logic.{◌⊎◌, inl, inr}
use mathlib.Core.Bool.{Bool, true, false, Bool-set}
use mathlib.Core.List.{List, [], ◌∷◌, Pairwise, Permᴰ, Pairwise-cons, mem-cons_self}
use mathlib.Core.List.Permᴰ
use Prim.Native.Nat.{ℕ, ◌+◌}
use native.Mathlib.Omega.{arith}
use codex_tempo.Common.Tests.{if◌then◌else◌, Bool-cases}
use codex_tempo.Common.Lists.{total, All, All-imp}

-- What `sort` asks of `less`.
pub record IsWeakOrder {ℓ} {A : Type ℓ} (less : A → A → Bool) : Type ℓ where
  pub asymm : (a b : A) → less a b ≡ true → less b a ≡ false
  pub cotrans : (a b c : A) → less a c ≡ true → (less a b ≡ true) ⊎ (less b c ≡ true)

module _ {ℓ} {A : Type ℓ} where
  unfoldable pub insert_by : (A → A → Bool) → A → List A → List A
  insert_by less x [] = x ∷ []
  insert_by less x (y ∷ ys) = if less y x then y ∷ insert_by less x ys else x ∷ y ∷ ys

  unfoldable pub sort_by : (A → A → Bool) → List A → List A
  unfolding insert_by
  sort_by less [] = []
  sort_by less (x ∷ xs) = insert_by less x (sort_by less xs)

  -- No item is preceded by a later one.
  abbrev pub IsSorted : (A → A → Bool) → List A → Type 0
  IsSorted less [] = Unit
  IsSorted less (x ∷ xs) = All (λ y. less y x ≡ false) xs × IsSorted less xs

module _ {ℓ} {A : Type ℓ} (less : A → A → Bool) where
  pub total-insert_by :
      (f : A → ℕ) (x : A) (l : List A) → total f (insert_by less x l) ≡ f x + total f l
  unfolding insert_by
  total-insert_by f x [] = refl
  total-insert_by f x (y ∷ ys) = ground (arith, total-insert_by f x ys)

  -- A sum over the items, and so every count, is that of the input.
  pub total-sort_by : (f : A → ℕ) (l : List A) → total f (sort_by less l) ≡ total f l
  unfolding sort_by
  total-sort_by f [] = refl
  total-sort_by f (x ∷ xs) =
      omega (arith, total-insert_by f x (sort_by less xs), total-sort_by f xs)

  pub All-insert_by {κ} :
      (P : A → Type κ) (x : A) (l : List A) → P x → All P l → All P (insert_by less x l)
  unfolding insert_by
  All-insert_by P x [] h k = (h, tt)
  All-insert_by P x (y ∷ ys) h k = elim (Bool-cases (less y x)) [
    | inl before ↦ rw before (k.0, All-insert_by P x ys h k.1)
    | inr after ↦ rw after (h, k)
  ]

  pub All-sort_by {κ} : (P : A → Type κ) (l : List A) → All P l → All P (sort_by less l)
  unfolding sort_by
  All-sort_by P [] h = tt
  All-sort_by P (x ∷ xs) h = All-insert_by P x (sort_by less xs) h.0 (All-sort_by P xs h.1)

-- Two items of which one precedes the other.
abbrev pub apart {ℓ} : {A : Type ℓ} → (A → A → Bool) → A → A → Bool
apart less a b = if less a b then true else less b a

module _ {ℓ} {A : Type ℓ} {less : A → A → Bool} (w : IsWeakOrder less) where
  -- What does not precede `y`, which does not precede `x`, does not precede `x`.
  not_before_trans : (x y z : A) → less y x ≡ false → less z y ≡ false → less z x ≡ false
  not_before_trans x y z h k = elim (Bool-cases (less z x)) [
    | inl e ↦ elim (w.cotrans z y x e) [ inl p ↦ cc | inr p ↦ cc ]
    | inr e ↦ e
  ]

  pub insert_by-IsSorted :
      (x : A) (l : List A) → IsSorted less l → IsSorted less (insert_by less x l)
  unfolding insert_by
  insert_by-IsSorted x [] s = (tt, tt)
  insert_by-IsSorted x (y ∷ ys) s = elim (Bool-cases (less y x)) [
    | inl before ↦
        rw before (All-insert_by less _ x ys (w.asymm y x before) s.0, insert_by-IsSorted x ys s.1)
    | inr after ↦ rw after ((after, All-imp (λ z k. not_before_trans x y z after k) ys s.0), s)
  ]

  pub sort_by-IsSorted : (l : List A) → IsSorted less (sort_by less l)
  unfolding sort_by
  sort_by-IsSorted [] = tt
  sort_by-IsSorted (x ∷ xs) = insert_by-IsSorted x (sort_by less xs) (sort_by-IsSorted xs)

  insert_by_comm_lt :
      (a b : A) (l : List A)
      → less a b ≡ true
      → insert_by less a (insert_by less b l) ≡ insert_by less b (insert_by less a l)
  unfolding insert_by
  insert_by_comm_lt a b [] h = ground (arith, w.asymm a b h)
  insert_by_comm_lt a b (y ∷ ys) h =
      ground (arith, insert_by_comm_lt a b ys h, w.asymm a b h, w.cotrans a y b h, w.asymm y a)

  insert_by_comm :
      (a b : A) (l : List A)
      → apart less a b ≡ true
      → insert_by less a (insert_by less b l) ≡ insert_by less b (insert_by less a l)
  insert_by_comm a b l h = elim (Bool-cases (less a b)) [
    | inl e ↦ insert_by_comm_lt a b l e
    | inr e ↦ sym (insert_by_comm_lt b a l (ground arith))
  ]

  apart_symm : (a b : A) → apart less a b ≡ true → apart less b a ≡ true
  apart_symm a b h = ground arith

  -- Items of which each two are apart come in one order, whatever the order of the input.
  pub sort_by-perm :
      {xs ys : List A}
      → Permᴰ xs ys
      → Pairwise (λ a b. apart less a b ≡ true) xs
      → sort_by less xs ≡ sort_by less ys
  unfolding sort_by
  sort_by-perm Permᴰ.nil h = refl
  sort_by-perm (Permᴰ.cons e p) h = ap₂ (insert_by less) e (sort_by-perm p (Pairwise-cons.0 h).1)
  sort_by-perm (Permᴰ.swap {a} {b} {l = l} e f) h =
      insert_by_comm a b (sort_by less l) ((Pairwise-cons.0 h).0 b mem-cons_self)
      ∙ ap₂ (λ x y. insert_by less x (insert_by less y (sort_by less l))) f e
  sort_by-perm (Permᴰ.trans p q) h =
      sort_by-perm p h ∙ sort_by-perm q (Permᴰ.pairwise (λ a b. Bool-set _ _) apart_symm p h)
