-- ===== src/Common/Assoc.antt =====
-- Go's `map[string]V` as an association list, and the laws of its operations.
use codex_tempo.Common.Tests.{if◌then◌else◌, Bool-cases}
use codex_tempo.Common.Lists.{All, count}
use codex_tempo.Common.Text.{Text, text_eq, text_eq_iff}
use Prim.Native.Nat.{◌≤◌}
use mathlib.Core.Path.{◌≡◌, refl, sym, subst}
use mathlib.Core.Logic.{inl, inr}
use mathlib.Core.Bool.{Bool, true, false}
use mathlib.Core.List.{List, [], ◌∷◌}
use mathlib.Core.Option.{Option, none, some}
use native.Mathlib.Omega.{arith}

module _ {ℓ} {V : Type ℓ} where
  unfoldable pub get : Text → List (Text × V) → Option V
  get k [] = none
  get k ((j, v) ∷ m) = if text_eq j k then some v else get k m

  -- `m[k] = v`: a new key goes to the end.
  unfoldable pub put : Text → V → List (Text × V) → List (Text × V)
  put k v [] = (k, v) ∷ []
  put k v ((j, w) ∷ m) = if text_eq j k then (j, v) ∷ m else (j, w) ∷ put k v m

  -- `delete(m, k)`
  unfoldable pub delete : Text → List (Text × V) → List (Text × V)
  delete k [] = []
  delete k ((j, w) ∷ m) = let rest = delete k m in if text_eq j k then rest else (j, w) ∷ rest

  -- A change of the value that a pointer in the map shows.
  unfoldable pub modify : Text → (V → V) → List (Text × V) → List (Text × V)
  modify k f [] = []
  modify k f ((j, w) ∷ m) = if text_eq j k then (j, f w) ∷ m else (j, w) ∷ modify k f m

  unfoldable pub values : List (Text × V) → List V
  values [] = []
  values ((j, w) ∷ m) = w ∷ values m

  unfoldable pub has : Text → List (Text × V) → Bool
  has k [] = false
  has k ((j, w) ∷ m) = if text_eq j k then true else has k m

  -- No key twice.
  unfoldable pub is_map : List (Text × V) → Bool
  is_map [] = true
  is_map ((j, w) ∷ m) = if has j m then false else is_map m

  pub get-put :
      (k j : Text) (v : V) (m : List (Text × V))
      → get j (put k v m) ≡ (if text_eq k j then some v else get j m)
  unfolding get put
  get-put k j v [] = refl
  get-put k j v ((i, w) ∷ m) =
      ground (arith, get-put k j v m, text_eq_iff i k, text_eq_iff i j, text_eq_iff k j)

  pub get-delete :
      (k j : Text) (m : List (Text × V))
      → get j (delete k m) ≡ (if text_eq k j then none else get j m)
  unfolding get delete
  get-delete k j [] = ground arith
  get-delete k j ((i, w) ∷ m) =
      ground (arith, get-delete k j m, text_eq_iff i k, text_eq_iff i j, text_eq_iff k j)

  pub get-modify :
      (k j : Text) (f : V → V) (m : List (Text × V))
      → get j (modify k f m)
        ≡ (if text_eq k j then elim (get j m) [ none ↦ none | some v ↦ some (f v) ] else get j m)
  unfolding get modify
  get-modify k j f [] = ground arith
  get-modify k j f ((i, w) ∷ m) =
      ground (arith, get-modify k j f m, text_eq_iff i k, text_eq_iff i j, text_eq_iff k j)

  pub has-put :
      (k j : Text) (v : V) (m : List (Text × V))
      → has j (put k v m) ≡ (if text_eq k j then true else has j m)
  unfolding has put
  has-put k j v [] = refl
  has-put k j v ((i, w) ∷ m) =
      ground (arith, has-put k j v m, text_eq_iff i k, text_eq_iff i j, text_eq_iff k j)

  pub has-modify : (k j : Text) (f : V → V) (m : List (Text × V)) → has j (modify k f m) ≡ has j m
  unfolding has modify
  has-modify k j f [] = refl
  has-modify k j f ((i, w) ∷ m) = ground (arith, has-modify k j f m)

  pub put-is_map :
      (k : Text) (v : V) (m : List (Text × V)) → is_map m ≡ true → is_map (put k v m) ≡ true
  unfolding is_map put
  put-is_map k v [] h = unfold has in refl
  put-is_map k v ((i, w) ∷ m) h =
      ground (arith, put-is_map k v m, has-put k i v m, text_eq_iff i k, text_eq_iff k i)

  pub modify-is_map :
      (k : Text) (f : V → V) (m : List (Text × V)) → is_map (modify k f m) ≡ is_map m
  unfolding is_map modify
  modify-is_map k f [] = refl
  modify-is_map k f ((i, w) ∷ m) = ground (arith, modify-is_map k f m, has-modify k i f m)

  -- A property of all entries.
  abbrev pub AllEntries {κ} : (Text → V → Type κ) → List (Text × V) → Type κ
  AllEntries P m = All (λ e. P e.0 e.1) m

  pub AllEntries-modify {κ} :
      (P : Text → V → Type κ) (k : Text) (f : V → V) (m : List (Text × V))
      → ((j : Text) (v : V) → P j v → P j (f v))
      → AllEntries P m
      → AllEntries P (modify k f m)
  unfolding modify
  AllEntries-modify P k f [] h a = tt
  AllEntries-modify P k f ((j, w) ∷ m) h a = elim (Bool-cases (text_eq j k)) [
    | inl e ↦ rw e (h j w a.0, a.1)
    | inr e ↦ rw e (a.0, AllEntries-modify P k f m h a.1)
  ]

  pub AllEntries-put {κ} :
      (P : Text → V → Type κ) (k : Text) (v : V) (m : List (Text × V))
      → P k v
      → AllEntries P m
      → AllEntries P (put k v m)
  unfolding put
  AllEntries-put P k v [] h a = (h, tt)
  AllEntries-put P k v ((j, w) ∷ m) h a = elim (Bool-cases (text_eq j k)) [
    | inl e ↦ rw e (subst (λ (i : Text). P i v) (sym ((text_eq_iff j k).0 e)) h, a.1)
    | inr e ↦ rw e (a.0, AllEntries-put P k v m h a.1)
  ]

  pub All-values {κ μ} :
      (P : Text → V → Type κ) (Q : V → Type μ) (m : List (Text × V))
      → ((j : Text) (v : V) → P j v → Q v)
      → AllEntries P m
      → All Q (values m)
  unfolding values
  All-values P Q [] h a = tt
  All-values P Q ((j, w) ∷ m) h a = (h j w a.0, All-values P Q m h a.1)

  -- Where the values carry their keys, a map has at most one value with a given key.
  pub count-values :
      (key : V → Text) (j : Text) (m : List (Text × V))
      → AllEntries (λ k v. key v ≡ k) m
      → is_map m ≡ true
      → count (λ v. text_eq (key v) j) (values m) ≤ (if has j m then 1 else 0)
  unfolding values has is_map
  count-values key j [] a h = omega arith
  count-values key j ((k, w) ∷ m) a h =
      ground (arith, count-values key j m a.1, text_eq_iff (key w) j, text_eq_iff k j)
