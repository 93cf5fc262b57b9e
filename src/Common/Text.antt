-- ===== src/Common/Text.antt =====
-- Go's strings as byte sequences: equality and the lexicographic order of `==` and `<`.
use Prim.Native.Nat.{ℕ}
use Prim.Native.Char.{code}
use Prim.Native.String.{String}
use mathlib.Core.Path.{◌≡◌, refl}
use mathlib.Core.Logic.{◌↔◌, ◌⊎◌, inl, inr}
use mathlib.Core.Bool.{Bool, true, false}
use mathlib.Core.List.{List, [], ◌∷◌}
use native.Mathlib.Omega.{arith}
use codex_tempo.Common.Tests.{ltb, ◌==◌, if◌then◌else◌}

abbrev pub Text : Type 0
Text = List ℕ

-- A literal of the source; all of them are ASCII.
abbrev pub codes : String → Text
codes String.[] = []
codes (String.◌∷◌ c s) = code c ∷ codes s

unfoldable pub text_eq : Text → Text → Bool
text_eq [] [] = true
text_eq (a ∷ s) (b ∷ t) = if a == b then text_eq s t else false
text_eq _ _ = false

unfoldable pub text_lt : Text → Text → Bool
text_lt [] [] = false
text_lt [] (b ∷ t) = true
text_lt (a ∷ s) [] = false
text_lt (a ∷ s) (b ∷ t) = if ltb a b then true else if ltb b a then false else text_lt s t

text_eq_sound : (s t : Text) → text_eq s t ≡ true → s ≡ t
unfolding text_eq
text_eq_sound [] [] h = refl
text_eq_sound [] (b ∷ t) h = cc
text_eq_sound (a ∷ s) [] h = cc
text_eq_sound (a ∷ s) (b ∷ t) h = ground (arith, text_eq_sound s t)

pub text_eq_refl : (s : Text) → text_eq s s ≡ true
unfolding text_eq
text_eq_refl [] = refl
text_eq_refl (a ∷ s) = ground (arith, text_eq_refl s)

pub text_eq_iff : (s t : Text) → (text_eq s t ≡ true) ↔ (s ≡ t)
text_eq_iff s t = (text_eq_sound s t, λ e. rw e (text_eq_refl t))

pub text_lt_asymm : (s t : Text) → text_lt s t ≡ true → text_lt t s ≡ false
unfolding text_lt
text_lt_asymm [] [] h = cc
text_lt_asymm [] (b ∷ t) h = refl
text_lt_asymm (a ∷ s) [] h = cc
text_lt_asymm (a ∷ s) (b ∷ t) h = ground (arith, text_lt_asymm s t)

-- Of any third string, one of the two sides is strict.
pub text_lt_cotrans :
    (s t u : Text) → text_lt s u ≡ true → (text_lt s t ≡ true) ⊎ (text_lt t u ≡ true)
unfolding text_lt
text_lt_cotrans [] [] u h = inr h
text_lt_cotrans [] (b ∷ t) u h = inl refl
text_lt_cotrans (a ∷ s) t [] h = cc
text_lt_cotrans (a ∷ s) [] (c ∷ u) h = inr refl
text_lt_cotrans (a ∷ s) (b ∷ t) (c ∷ u) h = ground (arith, text_lt_cotrans s t u)

-- Two strings that do not precede one another are one string.
pub text_lt_total : (s t : Text) → text_lt s t ≡ false → text_lt t s ≡ false → s ≡ t
unfolding text_lt
text_lt_total [] [] h k = refl
text_lt_total [] (b ∷ t) h k = cc
text_lt_total (a ∷ s) [] h k = cc
text_lt_total (a ∷ s) (b ∷ t) h k = ground (arith, text_lt_total s t)
