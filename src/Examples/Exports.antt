-- ===== src/Examples/Exports.antt =====
-- A day of heartbeats with thousandths of seconds as float64, to which the theorem of the export is applied.
use codex_tempo.Common.{
  ℕ, ◌+◌, ◌-◌, ◌*◌, ◌/◌, ◌%◌, ◌≤◌, ◌≡◌, refl, Option, none, some, List, [], ◌∷◌, arith, All, ltb,
  inl, inr, Bool-cases,
}
use mathlib.Core.Path.{subst}
use codex_tempo.Common.Text.{Text, codes}
use codex_tempo.Common.Sort.{sort_by}
use codex_tempo.Wakapi.{Export}
use codex_tempo.Wakapi.Gaps.{Float, Heartbeat, epoch, export}
use codex_tempo.Wakapi.Clock.{◌≼◌, IsWithin, IsFloat}
use codex_tempo.Wakapi.Sums.{AreTimely, IsSummed, export-IsSummed}

-- Numbers of thousandths.
abbrev thousandths : Float ℕ
thousandths = record {
  lt = ltb;
  sub = λ a b. a - b;
  mul = λ a b. a * b / 1000;
  zero = 0;
  modf = λ a. (a / 1000 * 1000, a % 1000);
  round = λ a. (a + 500) / 1000 * 1000;
  of_int64 = λ n. n * 1000;
  to_int64 = λ a. a / 1000;
  seconds = λ d. d / 1000000;
}

le : {x y : ℕ} → x ≤ y → ◌≼◌ thousandths x y
le {x} {y} h = elim (Bool-cases (ltb x y)) [ inl e ↦ inl e | inr e ↦ inr (ground (arith, e, h)) ]

le_inv : {x y : ℕ} → ◌≼◌ thousandths x y → x ≤ y
le_inv {x} {y} h = elim h [ inl e ↦ ground (arith, e) | inr e ↦ omega (arith, e) ]

thousandths-IsFloat : IsFloat thousandths
thousandths-IsFloat = record {
  le_trans = λ x y z p q. le (omega (arith, le_inv p, le_inv q));
  of_zero = refl;
  of_mono = λ m n h k. le (omega (arith, h));
  to_of = λ n h. omega arith;
  to_mono = λ x y v w h. omega (arith, le_inv h);
  sub_positive = λ x y v w h. ground (arith, h);
  whole_within = λ x w. (le (omega arith), le (omega (arith, le_inv w.1)));
  whole_mono = λ x y v w h. le (omega (arith, le_inv h));
  whole_exact = λ x w. omega arith;
  fraction_within = λ x w. (le (omega arith), le (omega arith));
  fraction_mono = λ x y v w h e. le (omega (arith, le_inv h, e));
  mul_zero = refl;
  mul_one = refl;
  mul_mono = λ x y v w h. le (omega (arith, le_inv h));
  round_of = λ n h. omega arith;
  round_mono = λ x y v w h. le (omega (arith, le_inv h));
}

abbrev beat : ℕ → Text → Heartbeat ℕ
beat t project = record { time = t; project = project }

abbrev beats : List (Heartbeat ℕ)
beats = beat 40250 [] ∷ beat 10000 (65 ∷ []) ∷ beat 20500 (65 ∷ []) ∷ beat 30999 [] ∷ []

abbrev first_day : Option (Text × Text)
first_day = some (codes "2026-01-01", codes "2026-01-01")

abbrev exported : Option Export
exported = export thousandths (λ t. some 0) first_day (λ at. some beats) [] [] 900000000000

abbrev or_none : Option Export → Export
or_none none = record { from = []; to = []; heartbeats = 0; intervals = []; duration = 0 }
or_none (some e) = e

exported_so : exported ≡ some (or_none exported)
unfolding export sort_by
exported_so = refl

timely : AreTimely thousandths (λ at. some beats)
timely at hs e =
    let same : beats ≡ hs = ground (arith, e) in
    subst (λ (l : List (Heartbeat ℕ)). All (λ h. IsWithin thousandths h.time) l) same
      ((
        near 40250 (omega arith),
        (near 10000 (omega arith), (near 20500 (omega arith), (near 30999 (omega arith), tt))),
      ))
  where
    near : (t : ℕ) → t ≤ 50000 → IsWithin thousandths t
    near t h = (le (omega arith), le (omega (arith, h)))

export-IsSummed_example : IsSummed thousandths epoch (or_none exported)
export-IsSummed_example =
    export-IsSummed thousandths (λ t. some 0) first_day (λ at. some beats) [] [] 900000000000
      (or_none exported) thousandths-IsFloat timely exported_so
