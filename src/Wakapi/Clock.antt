-- ===== src/Wakapi/Clock.antt =====
-- internal/wakapi/client.go: `unixTime`, by the laws of float64 on numbers from 0 to nine thousand
-- million.
use codex_tempo.Common.{
  ℕ, ◌+◌, ◌*◌, ◌≤◌, ◌<◌, ◌≡◌, ◌⊎◌, refl, sym, ap, ◌∙◌, true, inl, inr, arith, Bool-cases, ltb,
}
use codex_tempo.Common.Word.{max_int64}
use codex_tempo.Localdb.Stamp.{second}
use codex_tempo.Wakapi.Gaps.{Float, epoch, unix, unix_time}

-- Seconds up to the year 2255.
abbrev pub limit : ℕ
limit = 9000000000

module _ {ℓ} {F : Type ℓ} (float : Float F) where
  -- The order of float64; no value of `0 ≼ x` is a NaN or the negative zero.
  infix 4 ◌≼◌
  abbrev pub ◌≼◌ : F → F → Type ℓ
  ◌≼◌ x y = (float.lt x y ≡ true) ⊎ (x ≡ y)

  abbrev pub IsWithin : F → Type ℓ
  IsWithin x = (float.zero ≼ x) × (x ≼ float.of_int64 limit)

  abbrev pub whole : F → F
  whole x = (float.modf x).0

  abbrev pub fraction : F → F
  fraction x = (float.modf x).1

  abbrev pub scale : F → F
  scale x = float.mul x (float.of_int64 second)

  -- What IEEE 754 and the packages `math` and `time` promise on these numbers: conversions of whole
  -- numbers are exact, `math.Modf` gives a whole number and a fraction below 1, and each operation is
  -- monotone.
  pub record IsFloat : Type ℓ where
    pub le_trans : (x y z : F) → x ≼ y → y ≼ z → x ≼ z
    pub of_zero : float.of_int64 0 ≡ float.zero
    pub of_mono : (m n : ℕ) → m ≤ n → n ≤ limit → float.of_int64 m ≼ float.of_int64 n
    pub to_of : (n : ℕ) → n ≤ limit → float.to_int64 (float.of_int64 n) ≡ n
    pub to_mono : (x y : F) → IsWithin x → IsWithin y → x ≼ y → float.to_int64 x ≤ float.to_int64 y
    pub sub_positive :
        (x y : F)
        → IsWithin x
        → IsWithin y
        → float.lt float.zero (float.sub y x) ≡ true
        → float.lt x y ≡ true
    pub whole_within : (x : F) → IsWithin x → IsWithin (whole x)
    pub whole_mono : (x y : F) → IsWithin x → IsWithin y → x ≼ y → whole x ≼ whole y
    pub whole_exact : (x : F) → IsWithin x → float.of_int64 (float.to_int64 (whole x)) ≡ whole x
    pub fraction_within :
        (x : F) → IsWithin x → (float.zero ≼ fraction x) × (fraction x ≼ float.of_int64 1)
    pub fraction_mono :
        (x y : F) → IsWithin x → IsWithin y → x ≼ y → whole x ≡ whole y → fraction x ≼ fraction y
    pub mul_zero : scale float.zero ≡ float.zero
    pub mul_one : scale (float.of_int64 1) ≡ float.of_int64 second
    pub mul_mono : (x y : F) → IsWithin x → IsWithin y → x ≼ y → scale x ≼ scale y
    pub round_of : (n : ℕ) → n ≤ limit → float.round (float.of_int64 n) ≡ float.of_int64 n
    pub round_mono : (x y : F) → IsWithin x → IsWithin y → x ≼ y → float.round x ≼ float.round y

  -- Whole seconds and the rest in nanoseconds.
  abbrev seconds_of : F → ℕ
  seconds_of x = float.to_int64 (whole x)

  abbrev nanoseconds_of : F → ℕ
  nanoseconds_of x = float.to_int64 (float.round (scale (fraction x)))

  module _ (law : IsFloat) where
    of-IsWithin : (n : ℕ) → n ≤ limit → IsWithin (float.of_int64 n)
    of-IsWithin n h =
        (rw (← law.of_zero) (law.of_mono 0 n (omega arith) h), law.of_mono n limit h (omega arith))

    zero-IsWithin : IsWithin float.zero
    zero-IsWithin = (inr refl, rw (← law.of_zero) (law.of_mono 0 limit (omega arith) (omega arith)))

    -- What is at most a whole number within the range is within it.
    below-IsWithin :
        (x : F) (n : ℕ) → n ≤ limit → float.zero ≼ x → x ≼ float.of_int64 n → IsWithin x
    below-IsWithin x n h low high =
        (low, law.le_trans x (float.of_int64 n) (float.of_int64 limit) high (of-IsWithin n h).1)

    fraction-IsWithin : (x : F) → IsWithin x → IsWithin (fraction x)
    fraction-IsWithin x w =
        let (low, high) = law.fraction_within x w in
        below-IsWithin (fraction x) 1 (omega arith) low high

    scaled_within :
        (x : F)
        → IsWithin x
        → (float.zero ≼ scale (fraction x)) × (scale (fraction x) ≼ float.of_int64 second)
    scaled_within x w =
        let (low, high) = law.fraction_within x w in
        let f = fraction-IsWithin x w in
        let from : scale float.zero ≼ scale (fraction x) =
          law.mul_mono float.zero (fraction x) zero-IsWithin f low in
        let to : scale (fraction x) ≼ scale (float.of_int64 1) =
          law.mul_mono (fraction x) (float.of_int64 1) f (of-IsWithin 1 (omega arith)) high in
        (rw (← law.mul_zero) from, rw (← law.mul_one) to)

    scaled-IsWithin : (x : F) → IsWithin x → IsWithin (scale (fraction x))
    scaled-IsWithin x w =
        let (low, high) = scaled_within x w in
        below-IsWithin (scale (fraction x)) second (omega arith) low high

    round_zero : float.round float.zero ≡ float.zero
    round_zero = rw (← law.of_zero) (law.round_of 0 (omega arith))

    rounded_within :
        (x : F)
        → IsWithin x
        → (float.zero ≼ float.round (scale (fraction x)))
          × (float.round (scale (fraction x)) ≼ float.of_int64 second)
    rounded_within x w =
        let (low, high) = scaled_within x w in
        let s = scaled-IsWithin x w in
        let from : float.round float.zero ≼ float.round (scale (fraction x)) =
          law.round_mono float.zero (scale (fraction x)) zero-IsWithin s low in
        let to : float.round (scale (fraction x)) ≼ float.round (float.of_int64 second) =
          law.round_mono (scale (fraction x)) (float.of_int64 second) s
            (of-IsWithin second (omega arith)) high in
        (rw (← round_zero) from, rw (← law.round_of second (omega arith)) to)

    rounded-IsWithin : (x : F) → IsWithin x → IsWithin (float.round (scale (fraction x)))
    rounded-IsWithin x w =
        let (low, high) = rounded_within x w in
        below-IsWithin (float.round (scale (fraction x))) second (omega arith) low high

    nanoseconds_of_bound : (x : F) → IsWithin x → nanoseconds_of x ≤ second
    nanoseconds_of_bound x w =
        let h =
          law.to_mono (float.round (scale (fraction x))) (float.of_int64 second)
            (rounded-IsWithin x w) (of-IsWithin second (omega arith)) (rounded_within x w).1 in
        omega (arith, h, law.to_of second (omega arith))

    seconds_of_bound : (x : F) → IsWithin x → seconds_of x ≤ limit
    seconds_of_bound x w =
        let h =
          law.to_mono (whole x) (float.of_int64 limit) (law.whole_within x w)
            (of-IsWithin limit (omega arith)) (law.whole_within x w).1 in
        omega (arith, h, law.to_of limit (omega arith))

    unix_time-sum :
        (x : F) → IsWithin x → unix_time float x ≡ epoch + seconds_of x * second + nanoseconds_of x
    unfolding unix_time unix
    unix_time-sum x w = ground (arith, seconds_of_bound x w, nanoseconds_of_bound x w)

    -- The instants are after the epoch by no more than a Duration reaches.
    pub unix_time_bounds :
        (x : F) → IsWithin x → (epoch ≤ unix_time float x) × (unix_time float x ≤ epoch + max_int64)
    unix_time_bounds x w =
        let e = unix_time-sum x w in
        (omega (arith, e), omega (arith, e, seconds_of_bound x w, nanoseconds_of_bound x w))

    nanoseconds_of_mono :
        (x y : F)
        → IsWithin x
        → IsWithin y
        → x ≼ y
        → whole x ≡ whole y
        → nanoseconds_of x ≤ nanoseconds_of y
    nanoseconds_of_mono x y v w h e =
        let f = law.fraction_mono x y v w h e in
        let s =
          law.mul_mono (fraction x) (fraction y) (fraction-IsWithin x v) (fraction-IsWithin y w)
            f in
        let r =
          law.round_mono (scale (fraction x)) (scale (fraction y)) (scaled-IsWithin x v)
            (scaled-IsWithin y w) s in
        law.to_mono (float.round (scale (fraction x))) (float.round (scale (fraction y)))
          (rounded-IsWithin x v) (rounded-IsWithin y w) r

    whole-seconds_of :
        (x y : F) → IsWithin x → IsWithin y → seconds_of x ≡ seconds_of y → whole x ≡ whole y
    whole-seconds_of x y v w e =
        sym (law.whole_exact x v) ∙ ap float.of_int64 e ∙ law.whole_exact y w

    -- A later time is no earlier instant: in one second by the fractions, and a fraction is rounded to
    -- at most the next second.
    pub unix_time_mono :
        (x y : F) → IsWithin x → IsWithin y → x ≼ y → unix_time float x ≤ unix_time float y
    unix_time_mono x y v w h =
        let s =
          law.to_mono (whole x) (whole y) (law.whole_within x v) (law.whole_within y w)
            (law.whole_mono x y v w h) in
        let p = unix_time-sum x v in
        let q = unix_time-sum y w in
        elim (Bool-cases (ltb (seconds_of x) (seconds_of y))) [
          | inl l ↦
              let l' : seconds_of x < seconds_of y = ground (arith, l) in
              omega (arith, l', p, q, nanoseconds_of_bound x v)
          | inr l ↦
              let e : seconds_of x ≡ seconds_of y = ground (arith, l, s) in
              omega (arith, e, p, q, nanoseconds_of_mono x y v w h (whole-seconds_of x y v w e))
        ]
