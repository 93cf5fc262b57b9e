-- ===== src/Codex/Lines.antt =====
-- internal/codex/parser.go and metrics.go: the lines that `reader.ReadBytes('\n')` yields, up to the
-- one without a newline at the end of the file, where both loops stop.
use codex_tempo.Common.{
  ℕ, zero, suc, ◌+◌, ◌≡◌, ◌≤◌, refl, Bool, true, false, ◌||◌, ◌&&◌, List, [], ◌∷◌, ◌++◌, arith, leb,
  ◌==◌, if◌then◌else◌, length, total, Bool-cases, inl, inr, ap, sym, ◌∙◌, length-append,
}
use codex_tempo.Common.Text.{Text}
use mathlib.Core.List.{reverse}

unfoldable pub drop : ℕ → Text → Text
drop zero t = t
drop (suc n) [] = []
drop (suc n) (c ∷ t) = drop n t

-- The complete lines, each with its newline, where `acc` has been read of the first one.
unfoldable pub lines_from : Text → Text → List Text
lines_from acc [] = []
lines_from acc (c ∷ t) = elim (c == 10) [
  | true ↦ (acc ++ c ∷ []) ∷ lines_from [] t
  | false ↦ lines_from (acc ++ c ∷ []) t
]

-- What is left without a newline.
unfoldable pub left_from : Text → Text → Text
left_from acc [] = acc
left_from acc (c ∷ t) = elim (c == 10) [
  | true ↦ left_from [] t
  | false ↦ left_from (acc ++ c ∷ []) t
]

unfoldable pub is_space : ℕ → Bool
is_space c = (leb 9 c && leb c 13) || c == 32

unfoldable pub trim_left : Text → Text
unfolding is_space
trim_left [] = []
trim_left (c ∷ t) = if is_space c then trim_left t else c ∷ t

-- `bytes.TrimSpace` for ASCII.
unfoldable pub trim_space : Text → Text
unfolding trim_left
trim_space t = reverse (trim_left (reverse (trim_left t)))

append_assoc : (a b c : Text) → (a ++ b) ++ c ≡ a ++ (b ++ c)
append_assoc [] b c = refl
append_assoc (x ∷ a) b c = ap (λ t. x ∷ t) (append_assoc a b c)

-- More bytes at the end: the lines so far, then the lines of what was left with the new bytes.
lines-append :
    (acc u v : Text) → lines_from acc (u ++ v) ≡ lines_from acc u ++ lines_from (left_from acc u) v
unfolding lines_from left_from
lines-append acc [] v = refl
lines-append acc (c ∷ u) v = elim (Bool-cases (c == 10)) [
  | inl e ↦ rw (lines_from, left_from, e) (ap (λ ls. (acc ++ c ∷ []) ∷ ls) (lines-append [] u v))
  | inr e ↦ rw (lines_from, left_from, e) (lines-append (acc ++ c ∷ []) u v)
]

line-grown :
    (acc : Text) (c : ℕ) (t : Text)
    → c == 10 ≡ false
    → lines_from [] (acc ++ c ∷ t) ≡ lines_from acc (c ∷ t)
    → lines_from [] ((acc ++ c ∷ []) ++ t) ≡ lines_from (acc ++ c ∷ []) t
unfolding lines_from
line-grown acc c t e h =
    ap (lines_from []) (append_assoc acc (c ∷ []) t) ∙ h ∙ rw (lines_from, e) refl

-- What is left has no newline, so that reading it again comes to the same.
lines-left :
    (acc u : Text)
    → ((v : Text) → lines_from [] (acc ++ v) ≡ lines_from acc v)
    → (v : Text) → lines_from [] (left_from acc u ++ v) ≡ lines_from (left_from acc u) v
unfolding lines_from left_from
lines-left acc [] h v = h v
lines-left acc (c ∷ u) h v = elim (Bool-cases (c == 10)) [
  | inl e ↦ rw (lines_from, left_from, e) (lines-left [] u (λ t. refl) v)
  | inr e ↦
      rw (lines_from, left_from, e)
        (lines-left (acc ++ c ∷ []) u (λ t. line-grown acc c t e (h (c ∷ t))) v)
]

drop-add : (a t : Text) (n : ℕ) → drop (length a + n) (a ++ t) ≡ drop n t
unfolding drop
drop-add [] t n = let z : 0 + n ≡ n = omega arith in ap (λ k. drop k t) z
drop-add (c ∷ a) t n =
    let z : suc (length a) + n ≡ suc (length a + n) = omega arith in
    ap (λ k. drop k (c ∷ (a ++ t))) z ∙ drop-add a t n

drop-lines :
    (acc u v : Text)
    → drop (total length (lines_from acc u)) (acc ++ (u ++ v)) ≡ left_from acc u ++ v
unfolding lines_from left_from drop
drop-lines acc [] v = refl
drop-lines acc (c ∷ u) v = elim (Bool-cases (c == 10)) [
  | inl e ↦
      rw (lines_from, left_from, e)
        (ap (drop (length (acc ++ c ∷ []) + total length (lines_from [] u)))
            (sym (append_assoc acc (c ∷ []) (u ++ v)))
          ∙ drop-add (acc ++ c ∷ []) (u ++ v) (total length (lines_from [] u))
          ∙ drop-lines [] u v)
  | inr e ↦
      rw (lines_from, left_from, e)
        (ap (drop (total length (lines_from (acc ++ c ∷ []) u)))
            (sym (append_assoc acc (c ∷ []) (u ++ v)))
          ∙ drop-lines (acc ++ c ∷ []) u v)
]

pub total-lines :
    (acc u : Text)
    → total length (lines_from acc u) + length (left_from acc u) ≡ length acc + length u
unfolding lines_from left_from
total-lines acc [] = omega arith
total-lines acc (c ∷ u) =
    ground (arith, total-lines [] u, total-lines (acc ++ c ∷ []) u, length-append acc (c ∷ []))

unfoldable pub complete_lines : Text → List Text
unfolding lines_from
complete_lines t = lines_from [] t

drop_nil : (n : ℕ) → drop n [] ≡ []
unfolding drop
drop_nil zero = refl
drop_nil (suc n) = refl

drop_more : (m n : ℕ) (t : Text) → drop (m + n) t ≡ drop n (drop m t)
unfolding drop
drop_more zero n t = let z : 0 + n ≡ n = omega arith in ap (λ k. drop k t) z
drop_more (suc m) n [] = drop_nil (suc m + n) ∙ sym (drop_nil n)
drop_more (suc m) n (c ∷ t) =
    let z : suc m + n ≡ suc (m + n) = omega arith in ap (λ k. drop k (c ∷ t)) z ∙ drop_more m n t

drop-append : (n : ℕ) (u v : Text) → n ≤ length u → drop n (u ++ v) ≡ drop n u ++ v
unfolding drop
drop-append zero u v h = refl
drop-append (suc n) [] v h = ground (arith, h)
drop-append (suc n) (c ∷ u) v h = drop-append n u v (omega (arith, h))

-- Reading a file in two goes: the complete lines from an offset, and, after the file has grown, those
-- from the end of the lines read, are the complete lines of the grown file from that offset.
pub complete_lines_grown :
    (n : ℕ) (u v : Text)
    → n ≤ length u
    → complete_lines (drop n (u ++ v))
      ≡ complete_lines (drop n u)
        ++ complete_lines (drop (n + total length (complete_lines (drop n u))) (u ++ v))
unfolding complete_lines
complete_lines_grown n u v h =
    let t = drop n u in
    let consumed = total length (lines_from [] t) in
    let rest : drop (n + consumed) (u ++ v) ≡ left_from [] t ++ v =
      drop_more n consumed (u ++ v)
      ∙ ap (drop consumed) (drop-append n u v h)
      ∙ drop-lines [] t v in
    ap (lines_from []) (drop-append n u v h)
    ∙ lines-append [] t v
    ∙ ap (λ ls. lines_from [] t ++ ls)
        (sym (lines-left [] t (λ x. refl) v) ∙ ap (lines_from []) (sym rest))
