-- ===== src/Localdb/Range.antt =====
-- internal/localdb/store.go: which events a range by the text of times has.
use codex_tempo.Common.{
  ℕ, ◌/◌, ◌%◌, ◌≡◌, ◌≢◌, refl, true, List, [], ◌∷◌, ◌++◌, map, arith, filter, All, Bool-cases, inl,
  inr, ◌∙◌,
}
use codex_tempo.Common.Text.{Text, text_lt}
use codex_tempo.Common.Sort.{All-sort_by}
use codex_tempo.Domain.{Event}
use codex_tempo.Localdb.{Row, Store}
use codex_tempo.Localdb.Stamp.{second, seconds_text, fraction_text, format_time}
use codex_tempo.Localdb.Queue.{stamp_lt, stamp_sequence_less, in_range, events_between}

text_lt-append : (a s t : Text) → text_lt (a ++ s) (a ++ t) ≡ text_lt s t
unfolding text_lt
text_lt-append [] s t = refl
text_lt-append (c ∷ a) s t = ground (arith, text_lt-append a s t)

fraction-first : (f g : ℕ) → f ≢ 0 → g ≡ 0 → text_lt (fraction_text f) (fraction_text g) ≡ true
unfolding text_lt fraction_text
fraction-first f g h k = ground (arith, h, k)

-- A time with a fraction of a second comes before the second itself: `.` before `Z`.
fraction-before :
    (at from : ℕ)
    → at / second ≡ from / second
    → at % second ≢ 0
    → from % second ≡ 0
    → stamp_lt at from ≡ true
unfolding format_time
fraction-before at from same h k = rw same (
    text_lt-append (seconds_text (from / second)) (fraction_text (at % second))
      (fraction_text (from % second))
    ∙ fraction-first (at % second) (from % second) h k)

-- In the second from a bound on, only the bound itself.
abbrev IsWhole : ℕ → Event → Type 0
IsWhole from event = event.occurred_at / second ≡ from / second → event.occurred_at ≡ from

in_range-IsWhole :
    (from to : ℕ) (row : Row)
    → from % second ≡ 0
    → in_range from to row ≡ true
    → IsWhole from row.event
unfolding in_range
in_range-IsWhole from to row k e same =
    ground (arith, k, e, same, fraction-before row.event.occurred_at from same)

rows-IsWhole :
    (from to : ℕ) (rows : List Row)
    → from % second ≡ 0
    → All (IsWhole from) (map (λ row. row.event) (filter (in_range from to) rows))
rows-IsWhole from to [] k = tt
rows-IsWhole from to (row ∷ rows) k = elim (Bool-cases (in_range from to row)) [
  | inl e ↦ rw e (in_range-IsWhole from to row k e, rows-IsWhole from to rows k)
  | inr e ↦ rw e (rows-IsWhole from to rows k)
]

-- Of a range that begins at a whole second, `Events` has from its first second no event but those at
-- its very beginning: an event a fraction of a second after the bound is left out.
pub events_between-IsWhole :
    (from to : ℕ) (s : Store)
    → from % second ≡ 0
    → All
        (λ e. e.occurred_at / second ≡ from / second → e.occurred_at ≡ from)
        (events_between from to s)
unfolding events_between
events_between-IsWhole from to s k =
    All-sort_by stamp_sequence_less (IsWhole from)
      (map (λ row. row.event) (filter (in_range from to) s.events))
      (rows-IsWhole from to s.events k)
