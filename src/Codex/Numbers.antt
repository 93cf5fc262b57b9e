-- ===== src/Codex/Numbers.antt =====
-- internal/codex/parser.go: the numbers and ids of the events of one call of `ParseFile`.
use codex_tempo.Common.{
  ℕ, ◌≡◌, refl, Option, none, some, List, [], ◌∷◌, ◌++◌, arith, Bool-cases, inl, inr, ap, sym, ◌∙◌,
}
use mathlib.Core.Path.{subst}
use codex_tempo.Common.Text.{Text, text_eq}
use codex_tempo.Common.Word.{add64}
use codex_tempo.Domain.{Event}
use codex_tempo.Localdb.{Cursor}
use codex_tempo.Codex.{World, Envelope}
use codex_tempo.Codex.Lines.{complete_lines, drop, trim_space}
use codex_tempo.Codex.Parser.{
  Progress, set_project, set_directory, use_metadata, event_id, stamp, emit, use_parsed,
  advance_cursor, use_line, line_step, parse_lines, open_cursor, parse_file,
}
use codex_tempo.Codex.Records.{File, Parser, Parsed, parse_line}
use codex_tempo.Codex.Growth.{begin, after, lines-after}

-- The events count on from a number, and each has the machine and the id of its own fields.
abbrev pub IsNumbered : World → Parser → ℕ → List Event → Type 0
IsNumbered w p n [] = Unit
IsNumbered w p n (e ∷ es) =
    (e.sequence ≡ add64 n 1)
    × (e.machine_id ≡ p.machine_id)
    × (e.id ≡ event_id w p.machine_id e.session_id e.kind e.run_id e.sequence)
    × IsNumbered w p e.sequence es

abbrev pub last_number : ℕ → List Event → ℕ
last_number n [] = n
last_number n (e ∷ es) = last_number e.sequence es

module _ (w : World) (p : Parser) where
  -- The progress from a cursor's number.
  record IsStamped (n : ℕ) (s : Progress) : Type 0 where
    numbered : IsNumbered w p n s.events
    last : s.cursor.last_sequence ≡ last_number n s.events

  IsNumbered-append :
      (n : ℕ) (xs ys : List Event)
      → IsNumbered w p n xs
      → IsNumbered w p (last_number n xs) ys
      → IsNumbered w p n (xs ++ ys)
  IsNumbered-append n [] ys h k = k
  IsNumbered-append n (x ∷ xs) ys h k = (h.0, h.1, h.2, IsNumbered-append x.sequence xs ys h.3 k)

  last-append :
      (n : ℕ) (xs ys : List Event) → last_number n (xs ++ ys) ≡ last_number (last_number n xs) ys
  last-append n [] ys = refl
  last-append n (x ∷ xs) ys = last-append x.sequence xs ys

  metadata-number :
      (m : Option Envelope) (c : Cursor) → (use_metadata w p m c).last_sequence ≡ c.last_sequence
  unfolding use_metadata set_directory set_project
  metadata-number none c = refl
  metadata-number (some m) c = ground arith

  emit-IsStamped :
      (m : Option Envelope) (e : Option Event) (c : Cursor)
      → IsStamped c.last_sequence (emit w p m e (begin c))
  unfolding emit stamp
  emit-IsStamped m none c = record { numbered = tt; last = refl }
  emit-IsStamped m (some e) c = record { numbered = (refl, refl, refl, tt); last = refl }

  parsed-IsStamped :
      (start : ℕ) (o : Option Parsed) (c : Cursor)
      → IsStamped c.last_sequence (use_parsed w p start o (begin c))
  unfolding use_parsed
  parsed-IsStamped start none c = record { numbered = tt; last = refl }
  parsed-IsStamped start (some (e, m)) c =
      subst (λ n. IsStamped n (emit w p m e (begin (use_metadata w p m c)))) (metadata-number m c)
        (emit-IsStamped m e (use_metadata w p m c))

  line-IsStamped :
      (start : ℕ) (line : Text) (c : Cursor)
      → IsStamped c.last_sequence (use_line w p start line (begin c))
  unfolding use_line
  line-IsStamped start line c = elim (Bool-cases (text_eq line [])) [
    | inl e ↦ rw e (record { numbered = tt; last = refl })
    | inr e ↦ rw e (parsed-IsStamped start (parse_line w line c) c)
  ]

  step-IsStamped :
      (modified : ℕ) (raw : Text) (c : Cursor)
      → IsStamped c.last_sequence (line_step w p modified raw (begin c))
  unfolding line_step advance_cursor
  step-IsStamped modified raw c =
      line-IsStamped c.byte_offset (trim_space raw) (advance_cursor modified raw c)

  IsStamped-after :
      (n : ℕ) (s t : Progress)
      → IsStamped n s
      → IsStamped s.cursor.last_sequence t
      → IsStamped n (after s t)
  IsStamped-after n s t h k = record {
    numbered = IsNumbered-append n s.events t.events h.numbered (rw (sym h.last) k.numbered);
    last = k.last ∙ ap (λ m. last_number m t.events) h.last ∙ sym (last-append n s.events t.events);
  }

  lines-IsStamped :
      (modified : ℕ) (lines : List Text) (c : Cursor)
      → IsStamped c.last_sequence (parse_lines w p modified lines (begin c))
  unfolding parse_lines
  lines-IsStamped modified [] c = record { numbered = tt; last = refl }
  lines-IsStamped modified (raw ∷ lines) c =
      let one = line_step w p modified raw (begin c) in
      rw (lines-after w p modified lines one) (
        IsStamped-after c.last_sequence one (parse_lines w p modified lines (begin one.cursor))
          (step-IsStamped modified raw c) (lines-IsStamped modified lines one.cursor))

  -- With any file and cursor, the events of a call of `ParseFile` have consecutive sequence numbers
  -- that follow the number of the cursor the loop begins with, the last of which is the cursor's
  -- number afterwards; each has the parser's machine and the id of its fields.
  pub parse_file-IsNumbered :
      (file : File) (cursor : Cursor)
      → IsNumbered w p (open_cursor file cursor).last_sequence (parse_file w p file cursor).events
        × ((parse_file w p file cursor).cursor.last_sequence
            ≡ last_number
                (open_cursor file cursor).last_sequence
                (parse_file w p file cursor).events)
  unfolding parse_file
  parse_file-IsNumbered file cursor =
      let c = open_cursor file cursor in
      let h = lines-IsStamped file.modified (complete_lines (drop c.byte_offset file.content)) c in
      (h.numbered, h.last)
