-- ===== src/Codex/Growth.antt =====
-- internal/codex/parser.go: a transcript that grows between two calls of `ParseFile`.
use codex_tempo.Common.{
  ℕ, zero, suc, ◌+◌, ◌≡◌, ◌≤◌, ◌<◌, refl, Option, none, some, List, [], ◌∷◌, ◌++◌, arith, length,
  total, Bool-cases, inl, inr, ap, sym, ◌∙◌, length-append,
}
use mathlib.Core.List.{append_assoc, append-nil}
use codex_tempo.Common.Text.{Text, text_eq, text_eq_refl}
use codex_tempo.Common.Word.{add64, int64_mod}
use codex_tempo.Domain.{Event}
use codex_tempo.Localdb.{Cursor}
use codex_tempo.Codex.{World, Envelope}
use codex_tempo.Codex.Lines.{complete_lines, drop, trim_space, complete_lines_grown, total-lines}
use codex_tempo.Codex.Parser.{
  Progress, set_project, set_directory, use_metadata, emit, use_parsed, advance_cursor, use_line,
  line_step, parse_lines, open_cursor, parse_file,
}
use codex_tempo.Codex.Records.{File, Parser, Parsed, parse_line}

abbrev pub begin : Cursor → Progress
begin c = record { cursor = c; events = []; errors = [] }

-- The second progress after the first.
abbrev pub after : Progress → Progress → Progress
after s t = record {
  cursor = t.cursor;
  events = s.events ++ t.events;
  errors = s.errors ++ t.errors;
}

after-nil : (c : Cursor) (s : Progress) → (record s { cursor = c }) ≡ after s (begin c)
after-nil c s = rw (append-nil s.events, append-nil s.errors) refl

after_assoc : (r s t : Progress) → after (after r s) t ≡ after r (after s t)
after_assoc r s t =
    rw (append_assoc r.events s.events t.events, append_assoc r.errors s.errors t.errors) refl

module _ (w : World) (p : Parser) where
  emit-after :
      (m : Option Envelope) (e : Option Event) (c : Cursor) (s : Progress)
      → emit w p m e (record s { cursor = c }) ≡ after s (emit w p m e (begin c))
  unfolding emit
  emit-after m none c s = after-nil c s
  emit-after m (some e) c s = rw (append-nil s.errors) refl

  use_parsed-after :
      (start : ℕ) (o : Option Parsed) (c : Cursor) (s : Progress)
      → use_parsed w p start o (record s { cursor = c })
        ≡ after s (use_parsed w p start o (begin c))
  unfolding use_parsed
  use_parsed-after start none c s =
      ap (λ es. record { cursor = c; events = es; errors = s.errors ++ start ∷ [] })
        (sym (append-nil s.events))
  use_parsed-after start (some (e, m)) c s = emit-after m e (use_metadata w p m c) s

  use_line-after :
      (start : ℕ) (line : Text) (c : Cursor) (s : Progress)
      → use_line w p start line (record s { cursor = c })
        ≡ after s (use_line w p start line (begin c))
  unfolding use_line
  use_line-after start line c s = elim (Bool-cases (text_eq line [])) [
    | inl e ↦ rw e (after-nil c s)
    | inr e ↦ rw e (use_parsed-after start (parse_line w line c) c s)
  ]

  step-after :
      (modified : ℕ) (raw : Text) (s : Progress)
      → line_step w p modified raw s ≡ after s (line_step w p modified raw (begin s.cursor))
  unfolding line_step
  step-after modified raw s =
      use_line-after s.cursor.byte_offset (trim_space raw) (advance_cursor modified raw s.cursor) s

  -- What a line does to the place in the file.
  record IsAt (c : Cursor) (n : ℕ) (d : Cursor) : Type 0 where
    offset : d.byte_offset ≡ add64 c.byte_offset n
    identity : d.file_identity ≡ c.file_identity
    path : d.path ≡ c.path

  metadata-at :
      (m : Option Envelope) (c : Cursor)
      → ((use_metadata w p m c).byte_offset ≡ c.byte_offset)
        × ((use_metadata w p m c).file_identity ≡ c.file_identity)
        × ((use_metadata w p m c).path ≡ c.path)
  unfolding use_metadata set_directory set_project
  metadata-at none c = (refl, refl, refl)
  metadata-at (some m) c = (ground arith, ground arith, ground arith)

  emit-at :
      (m : Option Envelope) (e : Option Event) (s : Progress)
      → ((emit w p m e s).cursor.byte_offset ≡ s.cursor.byte_offset)
        × ((emit w p m e s).cursor.file_identity ≡ s.cursor.file_identity)
        × ((emit w p m e s).cursor.path ≡ s.cursor.path)
  unfolding emit
  emit-at m none s = (refl, refl, refl)
  emit-at m (some e) s = (refl, refl, refl)

  parsed-at :
      (start : ℕ) (o : Option Parsed) (s : Progress)
      → ((use_parsed w p start o s).cursor.byte_offset ≡ s.cursor.byte_offset)
        × ((use_parsed w p start o s).cursor.file_identity ≡ s.cursor.file_identity)
        × ((use_parsed w p start o s).cursor.path ≡ s.cursor.path)
  unfolding use_parsed
  parsed-at start none s = (refl, refl, refl)
  parsed-at start (some (e, m)) s =
      let a = metadata-at m s.cursor in
      let b = emit-at m e (record s { cursor = use_metadata w p m s.cursor }) in
      (b.0 ∙ a.0, b.1 ∙ a.1, b.2 ∙ a.2)

  line-at :
      (start : ℕ) (line : Text) (s : Progress)
      → ((use_line w p start line s).cursor.byte_offset ≡ s.cursor.byte_offset)
        × ((use_line w p start line s).cursor.file_identity ≡ s.cursor.file_identity)
        × ((use_line w p start line s).cursor.path ≡ s.cursor.path)
  unfolding use_line
  line-at start line s = elim (Bool-cases (text_eq line [])) [
    | inl e ↦ rw e (refl, refl, refl)
    | inr e ↦ rw e (parsed-at start (parse_line w line s.cursor) s)
  ]

  step-IsAt :
      (modified : ℕ) (raw : Text) (s : Progress)
      → IsAt s.cursor (length raw) (line_step w p modified raw s).cursor
  unfolding line_step
  step-IsAt modified raw s =
      let a =
        line-at s.cursor.byte_offset (trim_space raw)
          (record s { cursor = advance_cursor modified raw s.cursor }) in
      record {
        offset = a.0 ∙ unfold advance_cursor in refl;
        identity = a.1 ∙ (unfold advance_cursor in refl);
        path = a.2 ∙ (unfold advance_cursor in refl);
      }

  lines-IsAt :
      (modified : ℕ) (lines : List Text) (s : Progress)
      → s.cursor.byte_offset < int64_mod
      → IsAt s.cursor (total length lines) (parse_lines w p modified lines s).cursor
  unfolding parse_lines
  lines-IsAt modified [] s h = record { offset = ground (arith, h); identity = refl; path = refl }
  lines-IsAt modified (raw ∷ lines) s h =
      let a = step-IsAt modified raw s in
      let b = lines-IsAt modified lines (line_step w p modified raw s) (ground (arith, a.offset)) in
      record {
        offset = ground (arith, a.offset, b.offset);
        identity = b.identity ∙ a.identity;
        path = b.path ∙ a.path;
      }

  pub lines-after :
      (modified : ℕ) (lines : List Text) (s : Progress)
      → parse_lines w p modified lines s ≡ after s (parse_lines w p modified lines (begin s.cursor))
  unfolding parse_lines
  lines-after modified [] s = after-nil s.cursor s
  lines-after modified (raw ∷ lines) s =
      let one = line_step w p modified raw (begin s.cursor) in
      let whole = step-after modified raw s in
      ap (parse_lines w p modified lines) whole
      ∙ lines-after modified lines (after s one)
      ∙ after_assoc s one (parse_lines w p modified lines (begin one.cursor))
      ∙ ap (after s) (sym (lines-after modified lines one))

  lines-append :
      (modified : ℕ) (xs ys : List Text) (s : Progress)
      → parse_lines w p modified (xs ++ ys) s
        ≡ parse_lines w p modified ys (parse_lines w p modified xs s)
  unfolding parse_lines
  lines-append modified [] ys s = refl
  lines-append modified (x ∷ xs) ys s = lines-append modified xs ys (line_step w p modified x s)

abbrev pub grown : File → Text → File
grown file v = record file { content = file.content ++ v }

pub open-same :
    (file : File) (c : Cursor)
    → c.file_identity ≡ file.identity
    → c.byte_offset ≤ length file.content
    → open_cursor file c ≡ c
unfolding open_cursor
open-same file c e h = rw (sym e) (ground (arith, h, text_eq_refl c.file_identity))

open-grown :
    (file : File) (v : Text) (c : Cursor)
    → c.byte_offset ≤ length file.content
    → open_cursor (grown file v) c ≡ open_cursor file c
unfolding open_cursor
open-grown file v c h = ground (arith, h, length-append file.content v)

pub record IsReady (file : File) (c : Cursor) : Type 0 where
  pub identity : c.file_identity ≡ file.identity
  pub offset : c.byte_offset ≤ length file.content

pub open_cursor-IsReady : (file : File) (c : Cursor) → IsReady file (open_cursor file c)
unfolding open_cursor
open_cursor-IsReady file c = record { identity = ground arith; offset = ground arith }

length-drop : (n : ℕ) (t : Text) → n ≤ length t → n + length (drop n t) ≡ length t
unfolding drop
length-drop zero t h = omega arith
length-drop (suc n) [] h = omega (arith, h)
length-drop (suc n) (c ∷ t) h = omega (arith, length-drop n t (omega (arith, h)))

pub consumed_le :
    (n : ℕ) (t : Text) → n ≤ length t → n + total length (complete_lines (drop n t)) ≤ length t
unfolding complete_lines
consumed_le n t h = omega (arith, total-lines [] (drop n t), length-drop n t h)

-- The cursor's path stays, and so does that of the file in its place.
pub parse_file-path :
    (w : World) (p : Parser) (file : File) (c : Cursor)
    → c.path ≡ file.path
    → length file.content < int64_mod
    → (parse_file w p file c).cursor.path ≡ file.path
unfolding parse_file
parse_file-path w p file c h size =
    let opened = open_cursor file c in
    let at =
      lines-IsAt w p file.modified (complete_lines (drop opened.byte_offset file.content))
        (begin opened) (omega (arith, (open_cursor-IsReady file c).offset, size)) in
    at.path ∙ (unfold open_cursor in ground (arith, h))

-- A transcript that was read and has then got more bytes at its end, with its identity and time as
-- they were: the second call reads on where the first one stopped, also within a line, so that both
-- together give the events, the errors and the cursor of one call on the grown file. The offset of the
-- first cursor is within the file, which is shorter than 2 ^ 64 bytes.
pub parse_file-grown :
    (w : World) (p : Parser) (file : File) (v : Text) (cursor : Cursor)
    → cursor.byte_offset ≤ length file.content
    → length (file.content ++ v) < int64_mod
    → parse_file w p (grown file v) cursor
      ≡ after
          (parse_file w p file cursor)
          (parse_file w p (grown file v) (parse_file w p file cursor).cursor)
unfolding parse_file
parse_file-grown w p file v cursor h size =
    let c = open_cursor file cursor in
    let o = open_cursor-IsReady file cursor in
    let u = file.content in
    let first = complete_lines (drop c.byte_offset u) in
    let one = parse_lines w p file.modified first (begin c) in
    let fits = consumed_le c.byte_offset u o.offset in
    let longer = length-append u v in
    let at = lines-IsAt w p file.modified first (begin c) (omega (arith, o.offset, size, longer)) in
    let place : one.cursor.byte_offset ≡ c.byte_offset + total length first =
      at.offset ∙ omega (arith, fits, longer, size) in
    let reopened : open_cursor (grown file v) one.cursor ≡ one.cursor =
      open-same (grown file v) one.cursor (at.identity ∙ o.identity)
        (omega (arith, place, fits, longer)) in
    rw (open-grown file v cursor h) (
      rw (reopened) (
        rw (place) (
          rw (complete_lines_grown c.byte_offset u v o.offset) (
            lines-append w p file.modified first
              (complete_lines (drop (c.byte_offset + total length first) (u ++ v))) (begin c)
            ∙ lines-after w p file.modified
                (complete_lines (drop (c.byte_offset + total length first) (u ++ v))) one))))
