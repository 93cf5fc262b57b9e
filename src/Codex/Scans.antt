-- ===== src/Codex/Scans.antt =====
-- internal/codex/metrics.go: a transcript that grows between two calls of `Scan`.
use codex_tempo.Common.{
  ℕ, ◌+◌, ◌≡◌, ◌≤◌, ◌<◌, refl, List, [], ◌∷◌, ◌++◌, arith, length, total, ap, sym, ◌∙◌,
  length-append,
}
use mathlib.Core.List.{append_assoc, append-nil}
use codex_tempo.Common.Text.{Text, text_eq_refl}
use codex_tempo.Common.Word.{add64, int64_mod}
use codex_tempo.Domain.{Event}
use codex_tempo.Localdb.{MetricCursor}
use codex_tempo.Codex.{World}
use codex_tempo.Codex.Lines.{complete_lines, drop, complete_lines_grown}
use codex_tempo.Codex.Records.{File}
use codex_tempo.Codex.Growth.{grown, consumed_le}
use codex_tempo.Codex.Metrics.{
  MetricState, MetricScanner, StateCodec, metric_line, Scanned, scan_lines, open_metric_cursor,
  scan,
}

abbrev from_state : ℕ → MetricState → Scanned
from_state n state = record { byte_offset = n; state = state; events = [] }

abbrev after_scan : List Event → Scanned → Scanned
after_scan es s = record s { events = es ++ s.events }

module _ (w : World) (scanner : MetricScanner) (cutover : ℕ) where
  scan_lines-append :
      (xs ys : List Text) (s : Scanned)
      → scan_lines w scanner cutover (xs ++ ys) s
        ≡ scan_lines w scanner cutover ys (scan_lines w scanner cutover xs s)
  unfolding scan_lines
  scan_lines-append [] ys s = refl
  scan_lines-append (x ∷ xs) ys s =
      let r = metric_line w scanner cutover x s.state in
      scan_lines-append xs ys (record {
        byte_offset = add64 s.byte_offset (length x);
        state = r.0;
        events = s.events ++ r.1;
      })

  scan_lines-after :
      (lines : List Text) (es : List Event) (s : Scanned)
      → scan_lines w scanner cutover lines (after_scan es s)
        ≡ after_scan es (scan_lines w scanner cutover lines s)
  unfolding scan_lines
  scan_lines-after [] es s = refl
  scan_lines-after (x ∷ lines) es s =
      let r = metric_line w scanner cutover x s.state in
      let next : Scanned = record {
        byte_offset = add64 s.byte_offset (length x);
        state = r.0;
        events = s.events ++ r.1;
      } in
      ap
        (λ events.
          scan_lines w scanner cutover lines
            (record { byte_offset = add64 s.byte_offset (length x); state = r.0; events = events }))
        (append_assoc es s.events r.1)
      ∙ scan_lines-after lines es next

  scan_lines-offset :
      (lines : List Text) (s : Scanned)
      → s.byte_offset + total length lines < int64_mod
      → (scan_lines w scanner cutover lines s).byte_offset ≡ s.byte_offset + total length lines
  unfolding scan_lines
  scan_lines-offset [] s h = omega arith
  scan_lines-offset (x ∷ lines) s h =
      let r = metric_line w scanner cutover x s.state in
      let here : add64 s.byte_offset (length x) ≡ s.byte_offset + length x = omega (arith, h) in
      scan_lines-offset lines
        (record {
          byte_offset = add64 s.byte_offset (length x);
          state = r.0;
          events = s.events ++ r.1;
        })
        (omega (arith, h, here))
      ∙ omega (arith, here)

-- A cursor of this file at an offset within it.
record IsWithin (file : File) (c : MetricCursor) : Type 0 where
  path : c.path ≡ file.path
  identity : c.file_identity ≡ file.identity
  modified : c.last_modified ≡ file.modified
  offset : c.byte_offset ≤ length file.content

open_metric_cursor-IsWithin :
    (file : File) (c : MetricCursor) → IsWithin file (open_metric_cursor file c)
unfolding open_metric_cursor
open_metric_cursor-IsWithin file c = record {
  path = ground arith;
  identity = ground arith;
  modified = ground arith;
  offset = ground arith;
}

open-same : (file : File) (c : MetricCursor) → IsWithin file c → open_metric_cursor file c ≡ c
unfolding open_metric_cursor
open-same file c h =
    ground (arith, h.path, h.identity, h.modified, h.offset, text_eq_refl c.file_identity)

open-grown :
    (file : File) (v : Text) (c : MetricCursor)
    → c.byte_offset ≤ length file.content
    → open_metric_cursor (grown file v) c ≡ open_metric_cursor file c
unfolding open_metric_cursor
open-grown file v c h = ground (arith, h, length-append file.content v)

-- What `scan` does with the cursor it has opened.
scan_from : World → StateCodec → MetricScanner → File → MetricCursor → ℕ → MetricCursor × List Event
scan_from w codec scanner file c cutover =
    let s =
      scan_lines w scanner cutover (complete_lines (drop c.byte_offset file.content))
        (from_state c.byte_offset (codec.parse_state c.state)) in
    (record c { byte_offset = s.byte_offset; state = codec.print_state s.state }, s.events)

scan-from :
    (w : World) (codec : StateCodec) (scanner : MetricScanner) (file : File) (c : MetricCursor)
    (cutover : ℕ)
    → scan w codec scanner file c cutover
      ≡ scan_from w codec scanner file (open_metric_cursor file c) cutover
unfolding scan scan_from
scan-from w codec scanner file c cutover = refl

scan_from-grown :
    (w : World) (codec : StateCodec) (scanner : MetricScanner) (file : File) (v : Text)
    (c : MetricCursor) (cutover : ℕ)
    → ((state : MetricState) → codec.parse_state (codec.print_state state) ≡ state)
    → IsWithin file c
    → length (file.content ++ v) < int64_mod
    → let first = scan_from w codec scanner file c cutover in
      let second = scan_from w codec scanner (grown file v) first.0 cutover in
      (scan_from w codec scanner (grown file v) c cutover ≡ (second.0, first.1 ++ second.1))
      × IsWithin (grown file v) first.0
unfolding scan_from
scan_from-grown w codec scanner file v c cutover codes within size =
    let u = file.content in
    let lines = complete_lines (drop c.byte_offset u) in
    let s =
      scan_lines w scanner cutover lines (from_state c.byte_offset (codec.parse_state c.state)) in
    let fits = consumed_le c.byte_offset u within.offset in
    let longer = length-append u v in
    let place : s.byte_offset ≡ c.byte_offset + total length lines =
      scan_lines-offset w scanner cutover lines
        (from_state c.byte_offset (codec.parse_state c.state))
        (omega (arith, fits, longer, size)) in
    let rest = complete_lines (drop s.byte_offset (u ++ v)) in
    let split : complete_lines (drop c.byte_offset (u ++ v)) ≡ lines ++ rest =
      complete_lines_grown c.byte_offset u v within.offset
      ∙ ap (λ n. lines ++ complete_lines (drop n (u ++ v))) (sym place) in
    let again = scan_lines w scanner cutover rest (from_state s.byte_offset s.state) in
    let whole : scan_lines w scanner cutover (complete_lines (drop c.byte_offset (u ++ v)))
          (from_state c.byte_offset (codec.parse_state c.state))
        ≡ after_scan s.events again =
      ap
        (λ ls.
          scan_lines w scanner cutover ls (from_state c.byte_offset (codec.parse_state c.state)))
        split
      ∙ scan_lines-append w scanner cutover lines rest
          (from_state c.byte_offset (codec.parse_state c.state))
      ∙ ap (λ es. scan_lines w scanner cutover rest (record s { events = es }))
          (sym (append-nil s.events))
      ∙ scan_lines-after w scanner cutover rest s.events (from_state s.byte_offset s.state) in
    (
      rw whole (rw (codes s.state) refl),
      record {
        path = within.path;
        identity = within.identity;
        modified = within.modified;
        offset = omega (arith, place, fits, longer);
      },
    )

-- A transcript that was scanned and has then got more bytes at its end, with its identity and time as
-- they were: where the state survives its encoding, the second scan goes on where the first one stopped, so
-- that both together give the events, and the second one the cursor, of one scan of the grown file. The
-- offset of the first cursor is within the file, which is shorter than 2 ^ 64 bytes.
pub scan-grown :
    (w : World) (codec : StateCodec) (scanner : MetricScanner) (file : File) (v : Text)
    (cursor : MetricCursor) (cutover : ℕ)
    → ((state : MetricState) → codec.parse_state (codec.print_state state) ≡ state)
    → cursor.byte_offset ≤ length file.content
    → length (file.content ++ v) < int64_mod
    → scan w codec scanner (grown file v) cursor cutover ≡ (
      (scan w codec scanner (grown file v) (scan w codec scanner file cursor cutover).0 cutover).0,
      (scan w codec scanner file cursor cutover).1
          ++ (scan w codec scanner
              (grown file v)
              (scan w codec scanner file cursor cutover).0
              cutover).1,
    )
scan-grown w codec scanner file v cursor cutover codes h size =
    let c = open_metric_cursor file cursor in
    let r =
      scan_from-grown w codec scanner file v c cutover codes
        (open_metric_cursor-IsWithin file cursor) size in
    rw
      (
        scan-from w codec scanner (grown file v) cursor cutover,
        scan-from w codec scanner file cursor cutover,
        open-grown file v cursor h,
        scan-from w codec scanner (grown file v) (scan_from w codec scanner file c cutover).0
            cutover,
        open-same (grown file v) (scan_from w codec scanner file c cutover).0 r.1,
      )
      r.0
