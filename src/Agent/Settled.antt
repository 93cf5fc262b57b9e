-- ===== src/Agent/Settled.antt =====
-- internal/agent/service.go: a transcript that a pass has read to its end.
use codex_tempo.Common.{
  ℕ, ◌≡◌, ◌<◌, refl, sym, ap, ◌∙◌, some, List, [], ◌∷◌, ◌++◌, arith, length, length-append,
  Option-cases, inl, inr,
}
use mathlib.Core.List.{append-nil}
use mathlib.Core.Path.{subst}
use codex_tempo.Common.Text.{Text, text_eq_iff}
use codex_tempo.Common.Word.{int64_mod}
use codex_tempo.Common.Assoc.{get, put, AllEntries}
use codex_tempo.Localdb.{Cursor, Store}
use codex_tempo.Localdb.Queue.{cursor_of, record_parser_error, insert_all, commit_parsed}
use codex_tempo.Codex.{World}
use codex_tempo.Codex.Parser.{Progress, open_cursor, parse_file}
use codex_tempo.Codex.Records.{File, Parser}
use codex_tempo.Codex.Growth.{begin, after, grown, open-same, open_cursor-IsReady, parse_file-grown}
use codex_tempo.Agent.{Disk, record_errors, commit_progress}

longer : {A : Type 0} (xs : List A) (y : A) (ys : List A) → ¬ (xs ≡ xs ++ y ∷ ys)
longer xs y ys h = omega (arith, ap length h, length-append xs (y ∷ ys))

length-nil : {A : Type 0} (xs ys : List A) → xs ≡ xs ++ ys → ys ≡ []
length-nil xs [] h = refl
length-nil xs (y ∷ ys) h = absurd (longer xs y ys h)

parse_file-opened :
    (w : World) (p : Parser) (file : File) (c : Cursor)
    → parse_file w p file (open_cursor file c) ≡ parse_file w p file c
unfolding parse_file
parse_file-opened w p file c =
    let o = open_cursor-IsReady file c in
    rw (open-same file (open_cursor file c) o.identity o.offset) refl

-- A file that is read again has no more events, no more errors and the same cursor.
pub parse_file_again :
    (w : World) (p : Parser) (file : File) (c : Cursor)
    → length file.content < int64_mod
    → parse_file w p file (parse_file w p file c).cursor ≡ begin (parse_file w p file c).cursor
parse_file_again w p file c h =
    let o = open_cursor-IsReady file c in
    let first = parse_file w p file (open_cursor file c) in
    let same : grown file [] ≡ file =
      ap (λ (t : Text). record file { content = t }) (append-nil file.content) in
    let twice : first ≡ after first (parse_file w p file first.cursor) =
      subst
        (λ (f : File).
          parse_file w p f (open_cursor file c) ≡ after first (parse_file w p f first.cursor))
        same
        (parse_file-grown w p file [] (open_cursor file c) o.offset
          (rw (append-nil file.content) h)) in
    let again = parse_file w p file first.cursor in
    let events = length-nil first.events again.events (ap (λ (s : Progress). s.events) twice) in
    let errors = length-nil first.errors again.errors (ap (λ (s : Progress). s.errors) twice) in
    let cursor : again.cursor ≡ first.cursor = sym (ap (λ (s : Progress). s.cursor) twice) in
    subst (λ (r : Progress). parse_file w p file r.cursor ≡ begin r.cursor)
      (parse_file-opened w p file c)
      (λ i. record { cursor = cursor i; events = events i; errors = errors i })

put-same {ℓ} :
    {V : Type ℓ} (k : Text) (v : V) (m : List (Text × V)) → get k m ≡ some v → put k v m ≡ m
unfolding get put
put-same k v [] h = ground (arith, h)
put-same k v ((j, x) ∷ m) h = ground (arith, put-same k v m, h)

get-path :
    (k : Text) (c : Cursor) (m : List (Text × Cursor))
    → AllEntries (λ j d. d.path ≡ j) m
    → get k m ≡ some c
    → c.path ≡ k
unfolding get
get-path k c [] a e = ground (arith, e)
get-path k c ((j, d) ∷ m) a e = ground (arith, get-path k c m a.1, text_eq_iff j k, a.0, e)

-- Each cursor's row has the key of its path.
abbrev pub HasPaths : Store → Type 0
HasPaths s = AllEntries (λ k c. c.path ≡ k) s.transcript_cursors

pub cursor_of-path : (path : Text) (s : Store) → HasPaths s → (cursor_of path s).path ≡ path
unfolding cursor_of
cursor_of-path path s h = elim (Option-cases (get path s.transcript_cursors)) [
  | inl e ↦ rw (cursor_of, e) refl
  | inr (c, e) ↦ rw (cursor_of, e) (get-path path c s.transcript_cursors h e)
]

errors-cursors :
    (describe : ℕ → Text) (path : Text) (offset : ℕ) (errors : List ℕ) (s : Store)
    → (record_errors describe path offset errors s).transcript_cursors ≡ s.transcript_cursors
unfolding record_errors record_parser_error
errors-cursors describe path offset [] s = refl
errors-cursors describe path offset (e ∷ errors) s =
    errors-cursors describe path offset errors (record_parser_error path offset (describe e) s)

pub commit-cursors :
    (describe : ℕ → Text) (path : Text) (r : Progress) (s : Store)
    → (commit_progress describe path r s).transcript_cursors
      ≡ put r.cursor.path r.cursor s.transcript_cursors
unfolding commit_progress commit_parsed
commit-cursors describe path r s =
    ap (put r.cursor.path r.cursor) (errors-cursors describe path r.cursor.byte_offset r.errors s)

-- The stored cursor of a path leaves nothing to read in the file.
pub record IsSettled (w : World) (p : Parser) (file : File) (path : Text) (s : Store) : Type 0 where
  pub cursor : Cursor
  pub stored : get path s.transcript_cursors ≡ some cursor
  pub named : cursor.path ≡ path
  pub done : parse_file w p file cursor ≡ begin cursor

-- What the disk reads at a path is the file of that path, of less than 2 ^ 64 bytes.
abbrev pub IsHonest : Disk → Type 0
IsHonest disk =
    (path : Text) (file : File)
    → disk.read path ≡ some file
    → (file.path ≡ path) × (length file.content < int64_mod)

pub settled-commit :
    (describe : ℕ → Text) (path : Text) (c : Cursor) (s : Store)
    → c.path ≡ path
    → get path s.transcript_cursors ≡ some c
    → commit_progress describe path (begin c) s ≡ s
unfolding commit_progress record_errors commit_parsed insert_all
settled-commit describe path c s n h =
    ap (λ m. record s { transcript_cursors = m })
      (ap (λ k. put k c s.transcript_cursors) n ∙ put-same path c s.transcript_cursors h)
