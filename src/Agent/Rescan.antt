-- ===== src/Agent/Rescan.antt =====
-- internal/agent/service.go: a pass over transcripts that have not changed since the last one.
use codex_tempo.Common.{
  ◌≡◌, refl, sym, ap, ◌∙◌, Bool, true, false, none, some, List, [], ◌∷◌, Option-cases, Bool-cases,
  inl, inr,
}
use mathlib.Core.Path.{subst}
use codex_tempo.Common.Text.{Text, text_eq, text_eq_iff, text_eq_refl}
use codex_tempo.Common.Assoc.{get, put, get-put, AllEntries-put}
use codex_tempo.Localdb.{Store}
use codex_tempo.Localdb.Queue.{cursor_of}
use codex_tempo.Codex.{World}
use codex_tempo.Codex.Parser.{parse_file}
use codex_tempo.Codex.Records.{File, Parser}
use codex_tempo.Codex.Growth.{parse_file-path}
use codex_tempo.Agent.{
  Entry, unreadable, entry, Disk, scan_file, is_transcript, visit_entry, visit_entries, scan_once,
}
use codex_tempo.Agent.Settled.{
  parse_file_again, HasPaths, cursor_of-path, commit-cursors, IsSettled, IsHonest, settled-commit,
}

module _ (w : World) (p : Parser) (disk : Disk) (honest : IsHonest disk) where
  scan_file-settled :
      (path : Text) (file : File) (s : Store)
      → disk.read path ≡ some file
      → IsSettled w p file path s
      → scan_file w p disk path s ≡ (true, s)
  unfolding scan_file cursor_of
  scan_file-settled path file s r k =
      rw (scan_file, r, cursor_of, k.stored, k.done)
        (ap (λ (t : Store). (true, t))
          (settled-commit (disk.describe path) path k.cursor s k.named k.stored))

  -- The cursor that a pass over a file leaves.
  scan_file-cursors :
      (path : Text) (file : File) (s : Store)
      → disk.read path ≡ some file
      → HasPaths s
      → let c = (parse_file w p file (cursor_of path s)).cursor in
        (c.path ≡ path)
        × ((scan_file w p disk path s).1.transcript_cursors ≡ put path c s.transcript_cursors)
  unfolding scan_file
  scan_file-cursors path file s r h =
      let (own, size) = honest path file r in
      let q = parse_file w p file (cursor_of path s) in
      let named : q.cursor.path ≡ path =
        parse_file-path w p file (cursor_of path s) (cursor_of-path path s h ∙ sym own) size
        ∙ own in
      (
        named,
        rw (scan_file, r)
            (commit-cursors (disk.describe path) path q s
              ∙ ap (λ k. put k q.cursor s.transcript_cursors) named),
      )

  scan_file-IsSettled :
      (path : Text) (file : File) (s : Store)
      → disk.read path ≡ some file
      → HasPaths s
      → IsSettled w p file path (scan_file w p disk path s).1
  scan_file-IsSettled path file s r h =
      let c = (parse_file w p file (cursor_of path s)).cursor in
      let (named, cursors) = scan_file-cursors path file s r h in
      record {
        cursor = c;
        stored =
            ap (get path) cursors
            ∙ get-put path path c s.transcript_cursors
            ∙ rw (text_eq_refl path) refl;
        named = named;
        done = parse_file_again w p file (cursor_of path s) (honest path file r).1;
      }

  -- A path where the file, if there is one, is settled.
  abbrev IsQuiet : Text → Store → Type 0
  IsQuiet path s = (file : File) → disk.read path ≡ some file → IsSettled w p file path s

  scan_file-HasPaths :
      (path : Text) (s : Store) → HasPaths s → HasPaths (scan_file w p disk path s).1
  scan_file-HasPaths path s h = elim (Option-cases (disk.read path)) [
    | inl e ↦ unfold scan_file in rw (scan_file, e) h
    | inr (file, e) ↦
        let (named, cursors) = scan_file-cursors path file s e h in
        rw cursors (AllEntries-put (λ k c. c.path ≡ k) path _ s.transcript_cursors named h)
  ]

  -- A pass over one file leaves the others' cursors, and settles its own.
  scan_file-IsQuiet :
      (path other : Text) (s : Store)
      → HasPaths s
      → IsQuiet other s
      → IsQuiet other (scan_file w p disk path s).1
  scan_file-IsQuiet path other s h k file r = elim (Bool-cases (text_eq path other)) [
    | inl e ↦
        let same = (text_eq_iff path other).0 e in
        subst (λ (q : Text). IsSettled w p file q (scan_file w p disk path s).1) same
          (scan_file-IsSettled path file s (ap disk.read same ∙ r) h)
    | inr e ↦ elim (Option-cases (disk.read path)) [
      | inl n ↦ unfold scan_file in rw (scan_file, n) (k file r)
      | inr (f, n) ↦
          let (named, cursors) = scan_file-cursors path f s n h in
          let old = k file r in
          record {
            cursor = old.cursor;
            stored =
                ap (get other) cursors
                ∙ get-put path other _ s.transcript_cursors
                ∙ rw e old.stored;
            named = old.named;
            done = old.done;
          }
    ]
  ]

  visit_entry-HasPaths :
      (e : Entry) (s : Store) → HasPaths s → HasPaths (visit_entry w p disk e s).1
  unfolding visit_entry
  visit_entry-HasPaths (unreadable path) s h = h
  visit_entry-HasPaths (entry path is_dir) s h = elim (Bool-cases (is_transcript path is_dir)) [
    | inl e ↦ rw (visit_entry, e) (scan_file-HasPaths path s h)
    | inr e ↦ rw (visit_entry, e) h
  ]

  visit_entry-IsQuiet :
      (e : Entry) (path : Text) (s : Store)
      → HasPaths s
      → IsQuiet path s
      → IsQuiet path (visit_entry w p disk e s).1
  unfolding visit_entry
  visit_entry-IsQuiet (unreadable q) path s h k = k
  visit_entry-IsQuiet (entry q is_dir) path s h k = elim (Bool-cases (is_transcript q is_dir)) [
    | inl e ↦ rw (visit_entry, e) (scan_file-IsQuiet q path s h k)
    | inr e ↦ rw (visit_entry, e) k
  ]

  visit_entries-IsQuiet :
      (entries : List Entry) (path : Text) (s : Store)
      → HasPaths s
      → IsQuiet path s
      → IsQuiet path (visit_entries w p disk entries s).1
  unfolding visit_entries
  visit_entries-IsQuiet [] path s h k = k
  visit_entries-IsQuiet (e ∷ entries) path s h k =
      let r = visit_entry w p disk e s in
      elim (Bool-cases r.0) [
        | inl q ↦
            rw (visit_entries, q)
              (visit_entries-IsQuiet entries path r.1 (visit_entry-HasPaths e s h)
                (visit_entry-IsQuiet e path s h k))
        | inr q ↦ rw (visit_entries, q) (visit_entry-IsQuiet e path s h k)
      ]

  -- A file that cannot be opened ends the pass, whatever the store.
  scan_file-unread :
      (path : Text) (s : Store) → disk.read path ≡ none → scan_file w p disk path s ≡ (false, s)
  unfolding scan_file
  scan_file-unread path s e = rw (scan_file, e) refl

  scan_file-read :
      (path : Text) (file : File) (s : Store)
      → disk.read path ≡ some file
      → (scan_file w p disk path s).0 ≡ true
  unfolding scan_file
  scan_file-read path file s e = rw (scan_file, e) refl

  -- What a pass does to a transcript, and what it does to it at a later store where it is settled.
  data IsSteady (e : Entry) (s : Store) : Type 0 where
    passed :
        (visit_entry w p disk e s).0 ≡ true
        → ((later : Store)
            → ((path : Text) → IsQuiet path (visit_entry w p disk e s).1 → IsQuiet path later)
            → visit_entry w p disk e later ≡ (true, later))
        → IsSteady e s
    stopped : ((later : Store) → visit_entry w p disk e later ≡ (false, later)) → IsSteady e s

  visit-transcript :
      (path : Text) (is_dir : Bool) (s : Store)
      → is_transcript path is_dir ≡ true
      → visit_entry w p disk (entry path is_dir) s ≡ scan_file w p disk path s
  unfolding visit_entry
  visit-transcript path is_dir s e = rw (visit_entry, e) refl

  visit-other :
      (path : Text) (is_dir : Bool) (s : Store)
      → is_transcript path is_dir ≡ false
      → visit_entry w p disk (entry path is_dir) s ≡ (true, s)
  unfolding visit_entry
  visit-other path is_dir s e = rw (visit_entry, e) refl

  visit-unreadable :
      (path : Text) (s : Store) → visit_entry w p disk (unreadable path) s ≡ (true, s)
  unfolding visit_entry
  visit-unreadable path s = refl

  settles : (path : Text) (s : Store) → HasPaths s → IsQuiet path (scan_file w p disk path s).1
  settles path s h file r = scan_file-IsSettled path file s r h

  entry-IsSteady : (e : Entry) (s : Store) → HasPaths s → IsSteady e s
  entry-IsSteady (unreadable path) s h =
      passed (rw (visit-unreadable path s) refl) (λ later k. visit-unreadable path later)
  entry-IsSteady (entry path is_dir) s h = elim (Bool-cases (is_transcript path is_dir)) [
    | inr e ↦
        passed (rw (visit-other path is_dir s e) refl) (λ later k. visit-other path is_dir later e)
    | inl e ↦ elim (Option-cases (disk.read path)) [
      | inl n ↦
          stopped (λ later. visit-transcript path is_dir later e ∙ scan_file-unread path later n)
      | inr (file, n) ↦
          let first = visit-transcript path is_dir s e in
          passed (ap (λ (r : Bool × Store). r.0) first ∙ scan_file-read path file s n) (λ later k.
            visit-transcript path is_dir later e
            ∙ scan_file-settled path file later n (
                k path
                  (subst (λ (r : Bool × Store). IsQuiet path r.1) (sym first) (settles path s h))
                  file n))
    ]
  ]

  entries-pass :
      (e : Entry) (entries : List Entry) (s : Store)
      → (visit_entry w p disk e s).0 ≡ true
      → visit_entries w p disk (e ∷ entries) s
        ≡ visit_entries w p disk entries (visit_entry w p disk e s).1
  unfolding visit_entries
  entries-pass e entries s q = rw (visit_entries, q) refl

  entries-stop :
      (e : Entry) (entries : List Entry) (s : Store)
      → visit_entry w p disk e s ≡ (false, s)
      → visit_entries w p disk (e ∷ entries) s ≡ (false, s)
  unfolding visit_entries
  entries-stop e entries s q =
      rw (visit_entries, ap (λ (r : Bool × Store). r.0) q)
        (ap (λ (r : Bool × Store). (false, r.1)) q)

  Again : List Entry → Bool × Store → Type 0
  Again entries r = visit_entries w p disk entries r.1 ≡ r

  visit_entries-Again :
      (entries : List Entry) (s : Store)
      → HasPaths s
      → Again entries (visit_entries w p disk entries s)
  unfolding visit_entries Again
  visit_entries-Again [] s h = refl
  visit_entries-Again (e ∷ entries) s h = elim (entry-IsSteady e s h) [
    | stopped k ↦
        subst (Again (e ∷ entries)) (sym (entries-stop e entries s (k s)))
          (entries-stop e entries s (k s))
    | passed q k ↦
        let next = (visit_entry w p disk e s).1 in
        let last = visit_entries w p disk entries next in
        let paths = visit_entry-HasPaths e s h in
        let again = k last.1 (λ path l. visit_entries-IsQuiet entries path next paths l) in
        subst (Again (e ∷ entries)) (sym (entries-pass e entries s q)) (
          entries-pass e entries last.1 (ap (λ (r : Bool × Store). r.0) again)
          ∙ ap (λ (r : Bool × Store). visit_entries w p disk entries r.1) again
          ∙ visit_entries-Again entries next paths)
  ]

-- A second pass over the same files, each shorter than 2 ^ 64 bytes and read under its own path, does
-- nothing: it leaves the store as the first one left it and has its outcome, also where the first one
-- ended at a file that cannot be opened. The rows of cursors have the keys of their paths.
pub scan_once_again :
    (w : World) (p : Parser) (disk : Disk) (s : Store)
    → IsHonest disk
    → HasPaths s
    → scan_once w p disk (scan_once w p disk s).1 ≡ scan_once w p disk s
unfolding scan_once Again
scan_once_again w p disk s honest h = visit_entries-Again w p disk honest disk.walk s h
