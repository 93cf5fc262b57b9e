-- ===== src/Localdb/Commit.antt =====
-- internal/localdb/store.go: a batch of parsed events committed twice.
use codex_tempo.Common.{◌≡◌, refl, Bool, true, List, [], ◌∷◌, arith, any, All}
use codex_tempo.Common.Text.{Text, text_eq_refl}
use codex_tempo.Common.Assoc.{put}
use codex_tempo.Domain.{Event}
use codex_tempo.Localdb.{Cursor, Row, Store}
use codex_tempo.Localdb.Queue.{
  default_payload, conflicts, new_row, insert_or_ignore, insert_all, commit_parsed,
}
use codex_tempo.Localdb.Table.{any-append, conflicts_self}

-- A batch that is there already changes nothing.
any-insert :
    (event : Event) (p : Row → Bool) (rows : List Row)
    → any p rows ≡ true
    → any p (insert_or_ignore event rows) ≡ true
unfolding insert_or_ignore
any-insert event p rows h = ground (arith, h, any-append p rows (new_row event ∷ []))

any-insert_all :
    (events : List Event) (p : Row → Bool) (rows : List Row)
    → any p rows ≡ true
    → any p (insert_all events rows) ≡ true
unfolding insert_all
any-insert_all [] p rows h = h
any-insert_all (event ∷ rest) p rows h =
    any-insert_all rest p (insert_or_ignore (default_payload event) rows)
      (any-insert (default_payload event) p rows h)

conflicts-insert :
    (event : Event) (rows : List Row) → any (conflicts event) (insert_or_ignore event rows) ≡ true
unfolding insert_or_ignore
conflicts-insert event rows =
    ground (arith, any-append (conflicts event) rows (new_row event ∷ []), conflicts_self event)

abbrev IsThere : List Row → Event → Type 0
IsThere rows event = any (conflicts (default_payload event)) rows ≡ true

insert_all-IsThere :
    (events : List Event) (rows : List Row) → All (IsThere (insert_all events rows)) events
unfolding insert_all
insert_all-IsThere [] rows = tt
insert_all-IsThere (event ∷ rest) rows = (
  any-insert_all rest (conflicts (default_payload event))
      (insert_or_ignore (default_payload event) rows)
      (conflicts-insert (default_payload event) rows),
  insert_all-IsThere rest (insert_or_ignore (default_payload event) rows),
)

insert-there :
    (event : Event) (rows : List Row)
    → any (conflicts event) rows ≡ true
    → insert_or_ignore event rows ≡ rows
unfolding insert_or_ignore
insert-there event rows h = rw h refl

insert_all-there :
    (events : List Event) (rows : List Row)
    → All (IsThere rows) events
    → insert_all events rows ≡ rows
unfolding insert_all
insert_all-there [] rows h = refl
insert_all-there (event ∷ rest) rows h =
    rw (insert-there (default_payload event) rows h.0) (insert_all-there rest rows h.1)

put_again {ℓ} :
    {V : Type ℓ} (k : Text) (v : V) (m : List (Text × V)) → put k v (put k v m) ≡ put k v m
unfolding put
put_again k v [] = rw (text_eq_refl k) refl
put_again k v ((j, w) ∷ m) = ground (arith, put_again k v m)

-- A batch of parsed events that is committed again, as after a crash before the caller learns of the
-- commit, leaves the store as the first commit left it, from any store.
pub commit_parsed_again :
    (cursor : Cursor) (events : List Event) (s : Store)
    → commit_parsed cursor events (commit_parsed cursor events s) ≡ commit_parsed cursor events s
unfolding commit_parsed
commit_parsed_again cursor events s = ground (
  arith,
  insert_all-there events (insert_all events s.events) (insert_all-IsThere events s.events),
  put_again cursor.path cursor s.transcript_cursors,
)
