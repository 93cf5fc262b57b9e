-- ===== src/Localdb/Table.antt =====
-- internal/localdb/store.go: the constraints of the table `events`, which every operation keeps.
use codex_tempo.Common.{
  ◌≡◌, refl, Bool, true, false, some, List, [], ◌∷◌, ◌++◌, arith, if◌then◌else◌, any, All,
  All-append, Bool-cases, inl, inr, sym, Option-cases,
}
use codex_tempo.Common.Text.{Text, text_eq, text_eq_refl}
use codex_tempo.Domain.{Event}
use codex_tempo.Localdb.{Row}
use codex_tempo.Localdb.Queue.{
  default_payload, same_id, same_place, conflicts, new_row, insert_or_ignore, insert_all,
  update_wakapi, update_where, upsert, upsert_all, acknowledge, mark_rows,
}

-- No two rows have one id, nor one machine, session and sequence number.
abbrev pub IsUnique : List Row → Type 0
IsUnique [] = Unit
IsUnique (row ∷ rows) = All (λ r. conflicts r.event row ≡ false) rows × IsUnique rows

-- The columns under a constraint are the same.
abbrev IsSamePlace : Row → Row → Type 0
IsSamePlace r s =
    (r.event.id ≡ s.event.id)
    × (r.event.machine_id ≡ s.event.machine_id)
    × (r.event.session_id ≡ s.event.session_id)
    × (r.event.sequence ≡ s.event.sequence)

pub any-append :
    (p : Row → Bool) (xs ys : List Row) → any p (xs ++ ys) ≡ (if any p xs then true else any p ys)
any-append p [] ys = refl
any-append p (x ∷ xs) ys = ground (arith, any-append p xs ys)

pub conflicts_self : (event : Event) → conflicts event (new_row event) ≡ true
unfolding conflicts same_id
conflicts_self event = rw (text_eq_refl event.id) refl

conflicts_default :
    (event : Event) (row : Row) → conflicts (default_payload event) row ≡ conflicts event row
unfolding conflicts same_id same_place default_payload
conflicts_default event row = refl

All-no-conflict :
    (event : Event) (rows : List Row)
    → any (conflicts event) rows ≡ false
    → All (λ r. conflicts event r ≡ false) rows
All-no-conflict event [] h = tt
All-no-conflict event (r ∷ rows) h =
    (ground (arith, h), All-no-conflict event rows (ground (arith, h)))

IsUnique-append :
    (event : Event) (rows : List Row)
    → All (λ r. conflicts event r ≡ false) rows
    → IsUnique rows
    → IsUnique (rows ++ new_row event ∷ [])
IsUnique-append event [] a u = (tt, tt)
IsUnique-append event (r ∷ rows) a u = (
  All-append (λ s. conflicts s.event r ≡ false) rows (new_row event ∷ []) u.0 (a.0, tt),
  IsUnique-append event rows a.1 u.1,
)

pub insert-IsUnique :
    (event : Event) (rows : List Row) → IsUnique rows → IsUnique (insert_or_ignore event rows)
unfolding insert_or_ignore
insert-IsUnique event rows u = elim (Bool-cases (any (conflicts event) rows)) [
  | inl e ↦ rw e u
  | inr e ↦ rw e (IsUnique-append event rows (All-no-conflict event rows e) u)
]

pub insert_all-IsUnique :
    (events : List Event) (rows : List Row) → IsUnique rows → IsUnique (insert_all events rows)
unfolding insert_all
insert_all-IsUnique [] rows u = u
insert_all-IsUnique (event ∷ rest) rows u =
    insert_all-IsUnique rest (insert_or_ignore (default_payload event) rows)
      (insert-IsUnique (default_payload event) rows u)

-- A change of the rows that keeps the constrained columns.
update_where-All :
    (event : Row) (p : Row → Bool) (f : Row → Row) (rows : List Row)
    → ((r : Row) → IsSamePlace (f r) r)
    → (q : Row) → IsSamePlace q event
    → All (λ r. conflicts r.event event ≡ false) rows
    → All (λ r. conflicts r.event q ≡ false) (update_where p f rows)
unfolding update_where conflicts same_id same_place
update_where-All event p f [] keep q sq a = tt
update_where-All event p f (r ∷ rows) keep q sq a =
    (ground (arith, a.0, keep r, sq), update_where-All event p f rows keep q sq a.1)

update_where-IsUnique :
    (p : Row → Bool) (f : Row → Row) (rows : List Row)
    → ((r : Row) → IsSamePlace (f r) r)
    → IsUnique rows
    → IsUnique (update_where p f rows)
unfolding update_where
update_where-IsUnique p f [] keep u = tt
update_where-IsUnique p f (r ∷ rows) keep u = (
  update_where-All r p f rows keep (if p r then f r else r) (ground (arith, keep r)) u.0,
  update_where-IsUnique p f rows keep u.1,
)

wakapi_keeps : (event : Event) (r : Row) → IsSamePlace (update_wakapi event r) r
unfolding update_wakapi
wakapi_keeps event r = (ground arith, ground arith, ground arith, ground arith)

no-conflict-append :
    (event : Event) (rows : List Row)
    → any (same_id event) rows ≡ false
    → any (same_place event) rows ≡ false
    → any (conflicts event) rows ≡ false
unfolding conflicts
no-conflict-append event [] h k = refl
no-conflict-append event (r ∷ rows) h k = ground (arith, h, k, no-conflict-append event rows)

upsert-IsUnique :
    (event : Event) (rows new : List Row)
    → IsUnique rows
    → upsert event rows ≡ some new
    → IsUnique new
unfolding upsert
upsert-IsUnique event rows new u e = elim (Bool-cases (any (same_id event) rows)) [
  | inl h ↦
      let q : update_where (same_id event) (update_wakapi event) rows ≡ new = ground (arith, h) in
      rw (sym q)
        (update_where-IsUnique (same_id event) (update_wakapi event) rows (wakapi_keeps event) u)
  | inr h ↦ elim (Bool-cases (any (same_place event) rows)) [
    | inl k ↦ ground (arith, h, k)
    | inr k ↦
        let q : rows ++ new_row event ∷ [] ≡ new = ground (arith, h, k) in
        rw (sym q) (
          IsUnique-append event rows
            (All-no-conflict event rows (no-conflict-append event rows h k)) u)
  ]
]

pub upsert_all-IsUnique :
    (events : List Event) (rows new : List Row)
    → IsUnique rows
    → upsert_all events rows ≡ some new
    → IsUnique new
unfolding upsert_all
upsert_all-IsUnique [] rows new u e = let q : rows ≡ new = cc in rw (sym q) u
upsert_all-IsUnique (event ∷ rest) rows new u e =
    elim (Option-cases (upsert (default_payload event) rows)) [
      | inl h ↦ ground (arith, h)
      | inr (between, h) ↦
          upsert_all-IsUnique rest between new
            (upsert-IsUnique (default_payload event) rows between u h) (ground (arith, h))
    ]

pub mark-IsUnique :
    (ids : List Text) (rows : List Row) → IsUnique rows → IsUnique (mark_rows ids rows)
unfolding mark_rows acknowledge
mark-IsUnique [] rows u = u
mark-IsUnique (id ∷ ids) rows u =
    mark-IsUnique ids (update_where (λ row. text_eq row.event.id id) acknowledge rows) (
      update_where-IsUnique (λ row. text_eq row.event.id id) acknowledge rows
        (λ r. (refl, refl, refl, refl)) u)
