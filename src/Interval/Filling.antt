-- ===== src/Interval/Filling.antt =====
-- What the first loop of `Summarize` puts into the map `byProject`.
use codex_tempo.Common.{
  ℕ, ◌+◌, ◌-◌, ◌≤◌, ◌≡◌, refl, sym, ◌∙◌, Bool, true, List, [], ◌∷◌, ◌++◌, arith, if◌then◌else◌,
  total, total-append, filter, Bool-cases, inl, inr,
}
use mathlib.Core.List.{append_assoc, append-nil}
use codex_tempo.Common.Text.{Text, text_eq}
use codex_tempo.Domain.{Run}
use codex_tempo.Interval.{Interval, clip}
use codex_tempo.Interval.Cover.{covers}
use codex_tempo.Interval.Measure.{width, IsWithin}
use codex_tempo.Interval.Summary.{Tally, visit, visit_all, run_interval, is_instant_within}
use codex_tempo.Interval.Pieces.{piece, pieces}
use codex_tempo.Interval.Groups.{
  group, group-append_to, held, held-append_to, covers_some, covers_some-append_to, IsGroupsWithin,
  append_to-IsGroupsWithin,
}

-- The runs of a project.
abbrev pub of_project : Text → Run → Bool
of_project key run = text_eq run.project_id key

covers-append :
    (a b : List Interval) (t : ℕ) → covers (a ++ b) t ≡ (if covers a t then true else covers b t)
covers-append [] b t = refl
covers-append (x ∷ a) b t = ground (arith, covers-append a b t)

clip-IsWithin :
    (from to now : ℕ) (run : Run)
    → from ≤ to
    → (clip (run_interval now run) from to).1 ≡ true
    → IsWithin from (to - from) (clip (run_interval now run) from to).0
unfolding clip
clip-IsWithin from to now run h e = ground arith

module _ (from to now : ℕ) where
  group-visit :
      (key : Text) (t : Tally) (run : Run)
      → group key (visit from to now t run).by_project
        ≡ group key t.by_project ++ (if of_project key run then piece from to now run else [])
  unfolding visit piece
  group-visit key t run = ground (
    arith,
    append-nil (group key t.by_project),
    group-append_to run.project_id key (clip (run_interval now run) from to).0 t.by_project,
  )

  -- The entry of a project holds the pieces of its runs, in order.
  pub group-visit_all :
      (key : Text) (t : Tally) (runs : List Run)
      → group key (visit_all from to now t runs).by_project
        ≡ group key t.by_project ++ pieces from to now (filter (of_project key) runs)
  unfolding visit_all pieces
  group-visit_all key t [] = sym (append-nil (group key t.by_project))
  group-visit_all key t (run ∷ rest) =
      group-visit_all key (visit from to now t run) rest
      ∙ ground (
        arith,
        group-visit key t run,
        append_assoc (group key t.by_project) (piece from to now run)
            (pieces from to now (filter (of_project key) rest)),
        append-nil (group key t.by_project),
      )

  held-visit :
      (t : Tally) (run : Run)
      → held (visit from to now t run).by_project
        ≡ held t.by_project + total width (piece from to now run)
  unfolding visit piece
  held-visit t run =
      ground
        (arith, held-append_to run.project_id (clip (run_interval now run) from to).0 t.by_project)

  pub held-visit_all :
      (t : Tally) (runs : List Run)
      → held (visit_all from to now t runs).by_project
        ≡ held t.by_project + total width (pieces from to now runs)
  unfolding visit_all pieces
  held-visit_all t [] = omega arith
  held-visit_all t (run ∷ rest) = omega (
    arith,
    held-visit_all (visit from to now t run) rest,
    held-visit t run,
    total-append width (piece from to now run) (pieces from to now rest),
  )

  covers-visit :
      (t : Tally) (run : Run) (x : ℕ)
      → covers_some (visit from to now t run).by_project x
        ≡ (if covers_some t.by_project x then true else covers (piece from to now run) x)
  unfolding visit piece
  covers-visit t run x = ground (
    arith,
    covers_some-append_to run.project_id (clip (run_interval now run) from to).0 t.by_project x,
  )

  pub covers-visit_all :
      (t : Tally) (runs : List Run) (x : ℕ)
      → covers_some (visit_all from to now t runs).by_project x
        ≡ (if covers_some t.by_project x then true else covers (pieces from to now runs) x)
  unfolding visit_all pieces
  covers-visit_all t [] x = ground arith
  covers-visit_all t (run ∷ rest) x =
      covers-visit_all (visit from to now t run) rest x
      ∙ ground (
        arith,
        covers-visit t run x,
        covers-append (piece from to now run) (pieces from to now rest) x,
      )

  visit-IsGroupsWithin :
      (t : Tally) (run : Run)
      → from ≤ to
      → IsGroupsWithin from (to - from) t.by_project
      → IsGroupsWithin from (to - from) (visit from to now t run).by_project
  unfolding visit
  visit-IsGroupsWithin t run h a = elim (Bool-cases (clip (run_interval now run) from to).1) [
    | inl e ↦ rw e (
        append_to-IsGroupsWithin from (to - from) run.project_id _ t.by_project
          (clip-IsWithin from to now run h e) a)
    | inr e ↦ elim (Bool-cases (is_instant_within (run_interval now run) from to)) [
      | inl i ↦ rw (e, i) a
      | inr i ↦ rw (e, i) a
    ]
  ]

  pub visit_all-IsGroupsWithin :
      (t : Tally) (runs : List Run)
      → from ≤ to
      → IsGroupsWithin from (to - from) t.by_project
      → IsGroupsWithin from (to - from) (visit_all from to now t runs).by_project
  unfolding visit_all
  visit_all-IsGroupsWithin t [] h a = a
  visit_all-IsGroupsWithin t (run ∷ rest) h a =
      visit_all-IsGroupsWithin (visit from to now t run) rest h (visit-IsGroupsWithin t run h a)
