-- ===== src/Cli/Worked.antt =====
-- apps/cli/main.go with internal/projector/projector.go: an interval of work, the events that the
-- command `hook` makes of it, and the run that is projected from them.
use codex_tempo.Common.{◌≤◌, ◌≡◌, ◌≢◌, refl, sym, ◌∙◌, false, some, List, [], ◌∷◌, ◌++◌, arith}
use codex_tempo.Common.Text.{Text, codes, text_eq, text_eq_iff}
use codex_tempo.Common.Assoc.{get}
use codex_tempo.Domain.{Run, completed}
use codex_tempo.Projector.{EventPayload, new_run, project}
use codex_tempo.Localdb.{HookInterval}
use codex_tempo.Codex.{World, JsonValue, string, join_parts, deterministic_uuid}
use codex_tempo.Cli.Intervals.{interval_payload, hook_run_id, hook_event_id, hook_interval_events}
use codex_tempo.Cli.Triple.{triple, begun, finished, project-triple}

-- Distinct names have distinct hashes, none of them empty.
pub record IsHash (w : World) : Type 0 where
  pub injective : (x y : Text) → w.hash_uuid x ≡ w.hash_uuid y → x ≡ y
  pub named : (x : Text) → w.hash_uuid x ≢ []

-- A string of a map that is written as JSON is read back, under its key.
pub record IsJson (w : World) (decode : Text → EventPayload) : Type 0 where
  pub project_id :
      (fields : List (Text × JsonValue)) (value : Text)
      → get (codes "project_id") fields ≡ some (string value)
      → (decode (w.marshal fields)).project_id ≡ value
  pub model :
      (fields : List (Text × JsonValue)) (value : Text)
      → get (codes "model") fields ≡ some (string value)
      → (decode (w.marshal fields)).model ≡ value

cancel : (x y z : Text) → x ++ y ≡ x ++ z → y ≡ z
cancel [] y z h = h
cancel (c ∷ x) y z h = cancel x y z (ground (arith, h))

-- The names of two events of a run.
event_name : Text → Text → Text
event_name run kind = codes "hook-event" ++ 0 ∷ (run ++ 0 ∷ kind)

hook_event_id-name :
    (w : World) (run kind : Text) → hook_event_id w run kind ≡ w.hash_uuid (event_name run kind)
unfolding hook_event_id deterministic_uuid join_parts event_name
hook_event_id-name w run kind = refl

hook_event_id-apart :
    (w : World) (run kind other : Text)
    → IsHash w
    → text_eq kind other ≡ false
    → hook_event_id w run kind ≢ hook_event_id w run other
unfolding event_name
hook_event_id-apart w run kind other h d e =
    let same =
      h.injective (event_name run kind) (event_name run other)
        (sym (hook_event_id-name w run kind) ∙ e ∙ hook_event_id-name w run other) in
    let tails =
      cancel run (0 ∷ kind) (0 ∷ other) (cancel (codes "hook-event" ++ 0 ∷ []) _ _ same) in
    let kinds : kind ≡ other = cancel (0 ∷ []) kind other tails in
    ground (arith, d, text_eq_iff kind other, kinds)

hook_event_id-named : (w : World) (run kind : Text) → IsHash w → hook_event_id w run kind ≢ []
hook_event_id-named w run kind h e =
    h.named (event_name run kind) (sym (hook_event_id-name w run kind) ∙ e)

hook_run_id-named : (w : World) (item : HookInterval) → IsHash w → hook_run_id w item ≢ []
unfolding hook_run_id deterministic_uuid
hook_run_id-named w item h e = h.named _ e

-- The run is that of the interval.
pub record IsWorked (item : HookInterval) (run : Run) : Type 0 where
  pub starts : run.started_at ≡ item.started_at
  pub ends : run.ended_at ≡ some item.ended_at
  pub status : run.status ≡ completed
  pub project : run.project_id ≡ item.project_id
  pub model : run.model ≡ item.model

kinds_apart :
    (text_eq (codes "session_started") (codes "run_started") ≡ false)
    × (text_eq (codes "session_started") (codes "run_completed") ≡ false)
    × (text_eq (codes "run_started") (codes "run_completed") ≡ false)
unfolding text_eq
kinds_apart = (refl, refl, refl)

payload-read :
    (w : World) (decode : Text → EventPayload) (item : HookInterval)
    → IsJson w decode
    → ((decode (interval_payload w item)).project_id ≡ item.project_id)
      × ((decode (interval_payload w item)).model ≡ item.model)
unfolding interval_payload get text_eq
payload-read w decode item j = (j.project_id _ item.project_id refl, j.model _ item.model refl)

-- An interval that does not end before it starts is projected, from the events that the command makes
-- of it, to one run: completed, with the interval's start, end, project and model. The hash of UUIDs has
-- no collisions, and JSON is read as it was written.
pub project-hook_interval_events :
    (w : World) (decode : Text → EventPayload) (machine : Text) (item : HookInterval)
    → IsHash w
    → IsJson w decode
    → item.started_at ≤ item.ended_at
    → (run : Run) × (project decode (hook_interval_events w machine item) ≡ run ∷ [])
      × IsWorked item run
unfolding hook_interval_events triple finished begun new_run
project-hook_interval_events w decode machine item h j ordered =
    let run = hook_run_id w item in
    let (d, e, f) = kinds_apart in
    let (project_id, model) = payload-read w decode item j in
    (
      _,
      project-triple (hook_event_id w run (codes "session_started"))
          (hook_event_id w run (codes "run_started")) (hook_event_id w run (codes "run_completed"))
          machine (codes "hook:" ++ run) run (codes "hook") (interval_payload w item)
          item.started_at item.ended_at decode (hook_run_id-named w item h)
          (hook_event_id-named w run (codes "session_started") h)
          (hook_event_id-named w run (codes "run_started") h)
          (hook_event_id-named w run (codes "run_completed") h)
          (hook_event_id-apart w run (codes "session_started") (codes "run_started") h d)
          (hook_event_id-apart w run (codes "session_started") (codes "run_completed") h e)
          (hook_event_id-apart w run (codes "run_started") (codes "run_completed") h f) ordered,
      record { starts = refl; ends = refl; status = refl; project = project_id; model = model },
    )
