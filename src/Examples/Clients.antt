-- ===== src/Examples/Clients.antt =====
-- The agent and the commands on concrete inputs.
use codex_tempo.Common.{
  ◌≡◌, refl, ap, sym, ◌∙◌, false, Option, none, some, [], ◌∷◌, ◌++◌, arith, length, ◌<◌,
  if◌then◌else◌, Bool-cases, inl, inr,
}
use mathlib.Core.Path.{subst}
use codex_tempo.Common.Word.{int64_mod}
use codex_tempo.Common.Text.{Text, codes, text_eq}
use codex_tempo.Common.Assoc.{get}
use codex_tempo.Domain.{Run}
use codex_tempo.Projector.{EventPayload, project}
use codex_tempo.Localdb.{HookInterval}
use codex_tempo.Localdb.Reach.{no_rows}
use codex_tempo.Localdb.Queue.{take}
use codex_tempo.Codex.{World, JsonValue, string}
use codex_tempo.Codex.Lines.{drop}
use codex_tempo.Codex.Records.{File, Parser}
use codex_tempo.Agent.{entry, Disk, scan_once}
use codex_tempo.Agent.Rescan.{scan_once_again}
use codex_tempo.Agent.Settled.{IsHonest}
use codex_tempo.Cli.Intervals.{hook_interval_events}
use codex_tempo.Cli.Worked.{IsHash, IsJson, IsWorked, project-hook_interval_events}
use codex_tempo.Examples.Transcripts.{world, file}

abbrev parser : Parser
parser = record { machine_id = 7 ∷ []; store_paths = false }

-- Two transcripts, of which the second cannot be opened.
abbrev gone : Text
gone = codes "b.jsonl"

abbrev disk : Disk
disk = record {
  walk = entry (codes "a.jsonl") false ∷ entry gone false ∷ [];
  read = λ path. if text_eq path gone then none else some (record file { path = path });
  describe = λ path offset. [];
}

honest : IsHonest disk
honest path f e = elim (Bool-cases (text_eq path gone)) [
  | inl g ↦ ground (arith, e, g)
  | inr g ↦
      let q : (record file { path = path }) ≡ f = ground (arith, e, g) in
      (
        sym (ap (λ (x : File). x.path) q),
        subst (λ (x : File). length x.content < int64_mod) q (omega arith),
      )
]

scan_once_again_example :
    scan_once world parser disk (scan_once world parser disk no_rows).1
    ≡ scan_once world parser disk no_rows
scan_once_again_example = scan_once_again world parser disk no_rows honest tt

-- A marshalling of the two strings that are read back.
abbrev string_of : Option JsonValue → Text
string_of (some (string t)) = t
string_of _ = []

abbrev pair_text : Text → Text → Text
pair_text a b = length a ∷ a ++ b

abbrev left_text : Text → Text
left_text [] = []
left_text (n ∷ t) = take n t

unfoldable right_text : Text → Text
unfolding drop
right_text [] = []
right_text (n ∷ t) = drop n t

take-append : (a b : Text) → take (length a) (a ++ b) ≡ a
take-append [] b = refl
take-append (c ∷ a) b = ap (λ t. c ∷ t) (take-append a b)

drop-append : (a b : Text) → drop (length a) (a ++ b) ≡ b
unfolding drop
drop-append [] b = refl
drop-append (c ∷ a) b = drop-append a b

abbrev writer : World
writer = record world {
  marshal = λ fields.
      pair_text (string_of (get (codes "project_id") fields))
        (string_of (get (codes "model") fields));
  hash_uuid = λ t. 1 ∷ t;
}

abbrev reader : Text → EventPayload
reader t = record {
  project_id = left_text t;
  model = right_text t;
  reasoning_effort = [];
  input_tokens = 0;
  cached_input_tokens = 0;
  output_tokens = 0;
  reasoning_tokens = 0;
}

hashes : IsHash writer
hashes = record { injective = λ x y e. ground (arith, e); named = λ x e. cc e }

reads : IsJson writer reader
unfolding right_text
reads = record {
  project_id = λ fields value e.
      take-append (string_of (get (codes "project_id") fields))
        (string_of (get (codes "model") fields))
      ∙ ap string_of e;
  model = λ fields value e.
      drop-append (string_of (get (codes "project_id") fields))
        (string_of (get (codes "model") fields))
      ∙ ap string_of e;
}

abbrev work : HookInterval
work = record {
  started_at = 10;
  ended_at = 70;
  session_id = 8 ∷ [];
  project_id = 4 ∷ [];
  project_name = [];
  project_fingerprint = [];
  remote_hash = [];
  worktree_name = [];
  worktree_path = [];
  model = 5 ∷ [];
  is_worktree = false;
}

project-hook_interval_events_example :
    (run : Run) × (project reader (hook_interval_events writer (7 ∷ []) work) ≡ run ∷ [])
    × IsWorked work run
project-hook_interval_events_example =
    project-hook_interval_events writer reader (7 ∷ []) work hashes reads (omega arith)
