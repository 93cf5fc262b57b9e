-- ===== src/Examples/Codecs.antt =====
-- An encoding of the metric scanner's state, and a transcript scanned with it.
use codex_tempo.Common.{
  ℕ, zero, suc, ◌≡◌, refl, Bool, true, false, List, [], ◌∷◌, ◌++◌, arith, length, ap, if◌then◌else◌,
}
use codex_tempo.Common.Text.{Text}
use codex_tempo.Localdb.Queue.{no_metric_cursor}
use codex_tempo.Codex.{TokenUsage}
use codex_tempo.Codex.Growth.{grown}
use codex_tempo.Codex.Metrics.{MetricState, MetricScanner, StateCodec, scan}
use codex_tempo.Codex.Scans.{scan-grown}
use codex_tempo.Examples.Transcripts.{world, file}

-- A text with its length before it, and back.
abbrev put_text : Text → Text → Text
put_text t rest = length t ∷ (t ++ rest)

abbrev cut : ℕ → Text → Text × Text
cut zero t = ([], t)
cut (suc n) [] = ([], [])
cut (suc n) (c ∷ t) = let r = cut n t in (c ∷ r.0, r.1)

abbrev get_text : Text → Text × Text
get_text [] = ([], [])
get_text (n ∷ t) = cut n t

get_text-put_text : (t rest : Text) → get_text (put_text t rest) ≡ (t, rest)
get_text-put_text [] rest = refl
get_text-put_text (c ∷ t) rest = ap (λ (r : Text × Text). (c ∷ r.0, r.1)) (get_text-put_text t rest)

-- Ten texts.
abbrev put_texts : List Text → Text
put_texts [] = []
put_texts (t ∷ ts) = put_text t (put_texts ts)

abbrev get_texts : ℕ → Text → List Text
get_texts zero t = []
get_texts (suc n) t = let r = get_text t in r.0 ∷ get_texts n r.1

get_texts-put_texts : (ts : List Text) → get_texts (length ts) (put_texts ts) ≡ ts
get_texts-put_texts [] = refl
get_texts-put_texts (t ∷ ts) =
    rw (get_text-put_text t (put_texts ts)) (ap (λ us. t ∷ us) (get_texts-put_texts ts))

abbrev numbers : TokenUsage → Text
numbers u = u.input_tokens ∷ u.cached_input_tokens ∷ u.output_tokens ∷ u.reasoning_tokens ∷ []

abbrev texts : MetricState → List Text
texts s =
    s.session_id
    ∷ s.project_id
    ∷ s.project_name
    ∷ s.project_fingerprint
    ∷ s.remote_hash
    ∷ s.worktree_name
    ∷ s.worktree_path
    ∷ s.active_turn
    ∷ s.model
    ∷ s.reasoning_effort
    ∷ (if s.is_worktree then 1 ∷ [] else [])
    ∷ numbers s.baseline
    ∷ numbers s.current
    ∷ numbers s.last
    ∷ []

abbrev usage_of : Text → TokenUsage
usage_of (a ∷ b ∷ c ∷ d ∷ []) = record {
  input_tokens = a;
  cached_input_tokens = b;
  output_tokens = c;
  reasoning_tokens = d;
}
usage_of _ = record {
  input_tokens = 0;
  cached_input_tokens = 0;
  output_tokens = 0;
  reasoning_tokens = 0;
}

abbrev is_full : Text → Bool
is_full [] = false
is_full (c ∷ t) = true

abbrev nth : ℕ → List Text → Text
nth n [] = []
nth zero (t ∷ ts) = t
nth (suc n) (t ∷ ts) = nth n ts

abbrev state_of : List Text → MetricState
state_of ts = record {
  session_id = nth 0 ts;
  project_id = nth 1 ts;
  project_name = nth 2 ts;
  project_fingerprint = nth 3 ts;
  remote_hash = nth 4 ts;
  worktree_name = nth 5 ts;
  worktree_path = nth 6 ts;
  active_turn = nth 7 ts;
  model = nth 8 ts;
  reasoning_effort = nth 9 ts;
  is_worktree = is_full (nth 10 ts);
  baseline = usage_of (nth 11 ts);
  current = usage_of (nth 12 ts);
  last = usage_of (nth 13 ts);
}

is_full_flag : (b : Bool) → is_full (if b then 1 ∷ [] else []) ≡ b
is_full_flag true = refl
is_full_flag false = refl

abbrev codec : StateCodec
codec = record {
  parse_state = λ t. state_of (get_texts 14 t);
  print_state = λ s. put_texts (texts s);
}

codec_round_trip : (s : MetricState) → codec.parse_state (codec.print_state s) ≡ s
codec_round_trip s = rw (get_texts-put_texts (texts s)) (rw (is_full_flag s.is_worktree) refl)

abbrev scanner : MetricScanner
scanner = record { machine_id = 7 ∷ []; store_paths = false }

scan-grown_example :
    scan world codec scanner (grown file (67 ∷ 10 ∷ [])) (no_metric_cursor []) 0 ≡ (
      (scan world codec scanner
          (grown file (67 ∷ 10 ∷ []))
          (scan world codec scanner file (no_metric_cursor []) 0).0
          0).0,
      (scan world codec scanner file (no_metric_cursor []) 0).1
          ++ (scan world codec scanner
              (grown file (67 ∷ 10 ∷ []))
              (scan world codec scanner file (no_metric_cursor []) 0).0
              0).1,
    )
scan-grown_example =
    scan-grown world codec scanner file (67 ∷ 10 ∷ []) (no_metric_cursor []) 0 codec_round_trip
      (omega arith) (omega arith)
