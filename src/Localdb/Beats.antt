-- ===== src/Localdb/Beats.antt =====
-- internal/localdb/store.go: `AdvanceHookHeartbeat`, and the intervals of a sequence of hooks.
use codex_tempo.Common.{ℕ, Option, none, some, List, [], ◌∷◌, ltb, if◌then◌else◌}
use codex_tempo.Common.Assoc.{get, put}
use codex_tempo.Common.Word.{lt64, time_sub}
use codex_tempo.Localdb.{HookHeartbeat, HookInterval, Store}

unfoldable pub store_heartbeat : HookHeartbeat → Store → Store
store_heartbeat h s = record s { hook_heartbeats = put h.session_id h s.hook_heartbeats }

unfoldable pub hook_interval : HookHeartbeat → HookHeartbeat → HookInterval
hook_interval previous h = record {
  started_at = previous.occurred_at;
  ended_at = h.occurred_at;
  session_id = previous.session_id;
  project_id = previous.project_id;
  project_name = previous.project_name;
  project_fingerprint = previous.project_fingerprint;
  remote_hash = previous.remote_hash;
  worktree_name = previous.worktree_name;
  worktree_path = previous.worktree_path;
  model = previous.model;
  is_worktree = previous.is_worktree;
}

-- The interval since a heartbeat of the same session, where the gap is positive and no longer than
-- the timeout.
unfoldable pub interval_since : HookHeartbeat → HookHeartbeat → ℕ → Option HookInterval
unfolding hook_interval
interval_since previous h timeout =
    let gap = time_sub h.occurred_at previous.occurred_at in
    if lt64 0 gap
    then (if lt64 timeout gap then none else some (hook_interval previous h))
    else none

-- What follows the query for the previous heartbeat.
unfoldable pub advance_from :
    Option HookHeartbeat → HookHeartbeat → ℕ → Store → Option HookInterval × Store
unfolding store_heartbeat interval_since
advance_from none h timeout s = (none, store_heartbeat h s)
advance_from (some previous) h timeout s =
    if ltb previous.occurred_at h.occurred_at
    then (interval_since previous h timeout, store_heartbeat h s)
    else (none, s)

unfoldable pub advance_hook_heartbeat : HookHeartbeat → ℕ → Store → Option HookInterval × Store
unfolding advance_from
advance_hook_heartbeat h timeout s = advance_from (get h.session_id s.hook_heartbeats) h timeout s

unfoldable pub add_some : Option HookInterval → List HookInterval → List HookInterval
add_some none is = is
add_some (some i) is = i ∷ is

-- The intervals that a sequence of hooks returns, in order.
unfoldable pub advance_all : List HookHeartbeat → ℕ → Store → List HookInterval
unfolding advance_hook_heartbeat add_some
advance_all [] timeout s = []
advance_all (h ∷ hs) timeout s =
    let r = advance_hook_heartbeat h timeout s in add_some r.0 (advance_all hs timeout r.1)
