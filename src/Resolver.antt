-- ===== src/Resolver.antt =====
-- internal/projectresolver/resolver.go: `Resolve`. Git, the file system's paths, `url.Parse`,
-- `strings.ToLower` and the hash are parameters.
use codex_tempo.Common.{
  Bool, not, ◌&&◌, Option, none, some, List, [], ◌∷◌, ◌++◌, if◌then◌else◌, ◌==◌,
}
use mathlib.Core.List.{reverse}
use codex_tempo.Common.Text.{Text, codes, text_eq}
use codex_tempo.Codex.{World, Result, deterministic_uuid}
use codex_tempo.Codex.Lines.{trim_space}
use codex_tempo.Postgres.Rows.{has_prefix}
use codex_tempo.Sync.{trim_slashes}
use codex_tempo.Api.{trim_prefix}

-- `git` takes a directory and arguments, and has the empty text for an error. `real` is the path after
-- `filepath.EvalSymlinks`, or after `filepath.Clean` where that fails; `base`, `path_base`, `is_abs`,
-- `join` and `clean` are the functions of `filepath` and `path`; `parse_url` is the host and the path;
-- `hash` is the hexadecimal SHA-256 of a text.
pub record Host : Type 0 where
  pub git : Text → List Text → Text
  pub real : Text → Text
  pub base : Text → Text
  pub path_base : Text → Text
  pub is_abs : Text → Bool
  pub join : Text → Text → Text
  pub clean : Text → Text
  pub parse_url : Text → Option (Text × Text)
  pub lower : Text → Text
  pub hash : Text → Text

-- `strings.TrimSuffix`
unfoldable pub trim_suffix : Text → Text → Text
unfolding trim_prefix
trim_suffix suffix t = reverse (trim_prefix (reverse suffix) (reverse t))

-- `strings.Trim(t, "/")`
unfoldable pub trim_both : Text → Text
unfolding trim_slashes
trim_both t = reverse (trim_slashes (reverse (trim_slashes t)))

-- The parts before and after the first colon.
unfoldable pub split_colon : Text → Option (Text × Text)
split_colon [] = none
split_colon (c ∷ t) =
    let rest = split_colon t in
    if c == 58 then some ([], t) else elim rest [ none ↦ none | some (a, b) ↦ some (c ∷ a, b) ]

-- The remote as a URL.
unfoldable pub normalize_url : Host → Text → Text
unfolding trim_both
normalize_url host remote = elim (host.parse_url remote) [
  | none ↦ host.lower remote
  | some (name, path) ↦
      if text_eq name []
      then host.lower remote
      else host.lower (name ++ codes "/" ++ trim_both path)
]

-- `normalizeRemote`
unfoldable pub normalize_remote : Host → Text → Text
unfolding trim_suffix trim_space has_prefix split_colon normalize_url trim_both
normalize_remote host text =
    let remote = trim_space (trim_suffix (codes ".git") text) in
    if has_prefix (codes "git@") remote
    then elim (split_colon (trim_prefix (codes "git@") remote)) [
      | none ↦ normalize_url host remote
      | some (name, path) ↦ host.lower (name ++ codes "/" ++ trim_both path)
    ]
    else normalize_url host remote

-- `hash`
unfoldable pub hash_text : Host → Text → Text
hash_text host value = if text_eq value [] then [] else host.hash value

-- `absoluteGitPath`
unfoldable pub absolute_git_path : Host → Text → Text → Text
absolute_git_path host root value =
    if text_eq value []
    then []
    else host.clean (if host.is_abs value then value else host.join root value)

-- `isLinkedWorktree`
unfoldable pub is_linked_worktree : Host → Text → Bool
unfolding absolute_git_path
is_linked_worktree host root =
    let git_dir =
      absolute_git_path host root (host.git root (codes "rev-parse" ∷ codes "--git-dir" ∷ [])) in
    let common_dir =
      absolute_git_path host root
        (host.git root (codes "rev-parse" ∷ codes "--git-common-dir" ∷ [])) in
    not (text_eq git_dir []) && (not (text_eq common_dir []) && not (text_eq git_dir common_dir))

-- The result for a root and its remote.
unfoldable pub project_result : World → Host → Text → Text → Text → Bool → Result
unfolding hash_text is_linked_worktree deterministic_uuid
project_result w host machine_id root remote store_paths =
    let key = if text_eq remote [] then machine_id ++ 0 ∷ root else remote in
    let fingerprint = hash_text host key in
    record {
      id = deterministic_uuid w (codes "project" ∷ fingerprint ∷ []);
      fingerprint = fingerprint;
      name = if text_eq remote [] then host.base root else host.path_base remote;
      root_path = if store_paths then root else [];
      remote_hash = hash_text host remote;
      worktree_name = host.base root;
      worktree_path = if store_paths then root else [];
      is_worktree = is_linked_worktree host root;
    }

-- `Resolve`
unfoldable pub resolve_project : World → Host → Text → Text → Bool → Result
unfolding normalize_remote project_result
resolve_project w host cwd machine_id store_paths =
    let real = host.real cwd in
    let top = host.git real (codes "rev-parse" ∷ codes "--show-toplevel" ∷ []) in
    let root = if text_eq top [] then real else top in
    let remote =
      normalize_remote host
        (host.git root (codes "config" ∷ codes "--get" ∷ codes "remote.origin.url" ∷ [])) in
    project_result w host machine_id root remote store_paths
