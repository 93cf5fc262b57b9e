-- ===== src/Wakapi.antt =====
-- internal/wakapi/client.go: the credentials, the export of heartbeats as intervals, and the address of
-- the API. A float64 is a value of a type with the operations that the code uses; a response is read
-- through parameters, and the retries are over the outcomes of their attempts.
pub mod Gaps
pub mod Clock
pub mod Sums
use codex_tempo.Common.{
  ℕ, ◌+◌, ◌-◌, ◌/◌, Bool, true, false, not, ◌||◌, ◌&&◌, Option, none, some, List, [], ◌∷◌, ◌++◌,
  ltb, if◌then◌else◌, ◌==◌,
}
use codex_tempo.Common.Text.{Text, codes, text_eq}
use codex_tempo.Codex.Lines.{trim_space}
use codex_tempo.Postgres.Rows.{has_prefix}
use codex_tempo.Agent.{has_suffix}
use codex_tempo.Sync.{trim_slashes}
use codex_tempo.Localdb.Queue.{take}

pub record Credentials : Type 0 where
  pub api_url : Text
  pub api_key : Text

pub record Interval : Type 0 where
  pub project : Text
  pub started_at : ℕ
  pub ended_at : ℕ

pub record Export : Type 0 where
  pub from : Text
  pub to : Text
  pub heartbeats : ℕ
  pub intervals : List Interval
  pub duration : ℕ

-- `strings.Cut(line, "=")`: what is before and after the first sign, if there is one.
unfoldable pub cut : Text → Option (Text × Text)
cut [] = none
cut (c ∷ t) =
    let rest = cut t in
    if c == 61
    then some ([], t)
    else elim rest [ none ↦ none | some (key, value) ↦ some (c ∷ key, value) ]

-- The `switch` on the key.
unfoldable pub set_credential : Text → Text → Credentials → Credentials
unfolding trim_space
set_credential key value c =
    if text_eq (trim_space key) (codes "api_url")
    then record c { api_url = trim_space value }
    else (if text_eq (trim_space key) (codes "api_key")
        then record c { api_key = trim_space value }
        else c)

-- A line of the file without the white space around it.
unfoldable pub use_setting : Text → Credentials → Credentials
unfolding cut set_credential has_prefix
use_setting line c =
    if text_eq line [] || (has_prefix (codes "#") line || has_prefix (codes "[") line)
    then c
    else elim (cut line) [ none ↦ c | some (key, value) ↦ set_credential key value c ]

unfoldable pub use_settings : List Text → Credentials → Credentials
unfolding use_setting trim_space
use_settings [] c = c
use_settings (line ∷ lines) c = use_settings lines (use_setting (trim_space line) c)

-- `LoadCredentials` of the lines of a file that can be read; `none` is the error.
unfoldable pub load_credentials : List Text → Option Credentials
unfolding use_settings
load_credentials lines =
    let c = use_settings lines (record { api_url = []; api_key = [] }) in
    if text_eq c.api_url [] || text_eq c.api_key [] then none else some c

-- `compatibleAPIURL`
unfoldable pub compatible_api_url : Text → Text
unfolding trim_slashes trim_space has_suffix
compatible_api_url value =
    let url = trim_slashes (trim_space value) in
    if has_suffix (codes "/compat/wakatime/v1") url || has_suffix (codes "/api/v1") url
    then url
    else (if has_suffix (codes "/api") url
        then url ++ codes "/compat/wakatime/v1"
        else url ++ codes "/api/compat/wakatime/v1")

-- An attempt: no response, or the status code and the decoded body, with `none` for the error.
pub data Attempt {ℓ} (A : Type ℓ) : Type ℓ where
  unreached : Attempt A
  responded : ℕ → Option A → Attempt A

abbrev gives_up : ℕ → Bool
gives_up code = ltb code 500 && not (code == 429)

-- The loop over the attempts; `none` is the error.
unfoldable pub try_attempts {ℓ} : {A : Type ℓ} → List (Attempt A) → Option A
try_attempts [] = none
try_attempts (unreached ∷ attempts) = try_attempts attempts
try_attempts (responded code body ∷ attempts) = elim (code / 100 == 2) [
  | true ↦ body
  | false ↦ elim (gives_up code) [ true ↦ none | false ↦ try_attempts attempts ]
]

-- `getJSON`, on the outcomes that its attempts would have.
unfoldable pub get_json {ℓ} : {A : Type ℓ} → List (Attempt A) → Option A
unfolding try_attempts
get_json attempts = try_attempts (take 5 attempts)
