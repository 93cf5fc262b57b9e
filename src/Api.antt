-- ===== src/Api.antt =====
-- internal/api/server.go: the HTTP handlers, as functions from a request and the database to a response
-- and the database after it. Logging and middleware are not modelled, nor the encoding of responses as
-- JSON: a body is its value. All readings of the clock for one request are one. `Wire` has what the
-- standard library reads of a request.
pub mod Handlers
pub mod Routes
pub mod Access
pub mod Accepted
pub mod Delivered
use codex_tempo.Common.{
  ℕ, zero, ◌+◌, ◌-◌, ◌*◌, ◌/◌, Bool, not, ◌||◌, Option, none, some, List, [], ◌∷◌, ◌++◌, length,
  ltb, if◌then◌else◌,
}
use codex_tempo.Common.Text.{Text, codes, text_eq}
use codex_tempo.Domain.{Event, Run, Session}
use codex_tempo.Interval.Summary.{Summary}
use codex_tempo.Localdb.Stamp.{second}
use codex_tempo.Codex.Lines.{trim_space, drop}
use codex_tempo.Postgres.{Engine}
use codex_tempo.Postgres.Ingest.{IngestResult}
use codex_tempo.Postgres.Rows.{has_prefix}
use codex_tempo.Postgres.Queries.{ProjectSummary, MachineSummary}

pub record Server : Type 0 where
  pub admin_token : Text
  pub internal_token : Text

pub data Method : Type 0 where
  get post other_method : Method

-- The query parameters are those that the handlers read, empty where they are not there.
pub record Request : Type 0 where
  pub method : Method
  pub path : Text
  pub authorization : Text
  pub from : Text
  pub to : Text
  pub project_id : Text
  pub body : Text

pub record RegisterInput : Type 0 where
  pub machine_id : Text
  pub name : Text

pub record IngestRequest : Type 0 where
  pub machine_id : Text
  pub events : List Event

-- `parse_register` and `parse_ingest` are `decodeJSON` without its response, with the limit on the
-- body's length; `parse_time` is `time.Parse` of RFC 3339.
pub record Wire : Type 0 where
  pub parse_register : Text → Option RegisterInput
  pub parse_ingest : Text → Option IngestRequest
  pub parse_time : Text → Option ℕ

pub record SummaryReport : Type 0 where
  pub from : ℕ
  pub to : ℕ
  pub summary : Summary

pub record TimelineReport : Type 0 where
  pub from : ℕ
  pub to : ℕ
  pub runs : List Run

pub data Body : Type 0 where
  error : Text → Body
  status : Text → Body
  registered : Text → Text → Body
  ingested : IngestResult → Body
  projects : List ProjectSummary → Body
  sessions : List Session → Body
  machines : List MachineSummary → Body
  summary : SummaryReport → Body
  timeline : TimelineReport → Body
  active : List Run → Body
  plain : Text → Body

pub record Response : Type 0 where
  pub status_code : ℕ
  pub body : Body

abbrev pub answer : ℕ → Body → Response
answer code body = record { status_code = code; body = body }

-- `writeError`
abbrev pub write_error : ℕ → Text → Response
write_error code message = answer code (error message)

-- `fail`
abbrev pub fail : Response
fail = write_error 500 (codes "internal server error")

unfoldable pub bearer_matches : Request → Text → Bool
bearer_matches request token = text_eq request.authorization (codes "Bearer " ++ token)

-- `strings.TrimPrefix`
unfoldable pub trim_prefix : Text → Text → Text
unfolding has_prefix drop
trim_prefix p t = if has_prefix p t then drop (length p) t else t

unfoldable pub day : ℕ
day = 86400 * second

-- The start of the day in UTC: the zero time is a midnight.
unfoldable pub midnight : ℕ → ℕ
unfolding day
midnight t = t / day * day

-- A bound of the range, where the parameter is given.
unfoldable pub time_parameter : Wire → Text → ℕ → Option ℕ
time_parameter wire [] default = some default
time_parameter wire (c ∷ value) default = wire.parse_time (c ∷ value)

pub data Range : Type 0 where
  range : ℕ → ℕ → Range
  bad_range : Text → Range

abbrev check_range : ℕ → ℕ → Range
check_range from to =
    if ltb from to then range from to else bad_range (codes "to must be after from")

unfoldable pub date_range : Wire → ℕ → Request → Range
unfolding midnight time_parameter
date_range wire now request = elim (time_parameter wire request.from (midnight now)) [
  | none ↦ bad_range (codes "from must be RFC3339")
  | some from ↦ elim (time_parameter wire request.to (midnight now + day)) [
    | none ↦ bad_range (codes "to must be RFC3339")
    | some to ↦ check_range from to
  ]
]

-- `none` is the error.
unfoldable pub optional_project_id : Engine → Request → Option Text
unfolding trim_space
optional_project_id engine request =
    let value = trim_space request.project_id in
    if text_eq value [] || engine.is_uuid value then some value else none
