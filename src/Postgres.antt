-- ===== src/Postgres.antt =====
-- internal/postgres: the server's PostgreSQL database, its tables as lists of rows in the order of
-- insertion. Connections and their failures are not modelled; a statement that breaks a constraint or
-- cannot cast a value is an error, after which the transaction's changes are gone; but foreign keys are
-- not modelled, since rows of machines and projects stay and the calls name machines that are there. A `timestamptz`
-- keeps microseconds, a uuid is its canonical text, and `NULL` is `none`. Texts are valid UTF-8
-- without NUL.
pub mod Machines
pub mod Ingest
pub mod Rows
pub mod Rebuild
pub mod Queries
pub mod Tokens
pub mod Steps
pub mod Rebuilt
pub mod Counts
pub mod Stored
pub mod Fixed
pub mod Settled
pub mod Retry
pub mod Expiry
pub mod Projection
use codex_tempo.Common.{ℕ, ◌/◌, ◌*◌, Bool, Option, none, some, List, [], ◌∷◌, if◌then◌else◌}
use codex_tempo.Common.Text.{Text}
use codex_tempo.Domain.{Event, Run}
use codex_tempo.Projector.{EventPayload}

pub record ProjectMetadata : Type 0 where
  pub project_id : Text
  pub project_name : Text
  pub project_fingerprint : Text
  pub remote_hash : Text
  pub worktree_name : Text
  pub worktree_path : Text
  pub is_worktree : Bool
  pub codex_version : Text

-- `is_uuid` is the success of `uuid.Parse`; `cast_uuid` and `cast_json` are the casts of PostgreSQL
-- to uuid and jsonb, `none` an error or NULL; `sha256` is the hash; the last two are
-- `json.Unmarshal` of a payload into the projector's and the metadata's struct.
pub record Engine : Type 0 where
  pub is_uuid : Text → Bool
  pub cast_uuid : Text → Option Text
  pub cast_json : Text → Option Text
  pub sha256 : Text → Text
  pub decode : Text → EventPayload
  pub decode_metadata : Text → ProjectMetadata

pub record Machine : Type 0 where
  pub id : Text
  pub name : Text
  pub token_hash : Text
  pub created_at : ℕ
  pub last_seen_at : Option ℕ

pub record ProjectRow : Type 0 where
  pub id : Text
  pub fingerprint : Text
  pub name : Text
  pub remote_hash : Option Text
  pub created_at : ℕ
  pub updated_at : ℕ

pub record SessionRow : Type 0 where
  pub id : Text
  pub machine_id : Text
  pub project_id : Text
  pub cwd : Option Text
  pub worktree_name : Option Text
  pub worktree_path : Option Text
  pub is_worktree : Bool
  pub source : Text
  pub codex_version : Option Text
  pub started_at : ℕ
  pub ended_at : Option ℕ

-- The columns of `events` and `runs` that are read are those of the structs.
pub record Database : Type 0 where
  pub machines : List Machine
  pub projects : List ProjectRow
  pub sessions : List SessionRow
  pub events : List Event
  pub runs : List Run

-- A time as a `timestamptz` has it.
abbrev pub timestamp : ℕ → ℕ
timestamp t = t / 1000 * 1000

-- `NULLIF(x,'')`
abbrev pub null_if_empty : Text → Option Text
null_if_empty [] = none
null_if_empty (c ∷ t) = some (c ∷ t)

-- `COALESCE`
abbrev pub coalesce {ℓ} : {A : Type ℓ} → Option A → Option A → Option A
coalesce none b = b
coalesce (some a) b = some a

abbrev pub or_else {ℓ} : {A : Type ℓ} → Option A → A → A
or_else none b = b
or_else (some a) b = a

-- The first row that passes a test.
abbrev pub first {ℓ} : {A : Type ℓ} → (A → Bool) → List A → Option A
first p [] = none
first p (x ∷ xs) = if p x then some x else first p xs

-- `UPDATE … WHERE`
abbrev pub update {ℓ} : {A : Type ℓ} → (A → Bool) → (A → A) → List A → List A
update p f [] = []
update p f (x ∷ xs) = (if p x then f x else x) ∷ update p f xs
