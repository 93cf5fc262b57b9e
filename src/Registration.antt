-- ===== src/Registration.antt =====
-- internal/registration/client.go: `Register`. The call of the server is a parameter; the texts of the
-- errors are not modelled.
use codex_tempo.Common.{ℕ, not, ◌||◌, Option, none, some, [], ◌++◌, ◌==◌, if◌then◌else◌}
use codex_tempo.Common.Text.{Text, codes, text_eq}
use codex_tempo.Sync.{trim_slashes}

pub record Registrar : Type 0 where
  pub server_url : Text
  pub setup_key : Text

pub record Registered : Type 0 where
  pub machine_id : Text
  pub token : Text

pub record RegisterRequest : Type 0 where
  pub url : Text
  pub authorization : Text
  pub machine_id : Text
  pub name : Text

-- `decoded` is `none` where the body is not the JSON that is wanted.
pub record RegisterResponse : Type 0 where
  pub status_code : ℕ
  pub decoded : Option Registered

unfoldable pub register_request : Registrar → Text → Text → RegisterRequest
unfolding trim_slashes
register_request c machine_id name = record {
  url = trim_slashes c.server_url ++ codes "/api/v1/ingest/register";
  authorization = codes "Bearer " ++ c.setup_key;
  machine_id = machine_id;
  name = name;
}

-- What follows the call.
unfoldable pub check_registered : Text → Option RegisterResponse → Option Registered
check_registered machine_id none = none
check_registered machine_id (some response) = elim response.decoded [
  | none ↦ none
  | some result ↦
      if not (response.status_code == 201)
        || (not (text_eq result.machine_id machine_id) || text_eq result.token [])
      then none
      else some result
]

-- `Register`; `none` is an error.
unfoldable pub register :
    (RegisterRequest → Option RegisterResponse) → Registrar → Text → Text → Option Registered
unfolding register_request check_registered
register post c machine_id name =
    check_registered machine_id (post (register_request c machine_id name))
