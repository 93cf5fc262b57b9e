-- ===== src/Agent/Commands.antt =====
-- apps/agent/main.go: the commands of the agent. Flags and environment are the fields of `Setup`, with
-- what `readLine` reads when it is asked; `fresh` is a new id. An error ends the program.
use codex_tempo.Common.{Bool, true, false, ◌||◌, Option, none, some, List, [], ◌∷◌, if◌then◌else◌}
use codex_tempo.Common.Text.{Text, codes, text_eq}
use codex_tempo.Localdb.{Store}
use codex_tempo.Localdb.Queue.{machine_id}
use codex_tempo.Codex.{World}
use codex_tempo.Codex.Records.{Parser}
use codex_tempo.Sync
use codex_tempo.Sync.{Client, trim_slashes, sync_once}
use codex_tempo.Config.{Config}
use codex_tempo.Registration.{RegisterRequest, RegisterResponse, Registered, register}
use codex_tempo.Agent.{Disk, Signal, Watching, scan_once, run_service}

pub record Setup : Type 0 where
  pub server_url : Text
  pub typed_url : Text
  pub setup_key : Text
  pub typed_key : Text
  pub machine_name : Text
  pub hostname : Text

-- What the command does to the system: the configuration that it writes, if it does, the store, and
-- whether it ends without an error.
pub record Configured : Type 0 where
  pub done : Bool
  pub saved : Option Config
  pub store : Store

abbrev or_text : Text → Text → Text
or_text [] other = other
or_text (c ∷ t) other = c ∷ t

abbrev parser_of : Text → Config → Parser
parser_of machine config = record { machine_id = machine; store_paths = config.privacy.store_paths }

abbrev client_of : Text → Config → Client
client_of machine config = record {
  server_url = config.server_url;
  token = config.machine_token;
  machine_id = machine;
}

-- `run` with `--once`: whether there is no error.
unfoldable pub run_once : World → Disk → Text → Config → Store → Bool × Store
run_once w disk fresh config s =
    let (machine, named) = machine_id fresh s in scan_once w (parser_of machine config) disk named

-- `run` without it: the service, and the client beside it where a server is configured.
unfoldable pub run_agent :
    World
    → Bool
    → Disk
    → Disk
    → List (Disk × Signal)
    → Text
    → Config
    → Store
    → Watching × Option Client
run_agent w ready first later signals fresh config s =
    let (machine, named) = machine_id fresh s in
    (
      run_service w (parser_of machine config) ready first later signals named,
      if text_eq config.server_url [] then none else some (client_of machine config),
    )

-- The first pass and the first delivery with the new configuration.
unfoldable pub first_sync :
    World → Disk → (Sync.Request → Option Sync.Response) → Text → Config → Store → Configured
first_sync w disk post machine config s =
    let scanned = scan_once w (parser_of machine config) disk s in
    elim scanned.0 [
      | false ↦ record { done = false; saved = some config; store = scanned.1 }
      | true ↦
          let synced = sync_once post (client_of machine config) scanned.1 in
          record { done = synced.0; saved = some config; store = synced.1 }
    ]

-- What follows the registration; `writes` is the success of `Save`.
unfoldable pub use_registered :
    World
    → Disk
    → (Sync.Request → Option Sync.Response)
    → Bool
    → Text
    → Text
    → Text
    → Config
    → Option Registered
    → Store
    → Configured
unfolding first_sync trim_slashes
use_registered w disk post writes url name machine config none s = record {
  done = false;
  saved = none;
  store = s;
}
use_registered w disk post writes url name machine config (some registered) s =
    if writes
    then first_sync w disk post machine
        (record config {
          server_url = trim_slashes url;
          machine_token = registered.token;
          machine_name = name;
        })
        s
    else record { done = false; saved = none; store = s }

-- `configure`
unfoldable pub configure :
    World
    → Disk
    → (RegisterRequest → Option RegisterResponse)
    → (Sync.Request → Option Sync.Response)
    → Bool
    → Text
    → Setup
    → Config
    → Store
    → Configured
unfolding use_registered
configure w disk call post writes fresh setup config s =
    let url = or_text (or_text setup.server_url config.server_url) setup.typed_url in
    let key = or_text setup.setup_key setup.typed_key in
    let name = or_text (or_text setup.machine_name setup.hostname) (codes "codex-machine") in
    if text_eq url [] || text_eq key []
    then record { done = false; saved = none; store = s }
    else let (machine, named) = machine_id fresh s in
      use_registered w disk post writes url name machine config
        (register call (record { server_url = url; setup_key = key }) machine name) named
