-- ===== src/Config.antt =====
-- internal/config/config.go: the configuration as it is loaded and written. The TOML library, the home
-- directory, the environment and `filepath.Join` are parameters; writing the file is not modelled. A
-- Duration is an int64 of nanoseconds.
use codex_tempo.Common.{ℕ, ◌*◌, Bool, true, false, Option, none, some, List, [], ◌∷◌, if◌then◌else◌}
use codex_tempo.Common.Text.{Text, codes, text_eq}
use codex_tempo.Common.Word.{lt64}
use codex_tempo.Localdb.Stamp.{second}
use codex_tempo.Codex.Lines.{trim_space, drop}
use codex_tempo.Sync.{trim_slashes}
use codex_tempo.Postgres.Rows.{has_prefix}

pub record Privacy : Type 0 where
  pub store_paths : Bool
  pub store_tool_names : Bool
  pub store_prompt_metadata : Bool
  pub store_content : Bool

pub record Config : Type 0 where
  pub data_dir : Text
  pub codex_home : Text
  pub server_url : Text
  pub machine_token : Text
  pub scan_interval : ℕ
  pub sync_interval : ℕ
  pub hook_sync_interval : ℕ
  pub hook_activity_timeout : ℕ
  pub log_retention : ℕ
  pub machine_name : Text
  pub privacy : Privacy

-- `diskConfig`: the durations are texts.
pub record DiskConfig : Type 0 where
  pub data_dir : Text
  pub codex_home : Text
  pub server_url : Text
  pub machine_token : Text
  pub machine_name : Text
  pub scan_interval : Text
  pub sync_interval : Text
  pub hook_sync_interval : Text
  pub hook_activity_timeout : Text
  pub log_retention : Text
  pub privacy : Privacy

-- The result of `os.UserHomeDir`, `filepath.Join`, `os.ExpandEnv`, and `os.Getenv`.
pub record Platform : Type 0 where
  pub home : Text
  pub join : List Text → Text
  pub expand_env : Text → Text
  pub env : Text → Text

abbrev pub two_weeks : ℕ
two_weeks = 1209600 * second

-- `Default`
unfoldable pub default_config : Platform → Config
default_config os = record {
  data_dir = os.join (os.home ∷ codes ".local" ∷ codes "share" ∷ codes "codex-tempo" ∷ []);
  codex_home = os.join (os.home ∷ codes ".codex" ∷ []);
  server_url = [];
  machine_token = [];
  scan_interval = 15 * second;
  sync_interval = 30 * second;
  hook_sync_interval = 30 * second;
  hook_activity_timeout = 90 * second;
  log_retention = two_weeks;
  machine_name = [];
  privacy = record {
    store_paths = false;
    store_tool_names = true;
    store_prompt_metadata = false;
    store_content = false;
  };
}

-- `expandHome`
unfoldable pub expand_home : Platform → Text → Text
unfolding has_prefix drop
expand_home os path =
    if text_eq path (codes "~")
    then os.home
    else (if has_prefix (codes "~/") path
        then os.join (os.home ∷ drop 2 path ∷ [])
        else os.expand_env path)

-- A variable without the white space around it, where something is left of it.
unfoldable pub override : Text → Text → (Text → Text) → Text
unfolding trim_space
override value old change =
    let trimmed = trim_space value in if text_eq trimmed [] then old else change trimmed

-- `applyEnvOverrides`
unfoldable pub apply_env_overrides : Platform → Config → Config
unfolding override trim_slashes
apply_env_overrides os config = record config {
  server_url = override (os.env (codes "CODEX_TEMPO_SERVER_URL")) config.server_url trim_slashes;
  machine_token =
      override (os.env (codes "CODEX_TEMPO_MACHINE_TOKEN")) config.machine_token (λ v. v);
  machine_name = override (os.env (codes "CODEX_TEMPO_MACHINE_NAME")) config.machine_name (λ v. v);
}

abbrev or_default : ℕ → ℕ → ℕ
or_default duration default = if lt64 0 duration then duration else default

-- The last steps of `Load`.
unfoldable pub finish_config : Platform → Config → Config
unfolding expand_home apply_env_overrides
finish_config os config =
    let overridden = apply_env_overrides os (record config {
      data_dir = expand_home os config.data_dir;
      codex_home = expand_home os config.codex_home;
    }) in
    record overridden {
      hook_sync_interval = or_default overridden.hook_sync_interval (30 * second);
      hook_activity_timeout = or_default overridden.hook_activity_timeout (90 * second);
      log_retention = or_default overridden.log_retention two_weeks;
    }

-- A file that is not there, or `toml.DecodeFile` of one that is: it changes what the file sets, and
-- `none` is its error.
pub data ConfigFile : Type 0 where
  missing : ConfigFile
  present : (Config → Option Config) → ConfigFile

-- `Load`
unfoldable pub load_config : Platform → ConfigFile → Option Config
unfolding default_config finish_config
load_config os missing = some (default_config os)
load_config os (present decode) = elim (decode (default_config os)) [
  | none ↦ none
  | some config ↦ some (finish_config os config)
]

-- What `Save` encodes; `format` is the `String` of a Duration.
unfoldable pub disk_config : (ℕ → Text) → Config → DiskConfig
disk_config format config = record {
  data_dir = config.data_dir;
  codex_home = config.codex_home;
  server_url = config.server_url;
  machine_token = config.machine_token;
  machine_name = config.machine_name;
  scan_interval = format config.scan_interval;
  sync_interval = format config.sync_interval;
  hook_sync_interval = format config.hook_sync_interval;
  hook_activity_timeout = format config.hook_activity_timeout;
  log_retention = format config.log_retention;
  privacy = config.privacy;
}
