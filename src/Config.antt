-- ===== src/Config.antt =====
-- config/settings.go: the settings read from the environment.
pub mod Laws
use libp2p_submission_sequen.Prelude.{Bytes, codes, is_empty, List, [], ◌∷◌, ◌++◌, if◌then◌else◌}

pub record Settings : Type 0 where
  pub client_url : Bytes
  pub contract_address : Bytes
  pub redis_host : Bytes
  pub redis_port : Bytes
  pub relayer_rendezvous_point : Bytes
  pub relayer_private_key : Bytes
  pub slack_reporting_url : Bytes
  pub data_market_address : Bytes
  pub redis_db : Bytes

-- `os.Getenv`: a variable that is not set reads as the empty string.
abbrev pub Environment : Type 0
Environment = Bytes → Bytes

-- `log.Fatalf` ends the process with the names it reports; otherwise `SettingsObj` is set, and the
-- keys of the warnings are kept in their order.
pub data Loaded : Type 0 where
  fatal : List Bytes → Loaded
  loaded : Settings → List Bytes → Loaded

unfoldable pub get_env : Environment → Bytes → Bytes → Bytes
get_env getenv key default_value =
    let value = getenv key in if is_empty value then default_value else value

-- One `if config.X == "" { missingEnvVars = append(missingEnvVars, name) }`.
unfoldable pub check_required : Bytes → Bytes → List Bytes → List Bytes
check_required value name missing = if is_empty value then missing ++ name ∷ [] else missing

unfoldable pub check_optional_env_var : Bytes → Bytes → List Bytes → List Bytes
check_optional_env_var value key warned = if is_empty value then warned ++ key ∷ [] else warned

unfoldable pub read_settings : Environment → Settings
unfolding get_env
read_settings getenv = record {
  client_url = get_env getenv (codes "PROST_RPC_URL") [];
  contract_address = get_env getenv (codes "PROTOCOL_STATE_CONTRACT") [];
  redis_host = get_env getenv (codes "REDIS_HOST") [];
  redis_port = get_env getenv (codes "REDIS_PORT") [];
  relayer_rendezvous_point = get_env getenv (codes "RELAYER_RENDEZVOUS_POINT") [];
  relayer_private_key = get_env getenv (codes "RELAYER_PRIVATE_KEY") [];
  slack_reporting_url = get_env getenv (codes "SLACK_REPORTING_URL") [];
  data_market_address = get_env getenv (codes "DATA_MARKET_ADDRESS") [];
  redis_db = get_env getenv (codes "REDIS_DB") [];
}

unfoldable pub missing_env_vars : Settings → List Bytes
missing_env_vars config =
    let a = check_required config.client_url (codes "PROST_RPC_URL") [] in
    let b = check_required config.contract_address (codes "PROTOCOL_STATE_CONTRACT") a in
    let c = check_required config.relayer_rendezvous_point (codes "RENDEZVOUS_POINT") b in
    let d = check_required config.data_market_address (codes "DATA_MARKET_ADDRESS") c in
    check_required config.redis_db (codes "REDIS_DB") d

unfoldable pub optional_warnings : Settings → List Bytes
optional_warnings config =
    let a = check_optional_env_var config.slack_reporting_url (codes "SLACK_REPORTING_URL") [] in
    let b = check_optional_env_var config.redis_host (codes "REDIS_HOST") a in
    let c = check_optional_env_var config.redis_port (codes "REDIS_PORT") b in
    check_optional_env_var config.relayer_private_key (codes "RELAYER_PRIVATE_KEY") c

-- `if len(missingEnvVars) > 0 { log.Fatalf(…) }`
abbrev pub finish_load : List Bytes → Settings → Loaded
finish_load (name ∷ names) config = fatal (name ∷ names)
finish_load [] config = loaded config (optional_warnings config)

unfoldable pub load_config : Environment → Loaded
load_config getenv =
    let config = read_settings getenv in finish_load (missing_env_vars config) config
