-- ===== src/Config/Laws.antt =====
-- What `LoadConfig` accepts, reports and warns about.
use libp2p_submission_sequen.Prelude.{
  ◌≡◌, refl, arith, Bytes, codes, is_empty, List, [], ◌∷◌, ◌++◌, if◌then◌else◌, list_laws,
}
use libp2p_submission_sequen.Config.{
  Settings, Environment, Loaded, fatal, loaded, get_env, check_required, check_optional_env_var,
  read_settings, missing_env_vars, optional_warnings, finish_load, load_config,
}

-- A variable of the environment, and the name by which it is reported.
pub record Variable : Type 0 where
  pub key : Bytes
  pub label : Bytes

abbrev same : Bytes → Variable
same k = record { key = k; label = k }

-- The table of required variables, in the order of the report.
abbrev pub required : List Variable
required =
    same (codes "PROST_RPC_URL")
    ∷ same (codes "PROTOCOL_STATE_CONTRACT")
    ∷ record { key = codes "RELAYER_RENDEZVOUS_POINT"; label = codes "RENDEZVOUS_POINT" }
    ∷ same (codes "DATA_MARKET_ADDRESS")
    ∷ same (codes "REDIS_DB")
    ∷ []

abbrev pub optional : List Variable
optional =
    same (codes "SLACK_REPORTING_URL")
    ∷ same (codes "REDIS_HOST")
    ∷ same (codes "REDIS_PORT")
    ∷ same (codes "RELAYER_PRIVATE_KEY")
    ∷ []

-- The labels of the variables that the environment leaves empty.
abbrev pub unset : Environment → List Variable → List Bytes
unset getenv [] = []
unset getenv (v ∷ vs) = (if is_empty (getenv v.key) then v.label ∷ [] else []) ++ unset getenv vs

get_env_lem : (getenv : Environment) (key : Bytes) → get_env getenv key [] ≡ getenv key
unfolding get_env
get_env_lem getenv key = ground arith

check_required_lem :
    (value name : Bytes) (missing : List Bytes)
    → check_required value name missing ≡ missing ++ (if is_empty value then name ∷ [] else [])
unfolding check_required
check_required_lem [] name missing = refl
check_required_lem (c ∷ value) name missing = simp list_laws

check_optional_env_var_lem :
    (value key : Bytes) (warned : List Bytes)
    → check_optional_env_var value key warned ≡ warned ++ (if is_empty value then key ∷ [] else [])
unfolding check_optional_env_var
check_optional_env_var_lem [] key warned = refl
check_optional_env_var_lem (c ∷ value) key warned = simp list_laws

abbrev pub settings_of : Environment → Settings
settings_of getenv = record {
  client_url = getenv (codes "PROST_RPC_URL");
  contract_address = getenv (codes "PROTOCOL_STATE_CONTRACT");
  redis_host = getenv (codes "REDIS_HOST");
  redis_port = getenv (codes "REDIS_PORT");
  relayer_rendezvous_point = getenv (codes "RELAYER_RENDEZVOUS_POINT");
  relayer_private_key = getenv (codes "RELAYER_PRIVATE_KEY");
  slack_reporting_url = getenv (codes "SLACK_REPORTING_URL");
  data_market_address = getenv (codes "DATA_MARKET_ADDRESS");
  redis_db = getenv (codes "REDIS_DB");
}

read_settings_lem : (getenv : Environment) → read_settings getenv ≡ settings_of getenv
unfolding read_settings
read_settings_lem getenv = simp get_env_lem

missing_env_vars-unset :
    (getenv : Environment) → missing_env_vars (settings_of getenv) ≡ unset getenv required
unfolding missing_env_vars
missing_env_vars-unset getenv = simp (check_required_lem, list_laws)

optional_warnings-unset :
    (getenv : Environment) → optional_warnings (settings_of getenv) ≡ unset getenv optional
unfolding optional_warnings
optional_warnings-unset getenv = simp (check_optional_env_var_lem, list_laws)

-- The report that the tables ask for.
abbrev pub expected : Environment → List Bytes → Loaded
expected getenv (name ∷ names) = fatal (name ∷ names)
expected getenv [] = loaded (settings_of getenv) (unset getenv optional)

finish_load-expected :
    (getenv : Environment) (names : List Bytes)
    → finish_load names (settings_of getenv) ≡ expected getenv names
finish_load-expected getenv (name ∷ names) = refl
finish_load-expected getenv [] = rw optional_warnings-unset

-- Loading ends the process exactly when a required variable is empty, with all the empty ones in
-- the order of the table; otherwise every setting is its variable and the warnings are the empty
-- optional variables in order.
pub load_config_lem :
    (getenv : Environment) → load_config getenv ≡ expected getenv (unset getenv required)
unfolding load_config
load_config_lem getenv =
    rw read_settings_lem (rw missing_env_vars-unset (finish_load-expected getenv _))
