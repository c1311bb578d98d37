-- ===== src/App/Factory.antt =====
-- `create_app` of api/app/__init__.py, with what it calls in api/app/extensions.py, api/app/logging.py
-- and db/gpca_db/session.py: the arguments with which it calls Flask, SQLAlchemy and logging, in order.
pub mod Laws
use Prim.Native.String.{◌++◌}
use gpca_v.Prelude.{ℕ, String, Bool, true, false, Option, none, some, List, [], ◌∷◌, upper}
use gpca_v.Config.{Settings}
use gpca_v.Config.Load.{Source, Loaded, loaded, config_error, load_settings, is_debug}

-- the arguments of SQLAlchemy's `create_engine`
pub record EngineArgs : Type 0 where
  pub url : String
  pub echo : Bool
  pub pool_size : ℕ
  pub max_overflow : ℕ
  pub pool_recycle : ℕ
  pub pool_pre_ping : Bool
  pub connect_timeout : ℕ

-- `build_engine(url, echo=..., connect_timeout_seconds=...)`, the rest by default
abbrev pub build_engine : String → Bool → ℕ → EngineArgs
build_engine url echo connect_timeout_seconds = record {
  url = url;
  echo = echo;
  pool_size = 5;
  max_overflow = 5;
  pool_recycle = 1800;
  pool_pre_ping = true;
  connect_timeout = connect_timeout_seconds;
}

-- the arguments of `sessionmaker`
pub record FactoryArgs : Type 0 where
  pub bind : EngineArgs
  pub expire_on_commit : Bool

abbrev pub build_session_factory : EngineArgs → FactoryArgs
build_session_factory engine = record { bind = engine; expire_on_commit = false }

-- the routes of the two blueprints, below their prefixes
abbrev pub health_routes : List String
health_routes = "/health" ∷ "/health/ready" ∷ []

abbrev pub auth_prefix : String
auth_prefix = "/auth"

abbrev pub auth_routes : List String
auth_routes =
    "/register" ∷ "/verify-email" ∷ "/verify-email/resend" ∷ "/login" ∷ "/refresh" ∷ "/logout"
    ∷ "/logout-all" ∷ "/password/forgot" ∷ "/password/reset" ∷ []

abbrev pub api_prefix : String
api_prefix = "/api/v1"

-- what the factory does to the application and to the process
pub data Call : Type 0 where
  -- the root logger gets the JSON handler alone, and a level
  configure_logging : String → Call
  -- Flask(__name__)
  new_app : Call
  -- app.config["SETTINGS"], ["DEBUG"] and ["PROPAGATE_EXCEPTIONS"]
  set_settings : Settings → Call
  set_debug set_propagate : Bool → Call
  -- app.extensions
  set_engine : EngineArgs → Call
  set_session_factory : FactoryArgs → Call
  register_request_id register_error_handlers : Call
  register_blueprint : String → List String → Call
  register_spec : Call
  add_url_rule : String → Call

abbrev pub init_database : Settings → List Call → List Call
init_database settings rest =
    let engine =
      build_engine settings.database_url (is_debug settings) settings.db_connect_timeout_seconds in
    set_engine engine ∷ set_session_factory (build_session_factory engine) ∷ rest

-- how `create_app` ends: the calls that it has made, or the ConfigError that stops the process
pub data Started : Type 0 where
  built : List Call → Started
  stopped : String → Started

abbrev pub assemble : Settings → List Call
assemble settings =
    configure_logging (upper settings.log_level)
    ∷ new_app
    ∷ set_settings settings
    ∷ set_debug (is_debug settings)
    ∷ set_propagate false
    ∷ init_database settings (
        register_request_id
        ∷ register_error_handlers
        ∷ register_blueprint "" health_routes
        ∷ register_blueprint (api_prefix ++ auth_prefix) auth_routes
        ∷ register_spec
        ∷ add_url_rule (api_prefix ++ "/openapi.json")
        ∷ [])

abbrev pub start_with : (source : Source) → Loaded source → Started
start_with source (loaded settings) = built (assemble settings)
start_with source (config_error message) = stopped message

-- `settings or load_settings()`: an object of Settings is always true
unfoldable pub create_app : Option Settings → Source → Started
create_app none source = start_with source (load_settings source)
create_app (some settings) source = built (assemble settings)
