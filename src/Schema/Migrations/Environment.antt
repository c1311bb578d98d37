-- ===== src/Schema/Migrations/Environment.antt =====
-- db/migrations/env.py: what it has Alembic and SQLAlchemy do, in order. Whether Alembic runs
-- offline, and with a configuration file, are arguments.
use Prim.Native.String.{◌++◌}
use gpca_v.Prelude.{
  String, Bool, true, false, Option, none, some, List, [], ◌∷◌, ◌++◌ as ◌⊹◌, if◌then◌else◌, ◌≡◌,
  refl, ◌∙◌,
}
use text.Mathlib.Text.{◌==◌ as str_eq}

-- where the statements go: printed as SQL for a URL, or through a connection
pub data Target : Type 0 where
  script : String → (literal_binds : Bool) (paramstyle : String) → Target
  connection : Target

pub data Act : Type 0 where
  -- `fileConfig(..., disable_existing_loggers=...)`
  file_config : String → Bool → Act
  set_main_option : String → String → Act
  -- `engine_from_config(section, prefix=...)`, without a pool
  engine_from_config : String → Act
  connect close : Act
  -- `context.configure`, with compare_type, compare_server_default and include_schemas
  configure : Target → (compare_type compare_server_default include_schemas : Bool) → Act
  begin_transaction end_transaction : Act
  run_migrations : Act

-- the process as the script finds it: the variables, the file of `alembic -c`, and `--sql`
pub record Process : Type 0 where
  pub variable : String → Option String
  pub config_file_name : Option String
  pub is_offline_mode : Bool

-- how the script ends: what it has done, or what it did before its RuntimeError
pub data Ended : Type 0 where
  done : List Act → Ended
  runtime_error : List Act → String → Ended

abbrev configure_logging : Option String → List Act
configure_logging none = []
configure_logging (some file) = file_config file false ∷ []

-- `_configure`
abbrev configured : Target → Act
configured target = configure target true true false

abbrev in_transaction : List Act
in_transaction = begin_transaction ∷ run_migrations ∷ end_transaction ∷ []

abbrev run_migrations_offline : String → List Act
run_migrations_offline database_url = configured (script database_url true "named") ∷ in_transaction

abbrev run_migrations_online : List Act
run_migrations_online =
    engine_from_config "sqlalchemy." ∷ connect ∷ configured connection ∷ in_transaction
    ⊹ (close ∷ [])

-- an unset variable and an empty one are alike: `if not database_url`
abbrev url_of : Option String → Option String
url_of none = none
url_of (some url) = if str_eq url "" then none else some url

abbrev with_url : Bool → List Act → Option String → Ended
with_url is_offline_mode before none = runtime_error before (
    "DATABASE_URL is not set. Alembic takes the connection URL from the "
    ++ "environment so the same migrations run everywhere unchanged.")
with_url is_offline_mode before (some url) = done (
    before
    ⊹ (set_main_option "sqlalchemy.url" url
        ∷ (if is_offline_mode then run_migrations_offline url else run_migrations_online)))

unfoldable pub run : Process → Ended
run process =
    with_url process.is_offline_mode (configure_logging process.config_file_name)
      (url_of (process.variable "DATABASE_URL"))

-- the acts of a script, as far as it came
abbrev runs : Ended → List Act
runs (done acts) = acts
runs (runtime_error acts message) = acts

abbrev has_run : List Act → Bool
has_run [] = false
has_run (run_migrations ∷ acts) = true
has_run (_ ∷ acts) = has_run acts

abbrev is_given : Option String → Bool
is_given none = false
is_given (some url) = true

has_run-configured :
    (file : Option String) (acts : List Act)
    → has_run (configure_logging file ⊹ acts) ≡ has_run acts
has_run-configured none acts = refl
has_run-configured (some file) acts = refl

-- The migrations run exactly when DATABASE_URL is set and not empty, whether offline or not.
run-has_run :
    (process : Process)
    → has_run (runs (run process)) ≡ is_given (url_of (process.variable "DATABASE_URL"))
unfolding run
run-has_run process = at_url (url_of (process.variable "DATABASE_URL"))
  where
    before : List Act
    before = configure_logging process.config_file_name

    without : (file : Option String) → has_run (configure_logging file) ≡ false
    without none = refl
    without (some file) = refl

    mode :
        (offline : Bool) (url : String)
        → has_run (if offline then run_migrations_offline url else run_migrations_online) ≡ true
    mode true url = refl
    mode false url = refl

    at_url :
        (o : Option String)
        → has_run (runs (with_url process.is_offline_mode before o)) ≡ is_given o
    at_url none = without process.config_file_name
    at_url (some url) =
        has_run-configured process.config_file_name _ ∙ mode process.is_offline_mode url
