-- ===== src/Config/Load/Rules.antt =====
-- The bounds in the class `Settings` of api/app/config.py, as a table of the variables that can be
-- wrong, and what is wrong with each.
use Prim.Native.String.{count}
use gpca_v.Prelude.{
  ℕ, String, Option, none, some, List, [], ◌∷◌, ◌++◌, ◌≡◌, ◌≤◌, ltb, if◌then◌else◌,
}
use gpca_v.Config.{Settings}
use gpca_v.Config.Load.{
  Source, Whole, natural, negative, Fault, missing, not_integer, too_short, not_above, not_from,
  min_secret_length,
}

-- what is asked of a variable: a text of a least length that must be given, or, when it is given, an
-- integer from a least one on, with the fault of a smaller one
pub data Rule : Type 0 where
  given : ℕ → Rule
  whole : ℕ → Fault → Rule

abbrev pub rules : List (String × Rule)
rules =
    ("secret_key", given min_secret_length)
    ∷ ("database_url", given 1)
    ∷ ("jwt_secret", given min_secret_length)
    ∷ ("jwt_access_ttl_seconds", whole 1 (not_above 0))
    ∷ ("jwt_refresh_ttl_days", whole 1 (not_above 0))
    ∷ ("argon2_memory_cost_kib", whole 19456 (not_from 19456))
    ∷ ("argon2_time_cost", whole 1 (not_from 1))
    ∷ ("argon2_parallelism", whole 1 (not_from 1))
    ∷ ("db_connect_timeout_seconds", whole 1 (not_above 0))
    ∷ []

abbrev pub fault_of_whole : ℕ → Fault → Option Whole → Option Fault
fault_of_whole low fault none = some not_integer
fault_of_whole low fault (some (negative n)) = some fault
fault_of_whole low fault (some (natural n)) = if ltb n low then some fault else none

-- what is wrong with a variable, from what its source gives
abbrev pub fault_of : Source → Rule → Option String → Option Fault
fault_of source (given low) none = some missing
fault_of source (given low) (some s) = if ltb (count s) low then some (too_short low) else none
fault_of source (whole low fault) none = none
fault_of source (whole low fault) (some s) = fault_of_whole low fault (source.read_int s)

abbrev pub tagged : String → Option Fault → List (String × Fault)
tagged name none = []
tagged name (some fault) = (name, fault) ∷ []

-- every faulty variable with what is wrong with it, in the order of the rules
abbrev pub faults_of : Source → List (String × Rule) → List (String × Fault)
faults_of source [] = []
faults_of source ((name, rule) ∷ rest) =
    tagged name (fault_of source rule (source.variable name)) ++ faults_of source rest

abbrev pub faults : Source → List (String × Fault)
faults source = faults_of source rules

-- the bounds that a started process relies on
pub record IsUsable (settings : Settings) : Type 0 where
  pub secret_key : min_secret_length ≤ count settings.secret_key
  pub database_url : 1 ≤ count settings.database_url
  pub jwt_secret : min_secret_length ≤ count settings.jwt_secret
  pub access_ttl : 1 ≤ settings.jwt_access_ttl_seconds
  pub refresh_ttl : 1 ≤ settings.jwt_refresh_ttl_days
  pub memory_cost : 19456 ≤ settings.argon2_memory_cost_kib
  pub time_cost : 1 ≤ settings.argon2_time_cost
  pub parallelism : 1 ≤ settings.argon2_parallelism
  pub connect_timeout : 1 ≤ settings.db_connect_timeout_seconds

-- a text that is given and has a least length
abbrev pub Given : Source → String → ℕ → String → Type 0
Given source name low s = (source.variable name ≡ some s) × (low ≤ count s)

-- the text that is given, or the default
abbrev pub TextAs : String → Option String → String → Type 0
TextAs default none s = s ≡ default
TextAs default (some t) s = s ≡ t

-- the integer that is given, or the default
abbrev pub ReadAs : Source → ℕ → Option String → ℕ → Type 0
ReadAs source default none n = n ≡ default
ReadAs source default (some s) n = source.read_int s ≡ some (natural n)

-- and it is not below its bound
abbrev pub Read : Source → String → ℕ → ℕ → ℕ → Type 0
Read source name default low n = ReadAs source default (source.variable name) n × (low ≤ n)

-- every setting comes from its own variable
pub record IsReadFrom (source : Source) (settings : Settings) : Type 0 where
  pub secret_key : source.variable "secret_key" ≡ some settings.secret_key
  pub database_url : source.variable "database_url" ≡ some settings.database_url
  pub jwt_secret : source.variable "jwt_secret" ≡ some settings.jwt_secret
  pub flask_env : TextAs "production" (source.variable "flask_env") settings.flask_env
  pub log_level : TextAs "INFO" (source.variable "log_level") settings.log_level
  pub frontend_origin :
      TextAs "http://localhost:5173" (source.variable "frontend_origin") settings.frontend_origin
  pub access_ttl :
      ReadAs source 900 (source.variable "jwt_access_ttl_seconds") settings.jwt_access_ttl_seconds
  pub refresh_ttl :
      ReadAs source 30 (source.variable "jwt_refresh_ttl_days") settings.jwt_refresh_ttl_days
  pub memory_cost :
      ReadAs source 19456 (source.variable "argon2_memory_cost_kib") settings.argon2_memory_cost_kib
  pub time_cost : ReadAs source 2 (source.variable "argon2_time_cost") settings.argon2_time_cost
  pub parallelism :
      ReadAs source 1 (source.variable "argon2_parallelism") settings.argon2_parallelism
  pub connect_timeout :
      ReadAs source 5
        (source.variable "db_connect_timeout_seconds")
        settings.db_connect_timeout_seconds
  pub ses_from_address : settings.ses_from_address ≡ source.variable "ses_from_address"
