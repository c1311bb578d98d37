-- ===== src/Config/Load.antt =====
-- `load_settings` of api/app/config.py. What the environment and the .env file give for a variable, how
-- pydantic reads an integer, and how it words an error are arguments; a variable is its name in the
-- model, which pydantic-settings looks up without regard to case. The optional settings of features
-- without code are left out: pydantic takes any text for them.
pub mod Rules
pub mod Laws
use Prim.Native.String.{count, ◌++◌}
use gpca_v.Prelude.{
  ℕ, String, Bool, true, false, Option, none, some, List, [], ◌∷◌, ◌++◌ as ◌⊹◌, ltb, upper, lower,
  ◌||◌, if◌then◌else◌,
}
use gpca_v.Config.{Settings}
use package.text.Mathlib.Text.{◌==◌ as str_eq}

-- MIN_SECRET_LENGTH
abbrev pub min_secret_length : ℕ
min_secret_length = 32

-- an integer that is read
pub data Whole : Type 0 where
  natural : ℕ → Whole
  negative : ℕ → Whole

-- what can be wrong with a variable
pub data Fault : Type 0 where
  missing not_integer : Fault
  too_short : ℕ → Fault
  not_above : ℕ → Fault
  not_from : ℕ → Fault

-- the sources of the settings, and pydantic
pub record Source : Type 0 where
  pub variable : String → Option String
  pub read_int : String → Option Whole
  pub wording : Fault → String

-- values, or the errors with their `loc`
pub data Checked (A : Type 0) : Type 0 where
  held : A → Checked A
  faulty : List (String × Fault) → Checked A

-- both are validated, and the errors of both are reported
abbrev pub both : {A B : Type 0} → Checked A → Checked B → Checked (A × B)
both (held a) (held b) = held (a, b)
both (held a) (faulty es) = faulty es
both (faulty es) (held b) = faulty es
both (faulty es) (faulty fs) = faulty (es ⊹ fs)

module _ (source : Source) where
  abbrev pub sized : String → ℕ → Option String → Checked String
  sized name low none = faulty ((name, missing) ∷ [])
  sized name low (some s) =
      if ltb (count s) low then faulty ((name, too_short low) ∷ []) else held s

  -- `Field(min_length=low)`
  abbrev pub required : String → ℕ → Checked String
  required name low = sized name low (source.variable name)

  -- a text with a default
  abbrev pub text_or : String → Option String → String
  text_or default none = default
  text_or default (some s) = s

  abbrev pub optional : String → String → Checked String
  optional name default = held (text_or default (source.variable name))

  -- the bound of a number, whose failure is `fault`
  abbrev pub bounded : String → ℕ → Fault → Option Whole → Checked ℕ
  bounded name low fault none = faulty ((name, not_integer) ∷ [])
  bounded name low fault (some (negative n)) = faulty ((name, fault) ∷ [])
  bounded name low fault (some (natural n)) =
      if ltb n low then faulty ((name, fault) ∷ []) else held n

  abbrev pub number_or : String → ℕ → ℕ → Fault → Option String → Checked ℕ
  number_or name default low fault none = held default
  number_or name default low fault (some s) = bounded name low fault (source.read_int s)

  -- `Field(default=default, gt=0)`
  abbrev pub positive : String → ℕ → Checked ℕ
  positive name default = number_or name default 1 (not_above 0) (source.variable name)

  -- `Field(default=default, ge=low)`
  abbrev pub at_least : String → ℕ → ℕ → Checked ℕ
  at_least name default low = number_or name default low (not_from low) (source.variable name)

  -- the fields of `Settings`, in order
  abbrev pub Fields : Type 0
  Fields =
      String
      × (String
          × (String
              × (String × (String × (String × (ℕ × (ℕ × (ℕ × (ℕ × (ℕ × (ℕ × Option String)))))))))))

  abbrev pub fields : Checked Fields
  fields = both (required "secret_key" min_secret_length) (
      both (required "database_url" 1) (
        both (required "jwt_secret" min_secret_length) (
          both (optional "flask_env" "production") (
            both (optional "log_level" "INFO") (
              both (optional "frontend_origin" "http://localhost:5173") (
                both (positive "jwt_access_ttl_seconds" 900) (
                  both (positive "jwt_refresh_ttl_days" 30) (
                    both (at_least "argon2_memory_cost_kib" 19456 19456) (
                      both (at_least "argon2_time_cost" 2 1) (
                        both (at_least "argon2_parallelism" 1 1) (
                          both (positive "db_connect_timeout_seconds" 5)
                            (held (source.variable "ses_from_address")))))))))))))

  abbrev pub settings_of : Fields → Settings
  settings_of (a, (b, (c, (d, (e, (f, (g, (h, (i, (j, (k, (l, m)))))))))))) = record {
    secret_key = a;
    database_url = b;
    jwt_secret = c;
    flask_env = d;
    log_level = e;
    frontend_origin = f;
    jwt_access_ttl_seconds = g;
    jwt_refresh_ttl_days = h;
    argon2_memory_cost_kib = i;
    argon2_time_cost = j;
    argon2_parallelism = k;
    db_connect_timeout_seconds = l;
    ses_from_address = m;
  }

  -- f"  {variable}: {error['msg']}"
  abbrev pub problem : String × Fault → String
  problem (name, fault) = "  " ++ (upper name ++ (": " ++ source.wording fault))

  -- the problems, joined by "\n"
  abbrev pub problems : List (String × Fault) → String
  problems [] = ""
  problems (e ∷ []) = problem e
  problems (e ∷ f ∷ es) = problem e ++ ("\n" ++ problems (f ∷ es))

  -- how `load_settings` ends: settings, or a ConfigError with its message
  pub data Loaded : Type 0 where
    loaded : Settings → Loaded
    config_error : String → Loaded

  abbrev pub loaded_from : Checked Fields → Loaded
  loaded_from (held values) = loaded (settings_of values)
  loaded_from (faulty es) = config_error (
      "Invalid configuration. Fix these environment variables (see infra/env/.env.example):\n"
      ++ problems es)

  unfoldable pub load_settings : Loaded
  load_settings = loaded_from fields

-- `is_debug`
abbrev pub is_debug : Settings → Bool
is_debug settings =
    let env = lower settings.flask_env in
    str_eq env "development" || str_eq env "dev" || str_eq env "debug"
