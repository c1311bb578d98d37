-- ===== src/App/JsonLog.antt =====
-- `JsonFormatter` of api/app/logging.py. What the logging library answers about a record (its
-- attributes, formatTime, getMessage, formatException) is the record `LogRecord`; json.dumps is left
-- to the caller. `A` is the type of Python's objects.
pub mod Laws
use Prim.Native.Char.{code}
use Prim.Native.String.{[] as no_text, ◌∷◌ as ◌⊳◌}
use gpca_v.Prelude.{
  String, Bool, true, false, not, ◌&&◌, ◌||◌, Option, none, some, List, [], ◌∷◌, ◌++◌, ◌==◌,
  if◌then◌else◌,
}
use package.text.Mathlib.Text.{◌==◌ as str_eq}

pub record LogRecord {ℓ} (A : Type ℓ) : Type ℓ where
  pub timestamp : String
  pub level : String
  pub logger : String
  pub message : String
  -- `record.__dict__.items()`, in order
  pub attributes : List (String × A)
  -- the formatted exception, if `exc_info` is set
  pub exception : Option String

abbrev pub is_in : String → List String → Bool
is_in key [] = false
is_in key (k ∷ ks) = str_eq key k || is_in key ks

-- `_STANDARD_RECORD_FIELDS`, from the attributes that every LogRecord has
abbrev pub standard_record_fields : List String → List String
standard_record_fields record_fields = record_fields ++ ("message" ∷ "asctime" ∷ "taskName" ∷ [])

-- key.startswith("_")
abbrev pub is_underscored : String → Bool
is_underscored no_text = false
is_underscored (c ⊳ s) = code c == 95

-- the test on a key of the loop of `format`
abbrev pub is_extra : List String → String → Bool
is_extra record_fields key =
    not (is_in key (standard_record_fields record_fields)) && not (is_underscored key)

module _ {ℓ} {A : Type ℓ} where
  -- `payload[key] = value`: a key keeps its place
  unfoldable pub put : String → A → List (String × A) → List (String × A)
  put key value [] = (key, value) ∷ []
  put key value ((k, v) ∷ payload) =
      let rest = put key value payload in
      if str_eq k key then (k, value) ∷ payload else (k, v) ∷ rest

  -- the loop over the attributes
  unfoldable pub put_extras :
      List String → List (String × A) → List (String × A) → List (String × A)
  put_extras record_fields [] payload = payload
  put_extras record_fields ((key, value) ∷ attributes) payload =
      put_extras record_fields attributes
        (if is_extra record_fields key then put key value payload else payload)

  abbrev pub put_exception : (String → A) → Option String → List (String × A) → List (String × A)
  put_exception str none payload = payload
  put_exception str (some trace) payload = put "exception" (str trace) payload

  -- the four keys that every line begins with
  abbrev pub base_payload : (String → A) → LogRecord A → List (String × A)
  base_payload str r =
      ("timestamp", str r.timestamp)
      ∷ ("level", str r.level)
      ∷ ("logger", str r.logger)
      ∷ ("message", str r.message)
      ∷ []

  -- `format`, before json.dumps
  unfoldable pub format : List String → (String → A) → LogRecord A → List (String × A)
  unfolding put put_extras
  format record_fields str r =
      put_exception str r.exception (put_extras record_fields r.attributes (base_payload str r))
