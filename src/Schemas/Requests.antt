-- ===== src/Schemas/Requests.antt =====
-- The request models of api/app/schemas/auth.py over `RequestModel` of api/app/schemas/base.py. A body
-- is a dict, so its keys are distinct. The models are strict, without unknown fields, with white space
-- stripped. pydantic's errors come in the order of the fields, the unknown ones last.
pub mod Laws
use Prim.Native.String.{count}
use gpca_v.Prelude.{
  ℕ, String, Bool, true, false, Option, none, some, List, [], ◌∷◌, ◌++◌, ltb, if◌then◌else◌,
}
use gpca_v.Services.Auth.Accounts.{Registration}
use gpca_v.Security.Passwords.{min_password_length, max_password_length}
use gpca_v.Schemas.Validation.{ErrorDetail, Parsed, valid, rejected}
use text.Mathlib.Text.{◌==◌ as str_eq}

-- a JSON value, as far as a field of these models tells them apart
pub data Json : Type 0 where
  text_value : String → Json
  other_value : Json

-- a body: an object with its members, or another JSON value
pub data JsonBody : Type 0 where
  members : List (String × Json) → JsonBody
  not_object : JsonBody

-- what can be wrong with a field, and `type` of each
pub data Issue : Type 0 where
  missing string_type extra_forbidden : Issue
  too_short too_long : ℕ → Issue
  bad_email : String → Issue
  model_type : Issue

abbrev pub issue_type : Issue → String
issue_type missing = "missing"
issue_type string_type = "string_type"
issue_type extra_forbidden = "extra_forbidden"
issue_type (too_short n) = "string_too_short"
issue_type (too_long n) = "string_too_long"
issue_type (bad_email s) = "value_error"
issue_type model_type = "model_type"

-- what pydantic and email-validator bring: the stripping of a text, the reading of an address, and
-- the wording of an error
pub record Pydantic : Type 0 where
  pub strip_text : String → String
  pub read_email : String → Option String
  pub wording : Issue → String

-- a field's value, or what is wrong with it
pub data Field (A : Type 0) : Type 0 where
  value : A → Field A
  issue : Issue → Field A

abbrev pub member_of : String → List (String × Json) → Option Json
member_of name [] = none
member_of name ((key, json) ∷ rest) = if str_eq key name then some json else member_of name rest

module _ (pydantic : Pydantic) where
  -- a length between bounds, in characters
  abbrev pub sized : ℕ → ℕ → String → Field String
  sized low high s =
      if ltb high (count s)
      then issue (too_long high)
      else if ltb (count s) low
      then issue (too_short low)
      else value s

  -- `str = Field(min_length=low, max_length=high)`
  abbrev pub str_field : ℕ → ℕ → Option Json → Field String
  str_field low high none = issue missing
  str_field low high (some other_value) = issue string_type
  str_field low high (some (text_value s)) = sized low high (pydantic.strip_text s)

  abbrev pub read_address : String → Option String → Field String
  read_address s none = issue (bad_email s)
  read_address s (some address) = value address

  -- `EmailStr`
  abbrev pub email_field : Option Json → Field String
  email_field none = issue missing
  email_field (some other_value) = issue string_type
  email_field (some (text_value s)) =
      read_address (pydantic.strip_text s) (pydantic.read_email (pydantic.strip_text s))

  abbrev pub detail_of : List String → Issue → ErrorDetail
  detail_of loc i = record { loc = loc; type = issue_type i; msg = pydantic.wording i }

  -- the errors of one field
  abbrev pub errors_of : {A : Type 0} → String → Field A → List ErrorDetail
  errors_of name (value a) = []
  errors_of name (issue i) = detail_of (name ∷ []) i ∷ []

  abbrev pub is_named : List String → String → Bool
  is_named [] key = false
  is_named (name ∷ names) key = if str_eq name key then true else is_named names key

  -- `extra="forbid"`
  abbrev pub extra_errors : List String → List (String × Json) → List ErrorDetail
  extra_errors names [] = []
  extra_errors names ((key, json) ∷ rest) =
      if is_named names key
      then extra_errors names rest
      else detail_of (key ∷ []) extra_forbidden ∷ extra_errors names rest

  abbrev not_a_model : {A : Type 0} → Parsed A
  not_a_model = rejected (detail_of [] model_type ∷ [])

  -- a model of one field
  abbrev pub one_field : String → Field String → List ErrorDetail → Parsed String
  one_field name (value a) [] = valid a
  one_field name (value a) (e ∷ es) = rejected (e ∷ es)
  one_field name (issue i) extra = rejected (detail_of (name ∷ []) i ∷ extra)

  -- a model of two fields
  abbrev pub two_fields :
      String → String → Field String → Field String → List ErrorDetail → Parsed (String × String)
  two_fields n m (value a) (value b) [] = valid (a, b)
  two_fields n m (value a) (value b) (e ∷ es) = rejected (e ∷ es)
  two_fields n m (value a) (issue j) extra = rejected (errors_of {A = String} m (issue j) ++ extra)
  two_fields n m (issue i) second extra =
      rejected (detail_of (n ∷ []) i ∷ (errors_of m second ++ extra))

  -- `VerifyEmailRequest` and `RefreshRequest`: a token of 1 to 512 characters
  unfoldable pub token_request : String → JsonBody → Parsed String
  token_request name not_object = not_a_model
  token_request name (members fields) =
      one_field name (str_field 1 512 (member_of name fields)) (extra_errors (name ∷ []) fields)

  unfoldable pub verify_email_request : JsonBody → Parsed String
  unfolding token_request
  verify_email_request = token_request "token"

  unfoldable pub refresh_request : JsonBody → Parsed String
  unfolding token_request
  refresh_request = token_request "refresh_token"

  unfoldable pub forgot_password_request : JsonBody → Parsed String
  forgot_password_request not_object = not_a_model
  forgot_password_request (members fields) =
      one_field "email" (email_field (member_of "email" fields))
        (extra_errors ("email" ∷ []) fields)

  unfoldable pub login_request : JsonBody → Parsed (String × String)
  login_request not_object = not_a_model
  login_request (members fields) =
      two_fields "email" "password" (email_field (member_of "email" fields))
        (str_field 1 max_password_length (member_of "password" fields))
        (extra_errors ("email" ∷ "password" ∷ []) fields)

  unfoldable pub reset_password_request : JsonBody → Parsed (String × String)
  reset_password_request not_object = not_a_model
  reset_password_request (members fields) =
      two_fields "token" "new_password" (str_field 1 512 (member_of "token" fields))
        (str_field min_password_length max_password_length (member_of "new_password" fields))
        (extra_errors ("token" ∷ "new_password" ∷ []) fields)

  -- the four fields of `RegisterRequest`, read
  pub record RegisterFields : Type 0 where
    pub email : Field String
    pub password : Field String
    pub first_name : Field String
    pub last_name : Field String

  abbrev pub register_fields : List (String × Json) → RegisterFields
  register_fields fields = record {
    email = email_field (member_of "email" fields);
    password = str_field min_password_length max_password_length (member_of "password" fields);
    first_name = str_field 1 100 (member_of "first_name" fields);
    last_name = str_field 1 100 (member_of "last_name" fields);
  }

  abbrev pub register_errors : List (String × Json) → List ErrorDetail
  register_errors fields =
      errors_of "email" (register_fields fields).email
      ++ (errors_of "password" (register_fields fields).password
          ++ (errors_of "first_name" (register_fields fields).first_name
              ++ (errors_of "last_name" (register_fields fields).last_name
                  ++ extra_errors ("email" ∷ "password" ∷ "first_name" ∷ "last_name" ∷ []) fields)))

  abbrev pub registration_of :
      Field String
      → Field String
      → Field String
      → Field String
      → List ErrorDetail
      → Parsed Registration
  registration_of (value e) (value p) (value f) (value l) [] =
      valid (record { email = e; password = p; first_name = f; last_name = l })
  registration_of _ _ _ _ errors = rejected errors

  unfoldable pub register_request : JsonBody → Parsed Registration
  register_request not_object = not_a_model
  register_request (members fields) =
      let r = register_fields fields in
      registration_of r.email r.password r.first_name r.last_name (register_errors fields)
