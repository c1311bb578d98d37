-- ===== src/Responses.antt =====
-- api/app/responses.py and the error handlers of api/app/errors.py. A response is its status, its
-- media type, its Location header and its body before serialisation.
use Prim.Native.String.{◌++◌}
use gpca_v.Prelude.{ℕ, String, Bool, Option, none, some, List, [], ◌∷◌, if◌then◌else◌}
use gpca_v.Errors.{
  AppError, FieldError, Exn, http, token_expired, token_invalid, authentication_failed,
  refresh_rejected, integrity_error, data_error, multiple_results, runtime_error, overflow_error,
  status, title, slug,
}
use gpca_v.Run.{World, Result, ok, err}
use text.Mathlib.Text.{◌==◌ as str_eq}

pub record Problem : Type 0 where
  pub type : String
  pub title : String
  pub status : ℕ
  pub detail : Option String
  pub errors : Option (List FieldError)
  pub request_id : Option String

-- the bodies that the routes send: the wire models of api/app/schemas, problems, and none
pub data Body : Type 0 where
  accepted_response message_response : String → Body
  token_pair_response : String → String → ℕ → String → Body
  problem : Problem → Body
  health_status : String → Body
  readiness_status : String → List (String × Bool) → Body
  document empty : Body

pub record Response : Type 0 where
  pub status : ℕ
  pub mimetype : String
  pub location : Option String
  pub body : Body

abbrev pub respond : Body → ℕ → Response
respond payload code = record {
  status = code;
  mimetype = "application/json";
  location = none;
  body = payload;
}

abbrev pub ok_response : Body → Response
ok_response payload = respond payload 200

-- a text, or none where Python's `if text:` fails
abbrev pub truthy : Option String → Option String
truthy none = none
truthy (some text) = if str_eq text "" then none else some text

abbrev pub truthy_list {ℓ} : {A : Type ℓ} → Option (List A) → Option (List A)
truthy_list none = none
truthy_list (some []) = none
truthy_list (some (x ∷ xs)) = some (x ∷ xs)

abbrev pub created : Body → Option String → Response
created payload location = record (respond payload 201) { location = truthy location }

-- Flask's default media type stands on the empty 204
abbrev pub no_content : Response
no_content = record { status = 204; mimetype = "text/html"; location = none; body = empty }

abbrev pub error_type_base : String
error_type_base = "https://api.gpca.org/errors"

-- `request_id` is what `g` holds
unfoldable pub problem_response :
    Option String → ℕ → String → String → Option String → Option (List FieldError) → Response
problem_response request_id code name slug_text detail errors = record {
  status = code;
  mimetype = "application/problem+json";
  location = none;
  body = problem (record {
    type = error_type_base ++ ("/" ++ slug_text);
    title = name;
    status = code;
    detail = truthy detail;
    errors = truthy_list errors;
    request_id = request_id;
  });
}

unfoldable pub handle_app_error : Option String → AppError → Response
unfolding problem_response
handle_app_error request_id e =
    problem_response request_id (status e.kind) (title e.kind) (slug e.kind) e.detail e.errors

unfoldable pub handle_unexpected : Option String → Response
unfolding problem_response
handle_unexpected request_id =
    problem_response request_id 500 "Internal Server Error" "internal-error"
      (some "An unexpected error occurred.") none

-- the handler that Flask picks for what a view raises
unfoldable pub render : Option String → Exn → Response
unfolding handle_app_error handle_unexpected
render request_id (http e) = handle_app_error request_id e
render request_id token_expired = handle_unexpected request_id
render request_id token_invalid = handle_unexpected request_id
render request_id authentication_failed = handle_unexpected request_id
render request_id refresh_rejected = handle_unexpected request_id
render request_id integrity_error = handle_unexpected request_id
render request_id data_error = handle_unexpected request_id
render request_id multiple_results = handle_unexpected request_id
render request_id runtime_error = handle_unexpected request_id
render request_id overflow_error = handle_unexpected request_id

-- one request: the view, and the handler of what it raises
unfoldable pub finish : Option String → Result Response × World → Response × World
unfolding render
finish request_id (ok r, s) = (r, s)
finish request_id (err e, s) = (render request_id e, s)
