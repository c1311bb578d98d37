-- ===== src/App/Dispatch.antt =====
-- The routes that `create_app` of api/app/__init__.py registers, and the view of each. Requests are
-- GET or POST; the pages of SpecTree under /docs are the framework's.
use gpca_v.Prelude.{ℕ, String, Bool, true, false, Option, none, some, List, [], ◌∷◌, if◌then◌else◌}
use gpca_v.Env.{Env}
use gpca_v.Config.{Settings}
use gpca_v.Run.{World, Exec, pure}
use gpca_v.Responses.{Response, ok_response, document, problem_response, finish}
use gpca_v.Services.Auth.Sessions.{Client}
use gpca_v.Schemas.Requests.{JsonBody, Pydantic}
use gpca_v.Routes.Auth.{resend_verification_view, logout_all_view}
use gpca_v.Routes.Bodies.{
  post_register, post_verify_email, post_login, post_refresh, post_logout, post_forgot_password,
  post_reset_password,
}
use gpca_v.App.Health.{Connection, liveness, readiness}
use text.Mathlib.Text.{◌==◌ as str_eq}

pub data Method : Type 0 where
  get post : Method

pub record Request : Type 0 where
  pub method : Method
  pub path : String
  pub request_id : Option String
  pub authorization : Option String
  pub client : Client
  pub body : JsonBody

-- what Flask, SpecTree and pydantic bring
pub record Framework : Type 0 where
  pub pydantic : Pydantic
  -- the connection that a probe asks for
  pub connect : ℕ → Connection
  -- SpecTree's own pages
  pub page : Method → String → Option Response
  -- `description` of werkzeug's NotFound and MethodNotAllowed
  pub not_found_text : String
  pub not_allowed_text : String

pub data Endpoint : Type 0 where
  health ready openapi : Endpoint
  register verify_email resend login refresh logout logout_all forgot reset : Endpoint

abbrev pub method_of : Endpoint → Method
method_of health = get
method_of ready = get
method_of openapi = get
method_of register = post
method_of verify_email = post
method_of resend = post
method_of login = post
method_of refresh = post
method_of logout = post
method_of logout_all = post
method_of forgot = post
method_of reset = post

abbrev pub path_of : Endpoint → String
path_of health = "/health"
path_of ready = "/health/ready"
path_of openapi = "/api/v1/openapi.json"
path_of register = "/api/v1/auth/register"
path_of verify_email = "/api/v1/auth/verify-email"
path_of resend = "/api/v1/auth/verify-email/resend"
path_of login = "/api/v1/auth/login"
path_of refresh = "/api/v1/auth/refresh"
path_of logout = "/api/v1/auth/logout"
path_of logout_all = "/api/v1/auth/logout-all"
path_of forgot = "/api/v1/auth/password/forgot"
path_of reset = "/api/v1/auth/password/reset"

abbrev pub url_map : List Endpoint
url_map =
    health ∷ ready ∷ register ∷ verify_email ∷ resend ∷ login ∷ refresh ∷ logout ∷ logout_all
    ∷ forgot ∷ reset ∷ openapi ∷ []

abbrev pub endpoint_at : String → List Endpoint → Option Endpoint
endpoint_at path [] = none
endpoint_at path (e ∷ es) = if str_eq (path_of e) path then some e else endpoint_at path es

abbrev pub same_method : Method → Method → Bool
same_method get get = true
same_method get post = false
same_method post get = false
same_method post post = true

module _ (fw : Framework) (env : Env) (settings : Settings) (request : Request) where
  abbrev pub view_of : Endpoint → Exec Response
  view_of health = liveness
  view_of ready = readiness fw.connect
  view_of openapi = pure (ok_response document)
  view_of register = post_register env settings fw.pydantic request.body
  view_of verify_email = post_verify_email env settings fw.pydantic request.body
  view_of resend = resend_verification_view env settings request.authorization
  view_of login = post_login env settings fw.pydantic request.client request.body
  view_of refresh = post_refresh env settings fw.pydantic request.client request.body
  view_of logout = post_logout env settings fw.pydantic request.body
  view_of logout_all = logout_all_view env settings request.authorization
  view_of forgot = post_forgot_password env settings fw.pydantic request.body
  view_of reset = post_reset_password env settings fw.pydantic request.body

  -- `_handle_http_exception` for the two errors of the routing
  abbrev pub not_found : String → Response
  not_found request_id =
      problem_response (some request_id) 404 "Not Found" "not-found" (some fw.not_found_text) none

  abbrev pub not_allowed : String → Response
  not_allowed request_id =
      problem_response (some request_id) 405 "Method Not Allowed" "method-not-allowed"
        (some fw.not_allowed_text) none

  abbrev pub page_or : Option Response → Response → Response
  page_or none missing = missing
  page_or (some page) missing = page

  abbrev pub at_endpoint : String → Option Endpoint → World → Response × World
  at_endpoint request_id none s =
      (page_or (fw.page request.method request.path) (not_found request_id), s)
  at_endpoint request_id (some e) s =
      if same_method (method_of e) request.method
      then finish (some request_id) (view_of e s)
      else (not_allowed request_id, s)

  -- the routing, the view, and the handlers of its errors
  unfoldable pub dispatch : String → World → Response × World
  dispatch request_id s = at_endpoint request_id (endpoint_at request.path url_map) s
