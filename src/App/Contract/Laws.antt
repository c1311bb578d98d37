-- ===== src/App/Contract/Laws.antt =====
-- The views of the application and the responses that they declare.
use gpca_v.Prelude.{
  String, List, Bool, Option, none, some, [], ◌∷◌, true, false, refl, inl, inr, if◌then◌else◌,
}
use gpca_v.Env.{Env}
use gpca_v.Config.{Settings}
use gpca_v.Run.{Exec, pure, ◌>>=◌}
use gpca_v.Run.Returns.{Returns, Returns-bind, Returns-if, Returns-pure, Returns-raise}
use gpca_v.Responses.{Response, readiness_status, respond}
use gpca_v.Services.Auth.Sessions.{TokenPair, Client}
use gpca_v.Services.Auth.Accounts.{Registration}
use gpca_v.Schemas.Validation.{Parsed, valid, rejected, validated}
use gpca_v.Routes.Auth.{
  register_view, verify_email_view, resend_verification_view, login_view, refresh_view, refreshed,
  logout_view, logout_all_view, forgot_password_view, reset_password_view, resend_body,
  logout_all_body,
}
use gpca_v.Routes.Bodies.{
  post_register, post_verify_email, post_login, post_refresh, post_logout, post_forgot_password,
  post_reset_password,
}
use gpca_v.Security.Guards.{require_auth}
use gpca_v.App.Health.{all_pass, liveness, readiness}
use gpca_v.App.Contract.{declared, IsDeclared}
use gpca_v.App.Dispatch.{
  Framework, Request, Endpoint, health, ready, openapi, register, verify_email, resend, login,
  refresh, logout, logout_all, forgot, reset, view_of,
}

-- a view that ends in one response
sends :
    {A : Type 0} {P : Response → Type 0} (m : Exec A) (r : Response)
    → P r
    → Returns P (m >>= λ _. pure r)
sends m r h = Returns-bind m _ λ _. Returns-pure r h

-- a view that ends in one of two responses
sends_either :
    {P : Response → Type 0} (b : Bool) (r t : Response)
    → P r
    → P t
    → Returns P (if b then pure r else pure t)
sends_either b r t h k = Returns-if b _ _ (Returns-pure r h) (Returns-pure t k)

module _ (env : Env) (settings : Settings) where
  refreshed-Returns : (o : Option TokenPair) → Returns (IsDeclared (declared refresh)) (refreshed o)
  refreshed-Returns none = Returns-raise _
  refreshed-Returns (some issued) = Returns-pure _ (inl (refl, tt))

  register-Returns :
      (form : Registration)
      → Returns (IsDeclared (declared register)) (register_view env settings form)
  unfolding register_view
  register-Returns form = Returns-bind _ _ λ _. sends _ _ (inl (refl, tt))

  verify_email-Returns :
      (token : String)
      → Returns (IsDeclared (declared verify_email)) (verify_email_view env settings token)
  unfolding verify_email_view
  verify_email-Returns token =
      Returns-bind _ _ λ b. sends_either b _ _ (inl (refl, tt)) (inr (inl (refl, tt)))

  resend-Returns :
      (h : Option String)
      → Returns (IsDeclared (declared resend)) (resend_verification_view env settings h)
  unfolding resend_verification_view require_auth resend_body
  resend-Returns h = Returns-bind _ _ λ user. Returns-bind _ _ λ _. sends _ _ (inl (refl, tt))

  login-Returns :
      (email password : String) (client : Client)
      → Returns (IsDeclared (declared login)) (login_view env settings email password client)
  unfolding login_view
  login-Returns email password client = Returns-bind _ _ λ issued. Returns-pure _ (inl (refl, tt))

  refresh-Returns :
      (token : String) (client : Client)
      → Returns (IsDeclared (declared refresh)) (refresh_view env settings token client)
  unfolding refresh_view
  refresh-Returns token client = Returns-bind _ _ refreshed-Returns

  logout-Returns :
      (token : String) → Returns (IsDeclared (declared logout)) (logout_view env settings token)
  unfolding logout_view
  logout-Returns token = sends _ _ (inl (refl, tt))

  logout_all-Returns :
      (h : Option String)
      → Returns (IsDeclared (declared logout_all)) (logout_all_view env settings h)
  unfolding logout_all_view require_auth logout_all_body
  logout_all-Returns h = Returns-bind _ _ λ user. sends _ _ (inl (refl, tt))

  forgot-Returns :
      (email : String)
      → Returns (IsDeclared (declared forgot)) (forgot_password_view env settings email)
  unfolding forgot_password_view
  forgot-Returns email = Returns-bind _ _ λ _. sends _ _ (inl (refl, tt))

  reset-Returns :
      (token new_password : String)
      → Returns (IsDeclared (declared reset)) (reset_password_view env settings token new_password)
  unfolding reset_password_view
  reset-Returns token new_password =
      Returns-bind _ _
        λ b. Returns-bind _ _ λ _. sends_either b _ _ (inl (refl, tt)) (inr (inl (refl, tt)))

-- a view behind the validation of its body
validated-Returns :
    {A : Type 0} {P : Response → Type 0} (parsed : Parsed A) (view : A → Exec Response)
    → ((a : A) → Returns P (view a))
    → Returns P (validated parsed view)
unfolding validated
validated-Returns (valid a) view h = h a
validated-Returns (rejected errors) view h = Returns-raise _

-- the readiness probe answers 200 or 503
probed :
    (b : Bool)
    → let checks : List (String × Bool) = ("database", b) ∷ [] in
      IsDeclared (declared ready) (
        respond
          (readiness_status (if all_pass checks then "ready" else "degraded") checks)
          (if all_pass checks then 200 else 503))
probed true = inl (refl, tt)
probed false = inr (inl (refl, tt))

module _ (fw : Framework) (env : Env) (settings : Settings) (request : Request) where
  pub view-Returns :
      (e : Endpoint) → Returns (IsDeclared (declared e)) (view_of fw env settings request e)
  unfolding liveness readiness post_register post_verify_email post_login post_refresh post_logout
      post_forgot_password post_reset_password
  view-Returns health = Returns-pure _ (inl (refl, tt))
  view-Returns ready = Returns-bind _ _ λ b. Returns-pure _ (probed b)
  view-Returns openapi = Returns-pure _ (inl (refl, tt))
  view-Returns register = validated-Returns _ _ (register-Returns env settings)
  view-Returns verify_email = validated-Returns _ _ (verify_email-Returns env settings)
  view-Returns resend = resend-Returns env settings request.authorization
  view-Returns login = validated-Returns _ _ λ p. login-Returns env settings p.0 p.1 request.client
  view-Returns refresh =
      validated-Returns _ _ λ token. refresh-Returns env settings token request.client
  view-Returns logout = validated-Returns _ _ (logout-Returns env settings)
  view-Returns logout_all = logout_all-Returns env settings request.authorization
  view-Returns forgot = validated-Returns _ _ (forgot-Returns env settings)
  view-Returns reset = validated-Returns _ _ λ p. reset-Returns env settings p.0 p.1
