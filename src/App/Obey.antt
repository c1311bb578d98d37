-- ===== src/App/Obey.antt =====
-- The endpoints and the logics of actions.
use gpca_v.Env.{Env}
use gpca_v.Config.{Settings}
use gpca_v.Run.{Exec}
use gpca_v.Schemas.Validation.{Parsed, valid, rejected, validated}
use gpca_v.Routes.Bodies.{
  post_register, post_verify_email, post_login, post_refresh, post_logout, post_forgot_password,
  post_reset_password,
}
use gpca_v.App.Health.{liveness, readiness}
use gpca_v.App.Dispatch.{
  Framework, Request, Endpoint, health, ready, openapi, register, verify_email, resend, login,
  refresh, logout, logout_all, forgot, reset, view_of,
}
use gpca_v.Services.Auth.Logic.{Logic, Obeys, logic_rules}
use gpca_v.Routes.Logic.{ViewLogic}
use gpca_v.Routes.Obey.{
  register_view-Obeys, verify_email_view-Obeys, resend_view-Obeys, login_view-Obeys,
  refresh_view-Obeys, logout_view-Obeys, logout_all_view-Obeys, forgot_view-Obeys, reset_view-Obeys,
}

validated-Obeys :
    {env : Env} {logic : Logic env} {A B : Type 0} (parsed : Parsed A) (view : A → Exec B)
    → ((a : A) → Obeys logic (view a))
    → Obeys logic (validated parsed view)
unfolding validated
validated-Obeys (valid a) view h = h a
validated-Obeys (rejected errors) view h = search logic_rules

module _ (fw : Framework) (env : Env) (settings : Settings) (request : Request) where
  pub view-Obeys :
      (views : ViewLogic env) (e : Endpoint) → Obeys views.base (view_of fw env settings request e)
  unfolding liveness readiness post_register post_verify_email post_login post_refresh post_logout
      post_forgot_password post_reset_password
  view-Obeys views health = search logic_rules
  view-Obeys views ready = search logic_rules
  view-Obeys views openapi = search logic_rules
  view-Obeys views register = validated-Obeys _ _ (register_view-Obeys env settings views)
  view-Obeys views verify_email = validated-Obeys _ _ (verify_email_view-Obeys env settings views)
  view-Obeys views resend = resend_view-Obeys env settings views request.authorization
  view-Obeys views login =
      validated-Obeys _ _ λ p. login_view-Obeys env settings views p.0 p.1 request.client
  view-Obeys views refresh =
      validated-Obeys _ _ λ token. refresh_view-Obeys env settings views token request.client
  view-Obeys views logout = validated-Obeys _ _ (logout_view-Obeys env settings views)
  view-Obeys views logout_all = logout_all_view-Obeys env settings views request.authorization
  view-Obeys views forgot = validated-Obeys _ _ (forgot_view-Obeys env settings views)
  view-Obeys views reset = validated-Obeys _ _ λ p. reset_view-Obeys env settings views p.0 p.1
