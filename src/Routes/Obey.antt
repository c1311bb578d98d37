-- ===== src/Routes/Obey.antt =====
-- The views of api/app/routes/auth.py and the logics of actions.
use gpca_v.Prelude.{String, Option, none, some}
use gpca_v.Env.{Env}
use gpca_v.Config.{Settings}
use gpca_v.Db.Models.{User}
use gpca_v.Security.Obey.{require_auth-Obeys}
use gpca_v.Services.Auth.Sessions.{TokenPair, Client}
use gpca_v.Services.Auth.Accounts.{Registration}
use gpca_v.Services.Auth.Logic.{Obeys, Obeys-bind, Obeys-scope, Obeys-catch, logic_rules}
use gpca_v.Services.Auth.Obey.{authenticate-Obeys, rotate-Obeys, revoke-Obeys, revoke_all-Obeys}
use gpca_v.Services.Auth.Obey.Accounts.{
  register-Obeys, verify_email-Obeys, resend-Obeys, request_reset-Obeys, reset-Obeys,
}
use gpca_v.Routes.Auth.{
  login_error, refreshed, register_view, verify_email_view, resend_body, resend_verification_view,
  login_view, refresh_view, logout_view, logout_all_body, logout_all_view, forgot_password_view,
  reset_password_view,
}
use gpca_v.Routes.Logic.{ViewLogic}

module _ (env : Env) (settings : Settings) (views : ViewLogic env) where
  pub register_view-Obeys :
      (form : Registration) → Obeys views.base (register_view env settings form)
  unfolding register_view
  register_view-Obeys form =
      Obeys-bind _ _ (Obeys-scope _ (register-Obeys env settings form))
        λ _. Obeys-bind _ _ views.of_flush λ _. search logic_rules

  pub verify_email_view-Obeys :
      (token : String) → Obeys views.base (verify_email_view env settings token)
  unfolding verify_email_view
  verify_email_view-Obeys token =
      Obeys-bind _ _ (Obeys-scope _ (verify_email-Obeys env settings token))
        λ redeemed. search logic_rules

  resend_body-Obeys : (user : User) → Obeys views.base (resend_body env settings user)
  unfolding resend_body
  resend_body-Obeys user =
      Obeys-bind _ _
        (Obeys-scope _ (Obeys-bind _ _ (views.of_merge user) λ _. (resend-Obeys env settings user)))
        λ _. Obeys-bind _ _ views.of_flush λ _. search logic_rules

  pub resend_view-Obeys :
      (authorization : Option String)
      → Obeys views.base (resend_verification_view env settings authorization)
  unfolding resend_verification_view
  resend_view-Obeys authorization =
      require_auth-Obeys env settings authorization _ resend_body-Obeys

  pub login_view-Obeys :
      (email password : String) (client : Client)
      → Obeys views.base (login_view env settings email password client)
  unfolding login_view
  login_view-Obeys email password client =
      Obeys-bind _ _
        (Obeys-catch login_error _
          (Obeys-scope _ (authenticate-Obeys env settings email password client)))
        λ issued. search logic_rules

  refreshed-Obeys : (issued : Option TokenPair) → Obeys views.base (refreshed issued)
  refreshed-Obeys none = search logic_rules
  refreshed-Obeys (some issued) = search logic_rules

  pub refresh_view-Obeys :
      (token : String) (client : Client) → Obeys views.base (refresh_view env settings token client)
  unfolding refresh_view
  refresh_view-Obeys token client =
      Obeys-bind _ _ (Obeys-scope _ (views.of_except _ (rotate-Obeys env settings token client)))
        refreshed-Obeys

  pub logout_view-Obeys : (token : String) → Obeys views.base (logout_view env settings token)
  unfolding logout_view
  logout_view-Obeys token =
      Obeys-bind _ _ (Obeys-scope _ (revoke-Obeys env settings token)) λ _. search logic_rules

  logout_all_body-Obeys : (user : User) → Obeys views.base (logout_all_body env settings user)
  unfolding logout_all_body
  logout_all_body-Obeys user =
      Obeys-bind _ _
        (Obeys-scope _
          (Obeys-bind _ _ (views.of_merge user) λ _. (revoke_all-Obeys env settings user)))
        λ _. search logic_rules

  pub logout_all_view-Obeys :
      (authorization : Option String)
      → Obeys views.base (logout_all_view env settings authorization)
  unfolding logout_all_view
  logout_all_view-Obeys authorization =
      require_auth-Obeys env settings authorization _ logout_all_body-Obeys

  pub forgot_view-Obeys :
      (email : String) → Obeys views.base (forgot_password_view env settings email)
  unfolding forgot_password_view
  forgot_view-Obeys email =
      Obeys-bind _ _ (Obeys-scope _ (request_reset-Obeys env settings email))
        λ _. Obeys-bind _ _ views.of_flush λ _. search logic_rules

  pub reset_view-Obeys :
      (token new_password : String)
      → Obeys views.base (reset_password_view env settings token new_password)
  unfolding reset_password_view
  reset_view-Obeys token new_password =
      Obeys-bind _ _ (Obeys-scope _ (reset-Obeys env settings token new_password))
        λ redeemed. Obeys-bind _ _ views.of_flush λ _. search logic_rules
