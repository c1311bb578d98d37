-- ===== src/Routes/Bodies.antt =====
-- The endpoints of api/app/routes/auth.py with the validation of their bodies before the view.
use gpca_v.Prelude.{String, Option, List, ◌≡◌, ◌<◌, ◌⊎◌, inl, inr, refl}
use gpca_v.Env.{Env}
use gpca_v.Config.{Settings}
use gpca_v.Run.{World, Exec, raise, err}
use gpca_v.Db.Table.{length}
use gpca_v.Services.Auth.Sessions.{Client}
use gpca_v.Services.Auth.Accounts.{Registration}
use gpca_v.Responses.{Response, finish, render}
use gpca_v.Schemas.Validation.{ErrorDetail, validated, validation_problem}
use gpca_v.Schemas.Requests.{
  JsonBody, Pydantic, register_request, verify_email_request, login_request, refresh_request,
  forgot_password_request, reset_password_request,
}
use gpca_v.Schemas.Requests.Laws.{IsBounded, register_request_lem}
use gpca_v.Routes.Auth.{
  register_view, verify_email_view, login_view, refresh_view, logout_view, forgot_password_view,
  reset_password_view,
}

module _ (env : Env) (settings : Settings) (pydantic : Pydantic) where
  unfoldable pub post_register : JsonBody → Exec Response
  post_register body = validated (register_request pydantic body) (register_view env settings)

  unfoldable pub post_verify_email : JsonBody → Exec Response
  post_verify_email body =
      validated (verify_email_request pydantic body) (verify_email_view env settings)

  unfoldable pub post_login : Client → JsonBody → Exec Response
  post_login client body =
      validated (login_request pydantic body)
        λ (email, password). login_view env settings email password client

  unfoldable pub post_refresh : Client → JsonBody → Exec Response
  post_refresh client body =
      validated (refresh_request pydantic body) λ token. refresh_view env settings token client

  unfoldable pub post_logout : JsonBody → Exec Response
  post_logout body = validated (refresh_request pydantic body) (logout_view env settings)

  unfoldable pub post_forgot_password : JsonBody → Exec Response
  post_forgot_password body =
      validated (forgot_password_request pydantic body) (forgot_password_view env settings)

  unfoldable pub post_reset_password : JsonBody → Exec Response
  post_reset_password body =
      validated (reset_password_request pydantic body)
        λ (token, new_password). reset_password_view env settings token new_password

  -- Every body of a registration either reaches the view as a form within its bounds, or is answered
  -- by a 422 that lists at least one error, and then nothing is changed.
  pub post_register_lem :
      (body : JsonBody) (request_id : Option String) (s : World)
      → ((form : Registration) × IsBounded form
          × (post_register body s ≡ register_view env settings form s))
        ⊎ ((errors : List ErrorDetail) × (0 < length errors)
            × (post_register body s ≡ (err (validation_problem errors), s))
            × ((finish request_id (post_register body s)).0.status ≡ 422))
  unfolding post_register validated validation_problem finish render raise
  post_register_lem body request_id s = elim (register_request_lem pydantic body) [
    | inl (form, read, bounded) ↦ inl (form, bounded, rw read refl)
    | inr (errors, read, some_error) ↦ inr (errors, some_error, rw read refl, rw read refl)
  ]
