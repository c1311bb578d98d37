-- ===== src/Services/Auth/Serve.antt =====
-- Sequences of service calls of api/app/services/auth.py, each in a transaction of its own.
use gpca_v.Prelude.{String, List, [], ◌∷◌}
use gpca_v.Env.{Env}
use gpca_v.Config.{Settings}
use gpca_v.Run.{World, Exec, pure, ◌>>◌}
use gpca_v.Run.Scope.{session_scope}
use gpca_v.Run.Keeps.{Keeps-session_scope}
use gpca_v.Db.Models.{User, Database}
use gpca_v.Db.Stable.{IsStable}
use gpca_v.Db.Integrity.{IsWellFormed, IsWellFormed-IsStable}
use gpca_v.Services.Auth.Sessions.{
  Client, authenticate, rotate_refresh_token, revoke_refresh_token, revoke_all_sessions,
}
use gpca_v.Services.Auth.Accounts
use gpca_v.Services.Auth.Accounts.{Registration}
use gpca_v.Services.Auth.Recovery
use gpca_v.Db.Enums.{AuthTokenPurpose}
use gpca_v.Services.Auth.SingleUse.{consume_single_use_token}
use gpca_v.Services.Auth.Logic.{Logic, Obeys, logic_rules}
use gpca_v.Services.Auth.Obey.{
  consume_single_use_token-Obeys, authenticate-Obeys, rotate-Obeys, revoke-Obeys, revoke_all-Obeys,
}
use gpca_v.Services.Auth.Obey.Accounts.{
  register-Obeys, verify_email-Obeys, resend-Obeys, request_reset-Obeys, reset-Obeys,
}
use gpca_v.Services.Auth.Preserve.{keeping}

-- the services, each with its arguments
pub data Service : Type 0 where
  register : Registration → Service
  verify_email : String → Service
  resend_verification : User → Service
  authenticate_as : String → String → Client → Service
  rotate : String → Client → Service
  revoke : String → Service
  revoke_all : User → Service
  request_reset : String → Service
  reset : String → String → Service

-- a call of a service, its result dropped
unfoldable pub run_service : Env → Settings → Service → Exec (Unit {0})
run_service env settings (register form) = Accounts.register env settings form
run_service env settings (verify_email token) = Accounts.verify_email env token >> pure tt
run_service env settings (resend_verification user) = Accounts.resend_verification env user
run_service env settings (authenticate_as email password client) =
    authenticate env settings email password client >> pure tt
run_service env settings (rotate token client) =
    rotate_refresh_token env settings token client >> pure tt
run_service env settings (revoke token) = revoke_refresh_token env token
run_service env settings (revoke_all user) = revoke_all_sessions env user
run_service env settings (request_reset email) = Recovery.request_password_reset env email
run_service env settings (reset token new_password) =
    Recovery.reset_password env settings token new_password >> pure tt

-- the services one after the other, each in a `session_scope`
unfoldable pub serve : Env → Settings → List Service → World → World
serve env settings [] s = s
serve env settings (call ∷ rest) s =
    serve env settings rest (session_scope (run_service env settings call) s).1

module _ (env : Env) (settings : Settings) {logic : Logic env} where
  pub run_service-Obeys : (call : Service) → Obeys logic (run_service env settings call)
  unfolding run_service
  run_service-Obeys (register form) = register-Obeys env settings form
  run_service-Obeys (verify_email token) =
      search (logic_rules, verify_email-Obeys env settings token)
  run_service-Obeys (resend_verification user) = resend-Obeys env settings user
  run_service-Obeys (authenticate_as email password client) =
      search (logic_rules, authenticate-Obeys env settings email password client)
  run_service-Obeys (rotate token client) =
      search (logic_rules, rotate-Obeys env settings token client)
  run_service-Obeys (revoke token) = revoke-Obeys env settings token
  run_service-Obeys (revoke_all user) = revoke_all-Obeys env settings user
  run_service-Obeys (request_reset email) = request_reset-Obeys env settings email
  run_service-Obeys (reset token new_password) =
      search (logic_rules, reset-Obeys env settings token new_password)

module _ (env : Env) (settings : Settings) {P : Database → Type 0} (stable : IsStable env P) where
  -- What is stable survives any sequence of services, each in a transaction of its own.
  pub serve_keeps : (calls : List Service) (s : World) → P s.db → P (serve env settings calls s).db
  unfolding serve
  serve_keeps [] s w = w
  serve_keeps (call ∷ rest) s w =
      serve_keeps rest (session_scope (run_service env settings call) s).1 (
        (Keeps-session_scope _
            (run_service-Obeys env settings {logic = keeping env stable} call).by).at
          s w)

pub serve-IsWellFormed :
    (env : Env) (settings : Settings) (calls : List Service) (s : World)
    → IsWellFormed env.citext_lower s.db
    → IsWellFormed env.citext_lower (serve env settings calls s).db
serve-IsWellFormed env settings calls s w =
    serve_keeps env settings (IsWellFormed-IsStable env) calls s w

pub rotate-IsWellFormed :
    (env : Env) (settings : Settings) (token : String) (client : Client) (s : World)
    → IsWellFormed env.citext_lower s.db
    → IsWellFormed env.citext_lower (rotate_refresh_token env settings token client s).1.db
rotate-IsWellFormed env settings token client s w =
    (rotate-Obeys env settings {logic = keeping env (IsWellFormed-IsStable env)} token client).by.at
      s w

pub consume-IsWellFormed :
    (env : Env) (token : String) (purpose : AuthTokenPurpose) (s : World)
    → IsWellFormed env.citext_lower s.db
    → IsWellFormed env.citext_lower (consume_single_use_token env token purpose s).1.db
consume-IsWellFormed env token purpose s w =
    (consume_single_use_token-Obeys env {logic = keeping env (IsWellFormed-IsStable env)} token
        purpose).by.at
      s w
