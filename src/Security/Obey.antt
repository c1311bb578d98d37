-- ===== src/Security/Obey.antt =====
-- The guards of api/app/security/decorators.py and the logics of actions.
use gpca_v.Prelude.{ℕ, String, Option, none, some}
use gpca_v.Env.{Env, Decoded, expired_signature, invalid, payload}
use gpca_v.Config.{Settings}
use gpca_v.Errors.{Exn}
use gpca_v.Run.{Exec}
use gpca_v.Db.Models.{User}
use gpca_v.Security.Guards.{
  bearer_token, read_decoded, decode_access_token, read_claims, admit, load_current_user,
  require_auth, or_raise, token_error,
}
use gpca_v.Services.Auth.Logic.{
  Logic, Obeys, Obeys-bind, Obeys-scope, Obeys-catch, Obeys-get_user, logic_rules,
}

module _ {env : Env} {logic : Logic env} {A : Type 0} where
  or_raise-Obeys : (e : Exn) (o : Option A) → Obeys logic (or_raise e o)
  or_raise-Obeys e none = search logic_rules
  or_raise-Obeys e (some a) = search logic_rules

module _ (env : Env) {logic : Logic env} where
  bearer_token-Obeys : (authorization : Option String) → Obeys logic (bearer_token authorization)
  unfolding bearer_token
  bearer_token-Obeys authorization = search logic_rules

  read_decoded-Obeys : (decoded : Decoded) → Obeys logic (read_decoded env decoded)
  unfolding read_decoded
  read_decoded-Obeys expired_signature = search logic_rules
  read_decoded-Obeys invalid = search logic_rules
  read_decoded-Obeys (payload p) = or_raise-Obeys _ _

  decode-Obeys : (secret token : String) → Obeys logic (decode_access_token env secret token)
  unfolding decode_access_token
  decode-Obeys secret token = search (logic_rules, read_decoded-Obeys)

  read_claims-Obeys :
      (settings : Settings) (authorization : Option String)
      → Obeys logic (read_claims env settings authorization)
  unfolding read_claims
  read_claims-Obeys settings authorization =
      Obeys-catch token_error _
        (Obeys-bind _ _ (bearer_token-Obeys authorization) (decode-Obeys settings.jwt_secret))

  admit-Obeys :
      (token_version : ℕ) (user : Option User) → Obeys logic (admit env token_version user)
  unfolding admit
  admit-Obeys token_version none = search logic_rules
  admit-Obeys token_version (some user) = search logic_rules depth 8

  load_current_user-Obeys :
      (settings : Settings) (authorization : Option String)
      → Obeys logic (load_current_user env settings authorization)
  unfolding load_current_user
  load_current_user-Obeys settings authorization =
      Obeys-bind _ _ (read_claims-Obeys settings authorization) λ claims.
        Obeys-scope _
          (Obeys-bind _ _ (Obeys-get_user claims.user_id) (admit-Obeys claims.token_version))

  pub require_auth-Obeys :
      {A : Type 0} (settings : Settings) (authorization : Option String) (view : User → Exec A)
      → ((user : User) → Obeys logic (view user))
      → Obeys logic (require_auth env settings authorization view)
  unfolding require_auth
  require_auth-Obeys settings authorization view h =
      Obeys-bind _ _ (load_current_user-Obeys settings authorization) h
