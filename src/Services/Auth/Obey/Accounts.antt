-- ===== src/Services/Auth/Obey/Accounts.antt =====
-- The services of api/app/services/auth.py and the logics of actions: accounts and passwords.
use gpca_v.Prelude.{ℕ, String, Option, none, some, refl}
use gpca_v.Env.{Env}
use gpca_v.Config.{Settings}
use gpca_v.Run.{modify}
use gpca_v.Db.Models.{User}
use gpca_v.Db.Users
use gpca_v.Services.Auth.Logic.{Logic, Obeys, Obeys-bind, Obeys-assign_user, logic_rules}
use gpca_v.Services.Auth.Accounts
use gpca_v.Services.Auth.Accounts.{Registration}
use gpca_v.Services.Auth.Recovery
use gpca_v.Services.Auth.Obey.{revoke_all-Obeys, set_hash-Obeys, service_rules}

module _ (env : Env) (settings : Settings) {logic : Logic env} where
  send_verification-Obeys :
      (user_id : ℕ) (email first_name : String)
      → Obeys logic (Accounts.send_verification env user_id email first_name)
  unfolding Accounts.send_verification
  send_verification-Obeys user_id email first_name = search service_rules

  register_found-Obeys :
      (form : Registration) (existing : Option User)
      → Obeys logic (Accounts.register_found env settings form existing)
  unfolding Accounts.register_found
  register_found-Obeys form none = search (service_rules, send_verification-Obeys) depth 8
  register_found-Obeys form (some existing) = search service_rules

  pub register-Obeys : (form : Registration) → Obeys logic (Accounts.register env settings form)
  unfolding Accounts.register
  register-Obeys form = search (service_rules, register_found-Obeys)

  set_verified-Obeys :
      (now user_id : ℕ)
      → Obeys logic (modify (Users.assign (λ u. record u { email_verified_at = some now }) user_id))
  set_verified-Obeys now user_id = Obeys-assign_user _ user_id (λ u. (refl, refl, refl))

  mark_verified-Obeys : (user : Option User) → Obeys logic (Accounts.mark_verified env user)
  unfolding Accounts.mark_verified
  mark_verified-Obeys none = search logic_rules
  mark_verified-Obeys (some user) = search (service_rules, set_verified-Obeys) depth 8

  pub verify_email-Obeys : (token : String) → Obeys logic (Accounts.verify_email env token)
  unfolding Accounts.verify_email
  verify_email-Obeys token = search (service_rules, mark_verified-Obeys)

  pub resend-Obeys : (user : User) → Obeys logic (Accounts.resend_verification env user)
  unfolding Accounts.resend_verification
  resend-Obeys user = search (service_rules, send_verification-Obeys)

  send_reset-Obeys : (user : Option User) → Obeys logic (Recovery.send_reset env user)
  unfolding Recovery.send_reset
  send_reset-Obeys none = search service_rules
  send_reset-Obeys (some user) = search service_rules

  pub request_reset-Obeys :
      (email : String) → Obeys logic (Recovery.request_password_reset env email)
  unfolding Recovery.request_password_reset
  request_reset-Obeys email = search (service_rules, send_reset-Obeys)

  set_password-Obeys :
      (new_password : String) (user : Option User)
      → Obeys logic (Recovery.set_password env settings new_password user)
  unfolding Recovery.set_password
  set_password-Obeys new_password none = search service_rules
  set_password-Obeys new_password (some user) =
      Obeys-bind _ _ (search service_rules) λ password_hash.
        Obeys-bind _ _ (set_hash-Obeys env settings password_hash user.id)
          λ _. Obeys-bind _ _ (revoke_all-Obeys env settings user) λ _. search service_rules

  pub reset-Obeys :
      (token new_password : String)
      → Obeys logic (Recovery.reset_password env settings token new_password)
  unfolding Recovery.reset_password
  reset-Obeys token new_password = search (service_rules, set_password-Obeys)
