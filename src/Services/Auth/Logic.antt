-- ===== src/Services/Auth/Logic.antt =====
-- The interface between the statements that a service is made of and what holds of every service: a
-- logic holds of each action of the repositories and of each way to build an action from others.
use gpca_v.Prelude.{◌≡◌, ℕ, String, Bool, Option, if◌then◌else◌}
use gpca_v.Env.{Env}
use gpca_v.Errors.{Exn}
use gpca_v.Run.{Email, Exec, pure, raise, draw, modify, raise_if, ◌>>=◌}
use gpca_v.Db.Enums.{AuthTokenPurpose}
use gpca_v.Db.Models.{User, RefreshToken, AuthToken}
use gpca_v.Db.Stable.{KeepsKeys, KeepsToken}
use gpca_v.Db.Users
use gpca_v.Db.RefreshTokens
use gpca_v.Db.AuthTokens
use gpca_v.Db.AuthTokens.{consumed_now}
use gpca_v.Run.Scope.{session_scope}
use gpca_v.Security.Guards.{catch}
use gpca_v.Services.Auth.Mail.{deferred_email}

pub record Logic (env : Env) : Type 1 where
  pub Holds : (A : Type 0) → Exec A → Type 0
  pub of_pure : {A : Type 0} (a : A) → Holds A (pure a)
  pub of_raise : {A : Type 0} (e : Exn) → Holds A (raise e)
  pub of_draw : {A : Type 0} (f : ℕ → A) → Holds A (draw f)
  pub of_raise_if : (c : Bool) (e : Exn) → Holds Unit (raise_if c e)
  pub of_if :
      {A : Type 0} (b : Bool) (m n : Exec A) → Holds A m → Holds A n → Holds A (if b then m else n)
  pub of_bind :
      {A B : Type 0} (m : Exec A) (f : A → Exec B)
      → Holds A m
      → ((a : A) → Holds B (f a))
      → Holds B (m >>= f)
  pub of_scope : {A : Type 0} (m : Exec A) → Holds A m → Holds A (session_scope m)
  -- an `except` clause that raises another exception
  pub of_catch :
      {A : Type 0} (f : Exn → Exn) (m : Exec A) → Holds A m → Holds A (λ s. catch f (m s))
  pub of_email : (message : Email) → Holds Unit (deferred_email message)
  -- the repositories
  pub get_user : (user_id : ℕ) → Holds (Option User) (Users.get user_id)
  pub get_by_email : (email : String) → Holds (Option User) (Users.get_by_email env email)
  pub add_user : (row : ℕ → User) → Holds User (Users.add env row)
  pub assign_user :
      (f : User → User) (user_id : ℕ) → KeepsKeys f → Holds Unit (modify (Users.assign f user_id))
  pub get_refresh :
      (token_hash : ℕ) → Holds (Option RefreshToken) (RefreshTokens.get_by_hash token_hash)
  pub add_refresh :
      (family : Option ℕ) (row : ℕ → ℕ → RefreshToken)
      → Holds RefreshToken (RefreshTokens.add env family row)
  pub assign_refresh :
      (f : RefreshToken → RefreshToken) (id : ℕ)
      → KeepsToken f
      → ((t : RefreshToken) → (f t).replaced_by_id ≡ t.replaced_by_id)
      → Holds Unit (modify (RefreshTokens.assign f id))
  pub set_replaced_by :
      (id replacement_id : ℕ) → Holds Unit (RefreshTokens.set_replaced_by id replacement_id)
  pub revoke_family : (family_id : ℕ) → Holds ℕ (RefreshTokens.revoke_family env family_id)
  pub revoke_all_for_user : (user_id : ℕ) → Holds ℕ (RefreshTokens.revoke_all_for_user env user_id)
  pub get_auth : (token_hash : ℕ) → Holds (Option AuthToken) (AuthTokens.get_by_hash token_hash)
  pub add_auth : (row : ℕ → AuthToken) → Holds AuthToken (AuthTokens.add env row)
  pub consume_auth : (now id : ℕ) → Holds Unit (modify (AuthTokens.assign (consumed_now now) id))
  pub consume_outstanding :
      (user_id : ℕ) (purpose : AuthTokenPurpose)
      → Holds ℕ (AuthTokens.consume_outstanding env user_id purpose)

pub record Obeys {env : Env} (logic : Logic env) {A : Type 0} (m : Exec A) : Type 0 where
  pub by : logic.Holds A m

module _ {env : Env} {logic : Logic env} where
  pub Obeys-pure : {A : Type 0} (a : A) → Obeys logic (pure a)
  Obeys-pure a = record { by = logic.of_pure a }

  pub Obeys-raise : {A : Type 0} (e : Exn) → Obeys logic (raise {A = A} e)
  Obeys-raise e = record { by = logic.of_raise e }

  pub Obeys-draw : {A : Type 0} (f : ℕ → A) → Obeys logic (draw f)
  Obeys-draw f = record { by = logic.of_draw f }

  pub Obeys-raise_if : (c : Bool) (e : Exn) → Obeys logic (raise_if c e)
  Obeys-raise_if c e = record { by = logic.of_raise_if c e }

  pub Obeys-if :
      {A : Type 0} (b : Bool) (m n : Exec A)
      → Obeys logic m
      → Obeys logic n
      → Obeys logic (if b then m else n)
  Obeys-if b m n hm hn = record { by = logic.of_if b m n hm.by hn.by }

  pub Obeys-bind :
      {A B : Type 0} (m : Exec A) (f : A → Exec B)
      → Obeys logic m
      → ((a : A) → Obeys logic (f a))
      → Obeys logic (m >>= f)
  Obeys-bind m f hm hf = record { by = logic.of_bind m f hm.by (λ a. (hf a).by) }

  pub Obeys-scope : {A : Type 0} (m : Exec A) → Obeys logic m → Obeys logic (session_scope m)
  Obeys-scope m hm = record { by = logic.of_scope m hm.by }

  pub Obeys-catch :
      {A : Type 0} (f : Exn → Exn) (m : Exec A) → Obeys logic m → Obeys logic (λ s. catch f (m s))
  Obeys-catch f m hm = record { by = logic.of_catch f m hm.by }

  pub Obeys-email : (message : Email) → Obeys logic (deferred_email message)
  Obeys-email message = record { by = logic.of_email message }

  pub Obeys-get_user : (user_id : ℕ) → Obeys logic (Users.get user_id)
  Obeys-get_user user_id = record { by = logic.get_user user_id }

  pub Obeys-get_by_email : (email : String) → Obeys logic (Users.get_by_email env email)
  Obeys-get_by_email email = record { by = logic.get_by_email email }

  pub Obeys-add_user : (row : ℕ → User) → Obeys logic (Users.add env row)
  Obeys-add_user row = record { by = logic.add_user row }

  pub Obeys-assign_user :
      (f : User → User) (user_id : ℕ) → KeepsKeys f → Obeys logic (modify (Users.assign f user_id))
  Obeys-assign_user f user_id keeps = record { by = logic.assign_user f user_id keeps }

  pub Obeys-get_refresh : (token_hash : ℕ) → Obeys logic (RefreshTokens.get_by_hash token_hash)
  Obeys-get_refresh token_hash = record { by = logic.get_refresh token_hash }

  pub Obeys-add_refresh :
      (family : Option ℕ) (row : ℕ → ℕ → RefreshToken)
      → Obeys logic (RefreshTokens.add env family row)
  Obeys-add_refresh family row = record { by = logic.add_refresh family row }

  pub Obeys-assign_refresh :
      (f : RefreshToken → RefreshToken) (id : ℕ)
      → KeepsToken f
      → ((t : RefreshToken) → (f t).replaced_by_id ≡ t.replaced_by_id)
      → Obeys logic (modify (RefreshTokens.assign f id))
  Obeys-assign_refresh f id keeps same = record { by = logic.assign_refresh f id keeps same }

  pub Obeys-set_replaced_by :
      (id replacement_id : ℕ) → Obeys logic (RefreshTokens.set_replaced_by id replacement_id)
  Obeys-set_replaced_by id n = record { by = logic.set_replaced_by id n }

  pub Obeys-revoke_family :
      (family_id : ℕ) → Obeys logic (RefreshTokens.revoke_family env family_id)
  Obeys-revoke_family family_id = record { by = logic.revoke_family family_id }

  pub Obeys-revoke_all_for_user :
      (user_id : ℕ) → Obeys logic (RefreshTokens.revoke_all_for_user env user_id)
  Obeys-revoke_all_for_user user_id = record { by = logic.revoke_all_for_user user_id }

  pub Obeys-get_auth : (token_hash : ℕ) → Obeys logic (AuthTokens.get_by_hash token_hash)
  Obeys-get_auth token_hash = record { by = logic.get_auth token_hash }

  pub Obeys-add_auth : (row : ℕ → AuthToken) → Obeys logic (AuthTokens.add env row)
  Obeys-add_auth row = record { by = logic.add_auth row }

  pub Obeys-consume_auth :
      (now id : ℕ) → Obeys logic (modify (AuthTokens.assign (consumed_now now) id))
  Obeys-consume_auth now id = record { by = logic.consume_auth now id }

  pub Obeys-consume_outstanding :
      (user_id : ℕ) (purpose : AuthTokenPurpose)
      → Obeys logic (AuthTokens.consume_outstanding env user_id purpose)
  Obeys-consume_outstanding user_id purpose = record {
    by = logic.consume_outstanding user_id purpose;
  }

pub ruleset logic_rules = (
  Obeys-pure, Obeys-raise, Obeys-draw, Obeys-raise_if, Obeys-if, Obeys-bind, Obeys-email,
  Obeys-get_user, Obeys-get_by_email, Obeys-add_user, Obeys-get_refresh, Obeys-add_refresh,
  Obeys-revoke_family, Obeys-revoke_all_for_user, Obeys-get_auth, Obeys-add_auth,
  Obeys-set_replaced_by, Obeys-consume_auth, Obeys-consume_outstanding,
)
