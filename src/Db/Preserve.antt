-- ===== src/Db/Preserve.antt =====
-- Every statement of the repositories keeps what is stable, whether it returns or raises.
use gpca_v.Prelude.{
  ◌≡◌, ℕ, String, Bool, Option, none, some, refl, is_none, ◌==◌, Bool-cases, inl, inr,
}
use gpca_v.Env.{Env}
use gpca_v.Run.{modify, ◌>>=◌}
use gpca_v.Run.Keeps.{Keeps, Keeps-modify, keeps_rules}
use gpca_v.Db.Enums.{AuthTokenPurpose}
use gpca_v.Db.Models.{
  User, RefreshToken, AuthToken, Database, user_clash, refresh_clash, auth_clash,
}
use gpca_v.Db.Table.{any}
use gpca_v.Db.Users
use gpca_v.Db.Users.{by_id, user_storable}
use gpca_v.Db.RefreshTokens
use gpca_v.Db.RefreshTokens.{refresh_storable, revoked_now, refers, is_orphan}
use gpca_v.Db.AuthTokens
use gpca_v.Db.AuthTokens.{consumed_now}
use gpca_v.Db.Stable.{IsStable, KeepsKeys, KeepsToken}

module _ (env : Env) {P : Database → Type 0} (stable : IsStable env P) where
  pub Users_get-Sound : (user_id : ℕ) → Keeps P (Users.get user_id)
  unfolding Users.get
  Users_get-Sound user_id = search keeps_rules

  pub get_by_email-Sound : (email : String) → Keeps P (Users.get_by_email env email)
  unfolding Users.get_by_email
  get_by_email-Sound email = search keeps_rules

  pub assign_user-Sound :
      (f : User → User) (user_id : ℕ) → KeepsKeys f → Keeps P (modify (Users.assign f user_id))
  assign_user-Sound f user_id keeps =
      Keeps-modify _ (λ db w. stable.assign_user db f user_id keeps w)

  pub insert_user-Sound : (u : User) → Keeps P (Users.insert env u)
  unfolding Users.insert ◌>>=◌
  insert_user-Sound u = record {
    at = λ s w. elim (Bool-cases (user_storable env u)) [
      | inr bad ↦ rw bad w
      | inl fits ↦ elim (Bool-cases (any (user_clash env.citext_lower u) s.db.users)) [
        | inl clash ↦ rw (fits, clash) w
        | inr new ↦ rw (fits, new) (stable.insert_user s.db u new w)
      ]
    ];
  }

  pub add_user-Sound : (row : ℕ → User) → Keeps P (Users.add env row)
  unfolding Users.add
  add_user-Sound row = search (keeps_rules, insert_user-Sound)

  pub get_refresh-Sound : (token_hash : ℕ) → Keeps P (RefreshTokens.get_by_hash token_hash)
  unfolding RefreshTokens.get_by_hash
  get_refresh-Sound token_hash = search keeps_rules

  pub assign_refresh-Sound :
      (f : RefreshToken → RefreshToken) (id : ℕ)
      → KeepsToken f
      → ((t : RefreshToken) → (f t).replaced_by_id ≡ t.replaced_by_id)
      → Keeps P (modify (RefreshTokens.assign f id))
  unfolding RefreshTokens.assign
  assign_refresh-Sound f id keeps same =
      Keeps-modify _ (λ db w. stable.update_refresh db (λ t. t.id == id) f keeps same w)

  pub set_replaced_by-Sound :
      (id replacement_id : ℕ) → Keeps P (RefreshTokens.set_replaced_by id replacement_id)
  unfolding RefreshTokens.set_replaced_by ◌>>=◌
  set_replaced_by-Sound id n = record {
    at = λ s w. elim (Bool-cases (refers (some n) s.db.refresh_tokens)) [
      | inl known ↦ rw known (stable.replace_refresh s.db id n known w)
      | inr missing ↦ rw missing w
    ];
  }

  revoke_where-Sound :
      (p : RefreshToken → Bool) (now : ℕ) → Keeps P (modify (RefreshTokens.revoke_where p now))
  unfolding RefreshTokens.revoke_where
  revoke_where-Sound p now = Keeps-modify _ (λ db w.
      stable.update_refresh db p (revoked_now now) (λ t. (refl, refl, refl, refl, λ h. refl))
        (λ t. refl) w)

  pub revoke_family-Sound : (family_id : ℕ) → Keeps P (RefreshTokens.revoke_family env family_id)
  unfolding RefreshTokens.revoke_family
  revoke_family-Sound family_id = search (keeps_rules, revoke_where-Sound)

  pub revoke_all_for_user-Sound :
      (user_id : ℕ) → Keeps P (RefreshTokens.revoke_all_for_user env user_id)
  unfolding RefreshTokens.revoke_all_for_user
  revoke_all_for_user-Sound user_id = search (keeps_rules, revoke_where-Sound)

  insert_refresh-Sound : (t : RefreshToken) → Keeps P (RefreshTokens.insert env t)
  unfolding RefreshTokens.insert ◌>>=◌
  insert_refresh-Sound t = record {
    at = λ s w. elim (Bool-cases (refresh_storable env t)) [
      | inr bad ↦ rw bad w
      | inl fits ↦ elim (Bool-cases (any (refresh_clash t) s.db.refresh_tokens)) [
        | inl clash ↦ rw (fits, clash) w
        | inr new ↦ elim (Bool-cases (is_orphan t s.db)) [
          | inl orphan ↦ rw (fits, new, orphan) w
          | inr owned ↦ rw (fits, new, owned) (stable.insert_refresh s.db t new owned w)
        ]
      ]
    ];
  }

  family_or_new-Sound : (family : Option ℕ) → Keeps P (RefreshTokens.family_or_new env family)
  unfolding RefreshTokens.family_or_new
  family_or_new-Sound none = search keeps_rules
  family_or_new-Sound (some family_id) = search keeps_rules

  pub add_refresh-Sound :
      (family : Option ℕ) (row : ℕ → ℕ → RefreshToken) → Keeps P (RefreshTokens.add env family row)
  unfolding RefreshTokens.add
  add_refresh-Sound family row = search (keeps_rules, insert_refresh-Sound, family_or_new-Sound)

  pub get_auth-Sound : (token_hash : ℕ) → Keeps P (AuthTokens.get_by_hash token_hash)
  unfolding AuthTokens.get_by_hash
  get_auth-Sound token_hash = search keeps_rules

  pub consume_auth-Sound : (now id : ℕ) → Keeps P (modify (AuthTokens.assign (consumed_now now) id))
  unfolding AuthTokens.assign
  consume_auth-Sound now id =
      Keeps-modify _ (λ db w. stable.consume_auth db (λ t. t.id == id) now w)

  consume_where-Sound :
      (p : AuthToken → Bool) (now : ℕ) → Keeps P (modify (AuthTokens.consume_where p now))
  unfolding AuthTokens.consume_where
  consume_where-Sound p now = Keeps-modify _ (λ db w. stable.consume_auth db p now w)

  pub consume_outstanding-Sound :
      (user_id : ℕ) (purpose : AuthTokenPurpose)
      → Keeps P (AuthTokens.consume_outstanding env user_id purpose)
  unfolding AuthTokens.consume_outstanding
  consume_outstanding-Sound user_id purpose = search (keeps_rules, consume_where-Sound)

  insert_auth-Sound : (t : AuthToken) → Keeps P (AuthTokens.insert env t)
  unfolding AuthTokens.insert ◌>>=◌
  insert_auth-Sound t = record {
    at = λ s w. elim (Bool-cases (any (auth_clash t) s.db.auth_tokens)) [
      | inl clash ↦ rw clash w
      | inr new ↦ elim (Bool-cases (is_none (by_id t.user_id s.db))) [
        | inl orphan ↦ rw (new, orphan) w
        | inr owned ↦ rw (new, owned) (stable.insert_auth s.db t new owned w)
      ]
    ];
  }

  pub add_auth-Sound : (row : ℕ → AuthToken) → Keeps P (AuthTokens.add env row)
  unfolding AuthTokens.add
  add_auth-Sound row = search (keeps_rules, insert_auth-Sound)

pub ruleset repository_rules = (
  keeps_rules, Users_get-Sound, get_by_email-Sound, add_user-Sound, get_refresh-Sound,
  revoke_family-Sound, revoke_all_for_user-Sound, add_refresh-Sound, get_auth-Sound,
  consume_auth-Sound, consume_outstanding-Sound, add_auth-Sound,
)
