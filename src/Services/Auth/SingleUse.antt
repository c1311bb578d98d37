-- ===== src/Services/Auth/SingleUse.antt =====
-- `issue_single_use_token` and `consume_single_use_token` of api/app/services/auth.py.
use gpca_v.Prelude.{ℕ, String, not, Option, none, some, ◌+◌, ◌||◌, leb, is_some, if◌then◌else◌}
use gpca_v.Env.{Env}
use gpca_v.Run.{Exec, pure, draw, modify, ◌>>=◌, ◌>>◌}
use gpca_v.Db.Enums.{AuthTokenPurpose, same_purpose}
use gpca_v.Db.Models.{User, AuthToken}
use gpca_v.Db.Users
use gpca_v.Db.AuthTokens
use gpca_v.Db.AuthTokens.{consumed_now}
use gpca_v.Security.Tokens.{hash_refresh_token}

module _ (env : Env) where
  -- Mints a token, invalidating any outstanding one for the same purpose.
  unfoldable pub issue_single_use_token : ℕ → AuthTokenPurpose → ℕ → Exec String
  issue_single_use_token user_id purpose ttl = do
    AuthTokens.consume_outstanding env user_id purpose
    plaintext ← draw env.token_urlsafe
    now ← draw env.clock
    AuthTokens.add env λ id. record {
      id = id;
      user_id = user_id;
      purpose = purpose;
      token_hash = hash_refresh_token env plaintext;
      expires_at = now + ttl;
      consumed_at = none;
    }
    pure plaintext

  -- the last checks: the account still exists, and the row is marked
  unfoldable pub redeem : AuthToken → Option User → Exec (Option User)
  redeem row none = pure none
  redeem row (some user) = if is_some user.deleted_at then pure none else do
    now ← draw env.clock
    modify (AuthTokens.assign (consumed_now now) row.id)
    pure (some user)

  unfoldable pub check_row : AuthTokenPurpose → Option AuthToken → Exec (Option User)
  unfolding redeem
  check_row purpose none = pure none
  check_row purpose (some row) =
      if not (same_purpose row.purpose purpose) || is_some row.consumed_at then pure none else do
        now ← draw env.clock
        if leb row.expires_at now
            then pure none
            else do user ← Users.get row.user_id; redeem row user

  -- Redeems a token, or returns none if it cannot be redeemed.
  unfoldable pub consume_single_use_token : String → AuthTokenPurpose → Exec (Option User)
  unfolding check_row
  consume_single_use_token token purpose = do
    row ← AuthTokens.get_by_hash (hash_refresh_token env token)
    check_row purpose row
