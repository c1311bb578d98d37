-- ===== src/Services/Auth/Issue.antt =====
-- `issue_single_use_token`: the new token is the only live one of its account and purpose.
use gpca_v.Prelude.{
  ℕ, true, false, none, [], ◌∷◌, ◌≡◌, refl, arith, ◌==◌, ◌+◌, is_none, ap, ◌∙◌, ==_refl,
}
use gpca_v.Env.{Env}
use gpca_v.Run.{World, ok, reading, advanced, ◌>>=◌}
use gpca_v.Db.Enums.{AuthTokenPurpose, email_verify, password_reset, same_purpose}
use gpca_v.Db.Models.{AuthToken, auth_clash, is_live_for}
use gpca_v.Db.Table.{any, select}
use gpca_v.Db.Table.Laws.{any-update_unset, any-update_same, any-three, select-none}
use gpca_v.Db.Users.{by_id}
use gpca_v.Db.AuthTokens
use gpca_v.Db.AuthTokens.{consumed_now, consume_where}
use gpca_v.Db.Insert.{insert_auth_ok, with_auth}
use gpca_v.Services.Auth.SingleUse.{issue_single_use_token}

same_purpose_refl : (p : AuthTokenPurpose) → same_purpose p p ≡ true
same_purpose_refl email_verify = refl
same_purpose_refl password_reset = refl

module _ (env : Env) (user_id : ℕ) (purpose : AuthTokenPurpose) (ttl : ℕ) (s : World) where
  -- the row that is stored
  abbrev pub single_use_row : AuthToken
  single_use_row = record {
    id = env.uuid7 (reading 3 s);
    user_id = user_id;
    purpose = purpose;
    token_hash = env.sha256 (env.token_urlsafe (reading 1 s));
    expires_at = env.clock (reading 2 s) + ttl;
    consumed_at = none;
  }

  -- the world in which the outstanding tokens are consumed, four readings later
  abbrev pub superseded : World
  superseded = record (advanced 4 s) {
    db = consume_where (is_live_for user_id purpose) (env.clock (reading 0 s)) s.db;
  }

  none_live : any (is_live_for user_id purpose) superseded.db.auth_tokens ≡ false
  unfolding consume_where
  none_live =
      any-update_unset (is_live_for user_id purpose) (is_live_for user_id purpose)
        (consumed_now (env.clock (reading 0 s))) s.db.auth_tokens (λ t h. h) (λ t. ground arith)

  module _ (owned : is_none (by_id user_id s.db) ≡ false)
      (new_id : any (λ t. single_use_row.id == t.id) s.db.auth_tokens ≡ false)
      (new_hash : any (λ t. single_use_row.token_hash == t.token_hash) s.db.auth_tokens
        ≡ false) where
    no_clash : any (auth_clash single_use_row) superseded.db.auth_tokens ≡ false
    unfolding consume_where
    no_clash =
        any-three (λ t. single_use_row.id == t.id) (λ t. single_use_row.token_hash == t.token_hash)
          (is_live_for user_id purpose) (auth_clash single_use_row) superseded.db.auth_tokens
          (λ t h k l. ground arith) (any-update_same _ _ _ s.db.auth_tokens (λ t. refl) ∙ new_id)
          (any-update_same _ _ _ s.db.auth_tokens (λ t. refl) ∙ new_hash) none_live

    -- Issuing for a stored account, with a fresh key and a fresh digest, succeeds; afterwards the
    -- account's live tokens of that purpose are the new one alone.
    pub issue_supersedes :
        let (r, s') = issue_single_use_token env user_id purpose ttl s in
        (r ≡ ok (env.token_urlsafe (reading 1 s)))
        × (s' ≡ with_auth single_use_row superseded)
        × (select (is_live_for user_id purpose) s'.db.auth_tokens ≡ single_use_row ∷ [])
    unfolding issue_single_use_token AuthTokens.consume_outstanding AuthTokens.add ◌>>=◌ by_id
    issue_supersedes =
        rw (insert_auth_ok env superseded single_use_row no_clash owned) (refl, refl, only)
      where
        only :
            select (is_live_for user_id purpose) (single_use_row ∷ superseded.db.auth_tokens)
            ≡ single_use_row ∷ []
        only =
            unfold select in
            rw (==_refl user_id, same_purpose_refl purpose)
              (ap (λ l. single_use_row ∷ l)
                (select-none (is_live_for user_id purpose) superseded.db.auth_tokens none_live))
