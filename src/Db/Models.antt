-- ===== src/Db/Models.antt =====
-- The rows of db/gpca_db/models, and the unique indexes as tests on two rows.
-- A UUID and a SHA-256 digest are the numbers that their bytes spell, and a `timestamptz` is a
-- number of microseconds. The columns that PostgreSQL stamps and nothing reads (`created_at`,
-- `updated_at`, `issued_at`) are left out.
use gpca_v.Prelude.{ℕ, String, Bool, ◌&&◌, ◌||◌, Option, List, ◌==◌, is_none}
use gpca_v.Db.Enums.{UserRole, UserStatus, AuthTokenPurpose, same_purpose}
use text.Mathlib.Text.{◌==◌ as str_eq}

pub record User : Type 0 where
  pub id : ℕ
  pub email : String
  pub password_hash : Option String
  pub first_name : String
  pub last_name : String
  pub display_name : Option String
  pub role : UserRole
  pub status : UserStatus
  pub token_version : ℕ
  pub email_verified_at : Option ℕ
  pub phone : Option String
  pub city : Option String
  pub state_province : Option String
  pub state_code : Option String
  pub country_code : Option String
  pub member_since : Option ℕ
  pub last_login_at : Option ℕ
  pub deleted_at : Option ℕ

pub record RefreshToken : Type 0 where
  pub id : ℕ
  pub user_id : ℕ
  pub token_hash : ℕ
  pub family_id : ℕ
  pub expires_at : ℕ
  pub revoked_at : Option ℕ
  pub replaced_by_id : Option ℕ
  pub user_agent : Option String
  pub ip : Option String

pub record AuthToken : Type 0 where
  pub id : ℕ
  pub user_id : ℕ
  pub purpose : AuthTokenPurpose
  pub token_hash : ℕ
  pub expires_at : ℕ
  pub consumed_at : Option ℕ

-- The three tables, as one transaction sees them.
pub record Database : Type 0 where
  pub users : List User
  pub refresh_tokens : List RefreshToken
  pub auth_tokens : List AuthToken

-- pk_users and uq_users_email. `lower` is citext's folding, under which it compares.
abbrev pub user_clash : (String → String) → User → User → Bool
user_clash lower a b =
    a.id == b.id
    || (is_none a.deleted_at && is_none b.deleted_at && str_eq (lower a.email) (lower b.email))

-- pk_refresh_tokens and uq_refresh_tokens_token_hash
abbrev pub refresh_clash : RefreshToken → RefreshToken → Bool
refresh_clash a b = a.id == b.id || a.token_hash == b.token_hash

-- `consumed_at IS NULL` for the pair (user, purpose)
abbrev pub is_live_for : ℕ → AuthTokenPurpose → AuthToken → Bool
is_live_for user_id purpose t =
    t.user_id == user_id && same_purpose t.purpose purpose && is_none t.consumed_at

-- pk_auth_tokens, uq_auth_tokens_token_hash and uq_auth_tokens_user_purpose_live
abbrev pub auth_clash : AuthToken → AuthToken → Bool
auth_clash a b =
    a.id == b.id
    || a.token_hash == b.token_hash
    || (is_none a.consumed_at && is_live_for a.user_id a.purpose b)
