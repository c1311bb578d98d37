-- ===== src/Db/Enums.antt =====
-- The vocabularies of db/gpca_db/enums.py that the account tables use, and their wire values.
use gpca_v.Prelude.{String, Bool, true, false}

pub data UserRole : Type 0 where
  viewer member admin : UserRole

pub data UserStatus : Type 0 where
  active suspended : UserStatus

pub data AuthTokenPurpose : Type 0 where
  email_verify password_reset : AuthTokenPurpose

-- `.value` of each member
abbrev pub role_value : UserRole → String
role_value viewer = "viewer"
role_value member = "member"
role_value admin = "admin"

-- `status is UserStatus.ACTIVE`
abbrev pub is_active : UserStatus → Bool
is_active active = true
is_active suspended = false

-- `a is b` on two members
abbrev pub same_purpose : AuthTokenPurpose → AuthTokenPurpose → Bool
same_purpose email_verify email_verify = true
same_purpose email_verify password_reset = false
same_purpose password_reset email_verify = false
same_purpose password_reset password_reset = true
