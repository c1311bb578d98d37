-- ===== src/Config.antt =====
-- `Settings` of api/app/config.py, validated by pydantic at startup.
pub mod Load
use gpca_v.Prelude.{ℕ, String, Option}

pub record Settings : Type 0 where
  pub secret_key : String
  pub database_url : String
  pub jwt_secret : String
  pub flask_env : String
  pub log_level : String
  pub frontend_origin : String
  pub jwt_access_ttl_seconds : ℕ
  pub jwt_refresh_ttl_days : ℕ
  pub argon2_memory_cost_kib : ℕ
  pub argon2_time_cost : ℕ
  pub argon2_parallelism : ℕ
  pub db_connect_timeout_seconds : ℕ
  pub ses_from_address : Option String
