-- ===== src/Schema/Migrations.antt =====
-- The three revisions of db/migrations/versions, statement by statement.
pub mod Laws
pub mod Environment
use gpca_v.Prelude.{String, Bool, true, false, Option, none, some, List, [], ◌∷◌, ◌++◌}
use gpca_v.Schema.{Column, ForeignKey, Unique, Table, Index, EnumType}
use gpca_v.Schema.Ddl.{
  Step, create_extension, drop_extension, create_type, drop_type, create_table, drop_table,
  create_index, drop_index, drop_index_if_exists, set_nullable,
}

-- `sa.Column(name, type, nullable=...)`, and one with a server default
abbrev pub sa_column : String → String → Bool → Column
sa_column name type nullable = record {
  name = name;
  type = type;
  nullable = nullable;
  default = none;
}

abbrev pub sa_default : String → String → String → Column
sa_default name type text = record {
  name = name;
  type = type;
  nullable = false;
  default = some text;
}

-- `op.create_index(name, table, columns, unique=..., postgresql_where=...)`
abbrev pub op_index : String → String → List String → Bool → Option String → Step
op_index name table columns unique condition = create_index (record {
  name = name;
  table = table;
  keys = columns;
  unique = unique;
  method = "btree";
  opclass = none;
  condition = condition;
})

abbrev pub user_role : EnumType
user_role = record { name = "user_role"; labels = "viewer" ∷ "member" ∷ "admin" ∷ [] }

abbrev pub user_status : EnumType
user_status = record { name = "user_status"; labels = "active" ∷ "suspended" ∷ [] }

abbrev pub auth_token_purpose : EnumType
auth_token_purpose = record {
  name = "auth_token_purpose";
  labels = "email_verify" ∷ "password_reset" ∷ [];
}

-- 0001_extensions
abbrev pub upgrade_extensions : List Step
upgrade_extensions =
    create_extension "pgcrypto"
    ∷ create_extension "citext"
    ∷ create_extension "pg_trgm"
    ∷ create_extension "unaccent"
    ∷ []

abbrev pub downgrade_extensions : List Step
downgrade_extensions =
    drop_extension "unaccent"
    ∷ drop_extension "pg_trgm"
    ∷ drop_extension "citext"
    ∷ drop_extension "pgcrypto"
    ∷ []

-- 0002_users
abbrev pub users : Table
users = record {
  name = "users";
  columns =
      sa_column "id" "UUID" false
      ∷ sa_column "email" "CITEXT" false
      ∷ sa_column "password_hash" "TEXT" false
      ∷ sa_column "first_name" "VARCHAR(100)" false
      ∷ sa_column "last_name" "VARCHAR(100)" false
      ∷ sa_column "display_name" "VARCHAR(150)" true
      ∷ sa_default "role" "user_role" "'viewer'::user_role"
      ∷ sa_default "status" "user_status" "'active'::user_status"
      ∷ sa_default "token_version" "INTEGER" "0"
      ∷ sa_column "email_verified_at" "TIMESTAMP WITH TIME ZONE" true
      ∷ sa_column "phone" "VARCHAR(20)" true
      ∷ sa_column "city" "VARCHAR(100)" true
      ∷ sa_column "state_province" "VARCHAR(100)" true
      ∷ sa_column "state_code" "VARCHAR(3)" true
      ∷ sa_column "country_code" "VARCHAR(2)" true
      ∷ sa_column "member_since" "DATE" true
      ∷ sa_column "last_login_at" "TIMESTAMP WITH TIME ZONE" true
      ∷ sa_column "deleted_at" "TIMESTAMP WITH TIME ZONE" true
      ∷ sa_default "created_at" "TIMESTAMP WITH TIME ZONE" "now()"
      ∷ sa_default "updated_at" "TIMESTAMP WITH TIME ZONE" "now()"
      ∷ [];
  primary_key = record { name = "pk_users"; column = "id" };
  foreign_keys = [];
  uniques = [];
}

-- `normalized` is PostgreSQL's own spelling of an expression
abbrev pub upgrade_users : (String → String) → List Step
upgrade_users normalized =
    create_type user_role
    ∷ create_type user_status
    ∷ create_table users
    ∷ op_index "uq_users_email" "users" ("email" ∷ []) true (some "deleted_at IS NULL")
    ∷ op_index "ix_users_role_active" "users" ("role" ∷ []) false
        (some "status = 'active' AND deleted_at IS NULL")
    ∷ create_index (record {
      name = "ix_users_full_name_trgm";
      table = "users";
      keys = normalized "(first_name || ' ' || last_name)" ∷ [];
      unique = false;
      method = "gin";
      opclass = some "gin_trgm_ops";
      condition = none;
    })
    ∷ []

abbrev pub downgrade_users : List Step
downgrade_users =
    drop_index_if_exists "ix_users_full_name_trgm"
    ∷ drop_index "ix_users_role_active"
    ∷ drop_index "uq_users_email"
    ∷ drop_table "users"
    ∷ drop_type "user_status"
    ∷ drop_type "user_role"
    ∷ []

-- 0003_auth_tokens
abbrev pub refresh_tokens : Table
refresh_tokens = record {
  name = "refresh_tokens";
  columns =
      sa_column "id" "UUID" false
      ∷ sa_column "user_id" "UUID" false
      ∷ sa_column "token_hash" "BYTEA" false
      ∷ sa_column "family_id" "UUID" false
      ∷ sa_default "issued_at" "TIMESTAMP WITH TIME ZONE" "now()"
      ∷ sa_column "expires_at" "TIMESTAMP WITH TIME ZONE" false
      ∷ sa_column "revoked_at" "TIMESTAMP WITH TIME ZONE" true
      ∷ sa_column "replaced_by_id" "UUID" true
      ∷ sa_column "user_agent" "VARCHAR(400)" true
      ∷ sa_column "ip" "INET" true
      ∷ [];
  primary_key = record { name = "pk_refresh_tokens"; column = "id" };
  foreign_keys =
      record {
        name = "fk_refresh_tokens_user_id_users";
        column = "user_id";
        target = "users";
        target_column = "id";
        ondelete = "CASCADE";
      }
      ∷ record {
        name = "fk_refresh_tokens_replaced_by_id_refresh_tokens";
        column = "replaced_by_id";
        target = "refresh_tokens";
        target_column = "id";
        ondelete = "SET NULL";
      }
      ∷ [];
  uniques = record { name = "uq_refresh_tokens_token_hash"; column = "token_hash" } ∷ [];
}

abbrev pub auth_tokens : Table
auth_tokens = record {
  name = "auth_tokens";
  columns =
      sa_column "id" "UUID" false
      ∷ sa_column "user_id" "UUID" false
      ∷ sa_column "purpose" "auth_token_purpose" false
      ∷ sa_column "token_hash" "BYTEA" false
      ∷ sa_column "expires_at" "TIMESTAMP WITH TIME ZONE" false
      ∷ sa_column "consumed_at" "TIMESTAMP WITH TIME ZONE" true
      ∷ sa_default "created_at" "TIMESTAMP WITH TIME ZONE" "now()"
      ∷ [];
  primary_key = record { name = "pk_auth_tokens"; column = "id" };
  foreign_keys =
      record {
        name = "fk_auth_tokens_user_id_users";
        column = "user_id";
        target = "users";
        target_column = "id";
        ondelete = "CASCADE";
      }
      ∷ [];
  uniques = record { name = "uq_auth_tokens_token_hash"; column = "token_hash" } ∷ [];
}

abbrev pub upgrade_auth_tokens : List Step
upgrade_auth_tokens =
    set_nullable "users" "password_hash" true
    ∷ create_type auth_token_purpose
    ∷ create_table refresh_tokens
    ∷ op_index "ix_refresh_tokens_user_id" "refresh_tokens" ("user_id" ∷ []) false none
    ∷ op_index "ix_refresh_tokens_family_id" "refresh_tokens" ("family_id" ∷ []) false none
    ∷ op_index "ix_refresh_tokens_user_id_revoked_at" "refresh_tokens"
        ("user_id" ∷ "revoked_at" ∷ []) false none
    ∷ create_table auth_tokens
    ∷ op_index "ix_auth_tokens_user_id" "auth_tokens" ("user_id" ∷ []) false none
    ∷ op_index "uq_auth_tokens_user_purpose_live" "auth_tokens" ("user_id" ∷ "purpose" ∷ []) true
        (some "consumed_at IS NULL")
    ∷ []

abbrev pub downgrade_auth_tokens : List Step
downgrade_auth_tokens =
    drop_index "uq_auth_tokens_user_purpose_live"
    ∷ drop_index "ix_auth_tokens_user_id"
    ∷ drop_table "auth_tokens"
    ∷ drop_index "ix_refresh_tokens_user_id_revoked_at"
    ∷ drop_index "ix_refresh_tokens_family_id"
    ∷ drop_index "ix_refresh_tokens_user_id"
    ∷ drop_table "refresh_tokens"
    ∷ drop_type "auth_token_purpose"
    ∷ set_nullable "users" "password_hash" false
    ∷ []
