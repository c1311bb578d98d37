-- ===== src/Schema/Declared.antt =====
-- `Base.metadata`: the tables that db/gpca_db/models declare, their columns in order, with the names
-- that the convention gives and the types of db/gpca_db/types.py and of the annotation map.
use gpca_v.Prelude.{String, Bool, true, false, Option, none, some, List, [], ◌∷◌}
use gpca_v.Db.Vocabularies.{
  PgEnum, user_role_enum, user_status_enum, auth_token_purpose_enum, labels,
}
use gpca_v.Schema.{Column, ForeignKey, Unique, Table, Index, EnumType}
use gpca_v.Schema.Convention.{ix_name, uq_name, fk_name, pk_name}

-- `Mapped[T]` and `Mapped[T | None]`
abbrev pub required : String → String → Column
required name type = record { name = name; type = type; nullable = false; default = none }

abbrev pub optional : String → String → Column
optional name type = record { name = name; type = type; nullable = true; default = none }

abbrev pub defaulted : String → String → String → Column
defaulted name type value = record {
  name = name;
  type = type;
  nullable = false;
  default = some value;
}

-- `UUIDPk`, and `datetime` of the annotation map
abbrev pub uuid_type : String
uuid_type = "UUID"

abbrev pub timestamp_type : String
timestamp_type = "TIMESTAMP WITH TIME ZONE"

-- `CaseInsensitiveEmail`, `CountryCode` and `StateCode`
abbrev email_type : String
email_type = "CITEXT"

abbrev country_code_type : String
country_code_type = "VARCHAR(2)"

abbrev state_code_type : String
state_code_type = "VARCHAR(3)"

-- `primary_key=True`, `unique=True` and `index=True` of a column
abbrev pub primary : String → Unique
primary table = record { name = pk_name table; column = "id" }

abbrev pub unique_column : String → String → Unique
unique_column table column = record { name = uq_name table (column ∷ []); column = column }

abbrev pub indexed : String → List String → Index
indexed table columns = record {
  name = ix_name false table columns;
  table = table;
  keys = columns;
  unique = false;
  method = "btree";
  opclass = none;
  condition = none;
}

abbrev pub reference : String → String → String → String → ForeignKey
reference table column target ondelete = record {
  name = fk_name table column target;
  column = column;
  target = target;
  target_column = "id";
  ondelete = ondelete;
}

-- a table index that is named by hand, with a condition
abbrev pub named_index : String → String → List String → Bool → Option String → Index
named_index name table columns unique condition = record {
  name = name;
  table = table;
  keys = columns;
  unique = unique;
  method = "btree";
  opclass = none;
  condition = condition;
}

-- `TimestampMixin`
abbrev pub timestamps : List Column
timestamps =
    defaulted "created_at" timestamp_type "now()"
    ∷ defaulted "updated_at" timestamp_type "now()"
    ∷ []

-- `User`
abbrev pub user_table : Table
user_table = record {
  name = "users";
  columns =
      required "id" uuid_type
      ∷ required "email" email_type
      ∷ optional "password_hash" "TEXT"
      ∷ required "first_name" "VARCHAR(100)"
      ∷ required "last_name" "VARCHAR(100)"
      ∷ optional "display_name" "VARCHAR(150)"
      ∷ defaulted "role" user_role_enum.name "'viewer'::user_role"
      ∷ defaulted "status" user_status_enum.name "'active'::user_status"
      ∷ defaulted "token_version" "INTEGER" "0"
      ∷ optional "email_verified_at" timestamp_type
      ∷ optional "phone" "VARCHAR(20)"
      ∷ optional "city" "VARCHAR(100)"
      ∷ optional "state_province" "VARCHAR(100)"
      ∷ optional "state_code" state_code_type
      ∷ optional "country_code" country_code_type
      ∷ optional "member_since" "DATE"
      ∷ optional "last_login_at" timestamp_type
      ∷ optional "deleted_at" timestamp_type
      ∷ timestamps;
  primary_key = primary "users";
  foreign_keys = [];
  uniques = [];
}

abbrev pub uq_users_email : Index
uq_users_email =
    named_index "uq_users_email" "users" ("email" ∷ []) true (some "deleted_at IS NULL")

abbrev pub ix_users_role_active : Index
ix_users_role_active =
    named_index "ix_users_role_active" "users" ("role" ∷ []) false
      (some "status = 'active' AND deleted_at IS NULL")

-- PostgreSQL's own spelling of the expression, with the operator class
abbrev pub ix_users_full_name_trgm : Index
ix_users_full_name_trgm = record {
  name = "ix_users_full_name_trgm";
  table = "users";
  keys = "((first_name::text || ' '::text) || last_name::text)" ∷ [];
  unique = false;
  method = "gin";
  opclass = some "gin_trgm_ops";
  condition = none;
}

-- `RefreshToken`
abbrev pub refresh_token_table : Table
refresh_token_table = record {
  name = "refresh_tokens";
  columns =
      required "id" uuid_type
      ∷ required "user_id" uuid_type
      ∷ required "token_hash" "BYTEA"
      ∷ required "family_id" uuid_type
      ∷ defaulted "issued_at" timestamp_type "now()"
      ∷ required "expires_at" timestamp_type
      ∷ optional "revoked_at" timestamp_type
      ∷ optional "replaced_by_id" uuid_type
      ∷ optional "user_agent" "VARCHAR(400)"
      ∷ optional "ip" "INET"
      ∷ [];
  primary_key = primary "refresh_tokens";
  foreign_keys =
      reference "refresh_tokens" "user_id" "users" "CASCADE"
      ∷ reference "refresh_tokens" "replaced_by_id" "refresh_tokens" "SET NULL"
      ∷ [];
  uniques = unique_column "refresh_tokens" "token_hash" ∷ [];
}

-- `AuthToken`
abbrev pub auth_token_table : Table
auth_token_table = record {
  name = "auth_tokens";
  columns =
      required "id" uuid_type
      ∷ required "user_id" uuid_type
      ∷ required "purpose" auth_token_purpose_enum.name
      ∷ required "token_hash" "BYTEA"
      ∷ required "expires_at" timestamp_type
      ∷ optional "consumed_at" timestamp_type
      ∷ defaulted "created_at" timestamp_type "now()"
      ∷ [];
  primary_key = primary "auth_tokens";
  foreign_keys = reference "auth_tokens" "user_id" "users" "CASCADE" ∷ [];
  uniques = unique_column "auth_tokens" "token_hash" ∷ [];
}

abbrev pub uq_auth_tokens_user_purpose_live : Index
uq_auth_tokens_user_purpose_live =
    named_index "uq_auth_tokens_user_purpose_live" "auth_tokens" ("user_id" ∷ "purpose" ∷ []) true
      (some "consumed_at IS NULL")

-- the indexes of the token tables: `index=True` and `__table_args__`
abbrev pub refresh_token_indexes : List Index
refresh_token_indexes =
    named_index "ix_refresh_tokens_user_id_revoked_at" "refresh_tokens"
      ("user_id" ∷ "revoked_at" ∷ []) false none
    ∷ named_index "ix_refresh_tokens_family_id" "refresh_tokens" ("family_id" ∷ []) false none
    ∷ indexed "refresh_tokens" ("user_id" ∷ [])
    ∷ []

abbrev pub enum_type : {A : Type 0} → PgEnum A → EnumType
enum_type e = record { name = e.name; labels = labels e }
