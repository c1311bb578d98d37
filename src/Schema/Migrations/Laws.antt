-- ===== src/Schema/Migrations/Laws.antt =====
-- The revisions build what the models declare, and their downgrades take it away again.
use gpca_v.Prelude.{
  String, Bool, true, false, Option, none, some, List, [], ◌∷◌, ◌++◌, ◌≡◌, refl, ◌∙◌, Bool-cases,
  inl, inr, if◌then◌else◌,
}
use gpca_v.Db.Vocabularies.{user_role_enum, user_status_enum, auth_token_purpose_enum}
use gpca_v.Schema.{Catalog}
use gpca_v.Schema.Declared.{
  user_table, refresh_token_table, auth_token_table, uq_users_email, ix_users_role_active,
  ix_users_full_name_trgm, refresh_token_indexes, uq_auth_tokens_user_purpose_live, indexed,
  enum_type,
}
use gpca_v.Schema.Ddl.{
  Step, run_script, and_then, has_text, has_type, has_table, has_index, is_referenced, is_used,
  has_opclass, without_indexes_of,
}
use gpca_v.Schema.Migrations.{
  users, upgrade_extensions, downgrade_extensions, upgrade_users, downgrade_users,
  upgrade_auth_tokens, downgrade_auth_tokens,
}

abbrev pub AllAbsent : (String → Bool) → List String → Type 0
AllAbsent has [] = Unit
AllAbsent has (name ∷ names) = (has name ≡ false) × AllAbsent has names

-- Nothing in the database has a name that the revisions use.
pub record IsFree (c : Catalog) : Type 0 where
  pub extensions :
      AllAbsent (λ n. has_text n c.extensions) ("pgcrypto" ∷ "citext" ∷ "pg_trgm" ∷ "unaccent" ∷ [])
  pub types :
      AllAbsent (λ n. has_type n c.types) ("user_role" ∷ "user_status" ∷ "auth_token_purpose" ∷ [])
  pub tables :
      AllAbsent (λ n. has_table n c.tables) ("users" ∷ "refresh_tokens" ∷ "auth_tokens" ∷ [])
  pub indexes :
      AllAbsent
        (λ n. has_index n c.indexes)
        ("uq_users_email" ∷ "ix_users_role_active" ∷ "ix_users_full_name_trgm"
          ∷ "ix_refresh_tokens_user_id" ∷ "ix_refresh_tokens_family_id"
          ∷ "ix_refresh_tokens_user_id_revoked_at" ∷ "ix_auth_tokens_user_id"
          ∷ "uq_auth_tokens_user_purpose_live" ∷ [])

-- Nothing in the database stands on what the revisions create.
pub record IsUnused (c : Catalog) : Type 0 where
  pub types :
      AllAbsent
        (λ n. is_used n c.tables)
        ("user_role" ∷ "user_status" ∷ "auth_token_purpose" ∷ "CITEXT" ∷ [])
  pub opclass : has_opclass "gin_trgm_ops" c.indexes ≡ false
  pub tables :
      AllAbsent (λ n. is_referenced n c.tables) ("users" ∷ "refresh_tokens" ∷ "auth_tokens" ∷ [])
  pub users : without_indexes_of "users" c.indexes ≡ c.indexes
  pub refresh_tokens : without_indexes_of "refresh_tokens" c.indexes ≡ c.indexes
  pub auth_tokens : without_indexes_of "auth_tokens" c.indexes ≡ c.indexes

-- after 0001
abbrev pub extended : Catalog → Catalog
extended c = record c { extensions = "unaccent" ∷ "pg_trgm" ∷ "citext" ∷ "pgcrypto" ∷ c.extensions }

-- after 0002: the table of the models, but for `password_hash`
abbrev pub with_users : Catalog → Catalog
with_users c = record (extended c) {
  types = enum_type user_status_enum ∷ enum_type user_role_enum ∷ c.types;
  tables = users ∷ c.tables;
  indexes = ix_users_full_name_trgm ∷ ix_users_role_active ∷ uq_users_email ∷ c.indexes;
}

-- at the head: the tables, the indexes and the types that the models declare
abbrev pub deployed : Catalog → Catalog
deployed c = record (extended c) {
  types =
      enum_type auth_token_purpose_enum
      ∷ enum_type user_status_enum
      ∷ enum_type user_role_enum
      ∷ c.types;
  tables = auth_token_table ∷ refresh_token_table ∷ user_table ∷ c.tables;
  indexes =
      uq_auth_tokens_user_purpose_live
      ∷ indexed "auth_tokens" ("user_id" ∷ [])
      ∷ (refresh_token_indexes
          ++ (ix_users_full_name_trgm ∷ ix_users_role_active ∷ uq_users_email ∷ c.indexes));
}

-- the scripts one after the other, each in a transaction
abbrev pub run_scripts : (String → String → Bool) → List (List Step) → Catalog → Option Catalog
run_scripts holds_null [] c = some c
run_scripts holds_null (script ∷ rest) c =
    and_then (run_script holds_null script c) (run_scripts holds_null rest)

abbrev pub to_head : (String → String) → List (List Step)
to_head normalized = upgrade_extensions ∷ upgrade_users normalized ∷ upgrade_auth_tokens ∷ []

abbrev pub to_base : List (List Step)
to_base = downgrade_auth_tokens ∷ downgrade_users ∷ downgrade_extensions ∷ []

module _ (holds_null : String → String → Bool) (c : Catalog) (free : IsFree c) where
  upgrade_1 : run_script holds_null upgrade_extensions c ≡ some (extended c)
  unfolding run_script
  upgrade_1 = let (a, (b, (d, (e, _)))) = free.extensions in rw (a, b, d, e) refl

  module _ (normalized : String → String)
      (spelling : normalized "(first_name || ' ' || last_name)"
        ≡ "((first_name::text || ' '::text) || last_name::text)") where
    upgrade_2 : run_script holds_null (upgrade_users normalized) (extended c) ≡ some (with_users c)
    unfolding run_script
    upgrade_2 =
        let (a, (b, _)) = free.types in
        let (u, _) = free.tables in
        let (i, (j, (k, _))) = free.indexes in rw (a, b, u, i, j, k, spelling) refl

  upgrade_3 : run_script holds_null upgrade_auth_tokens (with_users c) ≡ some (deployed c)
  unfolding run_script
  upgrade_3 =
      let (_, (_, (a, _))) = free.types in
      let (_, (r, (t, _))) = free.tables in
      let (_, (_, (_, (i, (j, (k, (l, (m, _)))))))) = free.indexes in
      rw (a, r, i, j, k, t, l, m) refl

  module _ (unused : IsUnused c) where
    downgrade_3 :
        holds_null "users" "password_hash" ≡ false
        → run_script holds_null downgrade_auth_tokens (deployed c) ≡ some (with_users c)
    unfolding run_script
    downgrade_3 all_set =
        let (_, (_, (a, _))) = unused.types in
        let (_, (r, (t, _))) = unused.tables in
        rw (t, unused.auth_tokens, r, unused.refresh_tokens, a, all_set) refl

    downgrade_2 : run_script holds_null downgrade_users (with_users c) ≡ some (extended c)
    unfolding run_script
    downgrade_2 =
        let (a, (b, _)) = unused.types in
        let (u, _) = unused.tables in rw (u, unused.users, b, a) refl

    downgrade_1 : run_script holds_null downgrade_extensions (extended c) ≡ some c
    unfolding run_script
    downgrade_1 = let (_, (_, (_, (e, _)))) = unused.types in rw (unused.opclass, e) refl

module _ (holds_null : String → String → Bool) (c : Catalog) (free : IsFree c)
    (normalized : String → String)
    (spelling : normalized "(first_name || ' ' || last_name)"
      ≡ "((first_name::text || ' '::text) || last_name::text)") where
  -- In a database that is free of their names, the upgrades to the head succeed and build the tables,
  -- the indexes and the types that the models declare, under the names of the convention. PostgreSQL is
  -- supposed to spell the indexed expression as the model does.
  pub upgrade_head : run_scripts holds_null (to_head normalized) c ≡ some (deployed c)
  upgrade_head =
      rw
        (
          upgrade_1 holds_null c free,
          upgrade_2 holds_null c free normalized spelling,
          upgrade_3 holds_null c free,
        )
        refl

  round_trip :
      IsUnused c
      → holds_null "users" "password_hash" ≡ false
      → and_then (run_scripts holds_null (to_head normalized) c) (run_scripts holds_null to_base)
        ≡ some c
  round_trip unused all_set = rw upgrade_head (
      rw
        (
          downgrade_3 holds_null c free unused all_set,
          downgrade_2 holds_null c free unused,
          downgrade_1 holds_null c free unused,
        )
        refl)

  downgrade_refused :
      IsUnused c
      → holds_null "users" "password_hash" ≡ true
      → and_then (run_scripts holds_null (to_head normalized) c) (run_scripts holds_null to_base)
        ≡ none
  unfolding run_script
  downgrade_refused unused null = rw upgrade_head (
      let (_, (_, (a, _))) = unused.types in
      let (_, (r, (t, _))) = unused.tables in
      rw (t, unused.auth_tokens, r, unused.refresh_tokens, a, null) refl)

  -- In a database that is free of the names of the upgrades, extensions included, and in which nothing
  -- else comes to stand on what they create, and with PostgreSQL spelling the indexed expression as the
  -- model does: after the upgrades the downgrades to the base fail if a stored account is without a
  -- password, and otherwise leave nothing of the upgrades behind.
  pub upgrade-downgrade :
      IsUnused c
      → and_then (run_scripts holds_null (to_head normalized) c) (run_scripts holds_null to_base)
        ≡ (if holds_null "users" "password_hash" then none else some c)
  upgrade-downgrade unused = elim (Bool-cases (holds_null "users" "password_hash")) [
    | inl null ↦ downgrade_refused unused null ∙ rw null refl
    | inr all_set ↦ round_trip unused all_set ∙ rw all_set refl
  ]
