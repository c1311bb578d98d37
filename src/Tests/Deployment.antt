-- ===== src/Tests/Deployment.antt =====
-- The migrations and the schema document on a database with a table of another application.
use gpca_v.Prelude.{String, true, false, none, some, [], ◌∷◌, ◌≡◌, refl}
use gpca_v.Schema.{Table, Catalog}
use gpca_v.Schema.Declared.{user_table, auth_token_table}
use gpca_v.Schema.Ddl.{and_then}
use gpca_v.Schema.Dbml.{render_dbml}
use gpca_v.Schema.Dbml.Order.{Reordered, same, swap, render-Reordered}
use gpca_v.Schema.Migrations.{sa_column}
use gpca_v.Schema.Migrations.Laws.{
  IsFree, IsUnused, run_scripts, to_head, to_base, deployed, upgrade_head, upgrade-downgrade,
}

abbrev notes : Table
notes = record {
  name = "notes";
  columns = sa_column "id" "UUID" false ∷ [];
  primary_key = record { name = "pk_notes"; column = "id" };
  foreign_keys = [];
  uniques = [];
}

abbrev before : Catalog
before = record { extensions = "plpgsql" ∷ []; types = []; tables = notes ∷ []; indexes = [] }

-- PostgreSQL's spelling of the one expression
abbrev respelled : String → String
respelled text = "((first_name::text || ' '::text) || last_name::text)"

before-IsFree : IsFree before
before-IsFree = record {
  extensions = (refl, (refl, (refl, (refl, tt))));
  types = (refl, (refl, (refl, tt)));
  tables = (refl, (refl, (refl, tt)));
  indexes = (refl, (refl, (refl, (refl, (refl, (refl, (refl, (refl, tt))))))));
}

before-IsUnused : IsUnused before
before-IsUnused = record {
  types = (refl, (refl, (refl, (refl, tt))));
  opclass = refl;
  tables = (refl, (refl, (refl, tt)));
  users = refl;
  refresh_tokens = refl;
  auth_tokens = refl;
}

upgrade_head_example :
    run_scripts (λ t c. false) (to_head respelled) before ≡ some (deployed before)
upgrade_head_example = upgrade_head (λ t c. false) before before-IsFree respelled refl

upgrade-downgrade_example :
    and_then
      (run_scripts (λ t c. false) (to_head respelled) before)
      (run_scripts (λ t c. false) to_base)
    ≡ some before
upgrade-downgrade_example =
    upgrade-downgrade (λ t c. false) before before-IsFree respelled refl before-IsUnused

-- with an account without a password
refused :
    and_then
      (run_scripts (λ t c. true) (to_head respelled) before)
      (run_scripts (λ t c. true) to_base)
    ≡ none
refused = upgrade-downgrade (λ t c. true) before before-IsFree respelled refl before-IsUnused

users_first : Reordered (user_table ∷ auth_token_table ∷ []) (auth_token_table ∷ user_table ∷ [])
users_first =
    swap [] [] user_table auth_token_table (λ e. cc) (same (auth_token_table ∷ user_table ∷ []))

render-Reordered_example :
    render_dbml (user_table ∷ auth_token_table ∷ []) (some "0003_auth_tokens")
    ≡ render_dbml (auth_token_table ∷ user_table ∷ []) (some "0003_auth_tokens")
render-Reordered_example = render-Reordered (some "0003_auth_tokens") users_first
