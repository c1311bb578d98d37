-- ===== src/Schema/Dbml/Generate.antt =====
-- `_alembic_head` and `main` of db/gpca_db/schema_docs.py.
use gpca_v.Prelude.{String, Option, none, some, List, [], ◌∷◌}
use gpca_v.Schema.{Table}
use gpca_v.Schema.Dbml.{join, render_dbml}

-- what is printed, or the message of a SystemExit
pub data Outcome : Type 0 where
  printed system_exit : String → Outcome

-- The heads that Alembic reads from the scripts; `none` is an exception of any kind.
abbrev pub alembic_head : Option (List String) → Option String
alembic_head none = none
alembic_head (some []) = none
alembic_head (some (head ∷ heads)) = some (join ", " (head ∷ heads))

unfoldable pub main : List Table → Option (List String) → Outcome
unfolding render_dbml
main [] heads = system_exit "No tables in Base.metadata -- gpca_db.models did not import."
main (t ∷ ts) heads = printed (render_dbml (t ∷ ts) (alembic_head heads))
