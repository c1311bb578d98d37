-- ===== src/Schema/Ddl.antt =====
-- The statements that the migrations issue through Alembic's `op`, and what PostgreSQL makes of
-- them: a name that is taken or missing is an error, and so is a drop of what is in use.
use gpca_v.Prelude.{
  String, Bool, true, false, not, ◌&&◌, ◌||◌, Option, none, some, List, [], ◌∷◌, if◌then◌else◌,
}
use gpca_v.Schema.{Column, ForeignKey, Table, Index, EnumType, Catalog}
use text.Mathlib.Text.{◌==◌ as str_eq}

pub data Step : Type 0 where
  -- CREATE EXTENSION IF NOT EXISTS, DROP EXTENSION IF EXISTS
  create_extension drop_extension : String → Step
  create_type : EnumType → Step
  drop_type : String → Step
  create_table : Table → Step
  drop_table : String → Step
  create_index : Index → Step
  drop_index : String → Step
  -- DROP INDEX IF EXISTS
  drop_index_if_exists : String → Step
  -- ALTER COLUMN ... SET / DROP NOT NULL
  set_nullable : String → String → Bool → Step

abbrev pub has_text : String → List String → Bool
has_text name [] = false
has_text name (x ∷ xs) = str_eq x name || has_text name xs

abbrev pub without_text : String → List String → List String
without_text name [] = []
without_text name (x ∷ xs) = if str_eq x name then xs else x ∷ without_text name xs

abbrev pub has_type : String → List EnumType → Bool
has_type name [] = false
has_type name (t ∷ ts) = str_eq t.name name || has_type name ts

abbrev pub without_type : String → List EnumType → List EnumType
without_type name [] = []
without_type name (t ∷ ts) = if str_eq t.name name then ts else t ∷ without_type name ts

abbrev pub has_table : String → List Table → Bool
has_table name [] = false
has_table name (t ∷ ts) = str_eq t.name name || has_table name ts

abbrev pub without_table : String → List Table → List Table
without_table name [] = []
without_table name (t ∷ ts) = if str_eq t.name name then ts else t ∷ without_table name ts

abbrev pub has_index : String → List Index → Bool
has_index name [] = false
has_index name (i ∷ is) = str_eq i.name name || has_index name is

abbrev pub without_index : String → List Index → List Index
without_index name [] = []
without_index name (i ∷ is) = if str_eq i.name name then is else i ∷ without_index name is

-- the indexes of a table go with it
abbrev pub without_indexes_of : String → List Index → List Index
without_indexes_of table [] = []
without_indexes_of table (i ∷ is) =
    if str_eq i.table table then without_indexes_of table is else i ∷ without_indexes_of table is

-- does a foreign key point at a table?
abbrev pub points_at : String → List ForeignKey → Bool
points_at name [] = false
points_at name (k ∷ ks) = str_eq k.target name || points_at name ks

-- does another table reference this one?
abbrev pub is_referenced : String → List Table → Bool
is_referenced name [] = false
is_referenced name (t ∷ ts) =
    (not (str_eq t.name name) && points_at name t.foreign_keys) || is_referenced name ts

abbrev pub columns_use : String → List Column → Bool
columns_use type [] = false
columns_use type (c ∷ cs) = str_eq c.type type || columns_use type cs

abbrev pub is_used : String → List Table → Bool
is_used type [] = false
is_used type (t ∷ ts) = columns_use type t.columns || is_used type ts

-- each foreign key has its target, possibly the table itself
abbrev pub targets_exist : String → List ForeignKey → List Table → Bool
targets_exist name [] tables = true
targets_exist name (k ∷ ks) tables =
    (str_eq k.target name || has_table k.target tables) && targets_exist name ks tables

abbrev pub has_column : String → List Column → Bool
has_column name [] = false
has_column name (c ∷ cs) = str_eq c.name name || has_column name cs

abbrev pub set_column : String → Bool → List Column → List Column
set_column name nullable [] = []
set_column name nullable (c ∷ cs) =
    if str_eq c.name name
    then record c { nullable = nullable } ∷ cs
    else c ∷ set_column name nullable cs

abbrev pub table_has_column : String → String → List Table → Bool
table_has_column table column [] = false
table_has_column table column (t ∷ ts) =
    if str_eq t.name table then has_column column t.columns else table_has_column table column ts

abbrev pub alter_table : String → String → Bool → List Table → List Table
alter_table table column nullable [] = []
alter_table table column nullable (t ∷ ts) =
    if str_eq t.name table
    then record t { columns = set_column column nullable t.columns } ∷ ts
    else t ∷ alter_table table column nullable ts

abbrev pub same_text : Option String → String → Bool
same_text none name = false
same_text (some text) name = str_eq text name

abbrev pub has_opclass : String → List Index → Bool
has_opclass opclass [] = false
has_opclass opclass (i ∷ is) = same_text i.opclass opclass || has_opclass opclass is

-- Does a column or an index stand on what an extension brings? Of those in use here, citext brings
-- the type and pg_trgm the operator class.
abbrev pub extension_used : String → Catalog → Bool
extension_used name c =
    (str_eq name "citext" && is_used "CITEXT" c.tables)
    || (str_eq name "pg_trgm" && has_opclass "gin_trgm_ops" c.indexes)

abbrev pub unless : Bool → Catalog → Option Catalog
unless refused c = if refused then none else some c

-- One statement; `holds_null table column` says whether a stored row has a NULL there.
abbrev pub execute : (String → String → Bool) → Step → Catalog → Option Catalog
execute holds_null (create_extension name) c =
    if has_text name c.extensions
    then some c
    else some (record c { extensions = name ∷ c.extensions })
execute holds_null (drop_extension name) c =
    unless (extension_used name c) (record c { extensions = without_text name c.extensions })
execute holds_null (create_type t) c =
    unless (has_type t.name c.types) (record c { types = t ∷ c.types })
execute holds_null (drop_type name) c =
    unless (not (has_type name c.types) || is_used name c.tables)
      (record c { types = without_type name c.types })
execute holds_null (create_table t) c =
    unless (has_table t.name c.tables || not (targets_exist t.name t.foreign_keys c.tables))
      (record c { tables = t ∷ c.tables })
execute holds_null (drop_table name) c =
    unless (not (has_table name c.tables) || is_referenced name c.tables) (record c {
      tables = without_table name c.tables;
      indexes = without_indexes_of name c.indexes;
    })
execute holds_null (create_index i) c =
    unless (has_index i.name c.indexes || not (has_table i.table c.tables))
      (record c { indexes = i ∷ c.indexes })
execute holds_null (drop_index name) c =
    unless (not (has_index name c.indexes)) (record c { indexes = without_index name c.indexes })
execute holds_null (drop_index_if_exists name) c =
    some (record c { indexes = without_index name c.indexes })
execute holds_null (set_nullable table column nullable) c =
    unless
      (not (table_has_column table column c.tables) || (not nullable && holds_null table column))
      (record c { tables = alter_table table column nullable c.tables })

abbrev pub and_then : Option Catalog → (Catalog → Option Catalog) → Option Catalog
and_then none f = none
and_then (some c) f = f c

-- A script: its statements in one transaction.
unfoldable pub run_script : (String → String → Bool) → List Step → Catalog → Option Catalog
run_script holds_null [] c = some c
run_script holds_null (step ∷ rest) c =
    and_then (execute holds_null step c) (run_script holds_null rest)
