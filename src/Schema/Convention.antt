-- ===== src/Schema/Convention.antt =====
-- `NAMING_CONVENTION` of db/gpca_db/base.py: the names of constraints and indexes that have none.
use Prim.Native.String.{◌++◌}
use gpca_v.Prelude.{String, Bool, List, [], ◌∷◌, if◌then◌else◌}

-- `_index_prefix`
abbrev pub index_prefix : Bool → String
index_prefix unique = if unique then "uq" else "ix"

-- %(column_0_N_name)s
abbrev pub joined : List String → String
joined [] = ""
joined (c ∷ []) = c
joined (c ∷ d ∷ rest) = c ++ ("_" ++ joined (d ∷ rest))

abbrev pub ix_name : Bool → String → List String → String
ix_name unique table columns = index_prefix unique ++ ("_" ++ (table ++ ("_" ++ joined columns)))

abbrev pub uq_name : String → List String → String
uq_name table columns = "uq_" ++ (table ++ ("_" ++ joined columns))

abbrev pub ck_name : String → String → String
ck_name table constraint = "ck_" ++ (table ++ ("_" ++ constraint))

abbrev pub fk_name : String → String → String → String
fk_name table column referred = "fk_" ++ (table ++ ("_" ++ (column ++ ("_" ++ referred))))

abbrev pub pk_name : String → String
pk_name table = "pk_" ++ table
