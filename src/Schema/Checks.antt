-- ===== src/Schema/Checks.antt =====
-- `nonnegative_cents` of db/gpca_db/types.py.
use Prim.Native.String.{◌++◌}
use gpca_v.Prelude.{String, Option, none, some, List, [], ◌∷◌}
use gpca_v.Schema.Convention.{joined}

pub record CheckConstraint : Type 0 where
  pub condition : String
  pub name : String

-- f"{column} >= 0", joined by " AND "
abbrev pub nonnegative : List String → String
nonnegative [] = ""
nonnegative (c ∷ []) = c ++ " >= 0"
nonnegative (c ∷ d ∷ rest) = c ++ (" >= 0 AND " ++ nonnegative (d ∷ rest))

-- `none` is the ValueError of a call without columns.
abbrev pub nonnegative_cents : List String → String → Option CheckConstraint
nonnegative_cents [] table = none
nonnegative_cents (c ∷ cs) table = some (record {
  condition = nonnegative (c ∷ cs);
  name = table ++ ("_" ++ (joined (c ∷ cs) ++ "_nonnegative"));
})
