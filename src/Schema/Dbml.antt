-- ===== src/Schema/Dbml.antt =====
-- `render_dbml` of db/gpca_db/schema_docs.py: the schema as a DBML document.
pub mod Order
pub mod Generate
use Prim.Native.Char.{code}
use Prim.Native.String.{[], ◌∷◌, ◌++◌, compare}
use Prim.Native.Nat.Ordering.{lt, eq, gt}
use mathlib.Core.List
use mathlib.Core.List.{List}
use mathlib.Core.List.{foldr}
use gpca_v.Prelude.{
  String, Bool, true, false, not, ◌&&◌, ◌||◌, Option, none, some, lower, ◌==◌, if◌then◌else◌,
}
use gpca_v.Schema.{Column, ForeignKey, Unique, Table}
use text.Mathlib.Text.{◌==◌ as str_eq}

-- `separator.join(texts)`
abbrev pub join : String → List String → String
join separator List.[] = ""
join separator (List.◌∷◌ x List.[]) = x
join separator (List.◌∷◌ x (List.◌∷◌ y rest)) = x ++ (separator ++ join separator (List.◌∷◌ y rest))

-- what follows a spelling at the start of a text, if the text starts with it
abbrev pub after : String → String → Option String
after [] text = some text
after (c ∷ spelling) [] = none
after (c ∷ spelling) (d ∷ text) = if code c == code d then after spelling text else none

-- `_TYPE_ALIASES`
abbrev pub type_aliases : List (String × String)
type_aliases =
    List.◌∷◌ ("timestamp with time zone", "timestamptz")
      (List.◌∷◌ ("timestamp without time zone", "timestamp")
        (List.◌∷◌ ("double precision", "float8")
          (List.◌∷◌ ("character varying", "varchar") List.[])))

abbrev pub or_rest : String → Option String → String → String
or_rest alias none other = other
or_rest alias (some rest) other = alias ++ rest

-- the first alias whose spelling starts the text replaces it there
abbrev pub aliased : List (String × String) → String → String
aliased List.[] rendered = rendered
aliased (List.◌∷◌ (spelling, alias) rest) rendered =
    or_rest alias (after spelling rendered) (aliased rest rendered)

abbrev pub has_space : String → Bool
has_space [] = false
has_space (c ∷ s) = code c == 32 || has_space s

abbrev pub quoted : String → String
quoted rendered = if has_space rendered then "\"" ++ (rendered ++ "\"") else rendered

-- `_column_type`
abbrev pub column_type : String → String
column_type type = quoted (aliased type_aliases (lower type))

abbrev pub is_primary : Table → Column → Bool
is_primary t c = str_eq c.name t.primary_key.column

-- `settings` of a column
abbrev pub column_settings : Bool → Bool → List String
column_settings primary nullable =
    if primary
    then List.◌∷◌ "pk" List.[]
    else if nullable
    then List.[]
    else List.◌∷◌ "not null" List.[]

abbrev pub settings_suffix : List String → String
settings_suffix List.[] = ""
settings_suffix (List.◌∷◌ x rest) = " [" ++ (join ", " (List.◌∷◌ x rest) ++ "]")

-- `_column_line`
abbrev pub column_line : Table → Column → String
column_line t c =
    "  "
    ++ (c.name
        ++ (" "
            ++ (column_type c.type
                ++ settings_suffix (column_settings (is_primary t c) c.nullable))))

abbrev pub column_lines : Table → List Column → List String
column_lines t List.[] = List.◌∷◌ "}" List.[]
column_lines t (List.◌∷◌ c cs) = List.◌∷◌ (column_line t c) (column_lines t cs)

-- `_table_block`
abbrev pub table_block : Table → String
table_block t = join "\n" (List.◌∷◌ ("Table " ++ (t.name ++ " {")) (column_lines t t.columns))

-- one `Ref` line
abbrev pub ref_line : Table → ForeignKey → String
ref_line t k =
    "Ref: " ++ (t.name ++ ("." ++ (k.column ++ (" > " ++ (k.target ++ ("." ++ k.target_column))))))

abbrev pub refs_of_table : Table → List ForeignKey → List String
refs_of_table t List.[] = List.[]
refs_of_table t (List.◌∷◌ k ks) = List.◌∷◌ (ref_line t k) (refs_of_table t ks)

abbrev pub all_refs : List Table → List String
all_refs List.[] = List.[]
all_refs (List.◌∷◌ t ts) = List.◌++◌ (refs_of_table t t.foreign_keys) (all_refs ts)

-- a text among ascending ones, once
abbrev pub insert_text : String → List String → List String
insert_text x List.[] = List.◌∷◌ x List.[]
insert_text x (List.◌∷◌ y ys) =
    let rest = insert_text x ys in
    elim (compare x y) [
      | lt ↦ List.◌∷◌ x (List.◌∷◌ y ys)
      | eq ↦ List.◌∷◌ y ys
      | gt ↦ List.◌∷◌ y rest
    ]

-- `sorted(set(texts))`
abbrev pub sorted_texts : List String → List String
sorted_texts = foldr insert_text List.[]

-- `_ref_lines`
abbrev pub ref_lines : List Table → List String
ref_lines tables = sorted_texts (all_refs tables)

-- a table among those with ascending names
abbrev pub insert_table : Table → List Table → List Table
insert_table t List.[] = List.◌∷◌ t List.[]
insert_table t (List.◌∷◌ u us) =
    let rest = insert_table t us in
    elim (compare t.name u.name) [ gt ↦ List.◌∷◌ u rest | _ ↦ List.◌∷◌ t (List.◌∷◌ u us) ]

-- `sorted(metadata.tables.items(), key=lambda item: item[0])`
abbrev pub sorted_tables : List Table → List Table
sorted_tables = foldr insert_table List.[]

abbrev pub table_blocks : List Table → List String
table_blocks List.[] = List.[]
table_blocks (List.◌∷◌ t ts) = List.◌∷◌ (table_block t) (table_blocks ts)

-- the lines of the banner, and the revision if there is one
abbrev pub header_lines : String → Option String → List String
header_lines banner none = List.◌∷◌ banner List.[]
header_lines banner (some revision) =
    if str_eq revision ""
    then List.◌∷◌ banner List.[]
    else List.◌∷◌ banner (List.◌∷◌ ("// Alembic head: " ++ revision) List.[])

abbrev pub sections_of : String → String → List String → List String
sections_of header blocks List.[] = List.◌∷◌ header (List.◌∷◌ blocks List.[])
sections_of header blocks (List.◌∷◌ r rs) =
    List.◌∷◌ header (List.◌∷◌ blocks (List.◌∷◌ (join "\n" (List.◌∷◌ r rs)) List.[]))

-- `_BANNER`
abbrev pub banner_rule : String
banner_rule = "// ---------------------------------------------------------------------------"

abbrev pub banner : String
banner = join "\n" (
    List.◌∷◌ banner_rule (
      List.◌∷◌ "// GENERATED FILE -- DO NOT EDIT." (
        List.◌∷◌ "//" (
          List.◌∷◌ "// The IMPLEMENTED schema: what the migrations have actually built." (
            List.◌∷◌ "// For the full intended design, most of which is not built yet, see" (
              List.◌∷◌ "// section 5.1 of docs/technical-design.md." (
                List.◌∷◌ "//" (
                  List.◌∷◌ "// Regenerate with:" (
                    List.◌∷◌ "//     python -m gpca_db.schema_docs > docs/schema.dbml" (
                      List.◌∷◌ "//" (
                        List.◌∷◌ "// Paste into https://dbdiagram.io to view it." (
                          List.◌∷◌ "//" (
                            List.◌∷◌
                              "// Tables and relations only -- indexes and enum values are not shown."
                              (List.◌∷◌ banner_rule List.[]))))))))))))))

-- `render_dbml`
unfoldable pub render_dbml : List Table → Option String → String
render_dbml tables revision =
    join "\n\n" (
      sections_of (join "\n" (header_lines banner revision))
        (join "\n\n" (table_blocks (sorted_tables tables))) (ref_lines tables))
    ++ "\n"
