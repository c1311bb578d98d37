-- ===== src/Schema/Dbml/Order.antt =====
-- The document does not depend on the order in which the tables are registered.
use Prim.Native.String.{compare}
use Prim.Native.Nat.Ordering.{eq}
use gpca_v.Prelude.{String, Option, List, [], ◌∷◌, ◌++◌, ◌≡◌, refl, arith, ap, ◌∙◌, ◌≢◌}
use gpca_v.Prelude.TextOrder.{compare-flip, compare_trans}
use gpca_v.Schema.{Table}
use gpca_v.Schema.Dbml.{
  insert_text, sorted_texts, refs_of_table, insert_table, sorted_tables, all_refs, ref_lines,
  render_dbml,
}
use text.Mathlib.TextEquality.{path_by_compare}
use text.Mathlib.TextPositions.{compare_refl}

insert_text_comm :
    (a b : String) (l : List String)
    → insert_text a (insert_text b l) ≡ insert_text b (insert_text a l)
insert_text_comm a b [] = grind (arith, compare-flip a b, compare_refl a, path_by_compare a b)
insert_text_comm a b (x ∷ l) = grind (
  arith,
  compare-flip a b,
  compare-flip a x,
  compare-flip b x,
  compare_refl a,
  compare_refl b,
  path_by_compare a b,
  path_by_compare a x,
  path_by_compare b x,
  compare_trans a b x,
  compare_trans b a x,
  compare_trans a x b,
  compare_trans b x a,
  compare_trans x a b,
  compare_trans x b a,
  insert_text_comm a b l,
)

insert_table_comm :
    (a b : Table) (l : List Table)
    → compare a.name b.name ≢ eq
    → insert_table a (insert_table b l) ≡ insert_table b (insert_table a l)
insert_table_comm a b [] d = grind (arith, compare-flip a.name b.name)
insert_table_comm a b (x ∷ l) d = grind (
  arith,
  compare-flip a.name b.name,
  compare-flip a.name x.name,
  compare-flip b.name x.name,
  path_by_compare a.name b.name,
  path_by_compare a.name x.name,
  path_by_compare b.name x.name,
  compare_trans a.name b.name x.name,
  compare_trans b.name a.name x.name,
  compare_trans a.name x.name b.name,
  compare_trans b.name x.name a.name,
  compare_trans x.name a.name b.name,
  compare_trans x.name b.name a.name,
  insert_table_comm a b l d,
)

-- two neighbours with different names, exchanged
tables_swap :
    (xs ys : List Table) (a b : Table)
    → compare a.name b.name ≢ eq
    → sorted_tables (xs ++ a ∷ b ∷ ys) ≡ sorted_tables (xs ++ b ∷ a ∷ ys)
tables_swap [] ys a b d = insert_table_comm a b (sorted_tables ys) d
tables_swap (x ∷ xs) ys a b d = ap (insert_table x) (tables_swap xs ys a b d)

sorted_texts-past :
    (x : String) (m n : List String)
    → insert_text x (sorted_texts (m ++ n)) ≡ sorted_texts (m ++ x ∷ n)
sorted_texts-past x [] n = refl
sorted_texts-past x (y ∷ m) n =
    insert_text_comm x y (sorted_texts (m ++ n)) ∙ ap (insert_text y) (sorted_texts-past x m n)

sorted_texts-exchange :
    (l m n : List String) → sorted_texts (l ++ (m ++ n)) ≡ sorted_texts (m ++ (l ++ n))
sorted_texts-exchange [] m n = refl
sorted_texts-exchange (x ∷ l) m n =
    ap (insert_text x) (sorted_texts-exchange l m n) ∙ sorted_texts-past x m (l ++ n)

sorted_texts-prefix :
    (p q r : List String)
    → sorted_texts q ≡ sorted_texts r
    → sorted_texts (p ++ q) ≡ sorted_texts (p ++ r)
sorted_texts-prefix [] q r h = h
sorted_texts-prefix (x ∷ p) q r h = ap (insert_text x) (sorted_texts-prefix p q r h)

refs_swap :
    (xs ys : List Table) (a b : Table) → ref_lines (xs ++ a ∷ b ∷ ys) ≡ ref_lines (xs ++ b ∷ a ∷ ys)
refs_swap [] ys a b =
    sorted_texts-exchange (refs_of_table a a.foreign_keys) (refs_of_table b b.foreign_keys)
      (all_refs ys)
refs_swap (x ∷ xs) ys a b =
    sorted_texts-prefix (refs_of_table x x.foreign_keys) (all_refs (xs ++ a ∷ b ∷ ys))
      (all_refs (xs ++ b ∷ a ∷ ys)) (refs_swap xs ys a b)

render_swap :
    (xs ys : List Table) (a b : Table) (revision : Option String)
    → compare a.name b.name ≢ eq
    → render_dbml (xs ++ a ∷ b ∷ ys) revision ≡ render_dbml (xs ++ b ∷ a ∷ ys) revision
unfolding render_dbml
render_swap xs ys a b revision d = rw (tables_swap xs ys a b d, refs_swap xs ys a b) refl

-- A list of tables becomes another by exchanges of neighbours with different names.
pub data Reordered : List Table → List Table → Type 0 where
  same : (l : List Table) → Reordered l l
  swap :
      (xs ys : List Table) (a b : Table) {l : List Table}
      → compare a.name b.name ≢ eq
      → Reordered (xs ++ b ∷ a ∷ ys) l
      → Reordered (xs ++ a ∷ b ∷ ys) l

-- The document is the same for every order in which the tables of the schema are registered, their
-- names being different.
pub render-Reordered :
    {tables others : List Table} (revision : Option String)
    → Reordered tables others
    → render_dbml tables revision ≡ render_dbml others revision
render-Reordered revision (same l) = refl
render-Reordered revision (swap xs ys a b d r) =
    render_swap xs ys a b revision d ∙ render-Reordered revision r
