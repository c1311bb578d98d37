-- ===== src/Db/Agree/Reads.antt =====
-- What a statement may read of a table: a row by a key, a count, and whether there is a row.
use mathlib.Core.List.{Permᴰ}
use gpca_v.Prelude.{
  ℕ, Bool, Option, none, some, List, [], ◌∷◌, ◌≡◌, refl, sym, ap, ◌∙◌, is_none, arith,
}
use gpca_v.Errors.{multiple_results}
use gpca_v.Run.{World, Result, ok, err, Exec, gets, one_or_none, ◌>>=◌}
use gpca_v.Run.Agrees.{on, Agrees, Agrees-gets}
use gpca_v.Db.Models.{Database}
use gpca_v.Db.Table.{any, length, select}
use gpca_v.Db.Table.Order.{length-perm, select-perm, any-perm}
use gpca_v.Db.Reorder.{IsReordering}
use gpca_v.Db.Users.{by_id}

-- a table whose rows a reordering keeps
abbrev pub IsTable {ℓ} : {A : Type ℓ} → (Database → List A) → Type ℓ
IsTable table = (db db' : Database) → IsReordering db db' → Permᴰ (table db) (table db')

module _ {ℓ} {A : Type ℓ} where
  abbrev sole : List A → Result (Option A)
  sole [] = ok none
  sole (x ∷ []) = ok (some x)
  sole (x ∷ y ∷ rest) = err multiple_results

  sole-perm : {a b : List A} → Permᴰ a b → sole a ≡ sole b
  sole-perm Permᴰ.nil = refl
  sole-perm (Permᴰ.cons {l₁ = []} {l₂ = []} e h) = ap (λ x. ok (some x)) e
  sole-perm (Permᴰ.cons {l₁ = []} {l₂ = y ∷ m} e h) = absurd (ground (arith, length-perm h))
  sole-perm (Permᴰ.cons {l₁ = x ∷ l} {l₂ = []} e h) = absurd (ground (arith, length-perm h))
  sole-perm (Permᴰ.cons {l₁ = x ∷ l} {l₂ = y ∷ m} e h) = refl
  sole-perm (Permᴰ.swap _ _) = refl
  sole-perm (Permᴰ.trans h k) = sole-perm h ∙ sole-perm k

  one_or_none_lem : (rows : List A) (s : World) → one_or_none rows s ≡ (sole rows, s)
  unfolding one_or_none
  one_or_none_lem [] s = refl
  one_or_none_lem (x ∷ []) s = refl
  one_or_none_lem (x ∷ y ∷ rest) s = refl

  module _ (p : A → Bool) (table : Database → List A) (same : IsTable table) where
    -- the one row that a condition selects
    pub Agrees-one : Agrees (gets (λ s. select p (table s.db)) >>= one_or_none)
    unfolding ◌>>=◌
    Agrees-one = record {
      at = λ s db h.
          rw
            (
              one_or_none_lem (select p (table s.db)) s,
              one_or_none_lem (select p (table db)) (on db s),
              sole-perm (select-perm p (same s.db db h)),
            )
            (record { other = db; same = refl; like = h });
    }

    -- the number of the rows that a condition selects
    pub Agrees-count :
        {B : Type 0} (k : ℕ → Exec B)
        → ((n : ℕ) → Agrees (k n))
        → Agrees (gets (λ s. select p (table s.db)) >>= λ rows. k (length rows))
    unfolding ◌>>=◌
    Agrees-count k rest = record {
      at = λ s db h.
          rw (length-perm (select-perm p (same s.db db h)))
            ((rest (length (select p (table db)))).at s db h);
    }

    -- whether there is a row that meets a condition
    pub Agrees-any : Agrees (gets (λ s. any p (table s.db)))
    Agrees-any = Agrees-gets _ λ s db h. sym (any-perm p (same s.db db h))

pub Agrees-missing : (n : ℕ) → Agrees (gets (λ s. is_none (by_id n s.db)))
Agrees-missing n = Agrees-gets _ λ s db h. sym (ap is_none (h.known n))
