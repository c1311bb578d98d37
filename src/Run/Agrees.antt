-- ===== src/Run/Agrees.antt =====
-- What an action makes of two databases with the same rows in another order: the same result, and
-- again the same rows. One rule for each way to build an action.
use gpca_v.Prelude.{
  ℕ, Bool, true, false, leb, not, ◌∙◌, ◌≡◌, refl, sym, Bool-cases, inl, inr, if◌then◌else◌,
}
use gpca_v.Errors.{Exn}
use gpca_v.Db.Models.{Database}
use gpca_v.Db.Table.Order.{any-perm}
use gpca_v.Db.Reorder.{IsReordering}
use gpca_v.Run
use gpca_v.Run.{World, Result, ok, err, Exec, pure, raise, gets, draw, modify, raise_if, ◌>>=◌}
use gpca_v.Run.Scope.{settle, session_scope, flush_refused, int4_max}

abbrev pub on : Database → World → World
on db s = record s { db = db }

-- an outcome, and the same outcome over reordered tables
pub record Follows {ℓ} {X : Type ℓ} (r r' : X × World) : Type ℓ where
  pub other : Database
  pub same : r' ≡ (r.0, on other r.1)
  pub like : IsReordering r.1.db other

pub record Agrees {ℓ} {A : Type ℓ} (m : Exec A) : Type ℓ where
  pub at : (s : World) (db : Database) → IsReordering s.db db → Follows (m s) (m (on db s))

module _ {ℓ} {A : Type ℓ} where
  pub Agrees-pure : (a : A) → Agrees (pure a)
  unfolding pure
  Agrees-pure a = record { at = λ s db h. record { other = db; same = refl; like = h } }

  pub Agrees-raise : (e : Exn) → Agrees (raise {A = A} e)
  unfolding raise
  Agrees-raise e = record { at = λ s db h. record { other = db; same = refl; like = h } }

  -- what is read is not to depend on the order
  pub Agrees-gets :
      (f : World → A)
      → ((s : World) (db : Database) → IsReordering s.db db → f (on db s) ≡ f s)
      → Agrees (gets f)
  unfolding gets
  Agrees-gets f e = record {
    at = λ s db h. record { other = db; same = rw (e s db h) refl; like = h };
  }

  pub Agrees-draw : (f : ℕ → A) → Agrees (draw f)
  unfolding draw
  Agrees-draw f = record { at = λ s db h. record { other = db; same = refl; like = h } }

  pub Agrees-if : (b : Bool) (m n : Exec A) → Agrees m → Agrees n → Agrees (if b then m else n)
  Agrees-if true m n km kn = km
  Agrees-if false m n km kn = kn

pub Agrees-raise_if : (c : Bool) (e : Exn) → Agrees (raise_if c e)
unfolding raise_if
Agrees-raise_if c e = record { at = λ s db h. record { other = db; same = refl; like = h } }

pub Agrees-modify :
    (f : Database → Database)
    → ((db db' : Database) → IsReordering db db' → IsReordering (f db) (f db'))
    → Agrees (modify f)
unfolding modify
Agrees-modify f keeps = record {
  at = λ s db h. record { other = f db; same = refl; like = keeps s.db db h };
}

module _ {ℓ μ} {A : Type ℓ} {B : Type μ} where
  pub Agrees-bind :
      (m : Exec A) (f : A → Exec B) → Agrees m → ((a : A) → Agrees (f a)) → Agrees (m >>= f)
  unfolding ◌>>=◌
  Agrees-bind m f km kf = record { at = λ s db h. next (m s) (m (on db s)) (km.at s db h) }
    where
      go :
          (r : Result A × World) (other : Database)
          → IsReordering r.1.db other
          → Follows (Run.continue f r) (Run.continue f (r.0, on other r.1))
      go (ok a, s) other h = (kf a).at s other h
      go (err e, s) other h = record { other = other; same = refl; like = h }

      next :
          (r r' : Result A × World) → Follows r r' → Follows (Run.continue f r) (Run.continue f r')
      next r r' h = rw h.same (go r h.other h.like)

refused-perm : {db db' : Database} → IsReordering db db' → flush_refused db' ≡ flush_refused db
unfolding flush_refused
refused-perm h = sym (any-perm (λ u. not (leb u.token_version int4_max)) h.rows.users)

module _ {ℓ} {A : Type ℓ} where
  settle-Follows :
      (before before' : Database) (r : Result A × World) (other : Database)
      → IsReordering before before'
      → IsReordering r.1.db other
      → Follows (settle before r) (settle before' (r.0, on other r.1))
  unfolding settle
  settle-Follows before before' (ok a, s) other start end = elim (Bool-cases (flush_refused s.db)) [
    | inl refused ↦
        rw (refused, refused-perm end ∙ refused)
          (record { other = before'; same = refl; like = start })
    | inr fits ↦
        rw (fits, refused-perm end ∙ fits) (record { other = other; same = refl; like = end })
  ]
  settle-Follows before before' (err e, s) other start end = record {
    other = before';
    same = refl;
    like = start;
  }

  pub Agrees-session_scope : (m : Exec A) → Agrees m → Agrees (session_scope m)
  unfolding session_scope
  Agrees-session_scope m km = record {
    at =
        λ s db h. let k = km.at s db h in rw k.same (settle-Follows s.db db (m s) k.other h k.like);
  }

pub ruleset agrees_rules =
    (Agrees-pure, Agrees-raise, Agrees-draw, Agrees-if, Agrees-raise_if, Agrees-bind)
