-- ===== src/Routes/Orderless.antt =====
-- The views of api/app/routes/auth.py and the order of the rows.
use gpca_v.Prelude.{not, ◌&&◌, Option, none, some, refl, sym, ◌==◌}
use gpca_v.Env.{Env}
use gpca_v.Errors.{
  http, token_expired, token_invalid, authentication_failed, refresh_rejected, integrity_error,
  data_error, multiple_results, runtime_error, overflow_error,
}
use gpca_v.Run.{World, Result, ok, err, Exec}
use gpca_v.Run.Agrees.{on, Follows, Agrees, Agrees-gets, Agrees-bind, agrees_rules}
use gpca_v.Db.Models.{User, Database, user_clash}
use gpca_v.Db.Table.Order.{any-perm}
use gpca_v.Db.Reorder.{IsReordering}
use gpca_v.Db.Agree.{Users_get-Agrees, assign_row-Agrees, insert_user-Agrees}
use gpca_v.Services.Auth.Sessions.{TokenPair}
use gpca_v.Services.Auth.Orderless.{orderless, flush_pending_emails-Agrees}
use gpca_v.Routes.Auth.{except_rejected, merge, merge_row}
use gpca_v.Routes.Logic.{ViewLogic}

-- the outcome after the `except` clause of the refresh endpoint
except-Follows :
    (r : Result TokenPair × World) (other : Database)
    → IsReordering r.1.db other
    → Follows (except_rejected r) (except_rejected (r.0, on other r.1))
except-Follows (ok issued, s) other h = record { other = other; same = refl; like = h }
except-Follows (err (http e), s) other h = record { other = other; same = refl; like = h }
except-Follows (err token_expired, s) other h = record { other = other; same = refl; like = h }
except-Follows (err token_invalid, s) other h = record { other = other; same = refl; like = h }
except-Follows (err authentication_failed, s) other h = record {
  other = other;
  same = refl;
  like = h;
}
except-Follows (err refresh_rejected, s) other h = record { other = other; same = refl; like = h }
except-Follows (err integrity_error, s) other h = record { other = other; same = refl; like = h }
except-Follows (err data_error, s) other h = record { other = other; same = refl; like = h }
except-Follows (err multiple_results, s) other h = record { other = other; same = refl; like = h }
except-Follows (err runtime_error, s) other h = record { other = other; same = refl; like = h }
except-Follows (err overflow_error, s) other h = record { other = other; same = refl; like = h }

pub except-Agrees : (m : Exec TokenPair) → Agrees m → Agrees (λ s. except_rejected (m s))
except-Agrees m km = record {
  at = λ s db h. let k = km.at s db h in rw k.same (except-Follows (m s) k.other k.like);
}

module _ (env : Env) where
  merge_row-Agrees : (user : User) (row : Option User) → Agrees (merge_row env user row)
  unfolding merge_row
  merge_row-Agrees user none = insert_user-Agrees env user
  merge_row-Agrees user (some row) =
      Agrees-bind _ _
        (Agrees-gets _ λ s db h. sym (
          any-perm (λ v. not (v.id == user.id) && user_clash env.citext_lower user v) h.rows.users))
        λ clash. Agrees-bind _ _ (search agrees_rules) λ _. assign_row-Agrees user

  pub merge-Agrees : (user : User) → Agrees (merge env user)
  unfolding merge
  merge-Agrees user = Agrees-bind _ _ (Users_get-Agrees user.id) (merge_row-Agrees user)

abbrev pub orderless_views : (env : Env) → ViewLogic env
orderless_views env = record {
  base = orderless env;
  of_flush = record { by = flush_pending_emails-Agrees };
  of_except = λ m h. record { by = except-Agrees m h.by };
  of_merge = λ user. record { by = merge-Agrees env user };
}
