-- ===== src/Routes/Keeping.antt =====
-- The views of api/app/routes/auth.py and the constraints of the schema.
use gpca_v.Prelude.{Option, none, some, List, [], ◌∷◌, ◌==◌, Bool-cases, inl, inr}
use gpca_v.Env.{Env}
use gpca_v.Errors.{
  http, token_expired, token_invalid, authentication_failed, refresh_rejected, integrity_error,
  data_error, multiple_results, runtime_error, overflow_error,
}
use gpca_v.Run.{Email, World, Result, ok, err, Exec, ◌>>=◌}
use gpca_v.Run.Keeps.{Keeps, Keeps-bind}
use gpca_v.Db.Models.{User, Database, user_clash}
use gpca_v.Db.Table.Replace.{others_clash}
use gpca_v.Db.Overwrite.{overwrite-IsWellFormed}
use gpca_v.Db.Integrity.{IsWellFormed, IsWellFormed-IsStable}
use gpca_v.Db.Preserve.{Users_get-Sound, insert_user-Sound}
use gpca_v.Services.Auth.Mail.{send_each, send_email, flush_pending_emails}
use gpca_v.Services.Auth.Sessions.{TokenPair}
use gpca_v.Services.Auth.Preserve.{keeping}
use gpca_v.Routes.Auth.{except_rejected, merge, merge_row}
use gpca_v.Routes.Logic.{ViewLogic}

excepted :
    (P : Database → Type 0) (r : Result TokenPair × World) → P r.1.db → P (except_rejected r).1.db
excepted P (ok issued, s) h = h
excepted P (err refresh_rejected, s) h = h
excepted P (err (http e), s) h = h
excepted P (err token_expired, s) h = h
excepted P (err token_invalid, s) h = h
excepted P (err authentication_failed, s) h = h
excepted P (err integrity_error, s) h = h
excepted P (err data_error, s) h = h
excepted P (err multiple_results, s) h = h
excepted P (err runtime_error, s) h = h
excepted P (err overflow_error, s) h = h

module _ {P : Database → Type 0} where
  pub except-Keeps : (m : Exec TokenPair) → Keeps P m → Keeps P (λ s. except_rejected (m s))
  except-Keeps m km = record { at = λ s h. excepted P (m s) (km.at s h) }

  send_each-Keeps : (queue : List Email) → Keeps P (send_each queue)
  unfolding send_each
  send_each-Keeps [] = record { at = λ s h. h }
  send_each-Keeps (message ∷ rest) = record {
    at = λ s h. (send_each-Keeps rest).at (send_email message s).1 h;
  }

  pub flush-Keeps : Keeps P flush_pending_emails
  unfolding flush_pending_emails ◌>>=◌
  flush-Keeps = record { at = λ s h. (send_each-Keeps s.pending).at (record s { pending = [] }) h }

module _ (env : Env) where
  merge_row-Keeps :
      (user : User) (row : Option User)
      → Keeps (IsWellFormed env.citext_lower) (merge_row env user row)
  unfolding merge_row ◌>>=◌
  merge_row-Keeps user none = insert_user-Sound env (IsWellFormed-IsStable env) user
  merge_row-Keeps user (some row) = record {
    at = λ s w.
        elim (Bool-cases
          (others_clash (user_clash env.citext_lower) (λ v. v.id == user.id) user s.db.users)) [
            | inl clash ↦ rw clash w
            | inr free ↦ rw free (overwrite-IsWellFormed env.citext_lower user s.db free w)
          ];
  }

  pub merge-Keeps : (user : User) → Keeps (IsWellFormed env.citext_lower) (merge env user)
  unfolding merge
  merge-Keeps user =
      Keeps-bind _ _ (Users_get-Sound env (IsWellFormed-IsStable env) user.id)
        (merge_row-Keeps user)

abbrev pub keeping_views : (env : Env) → ViewLogic env
keeping_views env = record {
  base = keeping env (IsWellFormed-IsStable env);
  of_flush = record { by = flush-Keeps };
  of_except = λ m h. record { by = except-Keeps m h.by };
  of_merge = λ user. record { by = merge-Keeps env user };
}
