-- ===== src/Services/Auth/Orderless.antt =====
-- The services of api/app/services/auth.py and the order of the rows.
use gpca_v.Prelude.{List, [], ◌∷◌, refl}
use gpca_v.Env.{Env}
use gpca_v.Run.{Email, ◌>>=◌}
use gpca_v.Run.Agrees.{
  Agrees, Agrees-pure, Agrees-raise, Agrees-draw, Agrees-raise_if, Agrees-if, Agrees-bind,
}
use gpca_v.Db.Agree.{
  Users_get-Agrees, get_by_email-Agrees, add_user-Agrees, assign_user-Agrees, get_refresh-Agrees,
  add_refresh-Agrees, assign_refresh-Agrees, set_replaced_by-Agrees, revoke_family-Agrees,
  revoke_all_for_user-Agrees, get_auth-Agrees, add_auth-Agrees, consume_auth-Agrees,
  consume_outstanding-Agrees,
}
use gpca_v.Services.Auth.Mail.{send_each, send_email, flush_pending_emails}
use gpca_v.Services.Auth.Logic.{Logic}
use gpca_v.Errors.{Exn}
use gpca_v.Run.{World, Result, ok, err, Exec}
use gpca_v.Run.Agrees.{on, Follows, Agrees-session_scope}
use gpca_v.Security.Guards.{catch}
use gpca_v.Db.Models.{Database}
use gpca_v.Db.Reorder.{IsReordering}

module _ {ℓ} {A : Type ℓ} where
  -- an `except` clause that raises another exception
  pub catch-Agrees : (f : Exn → Exn) (m : Exec A) → Agrees m → Agrees (λ s. catch f (m s))
  catch-Agrees f m km = record { at = λ s db h. caught (m s) (m (on db s)) (km.at s db h) }
    where
      go :
          (r : Result A × World) (other : Database)
          → IsReordering r.1.db other
          → Follows (catch f r) (catch f (r.0, on other r.1))
      go (ok a, s) other h = record { other = other; same = refl; like = h }
      go (err e, s) other h = record { other = other; same = refl; like = h }

      caught : (r r' : Result A × World) → Follows r r' → Follows (catch f r) (catch f r')
      caught r r' h = rw h.same (go r h.other h.like)

abbrev pub orderless : (env : Env) → Logic env
orderless env = record {
  Holds = λ A m. Agrees m;
  of_pure = Agrees-pure;
  of_raise = Agrees-raise;
  of_draw = Agrees-draw;
  of_raise_if = Agrees-raise_if;
  of_if = Agrees-if;
  of_bind = Agrees-bind;
  of_scope = Agrees-session_scope;
  of_catch = catch-Agrees;
  of_email = λ message. record { at = λ s db h. record { other = db; same = refl; like = h } };
  get_user = Users_get-Agrees;
  get_by_email = get_by_email-Agrees env;
  add_user = add_user-Agrees env;
  assign_user = λ f user_id keeps. assign_user-Agrees f user_id (λ u. (keeps u).0);
  get_refresh = get_refresh-Agrees;
  add_refresh = add_refresh-Agrees env;
  assign_refresh = λ f id keeps same. assign_refresh-Agrees f id;
  set_replaced_by = set_replaced_by-Agrees;
  revoke_family = revoke_family-Agrees env;
  revoke_all_for_user = revoke_all_for_user-Agrees env;
  get_auth = get_auth-Agrees;
  add_auth = add_auth-Agrees env;
  consume_auth = consume_auth-Agrees;
  consume_outstanding = consume_outstanding-Agrees env;
}

send_each-Agrees : (queue : List Email) → Agrees (send_each queue)
unfolding send_each
send_each-Agrees [] = record { at = λ s db h. record { other = db; same = refl; like = h } }
send_each-Agrees (message ∷ rest) = record {
  at = λ s db h. (send_each-Agrees rest).at (send_email message s).1 db h;
}

pub flush_pending_emails-Agrees : Agrees flush_pending_emails
unfolding flush_pending_emails ◌>>=◌
flush_pending_emails-Agrees = record {
  at = λ s db h. (send_each-Agrees s.pending).at (record s { pending = [] }) db h;
}
