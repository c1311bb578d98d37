-- ===== src/Services/Auth/Preserve.antt =====
-- The services of api/app/services/auth.py and what is stable.
use gpca_v.Env.{Env}
use gpca_v.Errors.{Exn}
use gpca_v.Run.{World, Result, ok, err, Exec}
use gpca_v.Security.Guards.{catch}
use gpca_v.Run.Keeps.{
  Keeps, Keeps-session_scope, Keeps-pure, Keeps-raise, Keeps-draw, Keeps-raise_if, Keeps-if,
  Keeps-bind,
}
use gpca_v.Db.Models.{Database}
use gpca_v.Db.Stable.{IsStable}
use gpca_v.Db.Preserve.{
  Users_get-Sound, get_by_email-Sound, add_user-Sound, assign_user-Sound, get_refresh-Sound,
  add_refresh-Sound, assign_refresh-Sound, set_replaced_by-Sound, revoke_family-Sound,
  revoke_all_for_user-Sound, get_auth-Sound, add_auth-Sound, consume_auth-Sound,
  consume_outstanding-Sound,
}
use gpca_v.Services.Auth.Logic.{Logic}

module _ {A : Type 0} {P : Database → Type 0} where
  pub catch-Keeps : (f : Exn → Exn) (m : Exec A) → Keeps P m → Keeps P (λ s. catch f (m s))
  catch-Keeps f m km = record { at = λ s h. caught (m s) (km.at s h) }
    where
      caught : (r : Result A × World) → P r.1.db → P (catch f r).1.db
      caught (ok a, s) h = h
      caught (err e, s) h = h

abbrev pub keeping : (env : Env) {P : Database → Type 0} → IsStable env P → Logic env
keeping env {P} stable = record {
  Holds = λ A m. Keeps P m;
  of_pure = Keeps-pure;
  of_raise = Keeps-raise;
  of_draw = Keeps-draw;
  of_raise_if = Keeps-raise_if;
  of_if = Keeps-if;
  of_bind = Keeps-bind;
  of_scope = Keeps-session_scope;
  of_catch = catch-Keeps;
  of_email = λ message. record { at = λ s w. w };
  get_user = Users_get-Sound env stable;
  get_by_email = get_by_email-Sound env stable;
  add_user = add_user-Sound env stable;
  assign_user = assign_user-Sound env stable;
  get_refresh = get_refresh-Sound env stable;
  add_refresh = add_refresh-Sound env stable;
  assign_refresh = assign_refresh-Sound env stable;
  set_replaced_by = set_replaced_by-Sound env stable;
  revoke_family = revoke_family-Sound env stable;
  revoke_all_for_user = revoke_all_for_user-Sound env stable;
  get_auth = get_auth-Sound env stable;
  add_auth = add_auth-Sound env stable;
  consume_auth = consume_auth-Sound env stable;
  consume_outstanding = consume_outstanding-Sound env stable;
}
