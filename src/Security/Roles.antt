-- ===== src/Security/Roles.antt =====
-- The role guards: a view that an administrator's guard lets run is let run by every weaker guard.
use gpca_v.Prelude.{String, Option, ◌≡◌, ltb}
use gpca_v.Env.{Env}
use gpca_v.Config.{Settings}
use gpca_v.Errors.{raise_forbidden}
use gpca_v.Run.{World, Result, ok, err, Exec, continue, raise_if, ◌>>=◌, ◌>>◌}
use gpca_v.Db.Enums.{UserRole, viewer, member, admin}
use gpca_v.Db.Models.{User}
use gpca_v.Security.Guards.{
  role_rank, role_required, load_current_user, require_auth, require_role, require_admin,
}

module _ {A : Type 0} (view : User → Exec A) where
  -- what a role guard does with the account, by its role
  abbrev checked : UserRole → UserRole → User → Exec A
  checked minimum role user = do
    raise_if (ltb (role_rank role) (role_rank minimum)) (raise_forbidden (role_required minimum))
    view user

  by_role :
      (minimum role : UserRole) (user : User) (a : A) (s s' : World)
      → checked admin role user s ≡ (ok a, s')
      → (checked minimum role user s ≡ (ok a, s')) × (view user s ≡ (ok a, s'))
  unfolding ◌>>=◌
  by_role minimum viewer user a s s' h = cc
  by_role minimum member user a s s' h = cc
  by_role viewer admin user a s s' h = (h, h)
  by_role member admin user a s s' h = (h, h)
  by_role admin admin user a s s' h = (h, h)

  by_account :
      (minimum : UserRole) (a : A) (s' : World) (p : Result User × World)
      → continue (λ user. checked admin user.role user) p ≡ (ok a, s')
      → (continue (λ user. checked minimum user.role user) p ≡ (ok a, s'))
        × (continue view p ≡ (ok a, s'))
  by_account minimum a s' (ok user, s) h = by_role minimum user.role user a s s' h
  by_account minimum a s' (err e, s) h = cc

  -- A view that the administrators' guard lets run to a value has the same outcome under the guard of
  -- every role and under the guard that asks for no role.
  pub admin_passes_all :
      (env : Env) (settings : Settings) (authorization : Option String) (minimum : UserRole) (a : A)
      (s s' : World)
      → require_admin env settings authorization view s ≡ (ok a, s')
      → (require_role env settings authorization minimum view s ≡ (ok a, s'))
        × (require_auth env settings authorization view s ≡ (ok a, s'))
  unfolding require_admin require_role require_auth ◌>>=◌
  admin_passes_all env settings authorization minimum a s s' h =
      by_account minimum a s' (load_current_user env settings authorization s) h
