-- ===== src/Run/Scope.antt =====
-- `session_scope` of api/app/extensions.py: a transaction around a unit of work.
use gpca_v.Prelude.{ℕ, Bool, ◌^◌, ◌-◌, leb, not, if◌then◌else◌}
use gpca_v.Errors.{data_error}
use gpca_v.Db.Models.{Database}
use gpca_v.Db.Table.{any}
use gpca_v.Run.{World, Result, ok, err, Exec}

-- the largest value of a PostgreSQL `integer`
abbrev pub int4_max : ℕ
int4_max = 2 ^ 31 - 1

-- What the flush of a commit refuses: a `token_version` that has outgrown its column. The other
-- constraints are met at the INSERT, which flushes at once.
unfoldable pub flush_refused : Database → Bool
flush_refused db = any (λ u. not (leb u.token_version int4_max)) db.users

-- the end of the `with` block: commit, or roll back to the database at its beginning and re-raise
unfoldable pub settle {ℓ} : {A : Type ℓ} → Database → Result A × World → Result A × World
settle before (ok a, s) =
    if flush_refused s.db then (err data_error, record s { db = before }) else (ok a, s)
settle before (err e, s) = (err e, record s { db = before })

unfoldable pub session_scope {ℓ} : {A : Type ℓ} → Exec A → Exec A
unfolding settle
session_scope body s = settle s.db (body s)
