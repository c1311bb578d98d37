-- ===== src/App/Health.antt =====
-- api/app/routes/health.py, and `is_reachable` of db/gpca_db/session.py.
use gpca_v.Prelude.{ℕ, String, Bool, true, false, ◌&&◌, List, [], ◌∷◌, if◌then◌else◌}
use gpca_v.Run.{Exec, pure, draw, ◌>>=◌}
use gpca_v.Responses.{Response, respond, ok_response, health_status, readiness_status}

-- how `SELECT 1` over a fresh connection ends: it is executed, or raises an SQLAlchemyError
pub data Connection : Type 0 where
  executed sqlalchemy_error : Connection

abbrev pub is_reachable : Connection → Bool
is_reachable executed = true
is_reachable sqlalchemy_error = false

-- `all(checks.values())`
abbrev pub all_pass : List (String × Bool) → Bool
all_pass [] = true
all_pass ((name, passed) ∷ rest) = passed && all_pass rest

unfoldable pub liveness : Exec Response
liveness = pure (ok_response (health_status "ok"))

-- `connect` is what a connection attempt meets
unfoldable pub readiness : (ℕ → Connection) → Exec Response
readiness connect = do
  reachable ← draw (λ n. is_reachable (connect n))
  let checks = ("database", reachable) ∷ []
  pure (
      respond (readiness_status (if all_pass checks then "ready" else "degraded") checks)
        (if all_pass checks then 200 else 503))
