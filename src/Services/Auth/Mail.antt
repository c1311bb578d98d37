-- ===== src/Services/Auth/Mail.antt =====
-- The email queue of api/app/services/auth.py, the lifetimes, and the hasher of the settings.
use gpca_v.Prelude.{ℕ, List, [], ◌∷◌, ◌++◌, ◌*◌}
use gpca_v.Env.{PasswordHasher}
use gpca_v.Config.{Settings}
use gpca_v.Run.{Email, Exec, ok, ◌>>=◌}
use gpca_v.Security.Passwords.{build_hasher}
use gpca_v.Security.Tokens.{second}

abbrev pub email_verify_ttl : ℕ
email_verify_ttl = 24 * 3600 * second

abbrev pub password_reset_ttl : ℕ
password_reset_ttl = 3600 * second

abbrev pub get_hasher : Settings → PasswordHasher
get_hasher settings =
    build_hasher settings.argon2_memory_cost_kib settings.argon2_time_cost
      settings.argon2_parallelism

-- `_deferred_email`: at the end of the queue on `g`
abbrev pub deferred_email : Email → Exec (Unit {0})
deferred_email message s = (ok tt, record s { pending = s.pending ++ message ∷ [] })

-- `g.pop(_QUEUE_KEY, [])`
abbrev pub pop_queue : Exec (List Email)
pop_queue s = (ok s.pending, record s { pending = [] })

-- `send_email` is taken as a record of the messages that it is called with: at this commit it only
-- logs them, and it ends without an exception when `current_app.config` has the settings
abbrev pub send_email : Email → Exec (Unit {0})
send_email message s = (ok tt, record s { sent = s.sent ++ message ∷ [] })

-- `try: ... except Exception: logger.exception(...)`: what was done stays done, and nothing is raised
abbrev pub attempt : Exec (Unit {0}) → Exec (Unit {0})
attempt m s = (ok tt, (m s).1)

-- the loop over the queue, which goes on after a message that failed
unfoldable pub send_each : List Email → Exec (Unit {0})
send_each [] s = (ok tt, s)
send_each (message ∷ rest) s = send_each rest (attempt (send_email message) s).1

unfoldable pub flush_pending_emails : Exec (Unit {0})
flush_pending_emails = do queue ← pop_queue; send_each queue
