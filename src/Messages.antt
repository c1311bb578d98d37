-- ===== src/Messages.antt =====
-- api/app/messages.py: the texts that a client can read.
use gpca_v.Prelude.{String}

abbrev pub accepted : String
accepted = "If that address can be registered, we have sent a message to it."

abbrev pub login_failed : String
login_failed = "Those credentials are not valid."

abbrev pub verify_failed : String
verify_failed = "That verification link is not valid. Request a new one."

abbrev pub verified : String
verified = "Your email address is verified."

abbrev pub refresh_failed : String
refresh_failed = "That refresh token is not valid. Sign in again."

abbrev pub reset_requested : String
reset_requested = "If that address has an account, we have sent a reset link to it."

abbrev pub reset_done : String
reset_done = "Your password has been changed. Sign in again."

abbrev pub reset_failed : String
reset_failed = "That reset link is not valid or has expired. Request a new one."
