-- ===== src/Routes/Logic.antt =====
-- What a logic of actions has to bring besides to hold of every view: the sending of the queued
-- emails, the `except` clause of the refresh endpoint, and the merge of an account.
use gpca_v.Env.{Env}
use gpca_v.Run.{Exec}
use gpca_v.Db.Models.{User}
use gpca_v.Services.Auth.Logic.{Logic, Obeys}
use gpca_v.Services.Auth.Mail.{flush_pending_emails}
use gpca_v.Services.Auth.Sessions.{TokenPair}
use gpca_v.Routes.Auth.{except_rejected, merge}

pub record ViewLogic (env : Env) : Type 1 where
  pub base : Logic env
  pub of_flush : Obeys base flush_pending_emails
  pub of_except : (m : Exec TokenPair) → Obeys base m → Obeys base (λ s. except_rejected (m s))
  pub of_merge : (user : User) → Obeys base (merge env user)
