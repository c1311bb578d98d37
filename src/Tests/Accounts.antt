-- ===== src/Tests/Accounts.antt =====
-- Single-use tokens, logout everywhere and password reset on the small database.
use mathlib.Core.Option
use gpca_v.Prelude.{ℕ, true, false, some, none, [], ◌∷◌, ◌≡◌, refl, ◌==◌, is_none, if◌then◌else◌}
use gpca_v.Run.{World, ok}
use gpca_v.Db.Enums.{email_verify, password_reset}
use gpca_v.Db.Models.{AuthToken, is_live_for}
use gpca_v.Db.Table.{any, find, select}
use gpca_v.Db.Users.{by_id}
use gpca_v.Db.RefreshTokens.{held_by}
use gpca_v.Db.Insert.{with_auth}
use gpca_v.Db.Integrity.{IsWellFormed}
use gpca_v.Db.Lookup.{auth_of}
use gpca_v.Services.Auth.Mail.{email_verify_ttl}
use gpca_v.Services.Auth.SingleUse.{issue_single_use_token, consume_single_use_token}
use gpca_v.Services.Auth.Sessions.{revoke_all_sessions}
use gpca_v.Services.Auth.Recovery.{reset_password}
use gpca_v.Services.Auth.Serve.{serve}
use gpca_v.Services.Auth.Redeem.{redeemed_once}
use gpca_v.Services.Auth.Accounts.{verify_email}
use gpca_v.Services.Auth.Verify.{verify_once}
use gpca_v.Services.Auth.Everywhere.{changed_notice, logout_everywhere, reset_ends_sessions}
use gpca_v.Services.Auth.Issue.{single_use_row, superseded, issue_supersedes}
use gpca_v.Tests.Demo.{demo, settings, start, ada, verify_row}
use gpca_v.Tests.Sessions.{start-IsWellFormed, calls}

ada_known : by_id 1 start.db ≡ some ada
unfolding by_id find
ada_known = refl

verify_known : auth_of (demo.sha256 "v") start.db ≡ some verify_row
unfolding auth_of find
verify_known = refl

redeemed_once_example :
    let s' = serve demo settings calls (consume_single_use_token demo "v" email_verify start).1 in
    ((consume_single_use_token demo "v" email_verify start).0 ≡ ok (some ada))
    × (consume_single_use_token demo "v" password_reset s' ≡ (ok none, s'))
redeemed_once_example =
    redeemed_once demo email_verify "v" start start-IsWellFormed verify_row ada verify_known
      ada_known refl calls settings password_reset

logout_everywhere_example :
    let (r, s') = revoke_all_sessions demo ada start in
    (r ≡ ok tt)
    × (any (held_by 1) s'.db.refresh_tokens ≡ false)
    × ((n : ℕ)
        → by_id n s'.db
          ≡ Option.map
              (λ u. if u.id == 1 then record u { token_version = 1 } else u)
              (by_id n start.db))
    × (s'.db.auth_tokens ≡ start.db.auth_tokens)
    × (s'.pending ≡ [])
logout_everywhere_example = logout_everywhere demo ada start

-- a live reset token "w"
abbrev reset_row : AuthToken
reset_row = record verify_row { id = 6; purpose = password_reset; token_hash = demo.sha256 "w" }

abbrev reset_start : World
reset_start = record start { db = record start.db { auth_tokens = reset_row ∷ [] } }

reset_start-IsWellFormed : IsWellFormed demo.citext_lower reset_start.db
unfolding by_id find any
reset_start-IsWellFormed = record {
  users = (tt, tt);
  refresh = ((refl, tt), (tt, tt));
  auth = (tt, tt);
  refresh_owned = (refl, (refl, tt));
  replaced = (refl, (refl, tt));
  auth_owned = (refl, tt);
}

reset_known : auth_of (demo.sha256 "w") reset_start.db ≡ some reset_row
unfolding auth_of find
reset_known = refl

reset_owner : by_id 1 reset_start.db ≡ some ada
unfolding by_id find
reset_owner = refl

reset_ends_sessions_example :
    let (r, s') = reset_password demo settings "w" "new" reset_start in
    (r ≡ ok true)
    × (by_id 1 s'.db ≡ some (record ada { password_hash = some "$new"; token_version = 1 }))
    × (any (held_by 1) s'.db.refresh_tokens ≡ false)
    × (s'.pending ≡ changed_notice ada ∷ [])
reset_ends_sessions_example =
    reset_ends_sessions demo settings "w" "new" reset_row ada reset_start reset_start-IsWellFormed
      reset_known reset_owner refl

ada_stored : is_none (by_id 1 start.db) ≡ false
unfolding by_id find
ada_stored = refl

fresh_id : any (λ (t : AuthToken). 113 == t.id) start.db.auth_tokens ≡ false
unfolding any
fresh_id = refl

fresh_digest :
    any
      (λ (t : AuthToken). demo.sha256 (demo.token_urlsafe 11) == t.token_hash)
      start.db.auth_tokens
    ≡ false
unfolding any
fresh_digest = refl

issue_supersedes_example :
    let (r, s') = issue_single_use_token demo 1 email_verify email_verify_ttl start in
    (r ≡ ok (demo.token_urlsafe 11))
    × (s'
        ≡ with_auth
            (single_use_row demo 1 email_verify email_verify_ttl start)
            (superseded demo 1 email_verify email_verify_ttl start))
    × (select (is_live_for 1 email_verify) s'.db.auth_tokens
        ≡ single_use_row demo 1 email_verify email_verify_ttl start ∷ [])
issue_supersedes_example =
    issue_supersedes demo 1 email_verify email_verify_ttl start ada_stored fresh_id fresh_digest

verify_once_example :
    let (r, s') = verify_email demo "v" start in
    (r ≡ ok true)
    × (by_id 1 s'.db ≡ some (record ada { email_verified_at = some 5000012 }))
    × ((verify_email demo "v" (serve demo settings calls s')).0 ≡ ok false)
verify_once_example =
    verify_once demo settings "v" verify_row ada start start-IsWellFormed verify_known ada_known
      refl calls
