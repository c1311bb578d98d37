-- ===== src/Tests/Guards.antt =====
-- Access tokens and refused refresh tokens on the small database.
use gpca_v.Prelude.{ℕ, [], ◌∷◌, true, false, some, ◌≡◌, refl, ◌*◌, leb, ltb}
use gpca_v.Env.{Env, text, number, payload}
use gpca_v.Errors.{raise_unauthorized}
use gpca_v.Messages
use gpca_v.Run.{World, Exec, pure, ok, err, reading, advanced, ◌>>=◌}
use gpca_v.Run.Scope.{flush_refused, session_scope, settle}
use gpca_v.Db.Models.{User}
use gpca_v.Db.Table.{any, find, select, update}
use gpca_v.Db.Users
use gpca_v.Db.Users.{by_id}
use gpca_v.Db.RefreshTokens
use gpca_v.Db.RefreshTokens.{revoke_where}
use gpca_v.Db.Lookup.{refresh_of, auth_of}
use gpca_v.Security.Header.{lowers_to, before_space, strip, after_space}
use gpca_v.Security.Tokens.{AccessClaims, second, access_payload, issue_access_token}
use gpca_v.Security.Guards.{
  read_claims, bearer_token, decode_access_token, read_decoded, claims_of, load_current_user, admit,
  require_admin, require_role, require_verified_email,
}
use gpca_v.Security.RoundTrip.{issued_payload, issued_claims, expiry, issue-decode}
use gpca_v.Db.Enums.{admin}
use gpca_v.Security.Opened.{verification_opens}
use gpca_v.Services.Auth.Accounts.{verify_email, mark_verified}
use gpca_v.Services.Auth.SingleUse.{consume_single_use_token, check_row, redeem}
use gpca_v.Db.AuthTokens
use gpca_v.Security.Stale.{IsRefused, logout_ends_access}
use gpca_v.Services.Auth.Sessions.{revoke_all_sessions}
use gpca_v.Routes.Auth.{refresh_view}
use gpca_v.Routes.Refused.{exchangeable, refresh_refused}
use gpca_v.Tests.Demo.{demo, settings, start, ada, browser, verify_row}
use gpca_v.Tests.Sessions.{start-IsWellFormed}

-- an environment whose PyJWT knows one token
abbrev signer : Env
signer = record demo {
  jwt_encode = λ p secret. "token";
  jwt_decode = λ now token secret. payload (record {
    sub = text (demo.uuid_text 1);
    role = text "viewer";
    token_version = number 0;
    jti = text (demo.uuid4_hex 11);
    iat = number 5;
    exp = number 905;
  });
}

signer_decodes :
    (now : ℕ)
    → leb (signer.clock (reading 0 start)) now ≡ true
    → ltb now (expiry signer "s" 1 "viewer" 0 900 start * second) ≡ true
    → signer.jwt_decode now
        (signer.jwt_encode (issued_payload signer "s" 1 "viewer" 0 900 start) "s")
        "s"
      ≡ payload (issued_payload signer "s" 1 "viewer" 0 900 start)
unfolding access_payload
signer_decodes now issued early = refl

issue-decode_example :
    let (r, s') = issue_access_token signer "s" 1 "viewer" 0 900 start in
    (r ≡ ok ("token", 905000010))
    × (decode_access_token signer "s" "token" start
        ≡ (ok (issued_claims signer "s" 1 "viewer" 0 900 start), advanced 1 start))
issue-decode_example =
    issue-decode signer "s" 1 "viewer" 0 900 start refl signer_decodes refl start refl refl

abbrev left : World
left = (revoke_all_sessions demo ada start).1

abbrev claims : AccessClaims
claims = record {
  user_id = 1;
  role = text "viewer";
  token_version = 0;
  jti = text "j";
  expires_at = 9000000000;
}

claims_read : read_claims demo settings (some "Bearer t") left ≡ (ok claims, advanced 1 left)
unfolding read_claims bearer_token decode_access_token read_decoded claims_of lowers_to before_space
    strip after_space ◌>>=◌
claims_read = refl

ada_known : by_id 1 start.db ≡ some ada
unfolding by_id find
ada_known = refl

left_in_range : flush_refused left.db ≡ false
unfolding flush_refused any revoke_all_sessions RefreshTokens.revoke_all_for_user Users.assign
    update revoke_where ◌>>=◌
left_in_range = refl

logout_ends_access_example : IsRefused (load_current_user demo settings (some "Bearer t") left).0
logout_ends_access_example =
    logout_ends_access demo settings (some "Bearer t") ada ada claims start (advanced 1 left)
      ada_known left_in_range refl claims_read refl refl

start_in_range : flush_refused start.db ≡ false
unfolding flush_refused any
start_in_range = refl

spent_token : exchangeable 5000010 (refresh_of (demo.sha256 "q") start.db) start.db ≡ false
unfolding refresh_of find
spent_token = refl

refresh_refused_example :
    (refresh_view demo settings "q" browser start).0
    ≡ err (raise_unauthorized Messages.refresh_failed)
refresh_refused_example =
    refresh_refused demo settings browser start start_in_range "q" start-IsWellFormed spent_token

-- the account as an administrator's
abbrev admin_start : World
admin_start = record start { db = record start.db { users = record ada { role = admin } ∷ [] } }

abbrev own_id : User → Exec ℕ
own_id user s = (ok user.id, s)

admin_runs :
    require_admin demo settings (some "Bearer t") own_id admin_start
    ≡ (ok 1, advanced 1 admin_start)
unfolding require_admin require_role load_current_user admit session_scope settle flush_refused any
    Users.get by_id find read_claims bearer_token decode_access_token read_decoded claims_of
    lowers_to before_space strip after_space ◌>>=◌
admin_runs = refl

ada_stored : by_id 1 start.db ≡ some ada
unfolding by_id find
ada_stored = refl

verify_known : auth_of (demo.sha256 "v") start.db ≡ some verify_row
unfolding auth_of find
verify_known = refl

abbrev verified : World
verified = (verify_email demo "v" start).1

verified_in_range : flush_refused verified.db ≡ false
unfolding flush_refused any verify_email mark_verified consume_single_use_token check_row redeem
    AuthTokens.get_by_hash AuthTokens.assign Users.get Users.assign by_id find select update ◌>>=◌
verified_in_range = refl

verified_read :
    read_claims demo settings (some "Bearer t") verified ≡ (ok claims, advanced 1 verified)
unfolding read_claims bearer_token decode_access_token read_decoded claims_of lowers_to before_space
    strip after_space ◌>>=◌
verified_read = refl

-- a view that answers with the key of its account
abbrev shown : User → Exec ℕ
shown user = pure user.id

verification_opens_example :
    require_verified_email demo settings (some "Bearer t") shown verified
    ≡ (ok 1, advanced 1 verified)
unfolding pure
verification_opens_example =
    verification_opens demo settings (some "Bearer t") shown claims "v" verify_row ada start
      (advanced 1 verified) start-IsWellFormed verify_known ada_stored refl refl refl
      verified_in_range refl verified_read refl refl
