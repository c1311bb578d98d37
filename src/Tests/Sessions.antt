-- ===== src/Tests/Sessions.antt =====
-- Refresh tokens and their rotation.
use gpca_v.Prelude.{ℕ, false, some, List, [], ◌∷◌, ◌≡◌, refl}
use mathlib.Core.Option
use gpca_v.Errors.{refresh_rejected}
use gpca_v.Run.{ok, err, ◌>>=◌}
use gpca_v.Db.Table.{any, find, select, update}
use gpca_v.Db.Table.Laws.{touch}
use gpca_v.Db.Users.{by_id}
use gpca_v.Db.Users
use gpca_v.Db.RefreshTokens
use gpca_v.Db.RefreshTokens.{in_family, revoked_now}
use gpca_v.Db.Integrity.{IsWellFormed}
use gpca_v.Db.Lookup.{refresh_of, auth_of}
use gpca_v.Security.Tokens.{issue_access_token, generate_refresh_token}
use gpca_v.Services.Auth.Sessions.{
  TokenPair, revoke_refresh_token, rotate_refresh_token, issue_session,
}
use gpca_v.Services.Auth.Reuse.{reuse_revokes_family}
use gpca_v.Services.Auth.Replay.{replay_kills_family, later}
use gpca_v.Services.Auth.Logout.{logout_for_good}
use gpca_v.Services.Auth.Serve.{Service, serve}
use gpca_v.Tests.Demo.{demo, settings, start, browser, live_row, spent_row, used_row}

pub start-IsWellFormed : IsWellFormed demo.citext_lower start.db
unfolding by_id find any
start-IsWellFormed = record {
  users = (tt, tt);
  refresh = ((refl, tt), (tt, tt));
  auth = ((refl, tt), (tt, tt));
  refresh_owned = (refl, (refl, tt));
  replaced = (refl, (refl, tt));
  auth_owned = (refl, (refl, tt));
}

pub live_known : refresh_of (demo.sha256 "r") start.db ≡ some live_row
unfolding refresh_of find
live_known = refl

pub spent_known : refresh_of (demo.sha256 "q") start.db ≡ some spent_row
unfolding refresh_of find
spent_known = refl

abbrev pair : TokenPair
pair = ("tt", "ttttttttttttttt", 900)

rotated : (rotate_refresh_token demo settings "r" browser start).0 ≡ ok pair
unfolding rotate_refresh_token issue_session issue_access_token generate_refresh_token
    RefreshTokens.get_by_hash RefreshTokens.add RefreshTokens.insert RefreshTokens.assign by_id find
    select update any ◌>>=◌ Users.get RefreshTokens.set_replaced_by
rotated = refl

-- logout and a login, between the rotation and the replay
abbrev pub calls : List Service
calls = Service.revoke "x" ∷ Service.authenticate_as "ada" "pw" browser ∷ []

reuse_revokes_family_example :
    let (r, s') = rotate_refresh_token demo settings "q" browser start in
    (r ≡ err refresh_rejected)
    × (any (in_family 7) s'.db.refresh_tokens ≡ false)
    × ((digest : ℕ)
        → refresh_of digest s'.db
          ≡ Option.map (touch (in_family 7) (revoked_now 5000010)) (refresh_of digest start.db))
    × (s'.db.users ≡ start.db.users)
    × (s'.db.auth_tokens ≡ start.db.auth_tokens)
    × (s'.pending ≡ [])
    × (s'.sent ≡ [])
reuse_revokes_family_example =
    reuse_revokes_family demo settings "q" browser start start-IsWellFormed spent_row spent_known
      refl

pub used_known : auth_of (demo.sha256 "u") start.db ≡ some used_row
unfolding auth_of find
used_known = refl

replay_kills_family_example :
    let s =
      later demo settings "r" browser browser live_row pair calls start start-IsWellFormed
        live_known rotated in
    let (r, s') = rotate_refresh_token demo settings "r" browser s in
    (r ≡ err refresh_rejected)
    × (any (in_family 7) s'.db.refresh_tokens ≡ false)
    × ((rotate_refresh_token demo settings "ttttttttttttttt" browser s').0 ≡ err refresh_rejected)
replay_kills_family_example =
    replay_kills_family demo settings "r" browser browser live_row pair calls start
      start-IsWellFormed live_known rotated

logout_for_good_example :
    ((revoke_refresh_token demo "r" start).0 ≡ ok tt)
    × ((rotate_refresh_token demo settings "r" browser
          (serve demo settings calls (revoke_refresh_token demo "r" start).1)).0
        ≡ err refresh_rejected)
logout_for_good_example =
    logout_for_good demo "r" start start-IsWellFormed live_row live_known settings calls browser
