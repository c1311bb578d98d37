-- ===== src/Tests/Overlap.antt =====
-- Two refresh requests that overlap, and the exchange that one of them makes.
use gpca_v.Prelude.{false, true, some, List, [], ◌∷◌, ◌≡◌, refl}
use gpca_v.Errors.{refresh_rejected}
use gpca_v.Run.{ok, err, advanced, ◌>>=◌}
use gpca_v.Run.Scope.{session_scope, settle, flush_refused}
use gpca_v.Db.Models.{refresh_clash}
use gpca_v.Db.Table.{any, find, select, update}
use gpca_v.Db.Users.{by_id}
use gpca_v.Db.Users
use gpca_v.Db.RefreshTokens
use gpca_v.Db.RefreshTokens.{in_family, refresh_storable}
use gpca_v.Db.Lookup.{refresh_of}
use gpca_v.Security.Tokens.{issue_access_token, generate_refresh_token}
use gpca_v.Services.Auth.Serve.{Service}
use gpca_v.Services.Auth.Sessions.{
  TokenPair, rotate_row, rotate_refresh_token, issue_session, exchange, link,
}
use gpca_v.Services.Auth.Rotation.{issued_pair}
use gpca_v.Services.Auth.Replay.{row_spent}
use gpca_v.Services.Auth.Exchange.{successor, replaced, rotation_succeeds}
use gpca_v.Routes.Overlap.{Shared, Event, exchange_copy}
use gpca_v.Routes.Overlap.Contained.{first, second, third, overlap_contained}
use gpca_v.Tests.Demo.{demo, settings, start, ada, browser, live_row}
use gpca_v.Tests.Sessions.{start-IsWellFormed, live_known}

abbrev idle : Shared
idle = record { world = start; copies = [] }

-- two requests read the row of one token, and both go on
abbrev events : List Event
events =
    Event.reads "r"
    ∷ Event.reads "r"
    ∷ Event.commits 0 browser
    ∷ Event.calls (Service.revoke "x")
    ∷ Event.commits 0 browser
    ∷ []

abbrev mine : TokenPair
mine = ("tt", "ttttttttttttttt", 900)

abbrev theirs : TokenPair
theirs = ("tt", "tttttttttttttttttttttt", 900)

gets_a_pair :
    (exchange_copy demo settings
      (some live_row)
      browser
      (first demo settings "r" browser browser browser live_row idle start-IsWellFormed live_known
        [] [] []).world).0
    ≡ ok (some mine)
unfolding exchange_copy rotate_row exchange link issue_session issue_access_token
    generate_refresh_token session_scope settle flush_refused RefreshTokens.get_by_hash
    RefreshTokens.add RefreshTokens.insert RefreshTokens.assign by_id find select update any
    Users.get RefreshTokens.set_replaced_by ◌>>=◌
gets_a_pair = refl

gets_one_too :
    (exchange_copy demo settings
      (some live_row)
      browser
      (second demo settings "r" browser browser browser live_row idle start-IsWellFormed live_known
        [] [] []).world).0
    ≡ ok (some theirs)
unfolding exchange_copy rotate_row exchange link issue_session issue_access_token
    generate_refresh_token session_scope settle flush_refused RefreshTokens.get_by_hash
    RefreshTokens.add RefreshTokens.insert RefreshTokens.assign by_id find select update any
    Users.get RefreshTokens.set_replaced_by ◌>>=◌
gets_one_too = refl

-- with nothing before, between and after
overlap_contained_example :
    let s =
      (third demo settings "r" browser browser browser live_row idle start-IsWellFormed live_known
        [] [] []).world in
    let (r, s') = rotate_refresh_token demo settings "r" browser s in
    (r ≡ err refresh_rejected)
    × (any (in_family 7) s'.db.refresh_tokens ≡ false)
    × ((rotate_refresh_token demo settings "ttttttttttttttt" browser s').0 ≡ err refresh_rejected)
    × ((rotate_refresh_token demo settings "tttttttttttttttttttttt" browser s').0
        ≡ err refresh_rejected)
overlap_contained_example =
    overlap_contained demo settings "r" browser browser browser live_row idle start-IsWellFormed
      live_known [] [] [] mine theirs gets_a_pair gets_one_too

owner_known : by_id 1 start.db ≡ some ada
unfolding by_id find
owner_known = refl

row_fits :
    refresh_storable demo (successor demo settings live_row ada browser (advanced 1 start)) ≡ true
row_fits = refl

row_new :
    any
      (refresh_clash (successor demo settings live_row ada browser (advanced 1 start)))
      start.db.refresh_tokens
    ≡ false
unfolding any
row_new = refl

rotation_succeeds_example :
    let (r, s') = rotate_refresh_token demo settings "r" browser start in
    let pair = issued_pair demo settings ada (row_spent demo live_row (advanced 1 start)) in
    (r ≡ ok pair)
    × (refresh_of (demo.sha256 "r") s'.db
        ≡ some (
            replaced demo settings live_row ada browser start start-IsWellFormed refl refl
              owner_known refl row_fits row_new
              (refl, refl)
              "r"
              live_known))
    × (refresh_of (demo.sha256 pair.1) s'.db
        ≡ some (successor demo settings live_row ada browser (advanced 1 start)))
    × (s'.db.users ≡ start.db.users)
rotation_succeeds_example =
    rotation_succeeds demo settings live_row ada browser start start-IsWellFormed refl refl
      owner_known refl row_fits row_new (refl, refl) "r" live_known
