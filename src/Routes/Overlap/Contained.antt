-- ===== src/Routes/Overlap/Contained.antt =====
-- Two refresh requests that have read the same row.
use gpca_v.Prelude.{String, false, some, List, ◌≡◌, refl, leb, suc, is_some, Bool-cases, inl, inr}
use gpca_v.Env.{Env}
use gpca_v.Config.{Settings}
use gpca_v.Errors.{
  http, token_expired, token_invalid, authentication_failed, refresh_rejected, integrity_error,
  data_error, multiple_results, runtime_error, overflow_error,
}
use gpca_v.Run.{World, Result, ok, err, ◌>>=◌}
use gpca_v.Run.Scope.{session_scope, settle, flush_refused}
use gpca_v.Db.Models.{RefreshToken, Database}
use gpca_v.Db.Table.{any}
use gpca_v.Db.Users
use gpca_v.Db.Users.{by_id}
use gpca_v.Db.RefreshTokens
use gpca_v.Db.RefreshTokens.{revoked_now, in_family}
use gpca_v.Db.Stable.{IsStable}
use gpca_v.Db.Integrity.{IsWellFormed, IsWellFormed-IsStable}
use gpca_v.Db.Lookup.{refresh_of}
use gpca_v.Services.Auth.Sessions.{TokenPair, Client, rotate_row, rotate_refresh_token}
use gpca_v.Services.Auth.Finality.{IsRevoked, IsRevoked-IsStable, IsInFamily-IsStable}
use gpca_v.Services.Auth.Replay.{
  Rotated, IsReadFrom, IsReadFrom-IsStable, exchange-Rotated, family_dies,
}
use gpca_v.Routes.Auth.{except_rejected}
use gpca_v.Routes.Overlap.{
  Shared, Event, exchange_copy, exchange_copy-Sound, interleave, interleave_keeps,
}

module _ (env : Env) (settings : Settings) (token : String) (client : Client)
    (row : RefreshToken) where
  -- the rest of a rotation from the copy on
  rotate_row-Rotated :
      (s : World) (pair : TokenPair)
      → IsReadFrom (env.sha256 token) row s.db
      → (rotate_row env settings (some row) client s).0 ≡ ok pair
      → Rotated env token row.family_id pair (rotate_row env settings (some row) client s).1.db
  unfolding rotate_row RefreshTokens.revoke_family Users.get ◌>>=◌
  rotate_row-Rotated s pair known = elim (Bool-cases (is_some row.revoked_at)) [
    | inl used ↦ rw used (λ h. cc)
    | inr live ↦ elim (Bool-cases (leb row.expires_at (env.clock s.draws))) [
      | inl late ↦ rw (live, late) (λ h. cc)
      | inr early ↦
          rw (live, early)
            (exchange-Rotated env settings token client row (record s { draws = suc s.draws })
              (by_id row.user_id s.db) pair known)
    ]
  ]

  -- what is committed when a pair is returned is what the rest of the rotation has done
  committed :
      (P : Database → Type 0) (before : Database) (r : Result TokenPair × World) (pair : TokenPair)
      → (r.0 ≡ ok pair → P r.1.db)
      → (settle before (except_rejected r)).0 ≡ ok (some pair)
      → P (settle before (except_rejected r)).1.db
  unfolding settle
  committed P before (ok issued, s) pair p = elim (Bool-cases (flush_refused s.db)) [
    | inl refused ↦ rw refused (λ h. cc)
    | inr fits ↦ rw fits (λ h. p cc)
  ]
  committed P before (err refresh_rejected, s) pair p = elim (Bool-cases (flush_refused s.db)) [
    | inl refused ↦ rw refused (λ h. cc)
    | inr fits ↦ rw fits (λ h. cc)
  ]
  committed P before (err (http e), s) pair p = λ h. cc
  committed P before (err token_expired, s) pair p = λ h. cc
  committed P before (err token_invalid, s) pair p = λ h. cc
  committed P before (err authentication_failed, s) pair p = λ h. cc
  committed P before (err integrity_error, s) pair p = λ h. cc
  committed P before (err data_error, s) pair p = λ h. cc
  committed P before (err multiple_results, s) pair p = λ h. cc
  committed P before (err runtime_error, s) pair p = λ h. cc
  committed P before (err overflow_error, s) pair p = λ h. cc

  copy-Rotated :
      (s : World) (pair : TokenPair)
      → IsReadFrom (env.sha256 token) row s.db
      → (exchange_copy env settings (some row) client s).0 ≡ ok (some pair)
      → Rotated env token row.family_id pair (exchange_copy env settings (some row) client s).1.db
  unfolding exchange_copy session_scope
  copy-Rotated s pair known =
      committed (Rotated env token row.family_id pair) s.db
        (rotate_row env settings (some row) client s) pair (rotate_row-Rotated s pair known)

module _ (env : Env) (settings : Settings) (token : String) (a b again : Client)
    (row : RefreshToken) (x : Shared) (w : IsWellFormed env.citext_lower x.world.db)
    (read : refresh_of (env.sha256 token) x.world.db ≡ some row)
    (before between after : List Event) where
  -- the world in which the first of the two requests goes on, the one in which the second does, and
  -- the one in which the token is presented once more
  abbrev pub first : Shared
  first = interleave env settings before x

  abbrev pub second : Shared
  second =
      interleave env settings between
        (record first { world = (exchange_copy env settings (some row) a first.world).1 })

  abbrev pub third : Shared
  third =
      interleave env settings after
        (record second { world = (exchange_copy env settings (some row) b second.world).1 })

  module _ {P : Database → Type 0} (stable : IsStable env P) where
    first-Keeps : P x.world.db → P first.world.db
    first-Keeps h = interleave_keeps env settings stable before x h

    second-Keeps : P (exchange_copy env settings (some row) a first.world).1.db → P second.world.db
    second-Keeps h = interleave_keeps env settings stable between _ h

    third-Keeps : P (exchange_copy env settings (some row) b second.world).1.db → P third.world.db
    third-Keeps h = interleave_keeps env settings stable after _ h

    past_first : P first.world.db → P second.world.db
    past_first h =
        second-Keeps ((exchange_copy-Sound env settings stable (some row) a).at first.world h)

    past_second : P second.world.db → P third.world.db
    past_second h =
        third-Keeps ((exchange_copy-Sound env settings stable (some row) b).at second.world h)

  third-IsWellFormed : IsWellFormed env.citext_lower third.world.db
  third-IsWellFormed =
      past_second (IsWellFormed-IsStable env)
        (past_first (IsWellFormed-IsStable env) (first-Keeps (IsWellFormed-IsStable env) w))

  first_read : IsReadFrom (env.sha256 token) row first.world.db
  first_read = first-Keeps (IsReadFrom-IsStable env (env.sha256 token) row) (row, read, refl, refl)

  module _ (mine theirs : TokenPair)
      (got : (exchange_copy env settings (some row) a first.world).0 ≡ ok (some mine))
      (got_too : (exchange_copy env settings (some row) b second.world).0 ≡ ok (some theirs)) where
    mine_then :
        Rotated env token row.family_id mine
          (exchange_copy env settings (some row) a first.world).1.db
    mine_then = copy-Rotated env settings token a row first.world mine first_read got

    theirs_then :
        Rotated env token row.family_id theirs
          (exchange_copy env settings (some row) b second.world).1.db
    theirs_then =
        copy-Rotated env settings token b row second.world theirs
          (past_first (IsReadFrom-IsStable env (env.sha256 token) row) first_read) got_too

    spent_at_last : IsRevoked (env.sha256 token) row.family_id third.world.db
    spent_at_last = third-Keeps (IsRevoked-IsStable env _ _) theirs_then.0

    -- Two requests read the same row of a refresh token, and each gets a pair, with any events before,
    -- between and after their commits. When the token is presented once more it is refused, no token of
    -- its family is live afterwards, and the refresh tokens of both pairs are refused.
    pub overlap_contained :
        let (r, s') = rotate_refresh_token env settings token again third.world in
        (r ≡ err refresh_rejected)
        × (any (in_family row.family_id) s'.db.refresh_tokens ≡ false)
        × ((rotate_refresh_token env settings mine.1 again s').0 ≡ err refresh_rejected)
        × ((rotate_refresh_token env settings theirs.1 again s').0 ≡ err refresh_rejected)
    overlap_contained =
        let (refused, dead, no_more) =
          family_dies env settings token mine.1 again row.family_id third.world third-IsWellFormed
            spent_at_last
            (past_second (IsInFamily-IsStable env _ _)
              (second-Keeps (IsInFamily-IsStable env _ _) mine_then.1)) in
        let (_, _, nor_theirs) =
          family_dies env settings token theirs.1 again row.family_id third.world third-IsWellFormed
            spent_at_last (third-Keeps (IsInFamily-IsStable env _ _) theirs_then.1) in
        (refused, dead, no_more, nor_theirs)
