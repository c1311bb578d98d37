-- ===== src/Routes/Overlap.antt =====
-- Requests that overlap. A refresh request reads the row of its token first, and the rest of its
-- transaction works on that copy: PostgreSQL's READ COMMITTED takes no lock for a SELECT, and
-- `rotate_refresh_token` asks for none. So a request is two steps here, the reading and the rest up to
-- the commit, and other requests may do any number of theirs in between.
pub mod Contained
use gpca_v.Prelude.{
  ℕ, zero, suc, String, Bool, true, false, Option, none, some, List, [], ◌∷◌, ◌++◌, ◌≡◌, refl,
  if◌then◌else◌,
}
use gpca_v.Env.{Env}
use gpca_v.Config.{Settings}
use gpca_v.Errors.{
  http, token_expired, token_invalid, authentication_failed, refresh_rejected, integrity_error,
  data_error, multiple_results, runtime_error,
}
use gpca_v.Run.{World, Result, ok, err, Exec}
use gpca_v.Run.Scope.{session_scope}
use gpca_v.Run.Keeps.{Keeps, Keeps-session_scope}
use gpca_v.Db.Models.{RefreshToken, Database}
use gpca_v.Db.RefreshTokens
use gpca_v.Db.Stable.{IsStable}
use gpca_v.Db.Preserve.{get_refresh-Sound}
use gpca_v.Security.Tokens.{hash_refresh_token}
use gpca_v.Services.Auth.Sessions.{TokenPair, Client, rotate_row}
use gpca_v.Services.Auth.Obey.{rotate_row-Obeys}
use gpca_v.Services.Auth.Preserve.{keeping}
use gpca_v.Services.Auth.Serve.{Service, serve, serve_keeps}
use gpca_v.Routes.Auth.{except_rejected}
use gpca_v.Routes.Keeping.{except-Keeps}

-- the copies that the requests under way have read, the latest first
pub record Shared : Type 0 where
  pub world : World
  pub copies : List (Option RefreshToken)

pub data Event : Type 0 where
  -- a refresh request reads the row of its token
  reads : String → Event
  -- the request of the n-th copy goes on to its commit
  commits : ℕ → Client → Event
  -- another service call from beginning to end
  calls : Service → Event

abbrev pub copy_at : ℕ → List (Option RefreshToken) → Option (Option RefreshToken)
copy_at n [] = none
copy_at zero (c ∷ cs) = some c
copy_at (suc n) (c ∷ cs) = copy_at n cs

abbrev pub without_copy : ℕ → List (Option RefreshToken) → List (Option RefreshToken)
without_copy n [] = []
without_copy zero (c ∷ cs) = cs
without_copy (suc n) (c ∷ cs) = c ∷ without_copy n cs

module _ (env : Env) (settings : Settings) where
  -- the transaction of the refresh endpoint from the copy on
  unfoldable pub exchange_copy : Option RefreshToken → Client → Exec (Option TokenPair)
  exchange_copy copy client =
      session_scope (λ s. except_rejected (rotate_row env settings copy client s))

  -- what a reading adds; a reading that raises ends its request
  abbrev pub read_copy : List (Option RefreshToken) → Result (Option RefreshToken) × World → Shared
  read_copy copies (ok copy, s) = record { world = s; copies = copy ∷ copies }
  read_copy copies (err e, s) = record { world = s; copies = copies }

  abbrev pub commit_copy : Option (Option RefreshToken) → Client → World → World
  commit_copy none client s = s
  commit_copy (some copy) client s = (exchange_copy copy client s).1

  abbrev pub step : Event → Shared → Shared
  step (reads token) x =
      read_copy x.copies (RefreshTokens.get_by_hash (hash_refresh_token env token) x.world)
  step (commits n client) x = record {
    world = commit_copy (copy_at n x.copies) client x.world;
    copies = without_copy n x.copies;
  }
  step (calls call) x = record x { world = serve env settings (call ∷ []) x.world }

  abbrev pub interleave : List Event → Shared → Shared
  interleave [] x = x
  interleave (e ∷ events) x = interleave events (step e x)

  module _ {P : Database → Type 0} (stable : IsStable env P) where
    pub exchange_copy-Sound :
        (copy : Option RefreshToken) (client : Client) → Keeps P (exchange_copy copy client)
    unfolding exchange_copy
    exchange_copy-Sound copy client =
        Keeps-session_scope _ (
          except-Keeps _
            (rotate_row-Obeys env settings {logic = keeping env stable} copy client).by)

    read_copy-Sound :
        (copies : List (Option RefreshToken)) (r : Result (Option RefreshToken) × World)
        → P r.1.db
        → P (read_copy copies r).world.db
    read_copy-Sound copies (ok copy, s) h = h
    read_copy-Sound copies (err e, s) h = h

    commit_copy-Sound :
        (copy : Option (Option RefreshToken)) (client : Client) (s : World)
        → P s.db
        → P (commit_copy copy client s).db
    commit_copy-Sound none client s h = h
    commit_copy-Sound (some copy) client s h = (exchange_copy-Sound copy client).at s h

    step-Sound : (e : Event) (x : Shared) → P x.world.db → P (step e x).world.db
    step-Sound (reads token) x h =
        read_copy-Sound x.copies (RefreshTokens.get_by_hash (hash_refresh_token env token) x.world)
          ((get_refresh-Sound env stable (hash_refresh_token env token)).at x.world h)
    step-Sound (commits n client) x h = commit_copy-Sound (copy_at n x.copies) client x.world h
    step-Sound (calls call) x h = serve_keeps env settings stable (call ∷ []) x.world h

    -- What is stable survives every interleaving.
    pub interleave_keeps :
        (events : List Event) (x : Shared) → P x.world.db → P (interleave events x).world.db
    interleave_keeps [] x h = h
    interleave_keeps (e ∷ events) x h = interleave_keeps events (step e x) (step-Sound e x h)
