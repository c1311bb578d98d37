-- ===== src/Security/Lifetime.antt =====
-- How long an access token opens the guarded endpoints.
use Prim.Native.String.{◌∷◌}
use gpca_v.Prelude.{
  ℕ, String, true, false, some, ◌≡◌, refl, arith, ◌+◌, ◌*◌, ◌/◌, ltb, leb, is_some, ==_refl, ◌∙◌,
}
use gpca_v.Env.{Env, Payload, payload}
use gpca_v.Config.{Settings}
use gpca_v.Run.{World, ok, reading, advanced, ◌>>=◌}
use gpca_v.Run.Scope.{flush_refused}
use gpca_v.Db.Enums.{is_active}
use gpca_v.Db.Models.{User}
use gpca_v.Db.Users.{by_id}
use gpca_v.Security.Header.{strip, is_empty, before_space, after_space, lowers_to, bearer_codes}
use gpca_v.Security.Tokens.{second, max_timestamp, AccessClaims}
use gpca_v.Security.Guards.{read_claims, decode_access_token, bearer_token, load_current_user}
use gpca_v.Security.RoundTrip.{issued_payload, issued_claims, expiry, issue-decode}
use gpca_v.Security.Admission.{guard_verdict}

-- the token is kept whole for its lifetime less the second that the expiry is rounded down by
before_expiry :
    (clock now ttl_seconds exp : ℕ)
    → exp ≡ (now + ttl_seconds * second) / second
    → leb (clock + second) (now + ttl_seconds * second) ≡ true
    → ltb clock (exp * second) ≡ true
before_expiry clock now ttl_seconds exp e h = ground arith

-- the header "Bearer ", and a token
abbrev pub bearer : String → String
bearer token = "B" ∷ "e" ∷ "a" ∷ "r" ∷ "e" ∷ "r" ∷ " " ∷ token

before_bearer : (token : String) → lowers_to bearer_codes (before_space (bearer token)) ≡ true
unfolding before_space lowers_to
before_bearer token = refl

after_bearer : (token : String) → after_space (bearer token) ≡ token
unfolding after_space
after_bearer token = refl

module _ (env : Env) (settings : Settings) (user : User) (role : String) (ttl_seconds : ℕ)
    (s : World) where
  -- what is issued for the account by the settings' secret, and its last second
  abbrev pub signed_payload : Payload
  signed_payload =
      issued_payload env settings.jwt_secret user.id role user.token_version ttl_seconds s

  abbrev pub signed : String
  signed = env.jwt_encode signed_payload settings.jwt_secret

  abbrev pub signed_claims : AccessClaims
  signed_claims =
      issued_claims env settings.jwt_secret user.id role user.token_version ttl_seconds s

  abbrev pub deadline : ℕ
  deadline = expiry env settings.jwt_secret user.id role user.token_version ttl_seconds s

  bearer-signed :
      strip signed ≡ signed
      → is_empty signed ≡ false
      → (later : World) → bearer_token (some (bearer signed)) later ≡ (ok signed, later)
  unfolding bearer_token ◌>>=◌
  bearer-signed trimmed filled later =
      rw (before_bearer signed, after_bearer signed, trimmed, filled) refl

  module _ (uuid_round : env.uuid_parse (env.uuid_text user.id) ≡ some user.id)
      (jwt_round : (now : ℕ)
        → leb (env.clock (reading 0 s)) now ≡ true
        → ltb now (deadline * second) ≡ true
        → env.jwt_decode now signed settings.jwt_secret ≡ payload signed_payload)
      (in_range : leb deadline max_timestamp ≡ true) (trimmed : strip signed ≡ signed)
      (filled : is_empty signed ≡ false) where
    decoded :
        (later : World)
        → leb (env.clock (reading 0 s)) (env.clock later.draws) ≡ true
        → ltb (env.clock later.draws) (deadline * second) ≡ true
        → decode_access_token env settings.jwt_secret signed later
          ≡ (ok signed_claims, advanced 1 later)
    decoded later issued early =
        (issue-decode env settings.jwt_secret user.id role user.token_version ttl_seconds s
          uuid_round jwt_round in_range later issued early).1

    claims_read :
        (later : World)
        → leb (env.clock (reading 0 s)) (env.clock later.draws) ≡ true
        → ltb (env.clock later.draws) (deadline * second) ≡ true
        → read_claims env settings (some (bearer signed)) later
          ≡ (ok signed_claims, advanced 1 later)
    unfolding read_claims ◌>>=◌
    claims_read later issued early =
        rw (bearer-signed trimmed filled later, decoded later issued early) refl

    -- An access token that is issued for an account opens the guard, in the header "Bearer " and the
    -- token, from its issuing on for its lifetime less one second: as long as the stored account is
    -- active, not deleted and of the same token version, the guard returns the account. PyJWT is supposed
    -- to decode what it has encoded between the issuing and the expiry, UUID to parse what str has
    -- printed, and the token to have no outer spaces.
    pub accepted_while_young :
        (later : World)
        → leb (env.clock (reading 0 s)) (env.clock later.draws) ≡ true
        → leb (env.clock later.draws + second) (env.clock (reading 0 s) + ttl_seconds * second)
          ≡ true
        → flush_refused later.db ≡ false
        → (stored : User) → by_id user.id later.db ≡ some stored
        → is_some stored.deleted_at ≡ false
        → is_active stored.status ≡ true
        → stored.token_version ≡ user.token_version
        → load_current_user env settings (some (bearer signed)) later
          ≡ (ok stored, advanced 1 later)
    accepted_while_young later issued young flushes stored known kept active version =
        guard_verdict env settings (some (bearer signed)) later (advanced 1 later) signed_claims
          flushes
          (claims_read later issued (
            before_expiry (env.clock later.draws) (env.clock (reading 0 s)) ttl_seconds deadline
              refl young))
        ∙ rw (known, kept, active, version, ==_refl user.token_version) refl
