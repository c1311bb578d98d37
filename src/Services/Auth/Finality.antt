-- ===== src/Services/Auth/Finality.antt =====
-- Revocation and consumption are final: no service undoes them.
use gpca_v.Prelude.{
  ℕ, String, Bool, true, false, none, some, List, ◌∷◌, ◌≡◌, refl, arith, ◌==◌, is_some,
  if◌then◌else◌, ◌∙◌,
}
use gpca_v.Env.{Env}
use gpca_v.Config.{Settings}
use gpca_v.Errors.{refresh_rejected}
use gpca_v.Run.{World, ok, err, ◌>>=◌}
use gpca_v.Db.Enums.{AuthTokenPurpose}
use gpca_v.Db.Models.{RefreshToken, AuthToken, Database, refresh_clash, auth_clash}
use gpca_v.Db.Table.{find, update, any}
use gpca_v.Db.Table.Laws.{find-update, find-holds, find-any, touch, touch_keeps}
use gpca_v.Db.Users
use gpca_v.Db.RefreshTokens
use gpca_v.Db.AuthTokens.{consumed_now}
use gpca_v.Db.Stable.{IsStable, KeepsToken}
use gpca_v.Db.Integrity.{IsWellFormed}
use gpca_v.Db.Lookup.{refresh_of, auth_of, get_auth_lem}
use gpca_v.Services.Auth.SingleUse.{consume_single_use_token, check_row}
use gpca_v.Services.Auth.Sessions.{Client, rotate_refresh_token}
use gpca_v.Services.Auth.Reuse.{rotate_reused}
use gpca_v.Services.Auth.Serve.{Service, serve, serve_keeps, serve-IsWellFormed}

-- the refresh token with this digest is stored, in this family
abbrev pub IsInFamily : ℕ → ℕ → Database → Type 0
IsInFamily digest family_id db =
    (t : RefreshToken) × (refresh_of digest db ≡ some t) × (t.family_id ≡ family_id)

-- and it is revoked
abbrev pub IsRevoked : ℕ → ℕ → Database → Type 0
IsRevoked digest family_id db =
    (t : RefreshToken) × (refresh_of digest db ≡ some t)
    × (t.family_id ≡ family_id)
    × (is_some t.revoked_at ≡ true)

-- the single-use token with this digest is stored, and consumed
abbrev pub IsConsumed : ℕ → Database → Type 0
IsConsumed digest db =
    (t : AuthToken) × (auth_of digest db ≡ some t) × (is_some t.consumed_at ≡ true)

pub refresh_of-update :
    (digest : ℕ) (db : Database) (p : RefreshToken → Bool) (f : RefreshToken → RefreshToken)
    → KeepsToken f
    → {t : RefreshToken} → refresh_of digest db ≡ some t
    → refresh_of digest (record db { refresh_tokens = update p f db.refresh_tokens })
      ≡ some (touch p f t)
unfolding refresh_of
refresh_of-update digest db p f keeps found =
    find-update _ p f db.refresh_tokens (λ x. rw ((keeps x).1) refl) ∙ rw found refl

-- a stored digest is not that of a row which does not clash with the stored ones
pub refresh_of-insert :
    (digest : ℕ) (db : Database) (new : RefreshToken)
    → any (refresh_clash new) db.refresh_tokens ≡ false
    → {t : RefreshToken} → refresh_of digest db ≡ some t
    → refresh_of digest (record db { refresh_tokens = new ∷ db.refresh_tokens }) ≡ some t
unfolding refresh_of find
refresh_of-insert digest db new fresh found = ground (
  arith,
  find-holds (λ x. x.token_hash == digest) db.refresh_tokens found,
  find-any (λ x. x.token_hash == digest) (refresh_clash new) db.refresh_tokens found fresh,
)

IsRevoked-update :
    (digest family_id : ℕ) (db : Database) (p : RefreshToken → Bool)
    (f : RefreshToken → RefreshToken)
    → KeepsToken f
    → IsRevoked digest family_id db
    → IsRevoked digest family_id (record db { refresh_tokens = update p f db.refresh_tokens })
IsRevoked-update digest family_id db p f keeps (t, found, same, used) = (
  touch p f t,
  refresh_of-update digest db p f keeps found,
  touch_keeps (λ (x : RefreshToken). x.family_id) p f t (keeps t).3 ∙ same,
  still (p t),
)
  where
    still : (b : Bool) → is_some (if b then f t else t).revoked_at ≡ true
    still true = (keeps t).4 used
    still false = used

IsConsumed-update :
    (digest : ℕ) (db : Database) (p : AuthToken → Bool) (now : ℕ)
    → IsConsumed digest db
    → IsConsumed digest (record db { auth_tokens = update p (consumed_now now) db.auth_tokens })
unfolding auth_of
IsConsumed-update digest db p now (t, found, used) = (
  touch p (consumed_now now) t,
  find-update _ p (consumed_now now) db.auth_tokens (λ x. refl) ∙ rw found refl,
  still (p t),
)
  where
    still : (b : Bool) → is_some (if b then consumed_now now t else t).consumed_at ≡ true
    still true = refl
    still false = used

IsConsumed-insert :
    (digest : ℕ) (db : Database) (new : AuthToken)
    → any (auth_clash new) db.auth_tokens ≡ false
    → IsConsumed digest db
    → IsConsumed digest (record db { auth_tokens = new ∷ db.auth_tokens })
unfolding auth_of find
IsConsumed-insert digest db new fresh (t, found, used) = (
  t,
  ground (
    arith,
    find-holds (λ x. x.token_hash == digest) db.auth_tokens found,
    find-any (λ x. x.token_hash == digest) (auth_clash new) db.auth_tokens found fresh,
  ),
  used,
)

pub IsRevoked-IsStable :
    (env : Env) (digest family_id : ℕ) → IsStable env (IsRevoked digest family_id)
IsRevoked-IsStable env digest family_id = record {
  assign_user = λ db f user_id keeps h. unfold Users.assign refresh_of in h;
  insert_user = λ db u new h. unfold refresh_of in h;
  update_refresh = λ db p f keeps same h. IsRevoked-update digest family_id db p f keeps h;
  insert_refresh = λ db t new owned h. (h.0, refresh_of-insert digest db t new h.1, h.2, h.3);
  replace_refresh = λ db id n known h.
      unfold RefreshTokens.assign in
      IsRevoked-update digest family_id db (λ t. t.id == id)
        (λ t. record t { replaced_by_id = some n }) (λ t. (refl, refl, refl, refl, λ h. h)) h;
  consume_auth = λ db p now h. unfold refresh_of in h;
  insert_auth = λ db t new owned h. unfold refresh_of in h;
}

pub IsInFamily-IsStable :
    (env : Env) (digest family_id : ℕ) → IsStable env (IsInFamily digest family_id)
IsInFamily-IsStable env digest family_id = record {
  assign_user = λ db f user_id keeps h. unfold Users.assign refresh_of in h;
  insert_user = λ db u new h. unfold refresh_of in h;
  update_refresh = λ db p f keeps same h. (
    touch p f h.0,
    refresh_of-update digest db p f keeps h.1,
    touch_keeps (λ (x : RefreshToken). x.family_id) p f h.0 (keeps h.0).3 ∙ h.2,
  );
  insert_refresh = λ db t new owned h. (h.0, refresh_of-insert digest db t new h.1, h.2);
  replace_refresh = λ db id n known h.
      unfold RefreshTokens.assign in
      (
        touch (λ t. t.id == id) (λ t. record t { replaced_by_id = some n }) h.0,
        refresh_of-update digest db (λ t. t.id == id) (λ t. record t { replaced_by_id = some n })
            (λ t. (refl, refl, refl, refl, λ h. h)) h.1,
        touch_keeps (λ (x : RefreshToken). x.family_id) (λ t. t.id == id)
              (λ t. record t { replaced_by_id = some n }) h.0 refl
            ∙ h.2,
      );
  consume_auth = λ db p now h. unfold refresh_of in h;
  insert_auth = λ db t new owned h. unfold refresh_of in h;
}

pub IsConsumed-IsStable : (env : Env) (digest : ℕ) → IsStable env (IsConsumed digest)
IsConsumed-IsStable env digest = record {
  assign_user = λ db f user_id keeps h. unfold Users.assign auth_of in h;
  insert_user = λ db u new h. unfold auth_of in h;
  update_refresh = λ db p f keeps same h. unfold auth_of in h;
  insert_refresh = λ db t new owned h. unfold auth_of in h;
  replace_refresh = λ db id n known h. unfold RefreshTokens.assign auth_of in h;
  consume_auth = λ db p now h. IsConsumed-update digest db p now h;
  insert_auth = λ db t new owned h. IsConsumed-insert digest db t new h;
}

module _ (env : Env) (settings : Settings) (calls : List Service) (s : World)
    (w : IsWellFormed env.citext_lower s.db) where
  -- Once a refresh token is revoked, it is refused after any sequence of service calls whatever.
  pub revoked_for_good :
      (token : String) (family_id : ℕ) (client : Client)
      → IsRevoked (env.sha256 token) family_id s.db
      → (rotate_refresh_token env settings token client (serve env settings calls s)).0
        ≡ err refresh_rejected
  revoked_for_good token family_id client h =
      refused
        (serve_keeps env settings (IsRevoked-IsStable env (env.sha256 token) family_id) calls s h)
    where
      refused :
          IsRevoked (env.sha256 token) family_id (serve env settings calls s).db
          → (rotate_refresh_token env settings token client (serve env settings calls s)).0
            ≡ err refresh_rejected
      refused (t, found, _, used) =
          rw
            (rotate_reused env settings token client (serve env settings calls s)
              (serve-IsWellFormed env settings calls s w) t found used)
            refl

  -- Once a single-use token is consumed, it is redeemed by no later call, for either purpose, after
  -- any sequence of service calls whatever.
  pub consumed_for_good :
      (token : String) (purpose : AuthTokenPurpose)
      → IsConsumed (env.sha256 token) s.db
      → consume_single_use_token env token purpose (serve env settings calls s)
        ≡ (ok none, serve env settings calls s)
  consumed_for_good token purpose h =
      refused (serve_keeps env settings (IsConsumed-IsStable env (env.sha256 token)) calls s h)
    where
      refused :
          IsConsumed (env.sha256 token) (serve env settings calls s).db
          → consume_single_use_token env token purpose (serve env settings calls s)
            ≡ (ok none, serve env settings calls s)
      refused (t, found, used) =
          unfold consume_single_use_token check_row ◌>>=◌ in
          rw
            (
              get_auth_lem (serve env settings calls s) (serve-IsWellFormed env settings calls s w)
                  (env.sha256 token),
              found,
            )
            (ground arith)
