-- ===== src/Services/Auth/Replay.antt =====
-- Refresh-token rotation from end to end: what success leaves behind, and what a replay of the spent
-- token does at any later time.
use gpca_v.Prelude.{
  ℕ, String, Bool, true, false, not, ◌||◌, Option, none, some, List, ◌≡◌, refl, ap, arith, ◌==◌,
  leb, suc, is_some, Bool-cases, inl, inr, ◌∙◌, ==_refl,
}
use gpca_v.Env.{Env}
use gpca_v.Config.{Settings}
use gpca_v.Errors.{refresh_rejected}
use gpca_v.Run.{World, ok, err, ◌>>=◌}
use gpca_v.Db.Enums.{is_active}
use gpca_v.Db.Models.{User, RefreshToken, Database}
use gpca_v.Db.Table.{any}
use gpca_v.Db.Table.Laws.{find-any, touch, touch_keeps}
use gpca_v.Db.Users
use gpca_v.Db.Stable.{IsStable}
use gpca_v.Db.Users.{by_id}
use gpca_v.Db.RefreshTokens
use gpca_v.Db.RefreshTokens.{revoked_now, in_family}
use gpca_v.Db.Integrity.{IsWellFormed}
use gpca_v.Db.Lookup.{refresh_of}
use gpca_v.Services.Auth.Sessions.{TokenPair, Client, exchange, rotate_refresh_token}
use gpca_v.Services.Auth.Reuse.{
  rotate_reused, rotate_expired, rotate_live, family_revoked, family_revoked_dead,
}
use gpca_v.Services.Auth.Finality.{
  IsRevoked, IsInFamily, IsRevoked-IsStable, IsInFamily-IsStable, refresh_of-update,
  refresh_of-insert,
}
use gpca_v.Services.Auth.Obey.{rotate-Obeys}
use gpca_v.Services.Auth.Preserve.{keeping}
use gpca_v.Services.Auth.Rotation.{issue_and_link-Keeps, issue_and_link-IsInFamily}
use gpca_v.Services.Auth.Serve.{
  Service, serve, serve_keeps, serve-IsWellFormed, rotate-IsWellFormed,
}

-- the world in which `exchange` has revoked the presented row
abbrev pub row_spent : Env → RefreshToken → World → World
row_spent env row s = record s {
  db = RefreshTokens.assign (revoked_now (env.clock s.draws)) row.id s.db;
  draws = suc s.draws;
}

abbrev pub barred : User → Bool
barred user = is_some user.deleted_at || not (is_active user.status)

-- What a successful exchange has done.
abbrev pub Rotated : Env → String → ℕ → TokenPair → Database → Type 0
Rotated env token family_id pair db =
    IsRevoked (env.sha256 token) family_id db × IsInFamily (env.sha256 pair.1) family_id db

-- the stored row of a digest is the one that a copy was read from, with whatever marks it has now
abbrev pub IsReadFrom : ℕ → RefreshToken → Database → Type 0
IsReadFrom digest row db =
    (t : RefreshToken) × (refresh_of digest db ≡ some t)
    × (t.id ≡ row.id)
    × (t.family_id ≡ row.family_id)

pub IsReadFrom-IsStable :
    (env : Env) (digest : ℕ) (row : RefreshToken) → IsStable env (IsReadFrom digest row)
IsReadFrom-IsStable env digest row = record {
  assign_user = λ db f user_id keeps h. unfold Users.assign refresh_of in h;
  insert_user = λ db u new h. unfold refresh_of in h;
  update_refresh = λ db p f keeps same h. (
    touch p f h.0,
    refresh_of-update digest db p f keeps h.1,
    touch_keeps (λ (x : RefreshToken). x.id) p f h.0 (keeps h.0).0 ∙ h.2,
    touch_keeps (λ (x : RefreshToken). x.family_id) p f h.0 (keeps h.0).3 ∙ h.3,
  );
  insert_refresh = λ db t new owned h. (h.0, refresh_of-insert digest db t new h.1, h.2, h.3);
  replace_refresh = λ db id n known h.
      unfold RefreshTokens.assign in
      (
        touch (λ t. t.id == id) (λ t. record t { replaced_by_id = some n }) h.0,
        refresh_of-update digest db (λ t. t.id == id) (λ t. record t { replaced_by_id = some n })
            (λ t. (refl, refl, refl, refl, λ h. h)) h.1,
        touch_keeps (λ (x : RefreshToken). x.id) (λ t. t.id == id)
              (λ t. record t { replaced_by_id = some n }) h.0 refl
            ∙ h.2,
        touch_keeps (λ (x : RefreshToken). x.family_id) (λ t. t.id == id)
              (λ t. record t { replaced_by_id = some n }) h.0 refl
            ∙ h.3,
      );
  consume_auth = λ db p now h. unfold refresh_of in h;
  insert_auth = λ db t new owned h. unfold refresh_of in h;
}

module _ (env : Env) (settings : Settings) (token : String) (client : Client)
    (row : RefreshToken) where
  row_spent-IsRevoked :
      (s : World)
      → IsReadFrom (env.sha256 token) row s.db
      → IsRevoked (env.sha256 token) row.family_id (row_spent env row s).db
  unfolding RefreshTokens.assign
  row_spent-IsRevoked s (t, known, same, family) = (
    revoked_now (env.clock s.draws) t,
    refresh_of-update (env.sha256 token) s.db (λ x. x.id == row.id)
          (revoked_now (env.clock s.draws)) (λ x. (refl, refl, refl, refl, λ h. refl)) known
        ∙ rw same (rw (==_refl row.id) refl),
    family,
    refl,
  )

  -- the row may have got marks since it was read
  pub exchange-Rotated :
      (s : World) (user : Option User) (pair : TokenPair)
      → IsReadFrom (env.sha256 token) row s.db
      → (exchange env settings row user client s).0 ≡ ok pair
      → Rotated env token row.family_id pair (exchange env settings row user client s).1.db
  unfolding exchange ◌>>=◌
  exchange-Rotated s none pair known = λ h. cc
  exchange-Rotated s (some user) pair known = elim (Bool-cases (barred user)) [
    | inl bad ↦ rw bad (λ h. cc)
    | inr good ↦ rw good (λ h. (
      (issue_and_link-Keeps env settings (IsRevoked-IsStable env _ _) row user client).at
          (row_spent env row s) (row_spent-IsRevoked s known),
      issue_and_link-IsInFamily env settings row user client (row_spent env row s) pair h,
    ))
  ]

  -- When a token is exchanged for a pair, then afterwards it is revoked, and the refresh token of the
  -- pair is stored in its family.
  pub rotation-Rotated :
      (s : World)
      → IsWellFormed env.citext_lower s.db
      → refresh_of (env.sha256 token) s.db ≡ some row
      → (pair : TokenPair) → (rotate_refresh_token env settings token client s).0 ≡ ok pair
      → Rotated env token row.family_id pair (rotate_refresh_token env settings token client s).1.db
  rotation-Rotated s w known pair = elim (Bool-cases (is_some row.revoked_at)) [
    | inl used ↦ rw (rotate_reused env settings token client s w row known used) (λ h. cc)
    | inr live ↦ elim (Bool-cases (leb row.expires_at (env.clock s.draws))) [
      | inl late ↦ rw (rotate_expired env settings token client s w row known live late) (λ h. cc)
      | inr early ↦ rw (rotate_live env settings token client s w row known live early) (
          exchange-Rotated (record s { draws = suc s.draws }) (by_id row.user_id s.db) pair
            (row, known, refl, refl))
    ]
  ]

-- A token of a family in which none is live is refused.
pub dead_family_refused :
    (env : Env) (settings : Settings) (token : String) (client : Client) (family_id : ℕ) (s : World)
    → IsWellFormed env.citext_lower s.db
    → IsInFamily (env.sha256 token) family_id s.db
    → any (in_family family_id) s.db.refresh_tokens ≡ false
    → (rotate_refresh_token env settings token client s).0 ≡ err refresh_rejected
unfolding refresh_of
dead_family_refused env settings token client family_id s w (t, found, same) dead =
    rw
      (rotate_reused env settings token client s w t found
        (dead_row t same (find-any _ (in_family family_id) s.db.refresh_tokens found dead)))
      refl
  where
    dead_row :
        (x : RefreshToken)
        → x.family_id ≡ family_id
        → in_family family_id x ≡ false
        → is_some x.revoked_at ≡ true
    dead_row x e h = ground arith

-- A revoked token is presented: it is refused, no token of its family is live any more, and every
-- token of the family is refused from then on.
pub family_dies :
    (env : Env) (settings : Settings) (token other : String) (again : Client) (family_id : ℕ)
    (s : World)
    → IsWellFormed env.citext_lower s.db
    → IsRevoked (env.sha256 token) family_id s.db
    → IsInFamily (env.sha256 other) family_id s.db
    → let (r, s') = rotate_refresh_token env settings token again s in
      (r ≡ err refresh_rejected)
      × (any (in_family family_id) s'.db.refresh_tokens ≡ false)
      × ((rotate_refresh_token env settings other again s').0 ≡ err refresh_rejected)
family_dies env settings token other again family_id s w (t, found, same, used) kin = (
  ap (λ o. o.0) refused,
  dead,
  dead_family_refused env settings other again family_id
      (rotate_refresh_token env settings token again s).1
      (rotate-IsWellFormed env settings token again s w)
      ((rotate-Obeys env settings {logic = keeping env (IsInFamily-IsStable env _ _)} token
          again).by.at
        s kin)
      dead,
)
  where
    refused :
        rotate_refresh_token env settings token again s
        ≡ (err refresh_rejected, family_revoked env family_id s)
    refused =
        rotate_reused env settings token again s w t found used
        ∙ ap (λ n. (err refresh_rejected, family_revoked env n s)) same

    dead :
        any
          (in_family family_id)
          (rotate_refresh_token env settings token again s).1.db.refresh_tokens
        ≡ false
    dead = rw refused (family_revoked_dead env family_id s)

module _ (env : Env) (settings : Settings) (token : String) (client again : Client)
    (row : RefreshToken) (pair : TokenPair) (calls : List Service) (s : World)
    (w : IsWellFormed env.citext_lower s.db) (known : refresh_of (env.sha256 token) s.db ≡ some row)
    (rotated : (rotate_refresh_token env settings token client s).0 ≡ ok pair) where
  -- the world in which the spent token is presented again, after any service calls
  abbrev pub later : World
  later = serve env settings calls (rotate_refresh_token env settings token client s).1

  later-IsWellFormed : IsWellFormed env.citext_lower later.db
  later-IsWellFormed =
      serve-IsWellFormed env settings calls _ (rotate-IsWellFormed env settings token client s w)

  later-Rotated : Rotated env token row.family_id pair later.db
  later-Rotated =
      let now = rotation-Rotated env settings token client row s w known pair rotated in
      (
        serve_keeps env settings (IsRevoked-IsStable env _ _) calls _ now.0,
        serve_keeps env settings (IsInFamily-IsStable env _ _) calls _ now.1,
      )

  -- A token is exchanged for a pair; after any service calls it is presented again. The replay is
  -- refused, it leaves no token of the family live, and the refresh token of the pair is then refused
  -- too.
  pub replay_kills_family :
      let (r, s') = rotate_refresh_token env settings token again later in
      (r ≡ err refresh_rejected)
      × (any (in_family row.family_id) s'.db.refresh_tokens ≡ false)
      × ((rotate_refresh_token env settings pair.1 again s').0 ≡ err refresh_rejected)
  replay_kills_family =
      family_dies env settings token pair.1 again row.family_id later later-IsWellFormed
        later-Rotated.0 later-Rotated.1
