-- ===== src/Services/Auth/Rotation.antt =====
-- A successful rotation: the presented token is spent, its successor is of the same family, and a
-- replay at any later time leaves no token of the family alive.
use gpca_v.Prelude.{
  ==_refl, ◌+◌, ◌*◌, true, ◌⊎◌, Bool-cases, ℕ, none, some, ◌≡◌, refl, sym, ap, inl, inr, ◌∙◌,
}
use gpca_v.Env.{Env}
use gpca_v.Config.{Settings}
use gpca_v.Errors.{overflow_error}
use gpca_v.Run
use gpca_v.Run.{World, reading, advanced, Result, ok, err, Exec, ◌>>=◌, ◌>>◌}
use gpca_v.Run.Laws.{ok-injective, >>=-eq-ok, >>=-returns}
use gpca_v.Db.Insert.{insert_refresh_cases, with_refresh}
use gpca_v.Run.Keeps.{Keeps, Keeps-bind, Keeps-pure}
use gpca_v.Db.Enums.{role_value}
use gpca_v.Db.Models.{User, RefreshToken, Database}
use gpca_v.Db.Table.{find}
use gpca_v.Db.RefreshTokens
use gpca_v.Db.RefreshTokens.{refresh_storable, revoked_now, in_family}
use gpca_v.Db.Stable.{IsStable}
use gpca_v.Db.Preserve.{get_refresh-Sound}
use gpca_v.Db.Lookup.{refresh_of}
use gpca_v.Security.Tokens.{
  second, is_datetime, hash_refresh_token, access_payload, issue_access_token,
  generate_refresh_token,
}
use gpca_v.Services.Auth.Sessions.{TokenPair, Client, or_none, refresh_ttl, issue_session, link}
use gpca_v.Services.Auth.Obey.{issue_session-Obeys, link-Obeys}
use gpca_v.Services.Auth.Preserve.{keeping}
use gpca_v.Services.Auth.Finality.{IsInFamily, IsInFamily-IsStable}

-- the row that `issue_session` stores in a given family, when it is called in the world `s`
abbrev pub issued_row : Env → Settings → User → ℕ → Client → World → RefreshToken
issued_row env settings user family_id client s = record {
  id = env.uuid7 (reading 4 s);
  user_id = user.id;
  token_hash = env.sha256 (env.token_urlsafe (reading 2 s));
  family_id = family_id;
  expires_at = env.clock (reading 3 s) + refresh_ttl env settings;
  revoked_at = none;
  replaced_by_id = none;
  user_agent = or_none client.user_agent;
  ip = or_none client.ip;
}

-- and the pair that it returns
abbrev pub issued_pair : Env → Settings → User → World → TokenPair
issued_pair env settings user s = (
  env.jwt_encode
      (access_payload env user.id (role_value user.role) user.token_version
        settings.jwt_access_ttl_seconds (env.uuid4_hex (reading 1 s)) (env.clock s.draws))
      settings.jwt_secret,
  env.token_urlsafe (reading 2 s),
  settings.jwt_access_ttl_seconds,
)

-- both deadlines of a session issued in the world `s` are instants that a `datetime` can hold
abbrev pub InTime : Env → Settings → World → Type 0
InTime env settings s =
    (is_datetime (env.clock s.draws + settings.jwt_access_ttl_seconds * second) ≡ true)
    × (is_datetime (env.clock (reading 3 s) + refresh_ttl env settings) ≡ true)

pub refresh_of-new :
    (t : RefreshToken) (s : World) → refresh_of t.token_hash (with_refresh t s).db ≡ some t
unfolding refresh_of find
refresh_of-new t s = rw (==_refl t.token_hash) refl

module _ (env : Env) (settings : Settings) where
  -- `issue_session` is one INSERT, of a row whose every column is known, when its deadlines exist.
  pub issue_session_lem :
      (user : User) (family_id : ℕ) (client : Client) (s : World)
      → InTime env settings s
      → issue_session env settings user (some family_id) client s
        ≡ Run.continue
            (λ _ s'. (ok (issued_pair env settings user s), s'))
            (RefreshTokens.insert env
              (issued_row env settings user family_id client s)
              (advanced 5 s))
  unfolding issue_session issue_access_token generate_refresh_token RefreshTokens.add ◌>>=◌
  issue_session_lem user family_id client s (soon, later) =
      rw (soon, later)
        (elim (insert_refresh_cases env (advanced 5 s)
          (issued_row env settings user family_id client s)) [
            | inl (stored, new) ↦ rw stored refl
            | inr (e, failed) ↦ rw failed refl
          ])

  -- and an OverflowError when one of them does not
  issue_session_late :
      (user : User) (family_id : ℕ) (client : Client) (s : World)
      → InTime env settings s
        ⊎ ((issue_session env settings user (some family_id) client s).0 ≡ err overflow_error)
  unfolding issue_session issue_access_token generate_refresh_token ◌>>=◌
  issue_session_late user family_id client s =
      elim (Bool-cases
        (is_datetime (env.clock s.draws + settings.jwt_access_ttl_seconds * second))) [
          | inr late ↦ inr (rw late refl)
          | inl soon ↦
              elim (Bool-cases (is_datetime (env.clock (reading 3 s) + refresh_ttl env settings))) [
                | inr late ↦ inr (rw (soon, late) refl)
                | inl kept ↦ inl (soon, kept)
              ]
        ]

  -- A pair is issued only when its refresh token is stored, in the family that was asked for.
  issue_session-IsInFamily :
      (user : User) (family_id : ℕ) (client : Client) (s : World) {pair : TokenPair}
      → (issue_session env settings user (some family_id) client s).0 ≡ ok pair
      → IsInFamily
          (env.sha256 pair.1)
          family_id
          (issue_session env settings user (some family_id) client s).1.db
  issue_session-IsInFamily user family_id client s {pair} h =
      elim (issue_session_late user family_id client s) [
        | inr late ↦ cc
        | inl in_time ↦ inserted in_time h
      ]
    where
      new_row :
          ok (issued_pair env settings user s) ≡ ok pair
          → refresh_of
              (env.sha256 pair.1)
              (with_refresh (issued_row env settings user family_id client s) (advanced 5 s)).db
            ≡ some (issued_row env settings user family_id client s)
      new_row h =
          ap
            (λ (p : TokenPair).
              refresh_of (env.sha256 p.1)
                (with_refresh (issued_row env settings user family_id client s) (advanced 5 s)).db)
            (sym (ok-injective h))
          ∙ refresh_of-new (issued_row env settings user family_id client s) (advanced 5 s)

      inserted :
          InTime env settings s
          → (issue_session env settings user (some family_id) client s).0 ≡ ok pair
          → IsInFamily
              (env.sha256 pair.1)
              family_id
              (issue_session env settings user (some family_id) client s).1.db
      inserted in_time =
          rw (issue_session_lem user family_id client s in_time)
            (elim (insert_refresh_cases env (advanced 5 s)
              (issued_row env settings user family_id client s)) [
                | inl (stored, new) ↦
                    rw stored
                      (λ h. (issued_row env settings user family_id client s, new_row h, refl))
                | inr (e, failed) ↦ rw failed (λ h. cc)
              ])

  -- the end of a rotation, once the new pair is issued
  abbrev pub link_issued : RefreshToken → TokenPair → Exec TokenPair
  link_issued row issued = do
    replacement ← RefreshTokens.get_by_hash (hash_refresh_token env issued.1)
    link env settings row replacement
    Run.pure issued

  -- and from the issue on
  abbrev pub issue_and_link : RefreshToken → User → Client → Exec TokenPair
  issue_and_link row user client = do
    issued ← issue_session env settings user (some row.family_id) client
    link_issued row issued

  link_issued-Keeps :
      {P : Database → Type 0} (stable : IsStable env P) (row : RefreshToken) (issued : TokenPair)
      → Keeps P (link_issued row issued)
  link_issued-Keeps stable row issued =
      Keeps-bind _ _ (get_refresh-Sound env stable _) λ replacement.
        Keeps-bind _ _ (link-Obeys env settings {logic = keeping env stable} row replacement).by
          λ _. Keeps-pure issued

  pub issue_and_link-Keeps :
      {P : Database → Type 0} (stable : IsStable env P) (row : RefreshToken) (user : User)
      (client : Client)
      → Keeps P (issue_and_link row user client)
  issue_and_link-Keeps stable row user client =
      Keeps-bind _ _
        (issue_session-Obeys env settings {logic = keeping env stable} user (some row.family_id)
          client).by
        λ issued. link_issued-Keeps stable row issued

  -- it returns the pair that was issued
  link_issued-pair :
      (row : RefreshToken) (issued : TokenPair) (s : World) (pair : TokenPair)
      → (link_issued row issued s).0 ≡ ok pair
      → issued ≡ pair
  unfolding ◌>>=◌
  link_issued-pair row issued =
      >>=-returns (RefreshTokens.get_by_hash (hash_refresh_token env issued.1))
        (λ replacement. link env settings row replacement >> Run.pure issued) issued
        λ replacement.
          >>=-returns (link env settings row replacement) (λ _. Run.pure issued) issued
            λ _ s c h. ok-injective h

  -- The successor is stored, in the family of the token that was presented.
  pub issue_and_link-IsInFamily :
      (row : RefreshToken) (user : User) (client : Client) (s : World) (pair : TokenPair)
      → (issue_and_link row user client s).0 ≡ ok pair
      → IsInFamily (env.sha256 pair.1) row.family_id (issue_and_link row user client s).1.db
  issue_and_link-IsInFamily row user client s pair h = rw go_on (
      rw (← link_issued-pair row issued s' pair (rw go_on at h)) (
        (link_issued-Keeps (IsInFamily-IsStable env _ _) row issued).at s'
          (issue_session-IsInFamily user row.family_id client s e)))
    where
      found :
          (a : TokenPair) × ((issue_session env settings user (some row.family_id) client s).0
            ≡ ok a)
          × (issue_and_link row user client s
              ≡ link_issued row a (issue_session env settings user (some row.family_id) client s).1)
      found =
          >>=-eq-ok (issue_session env settings user (some row.family_id) client) (link_issued row)
            s h

      issued : TokenPair
      issued = found.0

      e : (issue_session env settings user (some row.family_id) client s).0 ≡ ok issued
      e = found.1

      s' : World
      s' = (issue_session env settings user (some row.family_id) client s).1

      go_on : issue_and_link row user client s ≡ link_issued row issued s'
      go_on = found.2
