-- ===== src/Db/Lookup.antt =====
-- In a database that meets its unique indexes, `one_or_none()` finds at most one row and never
-- raises MultipleResultsFound.
use gpca_v.Prelude.{
  ==_refl, ℕ, String, true, false, Option, none, some, ◌≡◌, refl, arith, ◌==◌, is_none,
}
use gpca_v.Env.{Env}
use gpca_v.Run.{World, ok, one_or_none, ◌>>=◌}
use gpca_v.Db.Models.{
  User, RefreshToken, AuthToken, Database, user_clash, refresh_clash, auth_clash,
}
use gpca_v.Db.Table.{find}
use gpca_v.Db.Table.Unique.{at_most_one, select_unique}
use gpca_v.Db.Users
use gpca_v.Db.Users.{answers_to, by_id}
use gpca_v.Db.Table.Laws.{find-other}
use gpca_v.Db.RefreshTokens
use gpca_v.Db.AuthTokens
use gpca_v.Db.Integrity.{IsWellFormed}
use text.Mathlib.TextEquality.{eq_iff}

-- the row with a digest
unfoldable pub refresh_of : ℕ → Database → Option RefreshToken
refresh_of digest db = find (λ t. t.token_hash == digest) db.refresh_tokens

unfoldable pub auth_of : ℕ → Database → Option AuthToken
auth_of digest db = find (λ t. t.token_hash == digest) db.auth_tokens

-- the live account of an address
unfoldable pub account_of : Env → String → Database → Option User
account_of env email db = find (answers_to env email) db.users

one_or_none-at_most_one {ℓ} :
    {A : Type ℓ} (o : Option A) (s : World) → one_or_none (at_most_one o) s ≡ (ok o, s)
unfolding ◌>>=◌
one_or_none-at_most_one none s = refl
one_or_none-at_most_one (some x) s = refl

same_digest :
    (h : ℕ) (a b : RefreshToken)
    → (a.token_hash == h) ≡ true
    → (b.token_hash == h) ≡ true
    → refresh_clash a b ≡ true
same_digest h a b p q = ground arith

same_auth_digest :
    (h : ℕ) (a b : AuthToken)
    → (a.token_hash == h) ≡ true
    → (b.token_hash == h) ≡ true
    → auth_clash a b ≡ true
same_auth_digest h a b p q = ground arith

same_address :
    (env : Env) (email : String) (a b : User)
    → answers_to env email a ≡ true
    → answers_to env email b ≡ true
    → user_clash env.citext_lower a b ≡ true
same_address env email a b p q = ground (
  arith,
  eq_iff (env.citext_lower a.email) (env.citext_lower email),
  eq_iff (env.citext_lower b.email) (env.citext_lower email),
  eq_iff (env.citext_lower a.email) (env.citext_lower b.email),
)

module _ {lower : String → String} (s : World) (w : IsWellFormed lower s.db) where
  pub get_refresh_lem :
      (digest : ℕ) → RefreshTokens.get_by_hash digest s ≡ (ok (refresh_of digest s.db), s)
  unfolding RefreshTokens.get_by_hash refresh_of ◌>>=◌
  get_refresh_lem digest =
      rw (select_unique refresh_clash _ s.db.refresh_tokens (same_digest digest) w.refresh)
        (one_or_none-at_most_one (refresh_of digest s.db) s)

  pub get_auth_lem : (digest : ℕ) → AuthTokens.get_by_hash digest s ≡ (ok (auth_of digest s.db), s)
  unfolding AuthTokens.get_by_hash auth_of ◌>>=◌
  get_auth_lem digest =
      rw (select_unique auth_clash _ s.db.auth_tokens (same_auth_digest digest) w.auth)
        (one_or_none-at_most_one (auth_of digest s.db) s)

pub get_by_email_lem :
    (env : Env) (s : World) (w : IsWellFormed env.citext_lower s.db) (email : String)
    → Users.get_by_email env email s ≡ (ok (account_of env email s.db), s)
unfolding Users.get_by_email account_of ◌>>=◌
get_by_email_lem env s w email =
    rw (select_unique (user_clash env.citext_lower) _ s.db.users (same_address env email) w.users)
      (one_or_none-at_most_one (account_of env email s.db) s)

-- The account of an address is stored under its key.
pub account_of-stored :
    (env : Env) (email : String) (db : Database) {u : User}
    → account_of env email db ≡ some u
    → is_none (by_id u.id db) ≡ false
unfolding account_of by_id
account_of-stored env email db {u} h =
    find-other (answers_to env email) (λ x. x.id == u.id) db.users h (==_refl u.id)
