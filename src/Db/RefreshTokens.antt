-- ===== src/Db/RefreshTokens.antt =====
-- db/gpca_db/repositories/refresh_tokens.py
use gpca_v.Prelude.{
  ℕ, String, Bool, true, ◌&&◌, ◌||◌, not, List, Option, none, some, ◌∷◌, ◌==◌, is_none,
}
use gpca_v.Env.{Env}
use gpca_v.Errors.{integrity_error, data_error}
use gpca_v.Run.{Exec, pure, gets, draw, modify, raise_if, one_or_none, ◌>>=◌, ◌>>◌}
use gpca_v.Db.Models.{RefreshToken, Database, refresh_clash}
use gpca_v.Db.Table.{select, update, any, length}
use gpca_v.Db.Users.{by_id}

-- By digest, revoked or not.
unfoldable pub get_by_hash : ℕ → Exec (Option RefreshToken)
get_by_hash token_hash = do
  rows ← gets (λ s. select (λ t. t.token_hash == token_hash) s.db.refresh_tokens)
  one_or_none rows

-- An assignment to a mapped object is an UPDATE of its row, which is there: nothing deletes a token.
unfoldable pub assign : (RefreshToken → RefreshToken) → ℕ → Database → Database
assign f id db = record db { refresh_tokens = update (λ t. t.id == id) f db.refresh_tokens }

abbrev pub in_family : ℕ → RefreshToken → Bool
in_family family_id t = t.family_id == family_id && is_none t.revoked_at

abbrev pub held_by : ℕ → RefreshToken → Bool
held_by user_id t = t.user_id == user_id && is_none t.revoked_at

abbrev pub revoked_now : ℕ → RefreshToken → RefreshToken
revoked_now now t = record t { revoked_at = some now }

-- the loop `for row in rows: row.revoked_at = now` over the rows that a condition selects
unfoldable pub revoke_where : (RefreshToken → Bool) → ℕ → Database → Database
revoke_where p now db = record db { refresh_tokens = update p (revoked_now now) db.refresh_tokens }

-- fk_refresh_tokens_replaced_by_id_refresh_tokens: a reference names a stored row
abbrev pub refers : Option ℕ → List RefreshToken → Bool
refers none rows = true
refers (some id) rows = any (λ t. t.id == id) rows

-- a row without the token it refers to, which may be itself, or without its account
abbrev pub is_orphan : RefreshToken → Database → Bool
is_orphan t db =
    not (refers t.replaced_by_id (t ∷ db.refresh_tokens)) || is_none (by_id t.user_id db)

-- the UPDATE of `replaced_by_id`, with its foreign key
unfoldable pub set_replaced_by : ℕ → ℕ → Exec (Unit {0})
unfolding assign
set_replaced_by id replacement_id = do
  known ← gets (λ s. refers (some replacement_id) s.db.refresh_tokens)
  raise_if (not known) integrity_error
  modify (assign (λ t. record t { replaced_by_id = some replacement_id }) id)

-- a nullable text column
abbrev pub null_or : (String → Bool) → Option String → Bool
null_or p none = true
null_or p (some text) = p text

module _ (env : Env) where
  -- Revokes every live token in one lineage. Returns how many.
  unfoldable pub revoke_family : ℕ → Exec ℕ
  unfolding revoke_where
  revoke_family family_id = do
    now ← draw env.clock
    rows ← gets (λ s. select (in_family family_id) s.db.refresh_tokens)
    modify (revoke_where (in_family family_id) now)
    pure (length rows)

  -- Revokes every live token a user holds, across all families. Returns how many.
  unfoldable pub revoke_all_for_user : ℕ → Exec ℕ
  unfolding revoke_where
  revoke_all_for_user user_id = do
    now ← draw env.clock
    rows ← gets (λ s. select (held_by user_id) s.db.refresh_tokens)
    modify (revoke_where (held_by user_id) now)
    pure (length rows)

  abbrev pub refresh_storable : RefreshToken → Bool
  refresh_storable t = null_or (env.varchar_ok 400) t.user_agent && null_or env.inet_ok t.ip

  -- the INSERT, with the columns' types, the unique indexes and the foreign keys
  unfoldable pub insert : RefreshToken → Exec (Unit {0})
  insert t = do
    raise_if (not (refresh_storable t)) data_error
    clash ← gets (λ s. any (refresh_clash t) s.db.refresh_tokens)
    raise_if clash integrity_error
    orphan ← gets (λ s. is_orphan t s.db)
    raise_if orphan integrity_error
    modify (λ db. record db { refresh_tokens = t ∷ db.refresh_tokens })

  -- the column default of `family_id`, for a row that was given none
  unfoldable pub family_or_new : Option ℕ → Exec ℕ
  family_or_new none = draw env.uuid7
  family_or_new (some family_id) = pure family_id

  -- Stages a row and flushes; the flush draws its key, and its family if it has none.
  unfoldable pub add : Option ℕ → (ℕ → ℕ → RefreshToken) → Exec RefreshToken
  unfolding family_or_new
  add family row = do
    id ← draw env.uuid7
    family_id ← family_or_new family
    insert (row id family_id)
    pure (row id family_id)
