-- ===== src/Db/AuthTokens.antt =====
-- db/gpca_db/repositories/auth_tokens.py
use gpca_v.Prelude.{ℕ, Bool, Option, some, ◌∷◌, ◌==◌, is_none}
use gpca_v.Env.{Env}
use gpca_v.Errors.{integrity_error}
use gpca_v.Run.{Exec, pure, gets, draw, modify, raise_if, one_or_none, ◌>>=◌, ◌>>◌}
use gpca_v.Db.Enums.{AuthTokenPurpose}
use gpca_v.Db.Models.{AuthToken, Database, auth_clash, is_live_for}
use gpca_v.Db.Table.{select, update, any, length}
use gpca_v.Db.Users.{by_id}

-- By digest, whatever its purpose or state.
unfoldable pub get_by_hash : ℕ → Exec (Option AuthToken)
get_by_hash token_hash = do
  rows ← gets (λ s. select (λ t. t.token_hash == token_hash) s.db.auth_tokens)
  one_or_none rows

-- An assignment to a mapped object is an UPDATE of its row.
unfoldable pub assign : (AuthToken → AuthToken) → ℕ → Database → Database
assign f id db = record db { auth_tokens = update (λ t. t.id == id) f db.auth_tokens }

abbrev pub consumed_now : ℕ → AuthToken → AuthToken
consumed_now now t = record t { consumed_at = some now }

-- the loop `for row in rows: row.consumed_at = now`
unfoldable pub consume_where : (AuthToken → Bool) → ℕ → Database → Database
consume_where p now db = record db { auth_tokens = update p (consumed_now now) db.auth_tokens }

module _ (env : Env) where
  -- Marks every live token for this (user, purpose) consumed. Returns how many.
  unfoldable pub consume_outstanding : ℕ → AuthTokenPurpose → Exec ℕ
  unfolding consume_where
  consume_outstanding user_id purpose = do
    rows ← gets (λ s. select (is_live_for user_id purpose) s.db.auth_tokens)
    now ← draw env.clock
    modify (consume_where (is_live_for user_id purpose) now)
    pure (length rows)

  -- the INSERT, with the unique indexes and the foreign key to `users`
  unfoldable pub insert : AuthToken → Exec (Unit {0})
  insert t = do
    clash ← gets (λ s. any (auth_clash t) s.db.auth_tokens)
    raise_if clash integrity_error
    orphan ← gets (λ s. is_none (by_id t.user_id s.db))
    raise_if orphan integrity_error
    modify (λ db. record db { auth_tokens = t ∷ db.auth_tokens })

  -- Stages a row and flushes; its key is drawn by the flush.
  unfoldable pub add : (ℕ → AuthToken) → Exec AuthToken
  add row = do id ← draw env.uuid7; insert (row id); pure (row id)
