-- ===== src/Services/Auth/Refine.antt =====
-- `consume_single_use_token` against an abstract store of single-use tokens, which knows for each
-- time, purpose and digest the account that a redemption returns.
use mathlib.Core.Option
use gpca_v.Prelude.{
  ℕ, String, true, false, ◌&&◌, Option, none, some, ◌≡◌, refl, arith, ◌==◌, is_some, if◌then◌else◌,
  Option-cases, Bool-cases, inl, inr, ap, ==_refl,
}
use gpca_v.Env.{Env}
use gpca_v.Run.{World, ok, advanced}
use gpca_v.Db.Enums.{AuthTokenPurpose}
use gpca_v.Db.Models.{User, AuthToken, Database, auth_clash}
use gpca_v.Db.Table.{NoClash}
use gpca_v.Db.Table.Laws.{find-update, find-holds, touch}
use gpca_v.Db.Table.Unique.{find_clash}
use gpca_v.Db.Users.{by_id}
use gpca_v.Db.AuthTokens
use gpca_v.Db.AuthTokens.{consumed_now}
use gpca_v.Db.Integrity.{IsWellFormed}
use gpca_v.Db.Lookup.{auth_of}
use gpca_v.Services.Auth.SingleUse.{consume_single_use_token}
use gpca_v.Services.Auth.Redeem.{
  of_row, redeemable, redeems_to, consume-redeems_to, consume_refused, consume_redeemed,
}

-- at a time, for a purpose, the account of a digest
abbrev pub Vault : Type 0
Vault = ℕ → AuthTokenPurpose → ℕ → Option User

-- the store that a database is
abbrev pub vault_of : Database → Vault
vault_of db now purpose digest = of_row now purpose (auth_of digest db) db

-- A redemption takes the entry of a digest, and if there is one, removes the digest.
abbrev pub redeem_from : ℕ → AuthTokenPurpose → ℕ → Vault → Option User × Vault
redeem_from now purpose digest vault = (
  vault now purpose digest,
  λ t p d. if is_some (vault now purpose digest) && d == digest then none else vault t p d,
)

spent_row :
    (at now : ℕ) (p : AuthTokenPurpose) (row : AuthToken) (db : Database)
    → of_row at p (some (consumed_now now row)) db ≡ none
spent_row at now p row db = elim (Option-cases (by_id row.user_id db)) [
  | inl gone ↦ rw gone refl
  | inr (user, e) ↦ rw e (ground arith)
]

module _ (now : ℕ) (row : AuthToken) (digest : ℕ) (db : Database)
    (unique : NoClash auth_clash db.auth_tokens) (known : auth_of digest db ≡ some row) where
  row_digest : (row.token_hash == digest) ≡ true
  unfolding auth_of
  row_digest = find-holds (λ t. t.token_hash == digest) db.auth_tokens known

  -- another digest is that of another row
  other_row :
      (d : ℕ) (other : AuthToken)
      → auth_of d db ≡ some other
      → (d == digest) ≡ false
      → (other.id == row.id) ≡ false
  unfolding auth_of
  other_row d other found differs = elim (Bool-cases (other.id == row.id)) [
    | inl same ↦ ground (
      arith,
      row_digest,
      find-holds (λ t. t.token_hash == d) db.auth_tokens found,
      ap (Option.map (λ t. t.token_hash)) (
          find_clash auth_clash (λ t. t.token_hash == d) (λ t. t.token_hash == digest)
            db.auth_tokens unique found known (ground arith) (ground arith)),
    )
    | inr e ↦ e
  ]

  found_after :
      (d : ℕ)
      → auth_of d (AuthTokens.assign (consumed_now now) row.id db)
        ≡ Option.map (touch (λ t. t.id == row.id) (consumed_now now)) (auth_of d db)
  unfolding auth_of AuthTokens.assign
  found_after d =
      find-update (λ (t : AuthToken). t.token_hash == d) (λ t. t.id == row.id) (consumed_now now)
        db.auth_tokens (λ t. refl)

  found_same : (d : ℕ) → (d == digest) ≡ true → auth_of d db ≡ some row
  found_same d e = ground (arith, known)

  vault_after :
      (at : ℕ) (p : AuthTokenPurpose) (d : ℕ)
      → vault_of (AuthTokens.assign (consumed_now now) row.id db) at p d
        ≡ (if d == digest then none else vault_of db at p d)
  unfolding AuthTokens.assign by_id
  vault_after at p d = elim (Bool-cases (d == digest)) [
    | inl e ↦ rw (found_after d, found_same d e, ==_refl row.id, e) (spent_row at now p row db)
    | inr e ↦ elim (Option-cases (auth_of d db)) [
      | inl absent ↦ rw (found_after d, absent, e) refl
      | inr (other, found) ↦ rw (found_after d, found, other_row d other found e, e) refl
    ]
  ]

-- the row and the account behind a redemption
redeemed_row :
    (now : ℕ) (purpose : AuthTokenPurpose) (o : Option AuthToken) (db : Database) {user : User}
    → of_row now purpose o db ≡ some user
    → (row : AuthToken) × (o ≡ some row)
      × (by_id row.user_id db ≡ some user)
      × (redeemable now purpose row user ≡ true)
redeemed_row now purpose none db h = cc
redeemed_row now purpose (some row) db {user} h = elim (Option-cases (by_id row.user_id db)) [
  | inl gone ↦ cc (rw gone at h)
  | inr (u, e) ↦ elim (Bool-cases (redeemable now purpose row u)) [
    | inl r ↦ (row, refl, ground (arith, (rw (e, r) at h)), ground (arith, (rw (e, r) at h)))
    | inr r ↦ cc (rw (e, r) at h)
  ]
]

module _ (env : Env) (purpose : AuthTokenPurpose) (token : String) (s : World)
    (w : IsWellFormed env.citext_lower s.db) where
  -- In a database that meets its unique indexes, `consume_single_use_token` is the redemption of the
  -- abstract store, with the clock's reading, the purpose and the digest of the token: the account that
  -- it returns and, at every time and for every purpose and digest, the store that it leaves.
  pub consume-redeem_from :
      let (outcome, s') = consume_single_use_token env token purpose s in
      let (account, vault) =
        redeem_from (env.clock s.draws) purpose (env.sha256 token) (vault_of s.db) in
      (outcome ≡ ok account)
      × ((later : ℕ) (p : AuthTokenPurpose) (d : ℕ) → vault_of s'.db later p d ≡ vault later p d)
  consume-redeem_from = (
    consume-redeems_to env purpose token s w,
    λ later p d. elim (Option-cases (redeems_to env (env.clock s.draws) purpose token s.db)) [
      | inl refused ↦ rw (consume_refused env purpose token s w refused, refused) refl
      | inr (user, found) ↦
          let (row, known, owner, valid) =
            redeemed_row (env.clock s.draws) purpose (auth_of (env.sha256 token) s.db) s.db found in
          rw (consume_redeemed env purpose token s w row user known owner valid, found)
            (vault_after (env.clock (advanced 1 s).draws) row (env.sha256 token) s.db w.auth known
              later p d)
    ],
  )
