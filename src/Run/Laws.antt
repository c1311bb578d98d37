-- ===== src/Run/Laws.antt =====
-- Sequencing is associative, so a chain of actions can be read from its first action on.
use gpca_v.Prelude.{◌≡◌, refl}
use gpca_v.Errors.{Exn}
use gpca_v.Run.{World, Result, ok, err, Exec, continue, ◌>>=◌}

pub continue-continue {ℓ κ μ} :
    {A : Type ℓ} {B : Type κ} {C : Type μ} (f : A → Exec B) (g : B → Exec C) (r : Result A × World)
    → continue g (continue f r) ≡ continue (λ a s. continue g (f a s)) r
continue-continue f g (ok a, s) = refl
continue-continue f g (err e, s) = refl

pub err-injective {ℓ} : {A : Type ℓ} {e e' : Exn} → ◌≡◌ {A = Result A} (err e) (err e') → e ≡ e'
err-injective h = cc

pub ok-injective {ℓ} : {A : Type ℓ} {a b : A} → ok a ≡ ok b → a ≡ b
ok-injective h = cc

-- A successful sequence is a success of its first action, from which the second goes on.
pub >>=-eq-ok {ℓ κ} :
    {A : Type ℓ} {B : Type κ} (m : Exec A) (f : A → Exec B) (s : World) {b : B}
    → ((m >>= f) s).0 ≡ ok b
    → (a : A) × ((m s).0 ≡ ok a) × ((m >>= f) s ≡ f a (m s).1)
unfolding ◌>>=◌
>>=-eq-ok {A} {B} m f s {b} = go (m s)
  where
    go :
        (r : Result A × World)
        → (continue f r).0 ≡ ok b
        → (a : A) × (r.0 ≡ ok a) × (continue f r ≡ f a r.1)
    go (ok a, s') h = (a, refl, refl)
    go (err e, s') h = cc

-- What every end of a sequence returns, the sequence returns.
pub >>=-returns {ℓ κ} :
    {A : Type ℓ} {B : Type κ} (m : Exec A) (f : A → Exec B) (b : B)
    → ((a : A) (s : World) (c : B) → (f a s).0 ≡ ok c → b ≡ c)
    → (s : World) (c : B) → ((m >>= f) s).0 ≡ ok c
    → b ≡ c
unfolding ◌>>=◌
>>=-returns {A} {B} m f b last s c = go (m s)
  where
    go : (r : Result A × World) → (continue f r).0 ≡ ok c → b ≡ c
    go (ok a, s') h = last a s' c h
    go (err e, s') h = cc
