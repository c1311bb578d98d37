-- ===== src/Config/Load/Laws.antt =====
-- What the settings of a process that has started are like.
use Prim.Native.String.{count, ◌++◌ as ◌⊹◌}
use gpca_v.Prelude.{
  ℕ, String, Option, none, some, List, [], ◌∷◌, ◌++◌, ◌≡◌, ◌≤◌, ◌<◌, ◌⊎◌, inl, inr, refl, arith,
  ltb, Bool-cases, ap,
}
use gpca_v.Config.{Settings}
use gpca_v.Config.Load.{
  Source, Checked, held, faulty, Whole, natural, negative, Fault, both, sized, bounded, number_or,
  required, optional, text_or, positive, at_least, fields, Fields, settings_of, loaded,
  config_error, loaded_from, load_settings, not_above, not_from, problems, min_secret_length,
}
use gpca_v.Config.Load.Rules.{
  IsUsable, IsReadFrom, Given, Read, ReadAs, TextAs, Rule, given, whole, fault_of_whole, fault_of,
  tagged, faults,
}
use gpca_v.Db.Table.{length}

-- A value is held, meets a condition, and no fault is expected; or the expected faults are reported.
abbrev HoldsAt : {A : Type 0} (P : A → Type 0) → List (String × Fault) → Checked A → Type 0
HoldsAt P expected (held a) = (expected ≡ []) × P a
HoldsAt P expected (faulty es) = (expected ≡ es) × (0 < length es)

record Holds {A : Type 0} (P : A → Type 0) (expected : List (String × Fault)) (x : Checked A)
    : Type 0 where
  outcome : HoldsAt P expected x

abbrev Both : {A B : Type 0} → (A → Type 0) → (B → Type 0) → A × B → Type 0
Both P Q (a, b) = P a × Q b

length-append : (es fs : List (String × Fault)) → 0 < length es → 0 < length (es ++ fs)
length-append [] fs h = omega arith
length-append (e ∷ es) fs h = omega arith

append-nil : (es : List (String × Fault)) → es ++ [] ≡ es
append-nil [] = refl
append-nil (e ∷ es) = ap (λ xs. e ∷ xs) (append-nil es)

both-HoldsAt :
    {A B : Type 0} (P : A → Type 0) (Q : B → Type 0) (es fs : List (String × Fault)) (x : Checked A)
    (y : Checked B)
    → HoldsAt P es x
    → HoldsAt Q fs y
    → HoldsAt (Both P Q) (es ++ fs) (both x y)
both-HoldsAt P Q es fs (held a) (held b) (e, p) (f, q) = (rw (e, f) refl, (p, q))
both-HoldsAt P Q es fs (held a) (faulty bs) (e, p) (f, h) = (rw (e, f) refl, h)
both-HoldsAt P Q es fs (faulty xs) (held b) (e, h) (f, q) = (rw (e, f) (append-nil xs), h)
both-HoldsAt P Q es fs (faulty xs) (faulty ys) (e, h) (f, k) =
    (rw (e, f) refl, length-append xs ys h)

both-Holds :
    {A B : Type 0} {P : A → Type 0} {Q : B → Type 0} {es fs : List (String × Fault)} {x : Checked A}
    {y : Checked B}
    → Holds P es x
    → Holds Q fs y
    → Holds (Both P Q) (es ++ fs) (both x y)
both-Holds {P = P} {Q = Q} {es = es} {fs = fs} {x = x} {y = y} h k = record {
  outcome = both-HoldsAt P Q es fs x y h.outcome k.outcome;
}

module _ (source : Source) where
  -- what is expected of one variable
  abbrev faults_at : String → Rule → List (String × Fault)
  faults_at name rule = tagged name (fault_of source rule (source.variable name))

  required-Holds :
      (name : String) (low : ℕ)
      → Holds (Given source name low) (faults_at name (given low)) (required source name low)
  required-Holds name low = at_value (source.variable name)
    where
      at_value :
          (o : Option String)
          → Holds
              (λ s. (o ≡ some s) × (low ≤ count s))
              (tagged name (fault_of source (given low) o))
              (sized source name low o)
      at_value none = record { outcome = (refl, omega arith) }
      at_value (some s) = elim (Bool-cases (ltb (count s) low)) [
        | inl short ↦ rw short (record { outcome = (refl, omega arith) })
        | inr long ↦ rw long (record { outcome = (refl, (refl, ground arith)) })
      ]

  bounded-Holds :
      (name : String) (low : ℕ) (fault : Fault) (o : Option Whole)
      → Holds
          (λ n. (o ≡ some (natural n)) × (low ≤ n))
          (tagged name (fault_of_whole low fault o))
          (bounded source name low fault o)
  bounded-Holds name low fault none = record { outcome = (refl, omega arith) }
  bounded-Holds name low fault (some (negative n)) = record { outcome = (refl, omega arith) }
  bounded-Holds name low fault (some (natural n)) = elim (Bool-cases (ltb n low)) [
    | inl below ↦ rw below (record { outcome = (refl, omega arith) })
    | inr fits ↦ rw fits (record { outcome = (refl, (refl, ground arith)) })
  ]

  number-Holds :
      (name : String) (default low : ℕ) (fault : Fault) (o : Option String)
      → low ≤ default
      → Holds
          (λ n. ReadAs source default o n × (low ≤ n))
          (tagged name (fault_of source (whole low fault) o))
          (number_or source name default low fault o)
  number-Holds name default low fault none h = record { outcome = (refl, (refl, h)) }
  number-Holds name default low fault (some s) h = bounded-Holds name low fault (source.read_int s)

  positive-Holds :
      (name : String) (default : ℕ)
      → 1 ≤ default
      → Holds
          (Read source name default 1)
          (faults_at name (whole 1 (not_above 0)))
          (positive source name default)
  positive-Holds name default = number-Holds name default 1 (not_above 0) (source.variable name)

  at_least-Holds :
      (name : String) (default low : ℕ)
      → low ≤ default
      → Holds
          (Read source name default low)
          (faults_at name (whole low (not_from low)))
          (at_least source name default low)
  at_least-Holds name default low =
      number-Holds name default low (not_from low) (source.variable name)

  abbrev InBounds : Fields source → Type 0
  InBounds = Both (Given source "secret_key" min_secret_length) (
      Both (Given source "database_url" 1) (
        Both (Given source "jwt_secret" min_secret_length) (
          Both (TextAs "production" (source.variable "flask_env")) (
            Both (TextAs "INFO" (source.variable "log_level")) (
              Both (TextAs "http://localhost:5173" (source.variable "frontend_origin")) (
                Both (Read source "jwt_access_ttl_seconds" 900 1) (
                  Both (Read source "jwt_refresh_ttl_days" 30 1) (
                    Both (Read source "argon2_memory_cost_kib" 19456 19456) (
                      Both (Read source "argon2_time_cost" 2 1) (
                        Both (Read source "argon2_parallelism" 1 1) (
                          Both (Read source "db_connect_timeout_seconds" 5 1)
                            (λ o. o ≡ source.variable "ses_from_address"))))))))))))

  optional-Holds :
      (name default : String)
      → Holds (TextAs default (source.variable name)) [] (optional source name default)
  optional-Holds name default = at_value (source.variable name)
    where
      at_value : (o : Option String) → Holds (TextAs default o) [] (held (text_or source default o))
      at_value none = record { outcome = (refl, refl) }
      at_value (some s) = record { outcome = (refl, refl) }

  fields-Holds : Holds InBounds (faults source) (fields source)
  fields-Holds = both-Holds (required-Holds "secret_key" min_secret_length) (
      both-Holds (required-Holds "database_url" 1) (
        both-Holds (required-Holds "jwt_secret" min_secret_length) (
          both-Holds (optional-Holds "flask_env" "production") (
            both-Holds (optional-Holds "log_level" "INFO") (
              both-Holds (optional-Holds "frontend_origin" "http://localhost:5173") (
                both-Holds (positive-Holds "jwt_access_ttl_seconds" 900 (omega arith)) (
                  both-Holds (positive-Holds "jwt_refresh_ttl_days" 30 (omega arith)) (
                    both-Holds (at_least-Holds "argon2_memory_cost_kib" 19456 19456 (omega arith)) (
                      both-Holds (at_least-Holds "argon2_time_cost" 2 1 (omega arith)) (
                        both-Holds (at_least-Holds "argon2_parallelism" 1 1 (omega arith)) (
                          both-Holds (positive-Holds "db_connect_timeout_seconds" 5 (omega arith))
                            (record { outcome = (refl, refl) }))))))))))))

  usable : (values : Fields source) → InBounds values → IsUsable (settings_of source values)
  usable (a, (b, (c, (d, (e, (f, (g, (h, (i, (j, (k, (l, m))))))))))))
        (pa, (pb, (pc, (pd, (pe, (pf, (pg, (ph, (pi, (pj, (pk, (pl, pm)))))))))))) =
      record {
        secret_key = pa.1;
        database_url = pb.1;
        jwt_secret = pc.1;
        access_ttl = pg.1;
        refresh_ttl = ph.1;
        memory_cost = pi.1;
        time_cost = pj.1;
        parallelism = pk.1;
        connect_timeout = pl.1;
      }

  read_from :
      (values : Fields source) → InBounds values → IsReadFrom source (settings_of source values)
  read_from (a, (b, (c, (d, (e, (f, (g, (h, (i, (j, (k, (l, m))))))))))))
        (pa, (pb, (pc, (pd, (pe, (pf, (pg, (ph, (pi, (pj, (pk, (pl, pm)))))))))))) =
      record {
        secret_key = pa.0;
        database_url = pb.0;
        jwt_secret = pc.0;
        flask_env = pd;
        log_level = pe;
        frontend_origin = pf;
        access_ttl = pg.0;
        refresh_ttl = ph.0;
        memory_cost = pi.0;
        time_cost = pj.0;
        parallelism = pk.0;
        connect_timeout = pl.0;
        ses_from_address = pm;
      }

  -- Reading the settings gives, when no variable is faulty, settings within all nine bounds, each of them
  -- what its variable gives or, where it gives nothing and may, the default; and otherwise a ConfigError
  -- whose message has one line for each faulty variable, in order, with what is wrong with it. Faulty is a
  -- required text that is missing or too short, and a number that is no integer or below its bound.
  pub load_settings_outcome :
      ((settings : Settings) × (load_settings source ≡ loaded settings)
        × IsUsable settings
        × IsReadFrom source settings
        × (faults source ≡ []))
      ⊎ ((0 < length (faults source))
          × (load_settings source
              ≡ config_error (
                  "Invalid configuration. Fix these environment variables (see infra/env/.env.example):\n"
                  ⊹ problems source (faults source))))
  unfolding load_settings
  load_settings_outcome = at_fields (fields source) fields-Holds.outcome
    where
      at_fields :
          (x : Checked (Fields source))
          → HoldsAt InBounds (faults source) x
          → ((settings : Settings) × (loaded_from source x ≡ loaded settings)
              × IsUsable settings
              × IsReadFrom source settings
              × (faults source ≡ []))
            ⊎ ((0 < length (faults source))
                × (loaded_from source x
                    ≡ config_error (
                        "Invalid configuration. Fix these environment variables (see infra/env/.env.example):\n"
                        ⊹ problems source (faults source))))
      at_fields (held v) (none_faulty, p) =
          inl (settings_of source v, refl, usable v p, read_from v p, none_faulty)
      at_fields (faulty es) (same, p) = inr (rw same (p, refl))
