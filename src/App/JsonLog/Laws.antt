-- ===== src/App/JsonLog/Laws.antt =====
-- What stands under each key of a log line.
use gpca_v.Prelude.{
  String, true, Option, none, some, List, [], ◌∷◌, ◌≡◌, refl, arith, ◌∙◌, if◌then◌else◌, Bool-cases,
  inl, inr, ap,
}
use gpca_v.App.JsonLog.{LogRecord, is_extra, put, put_extras, put_exception, base_payload, format}
use package.text.Mathlib.Text.{◌==◌ as str_eq}
use text.Mathlib.TextEquality.{eq_iff}

same_extra :
    (record_fields : List String) (k key : String)
    → str_eq k key ≡ true
    → is_extra record_fields k ≡ is_extra record_fields key
same_extra record_fields k key e = ap (is_extra record_fields) ((eq_iff k key).0 e)

module _ {ℓ} {A : Type ℓ} where
  -- the value under a key
  unfoldable pub value_of : String → List (String × A) → Option A
  value_of key [] = none
  value_of key ((k, v) ∷ payload) = if str_eq k key then some v else value_of key payload

  abbrev pub or_else : Option A → Option A → Option A
  or_else none o = o
  or_else (some a) o = some a

  -- the last value under a key
  unfoldable pub last_of : String → List (String × A) → Option A
  last_of key [] = none
  last_of key ((k, v) ∷ attributes) =
      or_else (last_of key attributes) (if str_eq k key then some v else none)

  abbrev pub trace_of : (String → A) → Option String → Option A
  trace_of str none = none
  trace_of str (some trace) = some (str trace)

  -- what a line holds under a key: the exception's text, else the last extra attribute of that key,
  -- else one of the four texts of every line
  abbrev pub expected : List String → (String → A) → LogRecord A → String → Option A
  expected record_fields str r key =
      or_else (if str_eq "exception" key then trace_of str r.exception else none) (
        or_else (if is_extra record_fields key then last_of key r.attributes else none)
          (value_of key (base_payload str r)))

  value_of-put :
      (key k : String) (v : A) (payload : List (String × A))
      → value_of key (put k v payload) ≡ (if str_eq k key then some v else value_of key payload)
  unfolding value_of put
  value_of-put key k v [] = refl
  value_of-put key k v ((j, w) ∷ payload) =
      ground (arith, eq_iff j k, eq_iff j key, eq_iff k key, value_of-put key k v payload)

  value_of-put_extras :
      (record_fields : List String) (key : String) (attributes payload : List (String × A))
      → value_of key (put_extras record_fields attributes payload)
        ≡ or_else
            (if is_extra record_fields key then last_of key attributes else none)
            (value_of key payload)
  unfolding put_extras last_of
  value_of-put_extras record_fields key [] payload =
      elim (Bool-cases (is_extra record_fields key)) [ inl e ↦ rw e refl | inr e ↦ rw e refl ]
  value_of-put_extras record_fields key ((k, v) ∷ attributes) payload =
      value_of-put_extras record_fields key attributes
        (if is_extra record_fields k then put k v payload else payload)
      ∙ step (last_of key attributes)
    where
      step :
          (o : Option A)
          → or_else
              (if is_extra record_fields key then o else none)
              (value_of key (if is_extra record_fields k then put k v payload else payload))
            ≡ or_else
                (if is_extra record_fields key
                  then or_else o (if str_eq k key then some v else none)
                  else none)
                (value_of key payload)
      step none = ground (arith, value_of-put key k v payload, same_extra record_fields k key)
      step (some w) = ground (arith, value_of-put key k v payload, same_extra record_fields k key)

  value_of-put_exception :
      (str : String → A) (key : String) (e : Option String) (payload : List (String × A))
      → value_of key (put_exception str e payload)
        ≡ or_else (if str_eq "exception" key then trace_of str e else none) (value_of key payload)
  value_of-put_exception str key none payload = elim (Bool-cases (str_eq "exception" key)) [
    | inl e ↦ rw e refl
    | inr e ↦ rw e refl
  ]
  value_of-put_exception str key (some trace) payload =
      ground (arith, value_of-put key "exception" (str trace) payload)

  -- A log line holds under every key what `expected` says: the text of the exception, else the last
  -- extra attribute of that key, else the line's own timestamp, level, logger or message.
  pub value_of-format :
      (record_fields : List String) (str : String → A) (r : LogRecord A) (key : String)
      → value_of key (format record_fields str r) ≡ expected record_fields str r key
  unfolding format
  value_of-format record_fields str r key =
      value_of-put_exception str key r.exception
        (put_extras record_fields r.attributes (base_payload str r))
      ∙ rw (value_of-put_extras record_fields key r.attributes (base_payload str r)) refl
