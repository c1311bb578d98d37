-- ===== src/Schemas/Requests/Laws.antt =====
-- What a registration that passes validation is like, and what becomes of one that does not.
use Prim.Native.String.{count}
use gpca_v.Prelude.{
  ℕ, String, Option, none, some, List, [], ◌∷◌, ◌++◌, ◌≡◌, ◌≤◌, ◌<◌, ◌⊎◌, inl, inr, refl, arith,
}
use gpca_v.Db.Table.{length}
use gpca_v.Security.Passwords.{min_password_length, max_password_length}
use gpca_v.Services.Auth.Accounts.{Registration}
use gpca_v.Schemas.Validation.{ErrorDetail, Parsed, valid, rejected}
use gpca_v.Schemas.Requests.{
  Json, text_value, other_value, JsonBody, members, not_object, Pydantic, Field, value, issue,
  member_of, sized, str_field, email_field, registration_of, register_request, errors_of,
}

abbrev pub Between : ℕ → ℕ → String → Type 0
Between low high s = (low ≤ count s) × (count s ≤ high)

-- the bounds that the fields of a registration are read with
abbrev pub IsBounded : Registration → Type 0
IsBounded form =
    Between min_password_length max_password_length form.password
    × Between 1 100 form.first_name
    × Between 1 100 form.last_name

-- a field that is read meets a bound
abbrev Meets : (String → Type 0) → Field String → Type 0
Meets P f = (s : String) → f ≡ value s → P s

module _ (pydantic : Pydantic) where
  sized-Meets :
      (low high : ℕ) (text : String) → Meets (Between low high) (sized pydantic low high text)
  sized-Meets low high text s h = ground arith

  str_field-Meets :
      (low high : ℕ) (o : Option Json) → Meets (Between low high) (str_field pydantic low high o)
  str_field-Meets low high none s h = cc
  str_field-Meets low high (some other_value) s h = cc
  str_field-Meets low high (some (text_value t)) s h =
      sized-Meets low high (pydantic.strip_text t) s h

  -- The fields of a registration are values that meet their bounds, or there is an error.
  abbrev Outcome : Parsed Registration → Type 0
  Outcome parsed =
      ((form : Registration) × (parsed ≡ valid form) × IsBounded form)
      ⊎ ((errors : List ErrorDetail) × (parsed ≡ rejected errors) × (0 < length errors))

  abbrev listed :
      Field String
      → Field String
      → Field String
      → Field String
      → List ErrorDetail
      → List ErrorDetail
  listed e p f l extra =
      errors_of pydantic "email" e
      ++ (errors_of pydantic "password" p
          ++ (errors_of pydantic "first_name" f ++ (errors_of pydantic "last_name" l ++ extra)))

  some_error :
      (e p f l : Field String) (extra : List ErrorDetail)
      → Meets (Between min_password_length max_password_length) p
      → Meets (Between 1 100) f
      → Meets (Between 1 100) l
      → Outcome (registration_of pydantic e p f l (listed e p f l extra))
  some_error (issue i) p f l extra hp hf hl = inr (_, refl, omega arith)
  some_error (value e) (issue i) f l extra hp hf hl = inr (_, refl, omega arith)
  some_error (value e) (value p) (issue i) l extra hp hf hl = inr (_, refl, omega arith)
  some_error (value e) (value p) (value f) (issue i) extra hp hf hl = inr (_, refl, omega arith)
  some_error (value e) (value p) (value f) (value l) (d ∷ extra) hp hf hl =
      inr (_, refl, omega arith)
  some_error (value e) (value p) (value f) (value l) [] hp hf hl =
      inl (_, refl, (hp p refl, hf f refl, hl l refl))

  pub register_request_lem : (body : JsonBody) → Outcome (register_request pydantic body)
  unfolding register_request
  register_request_lem not_object = inr (_, refl, omega arith)
  register_request_lem (members fields) =
      some_error (email_field pydantic (member_of "email" fields))
        (str_field pydantic min_password_length max_password_length (member_of "password" fields))
        (str_field pydantic 1 100 (member_of "first_name" fields))
        (str_field pydantic 1 100 (member_of "last_name" fields)) _
        (str_field-Meets min_password_length max_password_length (member_of "password" fields))
        (str_field-Meets 1 100 (member_of "first_name" fields))
        (str_field-Meets 1 100 (member_of "last_name" fields))
