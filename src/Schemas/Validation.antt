-- ===== src/Schemas/Validation.antt =====
-- `_raise_as_problem_json` of api/app/validation.py: the validation errors of pydantic as a 422.
use Prim.Native.String.{◌++◌}
use gpca_v.Prelude.{ℕ, String, some, List, [], ◌∷◌, decimal, ◌==◌, if◌then◌else◌}
use gpca_v.Errors.{Exn, http, FieldError, validation_failed}
use gpca_v.Db.Table.{length}
use gpca_v.Run.{Exec, raise}

-- one item of `ValidationError.errors()`: the path as texts, the type and the message
pub record ErrorDetail : Type 0 where
  pub loc : List String
  pub type : String
  pub msg : String

-- `".".join(parts)`
abbrev pub join_dots : List String → String
join_dots [] = ""
join_dots (part ∷ []) = part
join_dots (part ∷ next ∷ rest) = part ++ ("." ++ join_dots (next ∷ rest))

abbrev pub field_error : ErrorDetail → FieldError
field_error e = record { field = join_dots e.loc; code = e.type; message = e.msg }

abbrev pub field_errors : List ErrorDetail → List FieldError
field_errors [] = []
field_errors (e ∷ es) = field_error e ∷ field_errors es

abbrev pub plural : ℕ → String
plural n = if n == 1 then "" else "s"

-- f"{len(errors)} field{plural} failed validation"
unfoldable pub failure_detail : ℕ → String
failure_detail n = decimal n ++ (" field" ++ (plural n ++ " failed validation"))

-- what the hook raises for these errors
unfoldable pub validation_problem : List ErrorDetail → Exn
unfolding failure_detail
validation_problem errors = http (record {
  kind = validation_failed;
  detail = some (failure_detail (length (field_errors errors)));
  errors = some (field_errors errors);
})

-- a body that pydantic has read, or its errors
pub data Parsed {ℓ} (A : Type ℓ) : Type ℓ where
  valid : A → Parsed A
  rejected : List ErrorDetail → Parsed A

-- `api_spec.validate`: the hook runs before the view, and raises if there are errors
unfoldable pub validated {ℓ κ} : {A : Type ℓ} {B : Type κ} → Parsed A → (A → Exec B) → Exec B
unfolding validation_problem
validated (valid a) view = view a
validated (rejected errors) view = raise (validation_problem errors)
