-- ===== src/App/Contract.antt =====
-- The responses that the endpoints declare to SpecTree, by their status and model.
pub mod Laws
pub mod Answers
use gpca_v.Prelude.{ℕ, List, [], ◌∷◌, ◌≡◌, ◌≤◌, ◌⊎◌}
use gpca_v.Responses.{
  Response, Body, accepted_response, message_response, token_pair_response, problem, health_status,
  readiness_status, document, empty,
}
use gpca_v.App.Dispatch.{
  Endpoint, health, ready, openapi, register, verify_email, resend, login, refresh, logout,
  logout_all, forgot, reset,
}

-- the response models of api/app/schemas; `no_model` is `HTTP_204=None`, and `document_model` the
-- OpenAPI document, whose route declares nothing
pub data Model : Type 0 where
  accepted_model message_model token_pair_model health_model readiness_model : Model
  no_model document_model : Model

-- `SpecResponse(HTTP_202=AcceptedResponse)` and so on
abbrev pub declared : Endpoint → List (ℕ × Model)
declared health = (200, health_model) ∷ []
declared ready = (200, readiness_model) ∷ (503, readiness_model) ∷ []
declared openapi = (200, document_model) ∷ []
declared register = (202, accepted_model) ∷ []
declared verify_email = (200, message_model) ∷ (400, message_model) ∷ []
declared resend = (202, accepted_model) ∷ []
declared login = (200, token_pair_model) ∷ (401, message_model) ∷ []
declared refresh = (200, token_pair_model) ∷ (401, message_model) ∷ []
declared logout = (204, no_model) ∷ []
declared logout_all = (204, no_model) ∷ []
declared forgot = (202, accepted_model) ∷ []
declared reset = (200, message_model) ∷ (400, message_model) ∷ []

-- the body is an instance of the model
abbrev pub IsOf : Model → Body → Type 0
IsOf accepted_model (accepted_response detail) = Unit
IsOf message_model (message_response detail) = Unit
IsOf token_pair_model (token_pair_response access kind seconds refresh_token) = Unit
IsOf health_model (health_status status) = Unit
IsOf readiness_model (readiness_status status checks) = Unit
IsOf document_model document = Unit
IsOf no_model empty = Unit
IsOf _ _ = ⊥

-- the response is one of those that are declared
abbrev pub IsDeclared : List (ℕ × Model) → Response → Type 0
IsDeclared [] r = ⊥
IsDeclared ((code, model) ∷ rest) r = ((r.status ≡ code) × IsOf model r.body) ⊎ IsDeclared rest r

-- the error contract: application/problem+json of a status from 400 on, which the body repeats
abbrev pub IsProblem : Response → Type 0
IsProblem r =
    (r.mimetype ≡ "application/problem+json") × (400 ≤ r.status) × SaysStatus r.status r.body
  where
    SaysStatus : ℕ → Body → Type 0
    SaysStatus code (problem p) = p.status ≡ code
    SaysStatus code _ = ⊥
