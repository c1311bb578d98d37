-- ===== src/App/Handle/Laws.antt =====
-- Every response carries the id of its request, and every problem body names the same id.
use gpca_v.Prelude.{ℕ, String, Option, List, [], ◌∷◌, ◌≡◌, refl, inl, inr}
use gpca_v.Errors.{
  Exn, http, token_expired, token_invalid, authentication_failed, refresh_rejected, integrity_error,
  data_error, multiple_results, runtime_error, overflow_error,
}
use gpca_v.Run.{World, Result, ok, err}
use gpca_v.Run.Returns.{Good}
use gpca_v.Responses.{
  Response, Body, Problem, problem, accepted_response, message_response, token_pair_response,
  health_status, readiness_status, document, empty, finish, render, problem_response,
}
use gpca_v.App.Contract.{
  Model, accepted_model, message_model, token_pair_model, health_model, readiness_model, no_model,
  document_model, IsOf, IsDeclared,
}

-- the id that a problem body names is this one; other bodies name none
abbrev pub Tagged : Option String → Body → Type 0
Tagged request_id (problem p) = p.request_id ≡ request_id
Tagged request_id _ = Unit

-- a response of a view: not a problem
abbrev pub IsPlain : Response → Type 0
IsPlain r = (request_id : Option String) → Tagged request_id r.body

no_problem : (model : Model) (p : Problem) → ¬ IsOf model (problem p)
no_problem accepted_model p h = h
no_problem message_model p h = h
no_problem token_pair_model p h = h
no_problem health_model p h = h
no_problem readiness_model p h = h
no_problem no_model p h = h
no_problem document_model p h = h

-- a body of a declared model is not a problem
of_model-Tagged :
    (model : Model) (body : Body) → IsOf model body → (i : Option String) → Tagged i body
of_model-Tagged model (problem p) h i = absurd (no_problem model p h)
of_model-Tagged model (accepted_response d) h i = tt
of_model-Tagged model (message_response d) h i = tt
of_model-Tagged model (token_pair_response a b c d) h i = tt
of_model-Tagged model (health_status d) h i = tt
of_model-Tagged model (readiness_status d c) h i = tt
of_model-Tagged model document h i = tt
of_model-Tagged model empty h i = tt

declared-IsPlain : (answers : List (ℕ × Model)) (r : Response) → IsDeclared answers r → IsPlain r
declared-IsPlain [] r h = absurd h
declared-IsPlain ((code, model) ∷ rest) r (inl h) = of_model-Tagged model r.body h.1
declared-IsPlain ((code, model) ∷ rest) r (inr h) = declared-IsPlain rest r h

render-Tagged :
    (request_id : Option String) (e : Exn) → Tagged request_id (render request_id e).body
unfolding render problem_response
render-Tagged request_id (http e) = refl
render-Tagged request_id token_expired = refl
render-Tagged request_id token_invalid = refl
render-Tagged request_id authentication_failed = refl
render-Tagged request_id refresh_rejected = refl
render-Tagged request_id integrity_error = refl
render-Tagged request_id data_error = refl
render-Tagged request_id multiple_results = refl
render-Tagged request_id runtime_error = refl
render-Tagged request_id overflow_error = refl

pub finish-Tagged :
    (answers : List (ℕ × Model)) (request_id : Option String) (r : Result Response × World)
    → Good (IsDeclared answers) r.0
    → Tagged request_id (finish request_id r).0.body
unfolding finish
finish-Tagged answers request_id (ok r, s) h = declared-IsPlain answers r h request_id
finish-Tagged answers request_id (err e, s) h = render-Tagged request_id e
