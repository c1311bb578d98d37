-- ===== src/App/Contract/Answers.antt =====
-- Requests, and the responses that their endpoints declare.
use gpca_v.Prelude.{String, Bool-cases, Option, none, some, ◌≡◌, refl, inl, inr, ◌⊎◌, ◌≤◌, arith}
use gpca_v.Env.{Env}
use gpca_v.Config.{Settings}
use gpca_v.Errors.{
  ErrorKind, status, bad_request, unauthorized, payment_failed, forbidden, conflict,
  validation_failed, too_many_requests, Exn, http, token_expired, token_invalid,
  authentication_failed, refresh_rejected, integrity_error, data_error, multiple_results,
  runtime_error, overflow_error,
}
use gpca_v.Run.{World, Result, ok, err, ◌>>=◌}
use gpca_v.Run.Returns.{Good}
use gpca_v.Responses.{Response, finish, render, problem_response}
use gpca_v.App.Contract.{declared, IsDeclared, IsProblem}
use gpca_v.App.Dispatch.{
  Framework, Request, Endpoint, view_of, method_of, same_method, page_or, not_found, at_endpoint,
  endpoint_at, url_map, dispatch,
}
use gpca_v.App.RequestId.{prefix, header_or_empty, assign_request_id}
use gpca_v.App.Handle.{handle}
use gpca_v.Security.Header.{strip, is_empty}
use gpca_v.App.Contract.Laws.{view-Returns}

from_400 : (kind : ErrorKind) → 400 ≤ status kind
from_400 ErrorKind.app_error = omega arith
from_400 bad_request = omega arith
from_400 unauthorized = omega arith
from_400 payment_failed = omega arith
from_400 forbidden = omega arith
from_400 ErrorKind.not_found = omega arith
from_400 conflict = omega arith
from_400 validation_failed = omega arith
from_400 too_many_requests = omega arith

render-IsProblem : (request_id : Option String) (e : Exn) → IsProblem (render request_id e)
unfolding render problem_response
render-IsProblem request_id (http e) = (refl, from_400 e.kind, refl)
render-IsProblem request_id token_expired = (refl, omega arith, refl)
render-IsProblem request_id token_invalid = (refl, omega arith, refl)
render-IsProblem request_id authentication_failed = (refl, omega arith, refl)
render-IsProblem request_id refresh_rejected = (refl, omega arith, refl)
render-IsProblem request_id integrity_error = (refl, omega arith, refl)
render-IsProblem request_id data_error = (refl, omega arith, refl)
render-IsProblem request_id multiple_results = (refl, omega arith, refl)
render-IsProblem request_id runtime_error = (refl, omega arith, refl)
render-IsProblem request_id overflow_error = (refl, omega arith, refl)

finished :
    (P : Response → Type 0) (request_id : Option String) (r : Result Response × World)
    → Good P r.0
    → P (finish request_id r).0 ⊎ IsProblem (finish request_id r).0
unfolding finish
finished P request_id (ok r, s) h = inl h
finished P request_id (err e, s) h = inr (render-IsProblem request_id e)

module _ (fw : Framework) (env : Env) (settings : Settings) (request : Request) where
  -- what a request is answered with, by the endpoint that its path names
  abbrev pub IsAnswer : Option Endpoint → Response → Type 0
  IsAnswer none r = (fw.page request.method request.path ≡ some r) ⊎ IsProblem r
  IsAnswer (some e) r = IsDeclared (declared e) r ⊎ IsProblem r

  page_answer :
      (id : String) (o : Option Response)
      → (o ≡ some (page_or fw env settings request o (not_found fw env settings request id)))
        ⊎ IsProblem (page_or fw env settings request o (not_found fw env settings request id))
  unfolding problem_response
  page_answer id none = inr (refl, omega arith, refl)
  page_answer id (some r) = inl refl

  at_endpoint-IsAnswer :
      (id : String) (o : Option Endpoint) (s : World)
      → IsAnswer o (at_endpoint fw env settings request id o s).0
  unfolding problem_response
  at_endpoint-IsAnswer id none s = page_answer id (fw.page request.method request.path)
  at_endpoint-IsAnswer id (some e) s =
      elim (Bool-cases (same_method (method_of e) request.method)) [
        | inl right ↦ rw right (
            finished (IsDeclared (declared e)) (some id) (view_of fw env settings request e s)
              ((view-Returns fw env settings request e).at s))
        | inr wrong ↦ rw wrong (inr (refl, omega arith, refl))
      ]

  -- Whatever a request is and whatever it meets, its response is one that its endpoint declares, of the
  -- declared status and model, or a problem: application/problem+json of a status from 400 on, which
  -- the body repeats. Where the path names no endpoint, it is a page of the documentation or a problem.
  pub handle-IsAnswer :
      (s : World)
      → IsAnswer (endpoint_at request.path url_map) (handle fw env settings request s).0.response
  unfolding handle assign_request_id dispatch ◌>>=◌
  handle-IsAnswer s = elim (Bool-cases (is_empty (strip (header_or_empty request.request_id)))) [
    | inl absent ↦
        rw absent
          (at_endpoint-IsAnswer (env.uuid4_hex s.draws) (endpoint_at request.path url_map) _)
    | inr given ↦ rw given (
        at_endpoint-IsAnswer (prefix 200 (strip (header_or_empty request.request_id)))
          (endpoint_at request.path url_map) _)
  ]
