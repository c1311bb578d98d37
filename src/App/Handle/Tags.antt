-- ===== src/App/Handle/Tags.antt =====
-- The id of a request in its response.
use Prim.Native.String.{count}
use gpca_v.Prelude.{
  ℕ, String, Option, none, some, ◌≡◌, ◌≤◌, refl, Bool-cases, inl, inr, if◌then◌else◌,
}
use gpca_v.Env.{Env}
use gpca_v.Config.{Settings}
use gpca_v.Run.{World, ◌>>=◌}
use gpca_v.Responses.{Response, problem_response}
use gpca_v.Security.Header.{strip, is_empty}
use gpca_v.App.RequestId.{prefix, header_or_empty, assign_request_id, count-prefix}
use gpca_v.App.Dispatch.{
  Framework, Request, Endpoint, Method, view_of, dispatch, at_endpoint, endpoint_at, url_map,
  page_or, same_method, method_of, not_found,
}
use gpca_v.App.Handle.{handle}
use gpca_v.App.Contract.{declared}
use gpca_v.App.Contract.Laws.{view-Returns}
use gpca_v.App.Handle.Laws.{Tagged, IsPlain, finish-Tagged}

-- the id of a request: the caller's, stripped and cut to 200 characters, or a new one
abbrev pub id_of : Env → Option String → World → String
id_of env header s =
    if is_empty (strip (header_or_empty header))
    then env.uuid4_hex s.draws
    else prefix 200 (strip (header_or_empty header))

module _ (fw : Framework) (env : Env) (settings : Settings) (request : Request)
    (pages : (m : Method) (path : String) (r : Response)
      → fw.page m path ≡ some r
      → IsPlain r) where
  page_or-Tagged :
      (id : String) (o : Option Response)
      → ((r : Response) → o ≡ some r → IsPlain r)
      → Tagged
          (some id)
          (page_or fw env settings request o (not_found fw env settings request id)).body
  unfolding problem_response
  page_or-Tagged id none h = refl
  page_or-Tagged id (some r) h = h r refl (some id)

  endpoint-Tagged :
      (id : String) (o : Option Endpoint) (s : World)
      → Tagged (some id) (at_endpoint fw env settings request id o s).0.body
  unfolding problem_response
  endpoint-Tagged id none s =
      page_or-Tagged id (fw.page request.method request.path) (pages request.method request.path)
  endpoint-Tagged id (some e) s = elim (Bool-cases (same_method (method_of e) request.method)) [
    | inl right ↦ rw right (
        finish-Tagged (declared e) (some id) (view_of fw env settings request e s)
          ((view-Returns fw env settings request e).at s))
    | inr wrong ↦ rw wrong refl
  ]

  -- Every response carries the id of its request, which has at most 200 characters, and if its body is
  -- a problem, then the problem names the same id. The hexadecimal ids are supposed to be no longer,
  -- and SpecTree's own pages to be no problems.
  pub handle-Tagged :
      ((n : ℕ) → count (env.uuid4_hex n) ≤ 200)
      → (s : World)
      → let sent = (handle fw env settings request s).0 in
        let id = id_of env request.request_id s in
        (sent.request_id ≡ some id) × (count id ≤ 200) × Tagged (some id) sent.response.body
  unfolding handle assign_request_id dispatch ◌>>=◌
  handle-Tagged short s =
      elim (Bool-cases (is_empty (strip (header_or_empty request.request_id)))) [
        | inl absent ↦ rw absent (
          refl,
          short s.draws,
          endpoint-Tagged (env.uuid4_hex s.draws) (endpoint_at request.path url_map) _,
        )
        | inr given ↦ rw given (
          refl,
          count-prefix 200 (strip (header_or_empty request.request_id)),
          endpoint-Tagged (prefix 200 (strip (header_or_empty request.request_id)))
              (endpoint_at request.path url_map) _,
        )
      ]
