-- ===== src/App/Handle.antt =====
-- One request: the request id, the dispatch, and the header of the response.
pub mod Laws
pub mod Tags
use gpca_v.Prelude.{String, Option, some, none, [], List}
use gpca_v.Env.{Env}
use gpca_v.Config.{Settings}
use gpca_v.Run.{World, Result, ok, err}
use gpca_v.Responses.{Response, render}
use gpca_v.App.RequestId.{assign_request_id}
use gpca_v.App.Dispatch.{Framework, Request, dispatch}

-- a response as it leaves, with its X-Request-ID header
pub record Sent : Type 0 where
  pub response : Response
  pub request_id : Option String

-- `_echo_request_id`
abbrev pub echo_request_id : Option String → Response → Sent
echo_request_id request_id response = record { response = response; request_id = request_id }

module _ (fw : Framework) (env : Env) (settings : Settings) (request : Request) where
  -- what follows the assignment of the id, which does not raise
  abbrev pub with_id : Result String × World → Sent × World
  with_id (ok request_id, s) =
      let (response, s') = dispatch fw env settings request request_id s in
      (echo_request_id (some request_id) response, s')
  with_id (err e, s) = (echo_request_id none (render none e), s)

  -- `g` is new for each request, so the queue of emails is empty
  unfoldable pub handle : World → Sent × World
  handle s = with_id (assign_request_id env request.request_id (record s { pending = [] }))
