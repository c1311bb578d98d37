-- ===== src/App/Orderless.antt =====
-- Sequences of requests on databases with the same rows in another order: PostgreSQL promises no
-- order, and the tables of the model are lists.
use gpca_v.Prelude.{String, Option, some, ◌≡◌, refl, Bool-cases, inl, inr, List, [], ◌∷◌}
use gpca_v.Env.{Env}
use gpca_v.Config.{Settings}
use gpca_v.Run.{World, Result, ok, err}
use gpca_v.Run.Agrees.{on, Follows, Agrees, agrees_rules}
use gpca_v.Db.Models.{Database}
use gpca_v.Db.Integrity.{IsWellFormed}
use gpca_v.Db.Reorder.{IsShuffle, IsReordering, IsShuffle-IsReordering}
use gpca_v.Responses.{Response, finish}
use gpca_v.Routes.Orderless.{orderless_views}
use gpca_v.App.Obey.{view-Obeys}
use gpca_v.App.RequestId.{assign_request_id}
use gpca_v.App.Dispatch.{
  Framework, Request, Endpoint, view_of, method_of, same_method, at_endpoint, endpoint_at, url_map,
  dispatch,
}
use gpca_v.App.Handle.{Sent, handle, with_id}

finish-Follows :
    (request_id : Option String) (r r' : Result Response × World)
    → Follows r r'
    → Follows (finish request_id r) (finish request_id r')
unfolding finish
finish-Follows request_id r r' h = rw h.same (go r h.other h.like)
  where
    go :
        (r : Result Response × World) (other : Database)
        → IsReordering r.1.db other
        → Follows (finish request_id r) (finish request_id (r.0, on other r.1))
    go (ok a, s) other h = record { other = other; same = refl; like = h }
    go (err e, s) other h = record { other = other; same = refl; like = h }

module _ (fw : Framework) (env : Env) (settings : Settings) (request : Request) where
  endpoint-Follows :
      (id : String) (o : Option Endpoint) (s : World) (db : Database)
      → IsReordering s.db db
      → Follows
          (at_endpoint fw env settings request id o s)
          (at_endpoint fw env settings request id o (on db s))
  endpoint-Follows id Option.none s db h = record { other = db; same = refl; like = h }
  endpoint-Follows id (some e) s db h =
      elim (Bool-cases (same_method (method_of e) request.method)) [
        | inl right ↦ rw right (
            finish-Follows (some id) (view_of fw env settings request e s)
              (view_of fw env settings request e (on db s))
              ((view-Obeys fw env settings request (orderless_views env) e).by.at s db h))
        | inr wrong ↦ rw wrong (record { other = db; same = refl; like = h })
      ]

  id-Agrees : (header : Option String) → Agrees (assign_request_id env header)
  unfolding assign_request_id
  id-Agrees header = search agrees_rules

  with_id-Follows :
      (r : Result String × World) (other : Database)
      → IsReordering r.1.db other
      → Follows
          (with_id fw env settings request r)
          (with_id fw env settings request (r.0, on other r.1))
  unfolding dispatch
  with_id-Follows (ok id, s) other h =
      let k = endpoint-Follows id (endpoint_at request.path url_map) s other h in
      record { other = k.other; same = rw k.same refl; like = k.like }
  with_id-Follows (err e, s) other h = record { other = other; same = refl; like = h }

  handle-Follows :
      (s : World) (db : Database)
      → IsReordering s.db db
      → Follows (handle fw env settings request s) (handle fw env settings request (on db s))
  unfolding handle
  handle-Follows s db h =
      let k = (id-Agrees request.request_id).at (record s { pending = [] }) db h in
      rw k.same (
        with_id-Follows (assign_request_id env request.request_id (record s { pending = [] }))
          k.other k.like)

module _ (fw : Framework) (env : Env) (settings : Settings) where
  -- requests one after the other, with what they are answered
  abbrev pub answers : List Request → World → List Sent × World
  answers [] s = ([], s)
  answers (request ∷ requests) s =
      let (sent, s') = handle fw env settings request s in
      let (rest, s'') = answers requests s' in (sent ∷ rest, s'')

  answers-Follows :
      (requests : List Request) (s : World) (db : Database)
      → IsReordering s.db db
      → Follows (answers requests s) (answers requests (on db s))
  answers-Follows [] s db h = record { other = db; same = refl; like = h }
  answers-Follows (request ∷ requests) s db h =
      let k = handle-Follows fw env settings request s db h in
      let l = answers-Follows requests (handle fw env settings request s).1 k.other k.like in
      record { other = l.other; same = rw (k.same, l.same) refl; like = l.like }

  -- Two databases with the same rows in another order, of which one meets its unique indexes and
  -- foreign keys: whatever requests come, both give the same responses, hand the same emails out and
  -- hold the same rows afterwards.
  pub order_irrelevant :
      (requests : List Request) (s : World) (db : Database)
      → IsWellFormed env.citext_lower s.db
      → IsShuffle s.db db
      → let (sent, s') = answers requests s in
        let (sent', s'') = answers requests (record s { db = db }) in
        (sent' ≡ sent) × (s''.sent ≡ s'.sent) × (s''.draws ≡ s'.draws) × IsShuffle s'.db s''.db
  order_irrelevant requests s db w h =
      let k = answers-Follows requests s db (IsShuffle-IsReordering env.citext_lower w h) in
      rw k.same (refl, refl, refl, k.like.rows)
