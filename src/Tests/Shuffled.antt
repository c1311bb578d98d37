-- ===== src/Tests/Shuffled.antt =====
-- Two requests on a database and on the same rows in another order.
use mathlib.Core.List.{Permᴰ}
use mathlib.Core.List.Permᴰ
use gpca_v.Prelude.{List, [], ◌∷◌, ◌≡◌, refl}
use gpca_v.Db.Models.{Database}
use gpca_v.Db.Reorder.{IsShuffle}
use gpca_v.Schemas.Requests.{members, text_value}
use gpca_v.App.Dispatch.{Request}
use gpca_v.App.Orderless.{answers, order_irrelevant}
use gpca_v.Tests.Demo.{settings, start, live_row, spent_row}
use gpca_v.Tests.Sessions.{start-IsWellFormed}
use gpca_v.Tests.Application.{flask, hexed, login_request}

abbrev refresh_request : Request
refresh_request = record login_request {
  path = "/api/v1/auth/refresh";
  body = members (("refresh_token", text_value "q") ∷ []);
}

abbrev shuffled : Database
shuffled = record start.db { refresh_tokens = spent_row ∷ live_row ∷ [] }

start-IsShuffle : IsShuffle start.db shuffled
start-IsShuffle = record {
  users = Permᴰ.refl _;
  refresh_tokens = Permᴰ.swap refl refl;
  auth_tokens = Permᴰ.refl _;
}

abbrev requests : List Request
requests = login_request ∷ refresh_request ∷ []

order_irrelevant_example :
    let (sent, s') = answers flask hexed settings requests start in
    let (sent', s'') = answers flask hexed settings requests (record start { db = shuffled }) in
    (sent' ≡ sent) × (s''.sent ≡ s'.sent) × (s''.draws ≡ s'.draws) × IsShuffle s'.db s''.db
order_irrelevant_example =
    order_irrelevant flask hexed settings requests start shuffled start-IsWellFormed start-IsShuffle
