-- ===== src/Tests/Application.antt =====
-- Requests, pages, log lines and redemptions on the small database.
use Prim.Native.String.{count}
use gpca_v.Prelude.{
  ℕ, String, true, false, none, some, [], ◌∷◌, ◌≡◌, ◌≤◌, refl, ◌*◌, ◌<◌, arith, leb, ltb, ◌⊎◌, List,
}
use gpca_v.Env.{Env, text, number, payload}
use gpca_v.Run.{ok, err, reading, advanced}
use gpca_v.Run.Scope.{flush_refused}
use gpca_v.Db.Table.{any, find, length}
use gpca_v.Db.Users.{by_id}
use gpca_v.Db.Enums.{email_verify, AuthTokenPurpose}
use gpca_v.Security.Header.{strip}
use gpca_v.Security.Tokens.{second, access_payload}
use gpca_v.Security.Guards.{load_current_user}
use gpca_v.Security.Lifetime.{signed, signed_payload, deadline, accepted_while_young}
use gpca_v.Services.Auth.Accounts.{Registration}
use gpca_v.Services.Auth.SingleUse.{consume_single_use_token}
use gpca_v.Services.Auth.Refine.{vault_of, redeem_from, consume-redeem_from}
use gpca_v.Responses.{finish}
use gpca_v.Routes.Auth.{register_view}
use gpca_v.Routes.Bodies.{post_register, post_register_lem}
use gpca_v.Schemas.Page.{page_of, page_of_lem}
use gpca_v.Schemas.Validation.{ErrorDetail, validation_problem}
use gpca_v.Schemas.Requests.{Pydantic, JsonBody, members, text_value}
use gpca_v.Schemas.Requests.Laws.{IsBounded}
use gpca_v.App.Health.{executed}
use gpca_v.App.Dispatch.{Framework, Request, get, post, endpoint_at, url_map}
use gpca_v.App.Handle.{handle}
use gpca_v.App.Handle.Tags.{handle-Tagged, id_of}
use gpca_v.App.Handle.Laws.{Tagged}
use gpca_v.App.Contract.Answers.{IsAnswer, handle-IsAnswer}
use gpca_v.App.JsonLog.{LogRecord, format}
use gpca_v.App.JsonLog.Laws.{value_of, last_of, value_of-format}
use gpca_v.Tests.Demo.{demo, settings, start, ada, browser}
use gpca_v.Tests.Sessions.{start-IsWellFormed}

page_of_lem_example :
    let p = page_of {A = String} ("a" ∷ "b" ∷ []) 3 2 5 in
    (p.data_items ≡ ("a" ∷ "b" ∷ []))
    × (p.meta.total ≡ 5)
    × (5 ≤ p.meta.total_pages * 2)
    × ((k : ℕ) → 5 ≤ k * 2 → p.meta.total_pages ≤ k)
page_of_lem_example = page_of_lem ("a" ∷ "b" ∷ []) 3 2 5 (omega arith) (omega arith) (omega arith)

-- a pydantic that strips nothing and takes every text for an address
abbrev lenient : Pydantic
lenient = record { strip_text = λ s. s; read_email = λ s. some s; wording = λ i. "wrong" }

abbrev body : JsonBody
body = members (("email", text_value "bob") ∷ ("role", text_value "admin") ∷ [])

post_register_lem_example :
    ((form : Registration) × IsBounded form
      × (post_register demo settings lenient body start ≡ register_view demo settings form start))
    ⊎ ((errors : List ErrorDetail) × (0 < length errors)
        × (post_register demo settings lenient body start
            ≡ (err (validation_problem errors), start))
        × ((finish (some "r") (post_register demo settings lenient body start)).0.status ≡ 422))
post_register_lem_example = post_register_lem demo settings lenient body (some "r") start

abbrev pub flask : Framework
flask = record {
  pydantic = lenient;
  connect = λ n. executed;
  page = λ m path. none;
  not_found_text = "not here";
  not_allowed_text = "not so";
}

abbrev pub hexed : Env
hexed = record demo { uuid4_hex = λ n. "0f" }

abbrev request : Request
request = record {
  method = get;
  path = "/nowhere";
  request_id = some " trace ";
  authorization = none;
  client = browser;
  body = body;
}

hexed_short : (n : ℕ) → count (hexed.uuid4_hex n) ≤ 200
hexed_short n = omega arith

handle-Tagged_example :
    let sent = (handle flask hexed settings request start).0 in
    let id = id_of hexed request.request_id start in
    (sent.request_id ≡ some id) × (count id ≤ 200) × Tagged (some id) sent.response.body
handle-Tagged_example =
    handle-Tagged flask hexed settings request (λ m path r h. cc) hexed_short start

abbrev pub login_request : Request
login_request = record request {
  method = post;
  path = "/api/v1/auth/login";
  body = members (("email", text_value "ada") ∷ ("password", text_value "pw") ∷ []);
}

handle-IsAnswer_example :
    IsAnswer flask hexed settings login_request
      (endpoint_at login_request.path url_map)
      (handle flask hexed settings login_request start).0.response
handle-IsAnswer_example = handle-IsAnswer flask hexed settings login_request start

-- a record with a standard attribute, an extra one, and a traceback
abbrev line : LogRecord String
line = record {
  timestamp = "now";
  level = "ERROR";
  logger = "app";
  message = "failed";
  attributes = ("name", "app") ∷ ("user", "ada") ∷ ("_x", "hidden") ∷ [];
  exception = some "Traceback";
}

value_of-format_example : value_of "user" (format ("name" ∷ []) (λ s. s) line) ≡ some "ada"
unfolding last_of
value_of-format_example = value_of-format ("name" ∷ []) (λ s. s) line "user"

consume-redeem_from_example :
    let (outcome, s') = consume_single_use_token demo "v" email_verify start in
    let (account, vault) =
      redeem_from (demo.clock start.draws) email_verify (demo.sha256 "v") (vault_of start.db) in
    (outcome ≡ ok account)
    × ((later : ℕ) (p : AuthTokenPurpose) (d : ℕ) → vault_of s'.db later p d ≡ vault later p d)
consume-redeem_from_example = consume-redeem_from demo email_verify "v" start start-IsWellFormed

-- an environment whose PyJWT knows one token
abbrev signer : Env
signer = record demo {
  uuid_parse = λ s. some 1;
  jwt_encode = λ p secret. "token";
  jwt_decode = λ now token secret. payload (record {
    sub = text (demo.uuid_text 1);
    role = text "viewer";
    token_version = number 0;
    jti = text (demo.uuid4_hex 11);
    iat = number 5;
    exp = number 905;
  });
}

signer_decodes :
    (now : ℕ)
    → leb (signer.clock (reading 0 start)) now ≡ true
    → ltb now (deadline signer settings ada "viewer" 900 start * second) ≡ true
    → signer.jwt_decode now (signed signer settings ada "viewer" 900 start) settings.jwt_secret
      ≡ payload (signed_payload signer settings ada "viewer" 900 start)
unfolding access_payload
signer_decodes now issued early = refl

token_trimmed : strip "token" ≡ "token"
unfolding strip
token_trimmed = refl

fits : flush_refused start.db ≡ false
unfolding flush_refused any
fits = refl

ada_known : by_id 1 start.db ≡ some ada
unfolding by_id find
ada_known = refl

accepted_while_young_example :
    load_current_user signer settings (some "Bearer token") start ≡ (ok ada, advanced 1 start)
accepted_while_young_example =
    accepted_while_young signer settings ada "viewer" 900 start refl signer_decodes refl
      token_trimmed refl start refl refl fits ada ada_known refl refl refl
