-- ===== src/App/RequestId.antt =====
-- `register_request_id` of api/app/logging.py.
use Prim.Native.String.{[], ◌∷◌, count}
use Prim.Native.String.count
use gpca_v.Prelude.{ℕ, zero, suc, String, Option, none, some, ◌≤◌, arith, if◌then◌else◌}
use gpca_v.Env.{Env}
use gpca_v.Run.{Exec, pure, draw}
use gpca_v.Security.Header.{strip, is_empty}

-- `text[:n]`
abbrev pub prefix : ℕ → String → String
prefix zero s = []
prefix (suc n) [] = []
prefix (suc n) (c ∷ s) = c ∷ prefix n s

-- `request.headers.get(REQUEST_ID_HEADER, "")`
abbrev pub header_or_empty : Option String → String
header_or_empty none = []
header_or_empty (some s) = s

-- `_assign_request_id`: what `g.request_id` becomes
unfoldable pub assign_request_id : Env → Option String → Exec String
assign_request_id env header =
    let incoming = strip (header_or_empty header) in
    if is_empty incoming then draw env.uuid4_hex else pure (prefix 200 incoming)

pub count-prefix : (n : ℕ) (s : String) → count (prefix n s) ≤ n
count-prefix zero s = rw count.nil (omega arith)
count-prefix (suc n) [] = rw count.nil (omega arith)
count-prefix (suc n) (c ∷ s) =
    let h = count-prefix n s in rw (count.cons c (prefix n s)) (omega arith)
