-- ===== src/Client.antt =====
-- frontend/src/api/client.ts: the token of the cookie, the call that `request` makes of `fetch`,
-- and how its reply becomes a result or a thrown error. The reply of `fetch` is an argument.
pub mod Uri
pub mod Csrf
pub mod Requests
mod Tests
use Prim.Native.Char.{code}
use ready_jlmirror.Common.{
  ℕ, String, Bool, true, false, List, Option, none, some, ◌<>◌, if◌then◌else◌, eqb, show, ◌or_else◌,
  spread,
}
use ready_jlmirror.Ui.{Method, get, post, put, patch, delete, Body}
use Uri.{decode}

-- The rest of a text after a given beginning, if it begins so.
strip : String → String → Option String
strip String.[] s = some s
strip (String.◌∷◌ c p) String.[] = none
strip (String.◌∷◌ c p) (String.◌∷◌ d s) = if eqb (code c) (code d) then strip p s else none

-- `[^;]*`
value : String → String
value String.[] = ""
value (String.◌∷◌ c s) = if eqb (code c) b';' then "" else String.◌∷◌ c (value s)

-- A match of `; jl_csrf=([^;]*)` at this place or a later one.
find_later : String → Option String
unfolding strip value
find_later String.[] = none
find_later (String.◌∷◌ c s) = elim (strip "; jl_csrf=" (String.◌∷◌ c s)) [
  | some rest ↦ some (value rest)
  | none ↦ find_later s
]

-- The first match of `(?:^|; )jl_csrf=([^;]*)`.
find_token : String → Option String
unfolding find_later
find_token cookie = elim (strip "jl_csrf=" cookie) [
  | some rest ↦ some (value rest)
  | none ↦ find_later cookie
]

decode_match : Option String → Option String
decode_match none = some ""
decode_match (some m) = decode m

-- `none`: `decodeURIComponent` throws.
unfoldable pub csrf_token : String → Option String
unfolding find_token decode_match
csrf_token cookie = decode_match (find_token cookie)

headers_of : String → List (String × String) → List (String × String)
unfolding spread
headers_of token extra =
    spread
      (List.◌∷◌ ("Content-Type", "application/json") (List.◌∷◌ ("X-CSRF-Token", token) List.[]))
      extra

headers : String → List (String × String) → Option (List (String × String))
unfolding headers_of
headers cookie extra = elim (csrf_token cookie) [
  | none ↦ none
  | some token ↦ some (headers_of token extra)
]

-- A call of `fetch`. The body is sent as its JSON text.
pub record FetchCall : Type 0 where
  pub path : String
  pub method : Method
  pub credentials : String
  pub headers : List (String × String)
  pub body : Option Body

fetch_call : String → Method → String → Option Body → Option FetchCall
unfolding headers
fetch_call cookie m p b = elim (headers cookie List.[]) [
  | none ↦ none
  | some hs ↦
      some (record { path = p; method = m; credentials = "same-origin"; headers = hs; body = b })
]

-- What `fetch` gives back. `body_text` is absent where reading it fails, and `json` where the
-- body is not the JSON of a value.
pub record Response {ℓ} (A : Type ℓ) : Type ℓ where
  pub ok : Bool
  pub status : ℕ
  pub status_text : String
  pub body_text : Option String
  pub json : Option A
  pub json_error : String

pub data Reply {ℓ} (A : Type ℓ) : Type ℓ where
  rejected : String → Reply A
  response : Response A → Reply A

-- What the handlers of errors read of a thrown value.
pub record Failure : Type 0 where
  pub detail : Option String
  pub message : Option String

-- An `Error` has a message, and no field `detail`.
abbrev pub error : String → Failure
error m = record { detail = none; message = some m }

pub data Result {ℓ} (A : Type ℓ) : Type ℓ where
  ok : A → Result A
  err : Failure → Result A

-- The result of a request, and the events that it dispatched on the window.
pub record Outcome {ℓ} (A : Type ℓ) : Type ℓ where
  pub result : Result A
  pub events : List String

module _ {ℓ} {A : Type ℓ} where
  refuse : Response A → Outcome A
  refuse r = record {
    result =
        err (error (show r.status <> " " <> r.status_text <> ": " <> (r.body_text or_else "")));
    events = if eqb r.status 401 then List.◌∷◌ "jlm:session-expired" List.[] else List.[];
  }

  read_json : Response A → Option A → Outcome A
  read_json r none = record { result = err (error r.json_error); events = List.[] }
  read_json r (some a) = record { result = ok a; events = List.[] }

  -- `request` after its call of `fetch`.
  settle : Reply A → Outcome A
  unfolding refuse read_json
  settle (rejected message) = record { result = err (error message); events = List.[] }
  settle (response r) = if r.ok then read_json r r.json else refuse r

  -- `request`: with no call of `fetch` if the headers throw.
  unfoldable pub request : String → Method → String → Option Body → Reply A → Outcome A
  unfolding settle fetch_call
  request cookie m p b reply = elim (fetch_call cookie m p b) [
    | none ↦ record { result = err (error "URI malformed"); events = List.[] }
    | some call ↦ settle reply
  ]

-- The members of `api`: which call each one makes. `get` and `delete` send no body.
pub api : String → Method → String → Option Body → Option FetchCall
unfolding fetch_call
api cookie get p b = fetch_call cookie get p none
api cookie post p b = fetch_call cookie post p b
api cookie put p b = fetch_call cookie put p b
api cookie patch p b = fetch_call cookie patch p b
api cookie delete p b = fetch_call cookie delete p none

-- `logout`: its call of `fetch`, whose failure is ignored, and the page that it then opens.
pub logout : String → Option (FetchCall × String)
logout cookie = elim (csrf_token cookie) [
  | none ↦ none
  | some token ↦ some (
    record {
      path = "/auth/logout";
      method = post;
      credentials = "same-origin";
      headers = List.◌∷◌ ("X-CSRF-Token", token) List.[];
      body = none;
    },
    "/",
  )
]
