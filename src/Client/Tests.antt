-- ===== src/Client/Tests.antt =====
-- Cookies and replies on concrete inputs.
use ready_jlmirror.Common.{
  ℕ, String, true, false, List, [], ◌∷◌, none, some, ◌≡◌, refl, ◌↔◌, arith, is_some, show,
  ◌or_else◌, lookup,
}
use ready_jlmirror.Ui.{get, post}
use ready_jlmirror.Client.{
  csrf_token, FetchCall, api, request, response, Response, ok, err, Failure,
}
use ready_jlmirror.Client.Uri.{decode}
use ready_jlmirror.Client.Csrf.{print_jar, csrf_token-print_jar}
use ready_jlmirror.Client.Requests.{api_sends_token, request-ok_iff, request-events_iff}

abbrev jar : List (String × String)
jar = ("sid", "a=b") ∷ ("jl_csrf", "tok-1") ∷ ("jl_csrf", "old") ∷ []

abbrev cookie : String
cookie = "sid=a=b; jl_csrf=tok-1; jl_csrf=old"

print_jar-jar : print_jar jar ≡ cookie
unfolding print_jar
print_jar-jar = refl

csrf_token-print_jar_example : csrf_token (print_jar jar) ≡ decode (lookup "jl_csrf" jar or_else "")
csrf_token-print_jar_example = csrf_token-print_jar jar (omega arith)

token : csrf_token cookie ≡ some "tok-1"
unfolding csrf_token decode
token = refl

-- Another cookie whose name ends in the same letters is passed over.
other_name : csrf_token "xjl_csrf=1;jl_csrf=2" ≡ some ""
unfolding csrf_token decode
other_name = refl

api_sends_token_example :
    (call : FetchCall) × (api cookie post "/x" none ≡ some call)
    × (call.path ≡ "/x")
    × (call.method ≡ post)
    × (call.credentials ≡ "same-origin")
    × (lookup "X-CSRF-Token" call.headers ≡ some "tok-1")
api_sends_token_example = api_sends_token cookie post "/x" none token

abbrev denied : Response ℕ
denied = record {
  ok = false;
  status = 401;
  status_text = "Unauthorized";
  body_text = some "no";
  json = none;
  json_error = "";
}

request-ok_iff_example :
    ((request cookie get "/x" none (response denied)).result ≡ ok 7)
    ↔ (is_some (csrf_token cookie) ≡ true)
      × (r : Response ℕ) × (response denied ≡ response r)
      × (r.ok ≡ true)
      × (r.json ≡ some 7)
request-ok_iff_example = request-ok_iff cookie get "/x" none (response denied) 7

request-events_iff_example :
    ((request cookie get "/x" none (response denied)).events ≡ "jlm:session-expired" ∷ [])
    ↔ (is_some (csrf_token cookie) ≡ true)
      × (r : Response ℕ) × (response denied ≡ response r)
      × (r.ok ≡ false)
      × (r.status ≡ 401)
request-events_iff_example = request-events_iff cookie get "/x" none (response denied)

abbrev denial : Failure
denial = record { detail = none; message = some "401 Unauthorized: no" }

request-denied : (request cookie get "/x" none (response denied)).result ≡ err denial
unfolding request csrf_token decode show
request-denied = refl
