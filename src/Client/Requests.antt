-- ===== src/Client/Requests.antt =====
-- What a request sends, and what its caller gets.
use ready_jlmirror.Common.{
  String, true, false, [], ◌∷◌, Option, none, some, ◌≡◌, refl, ◌≢◌, ◌↔◌, arith, is_some, inl, inr,
  Option-cases, lookup,
}
use ready_jlmirror.Ui.{Method, get, post, put, patch, delete, Body}
use ready_jlmirror.Client.{
  csrf_token, fetch_call, FetchCall, headers, headers_of, api, request, settle, Reply, rejected,
  response, Response, Result, ok, err, Failure,
}

headers_of-lookup : (t : String) → lookup "X-CSRF-Token" (headers_of t []) ≡ some t
unfolding headers_of lookup
headers_of-lookup t = refl

-- The call that is made once the token is known.
abbrev call_with : String → Method → String → Option Body → FetchCall
call_with t m p b = record {
  path = p;
  method = m;
  credentials = "same-origin";
  headers = headers_of t [];
  body = b;
}

fetch_call_of_token :
    (cookie : String) (m : Method) (p : String) (b : Option Body) {t : String}
    → csrf_token cookie ≡ some t
    → fetch_call cookie m p b ≡ some (call_with t m p b)
unfolding fetch_call
fetch_call_of_token cookie m p b h = rw (h, headers, fetch_call)

abbrev HasToken : Option FetchCall → Method → String → String → Type 0
HasToken o m path t =
    (call : FetchCall) × (o ≡ some call)
    × (call.path ≡ path)
    × (call.method ≡ m)
    × (call.credentials ≡ "same-origin")
    × (lookup "X-CSRF-Token" call.headers ≡ some t)

-- If the cookie's token is t, then every member of `api` calls `fetch` on its path, by its
-- method, with the credentials of the same origin and with the header X-CSRF-Token: t.
pub api_sends_token :
    (cookie : String) (m : Method) (path : String) (body : Option Body) {t : String}
    → csrf_token cookie ≡ some t
    → (call : FetchCall) × (api cookie m path body ≡ some call)
      × (call.path ≡ path)
      × (call.method ≡ m)
      × (call.credentials ≡ "same-origin")
      × (lookup "X-CSRF-Token" call.headers ≡ some t)
unfolding api
api_sends_token cookie get p b {t} h = (
  call_with t get p none,
  fetch_call_of_token cookie get p none h,
  refl,
  refl,
  refl,
  headers_of-lookup t,
)
api_sends_token cookie delete p b {t} h = (
  call_with t delete p none,
  fetch_call_of_token cookie delete p none h,
  refl,
  refl,
  refl,
  headers_of-lookup t,
)
api_sends_token cookie post p b {t} h = (
  call_with t post p b,
  fetch_call_of_token cookie post p b h,
  refl,
  refl,
  refl,
  headers_of-lookup t,
)
api_sends_token cookie put p b {t} h = (
  call_with t put p b,
  fetch_call_of_token cookie put p b h,
  refl,
  refl,
  refl,
  headers_of-lookup t,
)
api_sends_token cookie patch p b {t} h = (
  call_with t patch p b,
  fetch_call_of_token cookie patch p b h,
  refl,
  refl,
  refl,
  headers_of-lookup t,
)

module _ {ℓ} {A : Type ℓ} where
  settle-ok :
      (reply : Reply A) (a : A)
      → (settle reply).result ≡ ok a
      → (r : Response A) × (reply ≡ response r) × (r.ok ≡ true) × (r.json ≡ some a)
  unfolding settle
  settle-ok (rejected m) a e = cc
  settle-ok (response r) a e = (r, refl, ground arith, ground arith)

  request_of_token :
      (cookie : String) (m : Method) (p : String) (b : Option Body) (reply : Reply A) {t : String}
      → csrf_token cookie ≡ some t
      → request cookie m p b reply ≡ settle reply
  unfolding request
  request_of_token cookie m p b reply h = rw (fetch_call_of_token cookie m p b h, request)

  request_of_no_token :
      (cookie : String) (m : Method) (p : String) (b : Option Body) (reply : Reply A)
      → csrf_token cookie ≡ none
      → request cookie m p b reply ≡ record {
        result = err (record { detail = none; message = some "URI malformed" });
        events = [];
      }
  unfolding request fetch_call headers
  request_of_no_token cookie m p b reply h = rw (h, headers, fetch_call, request)

  settle-ok_complete :
      (r : Response A) (a : A) → r.ok ≡ true → r.json ≡ some a → (settle (response r)).result ≡ ok a
  unfolding settle
  settle-ok_complete r a h k = rw h (rw k)

  -- A request gives the value a exactly if the token can be decoded and `fetch` brings a
  -- response that is ok and whose JSON is a.
  pub request-ok_iff :
      (cookie : String) (m : Method) (path : String) (body : Option Body) (reply : Reply A) (a : A)
      → ((request cookie m path body reply).result ≡ ok a)
        ↔ (is_some (csrf_token cookie) ≡ true)
          × (r : Response A) × (reply ≡ response r)
          × (r.ok ≡ true)
          × (r.json ≡ some a)
  request-ok_iff cookie m path body reply a = elim (Option-cases (csrf_token cookie)) [
    | inl e ↦ rw (request_of_no_token cookie m path body reply e, e) ((λ h. cc), (λ h. cc h.0))
    | inr (t, e) ↦
        rw (request_of_token cookie m path body reply e, e)
          (
            (λ h. let (r, p, q, s) = settle-ok reply a h in (refl, r, p, q, s)),
            (λ (_, r, p, q, s). rw p (settle-ok_complete r a q s)),
          )
  ]

  settle-events :
      (reply : Reply A)
      → (settle reply).events ≡ "jlm:session-expired" ∷ []
      → (r : Response A) × (reply ≡ response r) × (r.ok ≡ false) × (r.status ≡ 401)
  unfolding settle
  settle-events (rejected m) e = cc
  settle-events (response r) e = (r, refl, ground arith, ground arith)

  settle-events_complete :
      (r : Response A)
      → r.ok ≡ false
      → r.status ≡ 401
      → (settle (response r)).events ≡ "jlm:session-expired" ∷ []
  unfolding settle
  settle-events_complete r h k = ground arith

  -- A request dispatches jlm:session-expired, once and nothing else, exactly if the token can be
  -- decoded and `fetch` brings a response that is not ok and has status 401.
  pub request-events_iff :
      (cookie : String) (m : Method) (path : String) (body : Option Body) (reply : Reply A)
      → ((request cookie m path body reply).events ≡ "jlm:session-expired" ∷ [])
        ↔ (is_some (csrf_token cookie) ≡ true)
          × (r : Response A) × (reply ≡ response r)
          × (r.ok ≡ false)
          × (r.status ≡ 401)
  request-events_iff cookie m path body reply = elim (Option-cases (csrf_token cookie)) [
    | inl e ↦ rw (request_of_no_token cookie m path body reply e, e) ((λ h. cc), (λ h. cc h.0))
    | inr (t, e) ↦
        rw (request_of_token cookie m path body reply e, e)
          (
            (λ h. let (r, p, q, s) = settle-events reply h in (refl, r, p, q, s)),
            (λ (_, r, p, q, s). rw p (settle-events_complete r q s)),
          )
  ]

  settle-err :
      (reply : Reply A) {f : Failure}
      → (settle reply).result ≡ err f
      → (f.detail ≡ none) × (f.message ≢ none)
  unfolding settle
  settle-err (rejected m) h = ground arith
  settle-err (response r) h = ground arith

  -- What a failed request throws has a message, and never a field `detail`.
  pub request-err :
      (cookie : String) (m : Method) (path : String) (body : Option Body) (reply : Reply A)
      {f : Failure}
      → (request cookie m path body reply).result ≡ err f
      → (f.detail ≡ none) × (f.message ≢ none)
  request-err cookie m path body reply {f} h = elim (Option-cases (csrf_token cookie)) [
    | inl e ↦ no_token (rw (request_of_no_token cookie m path body reply e) at h)
    | inr (t, e) ↦ settle-err reply (rw (request_of_token cookie m path body reply e) at h)
  ]
    where
      no_token :
          ◌≡◌ {A = Result A}
            (err (record { detail = none; message = some "URI malformed" }))
            (err f)
          → (f.detail ≡ none) × (f.message ≢ none)
      no_token k = ground arith
