-- ===== src/Client/Recovery.antt =====
-- The client and the guard against forged requests together (public/static/js/api.js,
-- src/middleware/csrf.middleware.ts): a token that has become stale is replaced.
use pm2manager.Common.{
  ℕ, suc, ◌≡◌, refl, sym, ap, ◌∙◌, String, Bool, true, false, ◌&&◌, Option, none, some, List, ◌∷◌,
  ◌==◌, inl, inr, arith, str_eq, codes_eq_iff, is_blank, or_else, length, Bool-cases, if◌then◌else◌,
}
use pm2manager.Exec.{Exec, ok, when, ◌>>◌}
use pm2manager.Http.{Response, success, failure, send_success, async_handler}
use pm2manager.World.{Env, World, set_session}
use pm2manager.Guards.{
  issue_csrf_token, get_csrf_token, csrf_protection, matches, constant_time_equals,
}
use pm2manager.Client.{Call, Reply, returned, Page, send, answered, with_header, request}
use pm2manager.Client.{get_csrf_token as get_cached}

-- The data of the answers: a token, or what the handler answers.
pub data Body (A : Type 0) : Type 0 where
  token_data : String → Body A
  handler_data : A → Body A

abbrev pub token_in : {A : Type 0} → Body A → Option String
token_in (token_data t) = some t
token_in (handler_data a) = none

-- The header as the server reads it.
abbrev pub header_text : Option (Option String) → Option String
header_text none = none
header_text (some none) = some "undefined"
header_text (some (some t)) = some t

abbrev pub reply_of : {D : Type 0} → Option (Response D) → Option (Reply D)
reply_of none = none
reply_of (some r) = some (record { status = r.status; status_text = ""; payload = some r.body })

module _ {A B : Type 0} (env : Env) (bytes : String → List ℕ)
    (handler : Exec World (Response (Body A))) where
  -- The server: the route of the token, and the handler behind the guard.
  abbrev pub route : Call B → Exec World (Response (Body A))
  route call =
      when (str_eq call.method "GET" && str_eq call.path "/api/auth/csrf-token")
        (issue_csrf_token token_data env)
        (csrf_protection bytes
            (record { method = call.method; csrf_header = header_text call.csrf_header })
          >> handler)

  unfoldable pub serve : Call B → World → Option (Reply (Body A)) × World
  unfolding async_handler
  serve call w = (reply_of (async_handler (route call) w).0, (async_handler (route call) w).1)

-- The token that the server hands out, and the state after that.
abbrev pub issued : Env → World → String
issued env w =
    if is_blank w.session.csrf_secret then env.random_hex else or_else w.session.csrf_secret ""

abbrev pub issuing : Env → World → World
issuing env w =
    if is_blank w.session.csrf_secret
    then set_session (record w.session { csrf_secret = some env.random_hex }) w
    else w

pub get_csrf_token_issues :
    (env : Env) (w : World) → get_csrf_token env w ≡ (ok (issued env w), issuing env w)
unfolding get_csrf_token
get_csrf_token_issues env w = elim (Bool-cases (is_blank w.session.csrf_secret)) [
  | inl e ↦ rw e refl
  | inr e ↦ rw e refl
]

self_matches :
    (bytes : String → List ℕ) (s : String)
    → str_eq s "" ≡ false
    → matches bytes (some s) (some s) ≡ true
unfolding constant_time_equals
self_matches bytes s h = elim (Bool-cases (length (bytes s) == length (bytes s))) [
  | inl e ↦ rw (h, e) ((codes_eq_iff (bytes s) (bytes s)).1 refl)
  | inr e ↦ ground arith
]

pub issued-matches :
    (env : Env) (bytes : String → List ℕ) (w : World)
    → str_eq env.random_hex "" ≡ false
    → matches bytes (issuing env w).session.csrf_secret (some (issued env w)) ≡ true
issued-matches env bytes w h = elim (Bool-cases (is_blank w.session.csrf_secret)) [
  | inl e ↦ rw e (self_matches bytes env.random_hex h)
  | inr e ↦ rw e (kept w.session.csrf_secret e)
]
  where
    kept : (o : Option String) → is_blank o ≡ false → matches bytes o (some (or_else o "")) ≡ true
    kept none e = cc
    kept (some s) e = self_matches bytes s e

-- Where a token matches, the server has a secret already.
matched-issuing :
    (env : Env) (bytes : String → List ℕ) (w : World) (c : Option String)
    → matches bytes w.session.csrf_secret c ≡ true
    → issuing env w ≡ w
matched-issuing env bytes w c h = rw (secret w.session.csrf_secret c h) refl
  where
    secret : (o c : Option String) → matches bytes o c ≡ true → is_blank o ≡ false
    secret none c h = cc
    secret (some s) none h = cc
    secret (some s) (some c) h = elim (Bool-cases (str_eq s "")) [
      | inl e ↦ let stuck = rw e at h in cc
      | inr e ↦ e
    ]

-- The answer of the guard.
abbrev forbidden : {A : Type 0} → Reply (Body A)
forbidden = record {
  status = 403;
  status_text = "";
  payload = some (
      failure
        (record { message = "Invalid or missing CSRF token"; code = "FORBIDDEN"; details = none }));
}

module _ {A B : Type 0} (env : Env) (bytes : String → List ℕ)
    (handler : Exec World (Response (Body A))) (nonempty : str_eq env.random_hex "" ≡ false) where
  abbrev fetch : Call B → World → Option (Reply (Body A)) × World
  fetch = serve env bytes handler

  token_served :
      (n : ℕ) (p : Page World B)
      → request fetch token_in (suc n) "GET" "/api/auth/csrf-token" none false p ≡ (
        returned (token_data (issued env p.server)),
        record p {
          server = issuing env p.server;
          sent =
              record {
                method = "GET";
                path = "/api/auth/csrf-token";
                csrf_header = none;
                body = none;
              }
              ∷ p.sent;
        },
      )
  unfolding request serve send_success
  token_served n p = rw (get_csrf_token_issues env p.server) refl

  -- What a call that mutates comes to, by whether its token matches.
  admitted :
      (path : String) (t : String) (body : Option B) (w w' : World) (d : A)
      → matches bytes w.session.csrf_secret (some t) ≡ true
      → handler w ≡ (ok (send_success (handler_data d) 200), w')
      → fetch (record { method = "POST"; path = path; csrf_header = some (some t); body = body }) w
        ≡ (
          some (record {
            status = 200;
            status_text = "";
            payload = some (success (handler_data d));
          }),
          w',
        )
  unfolding serve csrf_protection send_success
  admitted path t body w w' d m h = rw (m, h) refl

  turned_away :
      (path : String) (t : String) (body : Option B) (w : World)
      → matches bytes w.session.csrf_secret (some t) ≡ false
      → fetch (record { method = "POST"; path = path; csrf_header = some (some t); body = body }) w
        ≡ (some forbidden, w)
  unfolding serve csrf_protection
  turned_away path t body w m = rw m refl

  posted :
      (n : ℕ) (path : String) (body : Option B) (retried : Bool) (p : Page World B)
      → request fetch token_in (suc n) "POST" path body retried p
        ≡ with_header
            (get_cached token_in
              (request fetch token_in n "GET" "/api/auth/csrf-token" none false)
              p)
            (λ token w. answered (request fetch token_in n "POST" path body true) "POST" retried (
              send fetch
                (record { method = "POST"; path = path; csrf_header = some token; body = body })
                w))
  unfolding request
  posted n path body retried p = refl

  -- Without a token in the cache, one is fetched, and the request succeeds.
  fresh_request :
      (n : ℕ) (path : String) (body : Option B) (retried : Bool) (p : Page World B) (d : A)
      (w' : World)
      → is_blank p.csrf_token ≡ true
      → handler (issuing env p.server) ≡ (ok (send_success (handler_data d) 200), w')
      → (request fetch token_in (suc (suc n)) "POST" path body retried p).0
          ≡ returned (handler_data d)
        × ((request fetch token_in (suc (suc n)) "POST" path body retried p).1.server ≡ w')
  fresh_request n path body retried p d w' blank h =
      rw
        (
          posted (suc n) path body retried p,
          blank,
          token_served n p,
          admitted path (issued env p.server) body (issuing env p.server) w' d
              (issued-matches env bytes p.server nonempty) h,
        )
        (refl, refl)

  -- Whatever token the page has cached, fresh, stale or none: a POST to a handler that succeeds ends with
  -- the handler's data and leaves the server as the handler does, which runs where a secret is set.
  pub stale_token_recovers :
      (n : ℕ) (path : String) (body : Option B) (p : Page World B) (d : A) (w' : World)
      → handler (issuing env p.server) ≡ (ok (send_success (handler_data d) 200), w')
      → ((request fetch token_in (suc (suc (suc n))) "POST" path body false p).0
          ≡ returned (handler_data d))
        × ((request fetch token_in (suc (suc (suc n))) "POST" path body false p).1.server ≡ w')
  stale_token_recovers n path body p d w' h = elim (Bool-cases (is_blank p.csrf_token)) [
    | inl blank ↦ fresh_request (suc n) path body false p d w' blank h
    | inr kept ↦ with_token p.csrf_token refl kept
  ]
    where
      with_token :
          (o : Option String)
          → p.csrf_token ≡ o
          → is_blank o ≡ false
          → ((request fetch token_in (suc (suc (suc n))) "POST" path body false p).0
              ≡ returned (handler_data d))
            × ((request fetch token_in (suc (suc (suc n))) "POST" path body false p).1.server ≡ w')
      with_token none q e = cc
      with_token (some t) q e =
          elim (Bool-cases (matches bytes p.server.session.csrf_secret (some t))) [
            | inl m ↦
                let at_once : handler p.server ≡ (ok (send_success (handler_data d) 200), w') =
                  ap handler (sym (matched-issuing env bytes p.server (some t) m)) ∙ h in
                rw
                  (
                    posted (suc (suc n)) path body false p,
                    q,
                    e,
                    admitted path t body p.server w' d m at_once,
                  )
                  (refl, refl)
            | inr m ↦
                rw
                  (posted (suc (suc n)) path body false p, q, e, turned_away path t body p.server m)
                  (fresh_request n path body true
                    (record p {
                      csrf_token = none;
                      sent =
                          record {
                            method = "POST";
                            path = path;
                            csrf_header = some (some t);
                            body = body;
                          }
                          ∷ p.sent;
                    })
                    d w' refl h)
          ]
