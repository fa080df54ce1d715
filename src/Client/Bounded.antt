-- ===== src/Client/Bounded.antt =====
-- A request ends, after few calls of `fetch` (public/static/js/api.js).
use pm2manager.Common.{
  ℕ, suc, ◌+◌, ◌≤◌, arith, ◌≡◌, refl, String, Bool, true, false, not, ◌&&◌, Option, none, some,
  length, ◌==◌, is_blank, if◌then◌else◌,
}
use pm2manager.Http.{Envelope, success, failure}
use pm2manager.Client.{
  Call, Reply, Ended, unfinished, thrown, returned, Page, is_mutation, unwrapped, answered, send,
  cached, get_csrf_token, with_header, request,
}

abbrev pub Finished : {D : Type 0} → Ended D → Type 0
Finished unfinished = ⊥
Finished _ = Unit {0}

-- It ended, after at most `k` more calls.
abbrev Within : {S B D : Type 0} → ℕ → Page S B → Ended D × Page S B → Type 0
Within k w r = Finished r.0 × (length r.1.sent ≤ length w.sent + k)

no_retry : (a b : Bool) → (a && b && not true) ≡ true → ⊥
no_retry true true h = cc
no_retry true false h = cc
no_retry false b h = cc

no_mutation : (a b : Bool) → (a && false && b) ≡ true → ⊥
no_mutation true b h = cc
no_mutation false b h = cc

Within-if :
    {S B D : Type 0} (k : ℕ) (w : Page S B) (c : Bool) (x y : Ended D × Page S B)
    → (c ≡ true → Within k w x)
    → Within k w y
    → Within k w (if c then x else y)
Within-if k w true x y h g = h refl
Within-if k w false x y h g = g

module _ {S B D : Type 0} where
  module _ (k : ℕ) (again : Page S B → Ended D × Page S B) (method : String) (retried : Bool)
      (h : (r : Reply D)
        → (r.status == 403 && is_mutation method && not retried) ≡ true
        → (p : Page S B) → Within k p (again p)) where
    unwrapped_bounded :
        (o : Option (Envelope D)) (r : Reply D) (w : Page S B)
        → Within k w (unwrapped again method retried o r w)
    unwrapped_bounded (some (success d)) r w = (tt, omega arith)
    unwrapped_bounded (some (failure e)) r w =
        Within-if k w _ _ _ (λ c. h r c (record w { csrf_token = none })) (tt, omega arith)
    unwrapped_bounded none r w =
        Within-if k w _ _ _ (λ c. h r c (record w { csrf_token = none })) (tt, omega arith)

    answered_bounded :
        (o : Option (Reply D)) (w : Page S B) → Within k w (answered again method retried (o, w))
    answered_bounded none w = (tt, omega arith)
    answered_bounded (some r) w =
        Within-if k w (r.status == 401) _ _ (λ c. (tt, omega arith))
          (unwrapped_bounded r.payload r w)

  cached_bounded :
      (k : ℕ) (w : Page S B) (token_in : D → Option String) (r : Ended D × Page S B)
      → Within k w r
      → Within k w (cached token_in r)
  cached_bounded k w token_in (thrown e, p) h = h
  cached_bounded k w token_in (returned d, p) h = h
  cached_bounded k w token_in (unfinished, p) (h, g) = elim h [ ]

  with_header_bounded :
      (j k : ℕ) (w : Page S B) (r : Ended (Option String) × Page S B)
      (rest : Option String → Page S B → Ended D × Page S B)
      → Within j w r
      → ((t : Option String) (p : Page S B) → Within k p (rest t p))
      → Within (j + k) w (with_header r rest)
  with_header_bounded j k w (unfinished, p) rest (h, g) f = elim h [ ]
  with_header_bounded j k w (thrown e, p) rest (h, g) f = (tt, omega (arith, g))
  with_header_bounded j k w (returned t, p) rest (h, g) f = ((f t p).0, omega (arith, g, (f t p).1))

  module _ (fetch : Call B → S → Option (Reply D) × S) (token_in : D → Option String) where
    read_bounded :
        (n : ℕ) (path : String) (body : Option B) (w : Page S B)
        → Within 1 w (request fetch token_in (suc n) "GET" path body false w)
    unfolding request
    read_bounded n path body w =
        let (ended, few) =
          answered_bounded 0 (request fetch token_in n "GET" path body true) "GET" false
            (λ r c p. elim (no_mutation (r.status == 403) true c) [ ]) (send fetch _ w).0
            (send fetch _ w).1 in
        (ended, omega (arith, few))

    get_csrf_token_bounded :
        (n : ℕ) (w : Page S B)
        → Within 1 w (
            get_csrf_token token_in
              (request fetch token_in (suc n) "GET" "/api/auth/csrf-token" none false)
              w)
    get_csrf_token_bounded n w =
        let asked = request fetch token_in (suc n) "GET" "/api/auth/csrf-token" none false w in
        Within-if 1 w (is_blank w.csrf_token) (cached token_in asked) (returned w.csrf_token, w)
          (λ c. cached_bounded 1 w token_in asked (read_bounded n "/api/auth/csrf-token" none w))
          (tt, omega arith)

    -- With a bound on the request again, one on the request.
    request_bounded_from :
        (n k : ℕ) (method path : String) (body : Option B) (retried : Bool)
        → ((r : Reply D)
            → (r.status == 403 && is_mutation method && not retried) ≡ true
            → (p : Page S B) → Within k p (request fetch token_in (suc n) method path body true p))
        → (w : Page S B)
        → Within (k + 2) w (request fetch token_in (suc (suc n)) method path body retried w)
    unfolding request
    request_bounded_from n k method path body retried h w =
        Within-if (k + 2) w (is_mutation method) _ _
          (λ c.
            let (ended, few) =
              with_header_bounded 1 (k + 1) w
                (get_csrf_token token_in
                  (request fetch token_in (suc n) "GET" "/api/auth/csrf-token" none false) w)
                _ (get_csrf_token_bounded n w) (λ t. sent_bounded (some t)) in
            (ended, omega (arith, few)))
          (let (ended, few) = sent_bounded none w in (ended, omega (arith, few)))
      where
        sent_bounded :
            (header : Option (Option String)) (p : Page S B)
            → Within (k + 1) p (
                answered (request fetch token_in (suc n) method path body true) method retried (
                  send fetch
                    (record { method = method; path = path; csrf_header = header; body = body })
                    p))
        sent_bounded header p =
            let (ended, few) =
              answered_bounded k (request fetch token_in (suc n) method path body true) method
                retried h
                (send fetch
                  (record { method = method; path = path; csrf_header = header; body = body }) p).0
                (send fetch
                  (record { method = method; path = path; csrf_header = header; body = body })
                  p).1 in
            (ended, omega (arith, few))

    -- Whatever the server answers, a request ends on fuel 3 and more, with a value or an error, after at
    -- most four calls of `fetch`: a token, the request, and both again.
    pub request_bounded :
        (n : ℕ) (method path : String) (body : Option B) (retried : Bool) (w : Page S B)
        → Finished (request fetch token_in (suc (suc (suc n))) method path body retried w).0
          × (length (request fetch token_in (suc (suc (suc n))) method path body retried w).1.sent
              ≤ length w.sent + 4)
    request_bounded n method path body retried w =
        request_bounded_from (suc n) 2 method path body retried
          (λ r c p.
            request_bounded_from n 0 method path body true
              (λ q d. elim (no_retry (q.status == 403) (is_mutation method) d) [ ]) p)
          w
