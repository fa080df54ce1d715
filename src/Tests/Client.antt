-- ===== src/Tests/Client.antt =====
-- The browser client, alone and with the server.
use pm2manager.Common.{ℕ, ◌≤◌, ◌≡◌, refl, ◌+◌, String, false, Option, none, some, [], codes, length}
use pm2manager.Exec.{Exec, pure}
use pm2manager.Http.{Response, send_success}
use pm2manager.World.{World, set_session}
use pm2manager.Client.{Call, Reply, Page, returned, request}
use pm2manager.Client.Bounded.{Finished, request_bounded}
use pm2manager.Client.Recovery.{Body, handler_data, token_in, serve, stale_token_recovers}
use pm2manager.Tests.Data.{env, signed_in}

abbrev no_network : Call ℕ → ℕ → Option (Reply String) × ℕ
no_network call s = (none, s)

abbrev new_page : Page ℕ ℕ
new_page = record { server = 0; csrf_token = none; location = none; sent = [] }

request_bounded_example :
    Finished (request no_network some 3 "POST" "/api/users" none false new_page).0
    × (length (request no_network some 3 "POST" "/api/users" none false new_page).1.sent
        ≤ length new_page.sent + 4)
request_bounded_example = request_bounded no_network some 0 "POST" "/api/users" none false new_page

-- The page still holds the token of a session that is gone.
abbrev holder : World
holder = set_session (record signed_in.session { csrf_secret = some "abc" }) signed_in

abbrev stale_page : Page World ℕ
stale_page = record { server = holder; csrf_token = some "old"; location = none; sent = [] }

abbrev answer : Exec World (Response (Body ℕ))
answer = pure (send_success (handler_data 5) 200)

stale_token_recovers_example :
    ((request (serve env codes answer) token_in 3 "POST" "/api/settings" none false stale_page).0
      ≡ returned (handler_data 5))
    × ((request
          (serve env codes answer)
          token_in
          3
          "POST"
          "/api/settings"
          none
          false
          stale_page).1.server
        ≡ holder)
stale_token_recovers_example =
    stale_token_recovers env codes answer refl 0 "/api/settings" none stale_page 5 holder refl
