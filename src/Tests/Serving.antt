-- ===== src/Tests/Serving.antt =====
-- Tests of the Node server: server/src.
use bsg.Prelude.{
  ℕ, suc, ◌-◌, ◌≤◌, true, false, not, Option, none, some, List, [], ◌∷◌, ◌≡◌, ◌⊎◌, refl, sym, arith,
  Text, codes, length, leb, mem_text, map, All,
}
use bsg.Prelude.Json.{Json, num, str, obj, field, end, undefined}
use bsg.Prelude.Int.{pos}
use bsg.Server.SlidingWindow
use bsg.Server.SlidingWindow.{request, interval, middleware, active, run, no_requests}
use bsg.Server.SlidingWindow.Trailing.{run-passed_within, middleware-run}
use bsg.Server.FixedWindow
use bsg.Server.FixedWindow.{Redis, Options, arrives, responds}
use bsg.Server.FixedWindow.Budget.{run-kept_within}
use bsg.Server.Submission.{Reply, Body, Link, submit}
use bsg.Server.Submission.Scores.{count, is_score, is_push, submit-scores}
use bsg.Stores.Counts.{CountFilters}
use bsg.Wizard.Query.{query_params}
use bsg.Server.Proxy.{count_params}
use bsg.Server.Proxy.Laws.{query_of, in_server_order, count_params-query_params}
use bsg.Server.Auth.{AuthUser, AuthState, Answer, connect_callback, logout}
use bsg.Server.Auth.Laws.{account_with}
use bsg.Server.Profile.{TokenReplies, sync_token}
use bsg.Server.Profile.Tokens.{sync_token-revokes}
use bsg.Server.Logging
use bsg.Server.Logging.{
  LoggedRequest, LogEvent, new_logger, arrives, sets_status, sends_json, logs_elsewhere, warn,
  logs_elsewhere, warn,
}
use bsg.Server.Logging.Unmixed.{IsAbout, arrivals, without_id, said_elsewhere, run-IsAbout}
use bsg.Server.Endpoints
use bsg.Server.Endpoints.{endpoint_config, no_options}
use bsg.Server.Endpoints.Shared.{request_key, middleware-shared}

abbrev home : Text
home = codes "1"

abbrev visits : List SlidingWindow.Event
visits = request home 10 ∷ request home 20 ∷ request home 30 ∷ interval 60 ∷ []

run-passed_within_example : length (active 100 70 ((run 2 100 visits no_requests).1 home)) ≤ 2
run-passed_within_example =
    run-passed_within 2 100 visits home 70
      (omega arith, (omega arith, (omega arith, (omega arith, tt)))) (omega arith)

middleware-run_example :
    (middleware 2 100 home 70 (run 2 100 visits no_requests).0).0
    ≡ not (leb 2 (length (active 100 70 ((run 2 100 visits no_requests).1 home))))
middleware-run_example =
    middleware-run 2 100 visits home 70
      (omega arith, (omega arith, (omega arith, (omega arith, tt)))) (omega arith)

abbrev counted : ℕ → Option (ℕ × ℕ)
counted s = some (suc s, suc s)

counter_adds : (s n t : ℕ) → counted s ≡ some (n, t) → n ≡ suc s
counter_adds s n t h = ground arith

counter_stores : (s n t : ℕ) → counted s ≡ some (n, t) → t ≡ n
counter_stores s n t h = ground arith

counter_keeps : (s t : ℕ) → some s ≡ some t → s ≡ t
counter_keeps s t h = ground arith

counter_takes : (s : ℕ) → s ≤ suc (s - 1)
counter_takes s = omega arith

-- A server with one counter for all keys, which never expires.
abbrev counter : Redis ℕ
counter = record {
  incr = λ k s. counted s;
  expire = λ k seconds s. some s;
  decr = λ k s. s - 1;
  del = λ k s. 0;
  get = λ k s. some s;
  value = λ k s. s;
  incr_adds = λ k s n t h. counter_adds s n t h;
  incr_stores = λ k s n t h. counter_stores s n t h;
  expire_keeps = λ k seconds s t h. sym (counter_keeps s t h);
  decr_takes = λ k s. counter_takes s;
}

abbrev two_per_second : Options
two_per_second = record {
  window_seconds = 1;
  burst_size = 2;
  key_prefix = codes "r:";
  skip_successful_requests = false;
  skip_failed_requests = true;
}

abbrev burst : List FixedWindow.Event
burst =
    arrives 5001 ∷ responds 0 500 ∷ arrives 5002 ∷ arrives 5003 ∷ arrives 5999 ∷ responds 0 200 ∷ []

run-kept_within_example :
    (FixedWindow.run counter two_per_second home burst
      record { store = 0; pending = []; kept = 0 }).kept
    ≤ 2
run-kept_within_example =
    run-kept_within counter two_per_second home 5 burst 0 (refl, (refl, (refl, (refl, tt))))

abbrev accepted_body : Body
accepted_body = record {
  slug = str (codes "sum");
  status = str (codes "Accepted");
  code = str (codes "x");
  language = str (codes "cpp");
  runtime = num (pos 3);
  memory = num (pos 4);
}

abbrev answered : Json → Option Reply
answered v = some record { ok = true; text = true; json = some v }

abbrev room_reply : Option Reply
room_reply = answered (obj (field (codes "roomID") (str (codes "r1")) end))

abbrev problem_reply : Option Reply
problem_reply =
    answered (obj (field (codes "data") (obj (field (codes "id") (num (pos 5)) end)) end))

abbrev connected_repo : Link
connected_repo = record { token = codes "t9"; username = codes "ann" }

submit-scores_example :
    (count is_score
        (submit true accepted_body
          (some connected_repo)
          room_reply
          problem_reply
          (answered undefined)
          none).requests
      ≡ 1)
    × (count is_push
          (submit true accepted_body
            (some connected_repo)
            room_reply
            problem_reply
            (answered undefined)
            none).requests
        ≡ 1)
submit-scores_example =
    submit-scores true accepted_body (some connected_repo) room_reply problem_reply
      (answered undefined) none

abbrev ann : AuthUser
ann = record { id = codes "u1"; provider = some (codes "github"); access_token = some (codes "t1") }

abbrev signed_in : AuthState
signed_in = record {
  gh_token = λ id. some (codes "t1");
  gh_repo = λ id. none;
  revocations = [];
  logged_in = true;
  session = true;
  cookie = true;
}

abbrev after_connect : Answer × AuthState
after_connect =
    connect_callback true (some ann) (some (account_with (codes "t2") (codes "ann"))) signed_in

abbrev after_logout : ℕ × AuthState
after_logout = logout (some true) true false false (some ann) signed_in

abbrev filters : CountFilters
filters = record {
  difficulties = codes "easy";
  tags = codes "dp" ∷ codes "graph" ∷ [];
  companies = [];
  blind75 = false;
  neetcode150 = true;
  recently_asked = false;
  exclude_paid = true;
}

count_params-query_params_example :
    count_params (query_of (query_params filters)) ≡ in_server_order filters
count_params-query_params_example = count_params-query_params filters (refl, (refl, tt)) tt

-- A login with another token, where GitHub does not answer the revocation.
abbrev lost_revocation : TokenReplies
lost_revocation = record { reads = true; revokes = false; saves = true }

sync_token-revokes_example :
    ((sync_token lost_revocation (codes "u1") (codes "t2") signed_in).gh_token (codes "u1")
      ≡ some (codes "t1"))
    ⊎ (mem_text
          (codes "t1")
          (sync_token lost_revocation (codes "u1") (codes "t2") signed_in).revocations
        ≡ true)
sync_token-revokes_example =
    sync_token-revokes lost_revocation (codes "u1") (codes "t2") signed_in (codes "t1") refl refl

abbrev rooms_request : Endpoints.Request
rooms_request = record {
  method = codes "GET";
  path = codes "/rooms";
  user_id = some (codes "u1");
  ip = home;
}

abbrev problems_request : Endpoints.Request
problems_request = record rooms_request { path = codes "/problems" }

abbrev budgets : Endpoints.Config
budgets = endpoint_config ((codes "GET:/rooms", record no_options { burst_size = some 5 }) ∷ [])

middleware-shared_example :
    counter.value
      (request_key budgets rooms_request problems_request 1300)
      (Endpoints.middleware counter budgets rooms_request 1200 ([], 4)).1.1
    ≡ suc (counter.value (request_key budgets rooms_request problems_request 1300) 4)
unfolding endpoint_config Endpoints.new_limiter
middleware-shared_example =
    middleware-shared counter budgets rooms_request problems_request 1200 1300 [] 4 5 5 tt refl refl
      refl refl

abbrev get_rooms : LoggedRequest
get_rooms = record { method = codes "GET"; ip = home }

abbrev post_room : LoggedRequest
post_room = record { method = codes "POST"; ip = home }

-- The first request is answered behind the second.
abbrev exchanges : List LogEvent
exchanges =
    arrives get_rooms (pos 1)
    ∷ arrives post_room (pos 2)
    ∷ sends_json 0 (codes "/") none (pos 3)
    ∷ logs_elsewhere warn (codes "Rate limit exceeded") none
    ∷ sets_status 1 (codes "/active") 404
    ∷ sends_json 1 (codes "/active") none (pos 4)
    ∷ []

run-IsAbout_example :
    All
      (IsAbout (arrivals exchanges))
      (Logging.run exchanges (new_logger (codes "auth-server"))).lines
    × (without_id (Logging.run exchanges (new_logger (codes "auth-server"))).lines
        ≡ said_elsewhere exchanges)
run-IsAbout_example = run-IsAbout (codes "auth-server") exchanges

lines_logged :
    map
      (λ l. l.metadata.status_code)
      (Logging.run exchanges (new_logger (codes "auth-server"))).lines
    ≡ some 404 ∷ some 404 ∷ none ∷ some 200 ∷ []
unfolding Logging.run new_logger
lines_logged = refl
