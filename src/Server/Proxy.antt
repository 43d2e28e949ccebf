-- ===== src/Server/Proxy.antt =====
-- The routes that pass a request on to the central service: server/src/routes/rooms.js,
-- server/src/routes/problems.js and server/src/routes/statistics.js. The path's parameters are those
-- that Express decodes; the text of `URLSearchParams` is a parameter.
pub mod Laws
use bsg.Prelude.{
  ℕ, Bool, true, false, Option, none, some, List, [], ◌∷◌, ◌++◌, if◌then◌else◌, Text, codes,
  text_eq, nonempty,
}
use bsg.Prelude.Json.{Json}
use bsg.Requests.{is_ok}

pub data Method : Type 0 where
  get post : Method

-- A request to the central service, with its two headers for the server's secret and the user.
pub record CentralRequest : Type 0 where
  pub method : Method
  pub path : Text
  pub body : Option Json
  pub secret : Text
  pub auth_id : Text

-- A reply of the central service: `json` is none where reading it is rejected.
pub record CentralReply : Type 0 where
  pub status : ℕ
  pub json : Option Json

-- What is sent on, and the answer: without a body, it is the server's own error.
pub record Proxied : Type 0 where
  pub sent : Option CentralRequest
  pub status : ℕ
  pub body : Option Json

-- ensureAuth: `req.user.id` of an authenticated request.
abbrev pub ensure_auth : Option Text → (Text → Proxied) → Proxied
ensure_auth none next = record { sent = none; status = 401; body = none }
ensure_auth (some id) next = next id

abbrev pub internal_error : CentralRequest → Proxied
internal_error r = record { sent = some r; status = 500; body = none }

abbrev relayed : CentralRequest → ℕ → Option Json → Proxied
relayed r status none = internal_error r
relayed r status (some data_value) = record {
  sent = some r;
  status = status;
  body = some data_value;
}

-- The `try` block that all routes of rooms and problems have; a rejected `fetch` is none.
abbrev pub relay : CentralRequest → Option CentralReply → Proxied
relay r none = internal_error r
relay r (some reply) = relayed r reply.status reply.json

-- The parameters that are truthy, in the order in which they are set.
abbrev pub kept_param : Text → Option Text → List (Text × Text)
kept_param key none = []
kept_param key (some value) = if nonempty value then (key, value) ∷ [] else []

unfoldable pub count_params : (Text → Option Text) → List (Text × Text)
count_params query =
    kept_param (codes "tags") (query (codes "tags"))
    ++ (kept_param (codes "companies") (query (codes "companies"))
        ++ (kept_param (codes "blind75") (query (codes "blind75"))
            ++ (kept_param (codes "neetcode150") (query (codes "neetcode150"))
                ++ (kept_param (codes "recentlyAsked") (query (codes "recentlyAsked"))
                    ++ (kept_param (codes "difficulties") (query (codes "difficulties"))
                        ++ kept_param (codes "excludePaid") (query (codes "excludePaid")))))))

-- An accepted reply is sent with the status 200, whatever its own is.
abbrev accepted : CentralReply → CentralReply
accepted r = record r { status = if is_ok r.status then 200 else r.status }

abbrev accepted_reply : Option CentralReply → Option CentralReply
accepted_reply none = none
accepted_reply (some r) = some (accepted r)

module _ (secret : Text) (user : Option Text) (reply : Option CentralReply) where
  abbrev pub pass_on : Method → Text → Option Json → Proxied
  pass_on method path body = ensure_auth user (λ id.
      relay record { method = method; path = path; body = body; secret = secret; auth_id = id }
        reply)

  unfoldable pub create_room : Json → Proxied
  create_room body = pass_on post (codes "/api/rooms/") (some body)

  unfoldable pub get_participants : Text → Proxied
  get_participants id = pass_on get (codes "/api/rooms/" ++ (id ++ codes "/participants")) none

  unfoldable pub create_round : Text → Json → Proxied
  create_round id body =
      pass_on post (codes "/api/rooms/" ++ (id ++ codes "/rounds/create")) (some body)

  unfoldable pub update_round_time : Text → Json → Proxied
  update_round_time id body =
      pass_on post (codes "/api/rooms/" ++ (id ++ codes "/rounds/time")) (some body)

  unfoldable pub start_round : Text → Proxied
  start_round id = pass_on post (codes "/api/rooms/" ++ (id ++ codes "/start")) none

  unfoldable pub join_room : Text → Proxied
  join_room id = pass_on post (codes "/api/rooms/" ++ (id ++ codes "/join")) none

  unfoldable pub get_active_room : Proxied
  get_active_room = pass_on get (codes "/api/rooms/active") none

  unfoldable pub get_room : Text → Proxied
  get_room id = pass_on get (codes "/api/rooms/" ++ id) none

  unfoldable pub leave_room : Text → Proxied
  leave_room id = pass_on post (codes "/api/rooms/" ++ (id ++ codes "/leave")) none

  unfoldable pub end_round : Text → Proxied
  end_round id = pass_on post (codes "/api/rooms/" ++ (id ++ codes "/end")) none

  unfoldable pub get_leaderboard : Text → Proxied
  get_leaderboard id = pass_on get (codes "/api/rooms/" ++ (id ++ codes "/leaderboard")) none

  unfoldable pub get_round_details : Text → Proxied
  get_round_details id = pass_on get (codes "/api/rooms/" ++ (id ++ codes "/round-details")) none

  unfoldable pub get_tags : Proxied
  get_tags = pass_on get (codes "/api/problems/tags") none

  unfoldable pub get_companies : Proxied
  get_companies = pass_on get (codes "/api/problems/companies") none

  unfoldable pub get_problem_list : Proxied
  get_problem_list = pass_on get (codes "/api/problems/list") none

  unfoldable pub get_count : (List (Text × Text) → Text) → (Text → Option Text) → Proxied
  unfolding count_params
  get_count encode query =
      pass_on get (codes "/api/problems/count?" ++ encode (count_params query)) none

  unfoldable pub get_statistics : Text → Proxied
  get_statistics room_id = ensure_auth user (λ id.
      relay
        record {
          method = get;
          path = codes "/api/statistics/" ++ room_id;
          body = none;
          secret = secret;
          auth_id = id;
        }
        (accepted_reply reply))
