-- ===== src/Session.antt =====
-- The panel's session: bsg-frontend/apps/extension/hooks/useSessionInit.ts, useLogin.ts and
-- useGitHubConnection.ts.
pub mod Start
pub mod Polls
use bsg.Prelude.{
  ℕ, suc, Bool, true, false, ◌&&◌, ◌||◌, not, Option, none, some, List, [], ◌∷◌, if◌then◌else◌,
  Text, codes, is_some, nonempty,
}
use bsg.Prelude.Json.{Json, truthy, get, get_opt}
use bsg.Prelude.Effects.{Outcome, Run, returns, throws, modify, need, return, ◌>>=◌, ◌>>◌}
use bsg.Navigation.{Pushed, push_route}
use bsg.Stores.Room.{User, reset_room}
use bsg.Stores.User.{login_user, reset_user}
use bsg.World.{World, on_room, on_user, on_storage, push, send_message, Message}
use bsg.RoomInit.{text_of}

abbrev pub push_page : Text → Pushed → Run World Bool
unfolding push_route
push_page route pushed w = (push_route pushed, push route w)

-- loginUser(user.id, user.name, user.email, user.photo)
abbrev pub login_as : Json → World → World
login_as user = on_user (
    login_user (text_of (get_opt user (codes "id"))) (text_of (get_opt user (codes "name")))
      (text_of (get_opt user (codes "email"))) (text_of (get_opt user (codes "photo"))))

-- What the start of a session is answered: the cached user of the storage and the worker's reply to
-- CHECK_AUTH, each `none` where it is rejected, and what becomes of the change of the page.
pub record Answers : Type 0 where
  pub cached_user : Option Json
  pub check_auth : Option Json
  pub pushed : Pushed

-- What `checkActiveRoom` resolves to, and the world that it leaves; `none` if it does not settle.
abbrev pub Lookup : Type 0
Lookup = World → Option (Bool × World)

abbrev pub no_room : Pushed → Bool → Run World Bool
no_room pushed true = return true
no_room pushed false = push_page (codes "/start-page") pushed

abbrev pub enter_found : Pushed → Option (Bool × World) → Option (Outcome Bool × World)
enter_found pushed none = none
enter_found pushed (some (entered, w)) = some (no_room pushed entered w)

abbrev pub has_fields : Json → Bool
has_fields v = is_some (get v (codes "id"))

-- `response.user.id` throws where there is no user.
abbrev pub signed_in : Lookup → Pushed → Json → World → Option (Outcome Bool × World)
signed_in check_active_room pushed user w =
    if has_fields user
    then enter_found pushed (check_active_room (login_as user w))
    else some (throws, w)

abbrev pub enter : Lookup → Pushed → Json → World → Option (Outcome Bool × World)
enter check_active_room pushed response w =
    if truthy (get_opt response (codes "success"))
    then signed_in check_active_room pushed (get_opt response (codes "user")) w
    else some (push_page (codes "/login-page") pushed w)

abbrev pub after_check : Lookup → Pushed → Option Json → World → Option (Outcome Bool × World)
after_check check_active_room pushed none w = some (throws, w)
after_check check_active_room pushed (some response) w = enter check_active_room pushed response w

abbrev pub from_cache : Lookup → Answers → Option Json → World → Option (Outcome Bool × World)
from_cache check_active_room a none w = some (throws, w)
from_cache check_active_room a (some cached) w =
    if truthy (get_opt cached (codes "id"))
    then after_check check_active_room a.pushed a.check_auth w
    else some (push_page (codes "/login-page") a.pushed w)

-- initSession, up to its `catch`
unfoldable pub init_session : Lookup → Answers → World → Option (Outcome Bool × World)
init_session check_active_room a w = from_cache check_active_room a a.cached_user w

pub record SessionState : Type 0 where
  pub world : World
  pub has_run : Bool
  pub session_ready : Bool

-- The `finally` block.
abbrev pub settle : SessionState → Option (Outcome Bool × World) → SessionState
settle s none = s
settle s (some (outcome, w)) = record s { world = w; session_ready = true }

-- The effect, each time that it runs.
unfoldable pub session_effect : Bool → Lookup → Answers → SessionState → SessionState
unfolding init_session
session_effect enabled check_active_room a s =
    if not enabled
    then s
    else if s.has_run
    then s
    else if not s.world.available
    then record s { has_run = true; session_ready = true }
    else settle record s { has_run = true } (init_session check_active_room a s.world)

-- The state of useGitHubConnection.
pub record GitHubConnection : Type 0 where
  pub connected : Bool
  pub username : Option Text

-- One run of `checkConnection`: what `refresh` resolves to (`none`: a refusal or a rejection),
-- whether the tab is closed by then, and what a last `refresh` would resolve to.
pub record Tick : Type 0 where
  pub reply : Option GitHubConnection
  pub closed : Bool
  pub last : Option GitHubConnection

pub record Polling : Type 0 where
  pub connection : GitHubConnection
  -- a `setTimeout` that has not fired
  pub scheduled : Bool
  pub requests : ℕ

-- refresh: one request, which sets the state if it is answered.
abbrev pub refresh : Option GitHubConnection → Polling → Polling
refresh none p = record p { requests = suc p.requests }
refresh (some c) p = record p { connection = c; requests = suc p.requests }

abbrev pub is_linked : Option GitHubConnection → Bool
is_linked none = false
is_linked (some c) = c.connected

unfoldable pub check_connection : Tick → Polling → Polling
check_connection t p =
    let fired = refresh t.reply record p { scheduled = false } in
    if is_linked t.reply
    then fired
    else if t.closed
    then refresh t.last fired
    else record fired { scheduled = true }

-- The timer's firings, as long as there is one.
unfoldable pub poll : List Tick → Polling → Polling
poll [] p = p
poll (t ∷ ts) p = if p.scheduled then poll ts (check_connection t p) else p

-- connect, where the browser opens the tab or not
unfoldable pub connect : Bool → Polling → Polling
connect opens p = if opens then record p { scheduled = true } else p

-- One run of useLogin's `checkAuth`: `ok` with the user, a refusal, or a rejection; and whether the
-- popup is still there.
pub data AuthReply : Type 0 where
  user : Json → AuthReply
  refused : AuthReply
  broken : AuthReply

pub record Login : Type 0 where
  pub world : World
  pub popup_open : Bool
  pub scheduled : Bool

abbrev stored_user : Json → User
stored_user v = record {
  id = text_of (get_opt v (codes "id"));
  name = text_of (get_opt v (codes "name"));
  email = text_of (get_opt v (codes "email"));
  photo = text_of (get_opt v (codes "photo"));
}

unfoldable pub check_auth : AuthReply → Login → Login
check_auth (user v) l = record {
  world =
      push (codes "/start-page")
        (on_storage (λ d. record d { user = some (stored_user v) }) (login_as v l.world));
  popup_open = false;
  scheduled = false;
}
check_auth refused l = record l { scheduled = l.popup_open }
check_auth broken l = record l { scheduled = false }

abbrev finish_logout : World → World
finish_logout w = push (codes "/login-page") (on_room reset_room (on_user reset_user w))

-- logout: the request to leave changes nothing in the panel; the worker answers LOGOUT or not.
unfoldable pub logout : Bool → World → World
logout answers w =
    if w.available
    then (if answers
        then finish_logout (send_message Message.logout w)
        else send_message Message.logout w)
    else finish_logout w
