-- ===== src/RoomInit.antt =====
-- Entering a room: bsg-frontend/apps/extension/hooks/useRoomInit.ts. Here are the parts that the
-- three ways into a room share; `Flows` and `Active` have these.
pub mod Params
pub mod Flows
pub mod Active
pub mod Laws
use bsg.Prelude.{
  ℕ, Bool, true, false, ◌||◌, ◌&&◌, not, Option, none, some, List, [], ◌∷◌, ◌++◌, if◌then◌else◌,
  Text, codes, text_or, trim, nonempty, includes, option_eq, or_else, last?,
}
use bsg.Prelude.Int.{ℤ}
use bsg.Prelude.Json.{
  Json, undefined, null, str, obj, arr, truthy, get, get_opt, is_str, json_text, or_json, items,
  elements,
}
use bsg.Prelude.Effects.{
  Outcome, Run, returns, throws, modify, need, gets, return, try_catch, throw, ◌>>=◌, ◌>>◌,
}
use bsg.Navigation.{Pushed, push_route}
use bsg.Requests.{Reply, rejected, replied, is_ok, ok_body}
use bsg.Stores.Room.{User, set_participants, init_room, set_room_notice}
use bsg.Stores.User.{UserState}
use bsg.World.{World, on_room, on_storage, set_badge, push}

abbrev pub text_of : Json → Text
text_of (str s) = s
text_of v = []

-- [a, b].filter(Boolean).join(' ')
abbrev join_names : Text → Text → Text
join_names [] b = b
join_names (c ∷ a) [] = c ∷ a
join_names (c ∷ a) (d ∷ b) = (c ∷ a) ++ (codes " " ++ (d ∷ b))

-- A field that is read by `||`: a string, or the empty text.
abbrev text_field : Text → Json → Text
text_field k v = text_of (get_opt v k)

abbrev user_id_text : Json → Text
user_id_text v = json_text (get_opt v (codes "id"))

unfoldable pub map_backend_user : Json → User
map_backend_user v =
    let full_name =
      trim (join_names (text_field (codes "firstName") v) (text_field (codes "lastName") v)) in
    record {
      id = text_or (text_field (codes "authID") v) (user_id_text v);
      name =
          text_or (text_field (codes "handle") v)
            (text_or full_name (text_or (text_field (codes "email") v) (user_id_text v)));
      email = text_field (codes "email") v;
      photo = text_field (codes "photoURL") v;
    }

-- Reading a field of undefined or null throws, for the whole list.
map_users : List Json → Option (List User)
map_users [] = some []
map_users (v ∷ vs) =
    let rest = map_users vs in
    elim (get v (codes "authID")) [
      | none ↦ none
      | some _ ↦ elim rest [ none ↦ none | some us ↦ some (map_backend_user v ∷ us) ]
    ]

-- `data.data`, an array of users or anything else, which counts as no users
abbrev users_of_body : Option Json → Option (List User)
users_of_body none = none
users_of_body (some body) = elim (get body (codes "data")) [
  | none ↦ none
  | some v ↦ map_users (elements v)
]

-- A null that is replaced by `|| ''`.
abbrev text_or_empty : Option Text → Text
text_or_empty none = []
text_or_empty (some s) = s

-- The user alone, where the participants could not be loaded.
abbrev own_participants : UserState → Option (List User)
own_participants u = by_id u.user_id
  where
    by_id : Option Text → Option (List User)
    by_id none = none
    by_id (some []) = none
    by_id (some (c ∷ id)) = some (
        record {
          id = c ∷ id;
          name = text_or (text_or_empty u.username) (text_or (text_or_empty u.email) (c ∷ id));
          email = text_or_empty u.email;
          photo = text_or_empty u.icon_url;
        }
        ∷ [])

-- What setRoomParticipants stores, `none` where it leaves the participants.
unfoldable pub loaded_participants : Reply → UserState → Option (List User)
unfolding map_users map_backend_user
loaded_participants reply u = elim (users_of_body (ok_body reply)) [
  | some us ↦ some us
  | none ↦ own_participants u
]

unfoldable pub set_room_participants : Reply → World → World
set_room_participants reply w =
    on_room (λ r. set_participants (or_else (loaded_participants reply w.user) r.participants) r) w

abbrev is_blank : Text → Bool
is_blank s = not (nonempty (trim s))

-- `typeof v === 'string' && v.trim()`
abbrev said : Json → Text → Text
said (str s) other = if is_blank s then other else s
said v other = other

unfoldable pub extract_error_message : Json → Text → Text
extract_error_message payload fallback =
    if not (truthy payload)
    then fallback
    else said payload (
        said (get_opt payload (codes "error")) (
          said (get_opt payload (codes "message"))
            (said (get_opt payload (codes "details")) fallback)))

unfoldable pub sanitize_round_creation_error : Text → Text
sanitize_round_creation_error [] = codes "Failed to create round."
sanitize_round_creation_error (c ∷ s) =
    if includes (codes "Not enough tagged problems found.") (c ∷ s)
    then codes "Failed to create round. Not enough tagged problems found."
    else c ∷ s

-- parseJsonSafe: null where the body cannot be read
abbrev pub body_or_null : Option Json → Json
body_or_null none = null
body_or_null (some v) = v

-- await pushRoute(router, '/room-page')
unfoldable pub go_to_room_page : Pushed → Run World Bool
go_to_room_page pushed w = (push_route pushed, push (codes "/room-page") w)

-- The room is remembered for the background worker, and what the last problem left is removed.
unfoldable pub remember_room : Text → World → World
remember_room room_id w =
    set_badge []
      (on_storage (λ d. record d { active_room_id = some room_id; next_problem = none }) w)

-- The status of a round in either spelling, `undefined` where there is no round.
abbrev pub round_status : Json → Json
round_status v = or_json (get_opt v (codes "Status")) (get_opt v (codes "status"))

abbrev pub last_round : Json → Json
last_round rounds = elim (last? (elements rounds)) [ none ↦ undefined | some v ↦ v ]
