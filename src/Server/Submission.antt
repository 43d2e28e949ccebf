-- ===== src/Server/Submission.antt =====
-- The server's way of scoring a solution: the route of server/src/routes/submission.js, with
-- `commitSolution` of server/src/config/github.js. Replies to requests are arguments, `none` for a
-- request that is rejected; headers and logs are left out.
pub mod Scores
use bsg.Prelude.{
  ℕ, Bool, true, false, ◌&&◌, not, Option, none, some, List, [], ◌∷◌, ◌++◌, if◌then◌else◌, Text,
  codes, text_eq, map,
}
use bsg.Prelude.Json.{Json, undefined, truthy, is_str, get, get_opt, json_text}

-- A response: `text` is false where reading its text is rejected, `json` none where its JSON is.
pub record Reply : Type 0 where
  pub ok : Bool
  pub text : Bool
  pub json : Option Json

pub record Body : Type 0 where
  pub slug : Json
  pub status : Json
  pub code : Json
  pub language : Json
  pub runtime : Json
  pub memory : Json

-- The repository that a user connected.
pub record Link : Type 0 where
  pub token : Text
  pub username : Text

pub data Request : Type 0 where
  active_room : Request
  lookup : Json → Request
  score : Json → Json → Body → Request
  push_to_github : Link → Json → Json → Json → Request
  update_statistics : Json → Json → Json → Request

pub record Response : Type 0 where
  pub status : ℕ
  pub answer : Text

-- What is done for a request, in its order, and what it is answered.
pub record Handled : Type 0 where
  pub requests : List Request
  pub response : Response

abbrev pub respond : ℕ → Text → Handled
respond status answer = record {
  requests = [];
  response = record { status = status; answer = answer };
}

abbrev pub behind : Request → Handled → Handled
behind r h = record h { requests = r ∷ h.requests }

-- The `catch` block.
abbrev pub internal_error : Handled
internal_error = respond 500 (codes "Internal server error")

-- A refused request: its text is read for the log.
abbrev pub refused : Reply → ℕ → Text → Handled
refused r status answer = if r.text then respond status answer else internal_error

abbrev pub submitted : Handled
submitted = respond 200 (codes "Score submitted")

abbrev pub after_statistics : Option Reply → Handled
after_statistics none = internal_error
after_statistics (some r) = if r.ok then submitted else refused r 200 (codes "Score submitted")

abbrev pub problem_data : Option Json → Option Json
problem_data none = none
problem_data (some v) = get v (codes "data")

abbrev pub room_id : Option Json → Option Json
room_id none = none
room_id (some v) = get v (codes "roomID")

-- The call of `pushToGithub`, which the route does not wait for: without a link, or where it cannot
-- be read, nothing is pushed.
abbrev pub push_if : Option Link → Body → Handled → Handled
push_if none body h = h
push_if (some link) body h = behind (push_to_github link body.slug body.language body.code) h

module _ (body : Body) (link : Option Link) (statistics : Option Reply) where
  abbrev pub after_score : Json → Json → Option Reply → Handled
  after_score room difficulty none = internal_error
  after_score room difficulty (some r) =
      if r.ok
      then push_if link body
          (behind (update_statistics room body.runtime difficulty) (after_statistics statistics))
      else refused r 500 (codes "Failed to submit score")

  abbrev pub submit_score : Option Reply → Json → Option Json → Handled
  submit_score scored room none = internal_error
  submit_score scored room (some info) =
      if truthy (get_opt info (codes "id"))
      then behind (score room (get_opt info (codes "id")) body)
          (after_score room (get_opt info (codes "difficulty")) scored)
      else respond 404 (codes "Problem not found")

  abbrev pub after_lookup : Option Reply → Json → Option Reply → Handled
  after_lookup scored room none = internal_error
  after_lookup scored room (some r) =
      if r.ok
      then submit_score scored room (problem_data r.json)
      else refused r 500 (codes "Problem lookup failed")

  abbrev pub in_room : Option Reply → Option Reply → Option Json → Handled
  in_room found scored none = internal_error
  in_room found scored (some room) =
      if truthy room
      then behind (lookup body.slug) (after_lookup scored room found)
      else respond 200 (codes "No active room for user")

  abbrev pub after_active_room : Option Reply → Option Reply → Option Reply → Handled
  after_active_room found scored none = internal_error
  after_active_room found scored (some r) =
      if r.ok
      then in_room found scored (room_id r.json)
      else refused r 500 (codes "Failed to check active room")

-- router.post('/'), for a request that is authenticated or not, of a user with a link or none.
unfoldable pub submit :
    Bool → Body → Option Link → Option Reply → Option Reply → Option Reply → Option Reply → Handled
submit authenticated body link active found scored statistics =
    if not authenticated
    then respond 401 (codes "Not authenticated")
    else if not (is_str body.status (codes "Accepted"))
    then respond 200 (codes "Ignored non-accepted submission")
    else behind active_room (after_active_room body link statistics found scored active)

-- The table `map`; its `||` falls back to `.txt`.
abbrev pub extensions : List (Text × Text)
extensions =
    (codes "python3", codes ".py")
    ∷ (codes "cpp", codes ".cpp")
    ∷ (codes "python", codes ".py")
    ∷ (codes "java", codes ".java")
    ∷ (codes "c", codes ".c")
    ∷ (codes "csharp", codes ".cs")
    ∷ (codes "javascript", codes ".js")
    ∷ (codes "typescript", codes ".ts")
    ∷ (codes "php", codes ".php")
    ∷ (codes "swift", codes ".swift")
    ∷ (codes "kotlin", codes ".kt")
    ∷ (codes "dart", codes ".dart")
    ∷ (codes "golang", codes ".go")
    ∷ (codes "ruby", codes ".rb")
    ∷ (codes "scala", codes ".scala")
    ∷ (codes "rust", codes ".rs")
    ∷ (codes "racket", codes ".rkt")
    ∷ (codes "erlang", codes ".erl")
    ∷ (codes "elixir", codes ".ex")
    ∷ (codes "mysql", codes ".sql")
    ∷ (codes "mssql", codes ".sql")
    ∷ (codes "oraclesql", codes ".sql")
    ∷ (codes "postgresql", codes ".sql")
    ∷ (codes "pythondata", codes ".py")
    ∷ (codes "bash", codes ".sh")
    ∷ []

abbrev pub extension_in : Text → List (Text × Text) → Text
extension_in language [] = codes ".txt"
extension_in language ((l, e) ∷ es) = if text_eq l language then e else extension_in language es

unfoldable pub solution_path : Text → Text → Text
solution_path slug language =
    codes "submission/" ++ (slug ++ (codes "/solution" ++ extension_in language extensions))

-- The PUT of `commitSolution`, if it is sent: the file, its owner, and the sha of the file it
-- replaces.
pub record Commit : Type 0 where
  pub token : Text
  pub owner : Text
  pub path : Text
  pub sha : Json

abbrev commit_with : Link → Text → Option Json → Option Commit
commit_with link path none = none
commit_with link path (some sha) =
    some record { token = link.token; owner = link.username; path = path; sha = sha }

abbrev with_sha : Link → Text → Option Json → Option Commit
with_sha link path none = none
with_sha link path (some v) = commit_with link path (get v (codes "sha"))

abbrev commit_over : Link → Text → Option Reply → Option Commit
commit_over link path none = none
commit_over link path (some existing) =
    if existing.ok then with_sha link path existing.json else commit_with link path (some undefined)

-- pushToGithub: `link` is what the store has for the user, or nothing.
unfoldable pub push_commit : Option Link → Text → Text → Option Reply → Option Commit
unfolding solution_path
push_commit none slug language existing = none
push_commit (some link) slug language existing =
    commit_over link (solution_path slug language) existing
