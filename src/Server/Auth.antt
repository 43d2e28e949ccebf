-- ===== src/Server/Auth.antt =====
-- The server's routes for the session and for the GitHub repository that solutions are pushed to:
-- server/src/routes/auth.js, with the store's functions of server/src/config/redis.js. What becomes
-- of the requests to Redis, GitHub and Google, of `req.logout` and of `session.destroy` are
-- arguments; that Redis hands back what was stored is built into the store, a function.
pub mod Laws
use bsg.Prelude.{
  ℕ, Bool, true, false, ◌&&◌, not, Option, none, some, List, [], ◌∷◌, ◌++◌, if◌then◌else◌, Text,
  codes, text_eq, nonempty, is_some,
}
use bsg.Server.Submission.{Link}

-- req.user, with its two texts that an OAuth strategy sets.
pub record AuthUser : Type 0 where
  pub id : Text
  pub provider : Option Text
  pub access_token : Option Text

-- req.account
pub record Account : Type 0 where
  pub token : Option Text
  pub username : Text

-- The stored tokens and links by user, what was asked to be revoked, and whether the browser still
-- has a session and its cookie.
pub record AuthState : Type 0 where
  pub gh_token : Text → Option Text
  pub gh_repo : Text → Option Account
  pub revocations : List Text
  pub logged_in : Bool
  pub session : Bool
  pub cookie : Bool

abbrev pub set_at {ℓ} : {A : Type ℓ} → Text → A → (Text → A) → Text → A
set_at id x f k = if text_eq id k then x else f k

abbrev pub revoke : Text → AuthState → AuthState
revoke token s = record s { revocations = token ∷ s.revocations }

unfoldable pub delete_stored_github_token : Text → AuthState → AuthState
delete_stored_github_token id s = record s { gh_token = set_at id none s.gh_token }

unfoldable pub save_github_repo_link : Text → Account → AuthState → AuthState
save_github_repo_link id link s = record s { gh_repo = set_at id (some link) s.gh_repo }

unfoldable pub get_github_repo_link : Text → AuthState → Option Account
get_github_repo_link id s = s.gh_repo id

-- The texts that are neither missing nor empty.
abbrev pub truthy_text : Option Text → Option Text
truthy_text none = none
truthy_text (some []) = none
truthy_text (some (c ∷ s)) = some (c ∷ s)

-- The revocation's `response.ok`, or none where the request is rejected, and whether the stored
-- token can be deleted.
abbrev pub revoked_github : Option Bool → Bool → Text → AuthState → AuthState
unfolding delete_stored_github_token
revoked_github (some true) true id s = delete_stored_github_token id s
revoked_github reply deletes id s = s

abbrev pub revoke_with :
    Option Bool → Bool → Text → Option Text → Option Text → AuthState → AuthState
revoke_with reply deletes id (some token) (some provider) s =
    if text_eq provider (codes "github")
    then revoked_github reply deletes id (revoke token s)
    else if text_eq provider (codes "google")
    then revoke token s
    else s
revoke_with reply deletes id token provider s = s

abbrev pub revoke_login : Option Bool → Bool → Option AuthUser → AuthState → AuthState
revoke_login reply deletes none s = s
revoke_login reply deletes (some u) s =
    revoke_with reply deletes u.id (truthy_text u.access_token) (truthy_text u.provider) s

-- `req.logout` and `session.destroy`, each with an error or without.
abbrev pub end_session : Bool → Bool → AuthState → ℕ × AuthState
end_session true destroy_fails s = (500, s)
end_session false true s = (500, record s { logged_in = false })
end_session false false s = (200, record s { logged_in = false; session = false; cookie = false })

-- router.post('/logout'): the status.
unfoldable pub logout :
    Option Bool → Bool → Bool → Bool → Option AuthUser → AuthState → ℕ × AuthState
logout reply deletes logout_fails destroy_fails user s =
    end_session logout_fails destroy_fails (revoke_login reply deletes user s)

pub data Answer : Type 0 where
  not_authenticated : Answer
  user_info : AuthUser → Answer
  connection : Bool → Option Text → Answer
  failed : Answer
  redirect : Text → Answer

-- router.get('/user'), for the user of an authenticated request.
unfoldable pub user_route : Option AuthUser → Answer
user_route none = not_authenticated
user_route (some u) = user_info u

abbrev link_status : Option Account → Answer
link_status none = connection false none
link_status (some link) = connection true (some link.username)

-- router.get('/github/connect/status'), where the store can be read or not.
unfoldable pub connect_status : Bool → Option AuthUser → AuthState → Answer
unfolding get_github_repo_link
connect_status reads none s = not_authenticated
connect_status false (some u) s = failed
connect_status true (some u) s = link_status (get_github_repo_link u.id s)

abbrev pub connected : Answer
connected = redirect (codes "/auth/done")

abbrev pub not_connected : Answer
not_connected = redirect (codes "/auth/done?error=github_connect")

abbrev revoke_token : Option Text → AuthState → AuthState
revoke_token none s = s
revoke_token (some []) s = s
revoke_token (some (c ∷ t)) s = revoke (c ∷ t) s

abbrev revoke_orphan : Option Account → AuthState → AuthState
revoke_orphan none s = s
revoke_orphan (some a) s = revoke_token a.token s

-- router.get('/github/callback/connect'), where the link can be saved or not.
unfoldable pub connect_callback :
    Bool → Option AuthUser → Option Account → AuthState → Answer × AuthState
unfolding save_github_repo_link
connect_callback saves (some u) (some a) s =
    if saves
    then (connected, save_github_repo_link u.id a s)
    else (not_connected, revoke_token a.token s)
connect_callback saves user account s = (not_connected, revoke_orphan account s)

abbrev linked : Text → Option Text → Option Link
linked username none = none
linked username (some token) = some record { token = token; username = username }

-- The link as the push of a solution reads it.
abbrev pub link_of : Option Account → Option Link
link_of none = none
link_of (some a) = linked a.username a.token
