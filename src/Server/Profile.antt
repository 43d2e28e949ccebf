-- ===== src/Server/Profile.antt =====
-- The OAuth strategies' callbacks: server/src/config/passport.js. `profile` is what GitHub or Google
-- answers; `none` is null or undefined. The replies to the requests are arguments. What is sent to
-- the central service is behind the answer to passport, which does not wait for it.
pub mod Names
pub mod Tokens
use bsg.Prelude.{
  ℕ, Bool, true, false, ◌&&◌, ◌||◌, not, Option, none, some, List, [], ◌∷◌, ◌++◌, if◌then◌else◌,
  Text, codes, ◌/◌, text_eq, text_or, or_else, join, split_on, drop, get_elem?, nonempty, ◌==◌,
}
use bsg.Server.Auth.{AuthState, set_at, revoke}

pub record Profile : Type 0 where
  pub id : Text
  pub display_name : Option Text
  pub username : Text
  pub given_name : Option Text
  pub family_name : Option Text
  pub emails : List Text
  pub photos : List Text

pub record UserData : Type 0 where
  pub first_name : Text
  pub last_name : Text
  pub handle : Text
  pub email : Option Text
  pub photo_url : Option Text

pub record SessionUser : Type 0 where
  pub id : Text
  pub name : Text
  pub email : Option Text
  pub photo : Option Text
  pub access_token : Text
  pub provider : Text

-- name.split(' ')[0]
abbrev pub first_word : Text → Text
first_word name = or_else (get_elem? (split_on b' ' name) 0) []

-- name.split(' ').slice(1).join(' ')
abbrev pub other_words : Text → Text
other_words name = join (b' ' ∷ []) (drop 1 (split_on b' ' name))

abbrev pub or_text : Option Text → Text → Text
or_text none d = d
or_text (some s) d = text_or s d

-- Either request to the central service: whether its response was ok, or none where it is rejected.
pub data Sync : Type 0 where
  post_user put_user : Text → UserData → Sync

-- POST, and PUT if it fails.
unfoldable pub sync_user : Option Bool → Text → UserData → List Sync
sync_user none id u = post_user id u ∷ []
sync_user (some true) id u = post_user id u ∷ []
sync_user (some false) id u = post_user id u ∷ put_user id u ∷ []

-- What passport is told, once.
pub data Done : Type 0 where
  accepted : SessionUser → Done
  rejected : Done

-- The Google strategy, where a profile has a name and an address, as its scopes ask for; without
-- an address it throws.
abbrev pub google_data : Text → Text → Profile → UserData
google_data name email p = record {
  first_name = or_text p.given_name (first_word name);
  last_name = or_text p.family_name (other_words name);
  handle = name;
  email = some email;
  photo_url = get_elem? p.photos 0;
}

abbrev pub google_user : Text → Text → Text → Profile → SessionUser
google_user token name email p = record {
  id = p.id;
  name = name;
  email = some email;
  photo = get_elem? p.photos 0;
  access_token = token;
  provider = codes "google";
}

unfoldable pub verify_google : Option Bool → Text → Text → Profile → Done × List Sync
unfolding sync_user
verify_google posted token name p = elim (get_elem? p.emails 0) [
  | none ↦ (rejected, [])
  | some email ↦
      (accepted (google_user token name email p), sync_user posted p.id (google_data name email p))
]

abbrev pub github_name : Profile → Text
github_name p = or_text p.display_name p.username

abbrev pub github_data : Profile → UserData
github_data p = record {
  first_name = first_word (github_name p);
  last_name = other_words (github_name p);
  handle = github_name p;
  email = get_elem? p.emails 0;
  photo_url = get_elem? p.photos 0;
}

abbrev pub github_user : Text → Profile → SessionUser
github_user token p = record {
  id = p.id;
  name = github_name p;
  email = get_elem? p.emails 0;
  photo = get_elem? p.photos 0;
  access_token = token;
  provider = codes "github";
}

-- getStoredGithubToken, whose command may fail.
pub record TokenReplies : Type 0 where
  pub reads : Bool
  -- whether the revocation is answered
  pub revokes : Bool
  pub saves : Bool

unfoldable pub save_github_token : Text → Text → AuthState → AuthState
save_github_token id token s = record s { gh_token = set_at id (some token) s.gh_token }

abbrev pub save_if : Bool → Text → Text → AuthState → AuthState
save_if saves id token s = if saves then save_github_token id token s else s

abbrev pub revoke_then_save : TokenReplies → Text → Text → Text → AuthState → AuthState
revoke_then_save r id token previous s =
    if nonempty previous && not (text_eq previous token)
    then (if r.revokes then save_if r.saves id token (revoke previous s) else revoke previous s)
    else save_if r.saves id token s

abbrev replace_previous : TokenReplies → Text → Text → Option Text → AuthState → AuthState
replace_previous r id token none s = save_if r.saves id token s
replace_previous r id token (some previous) s = revoke_then_save r id token previous s

-- The inner try block: every failure of it is logged and swallowed.
unfoldable pub sync_token : TokenReplies → Text → Text → AuthState → AuthState
unfolding save_github_token
sync_token r id token s = if r.reads then replace_previous r id token (s.gh_token id) s else s

unfoldable pub verify_github :
    Option Bool → TokenReplies → Text → Profile → AuthState → Done × (List Sync × AuthState)
unfolding sync_user sync_token
verify_github posted r token p s = (
  accepted (github_user token p),
  (sync_user posted p.id (github_data p), sync_token r p.id token s),
)

-- createSubmissionRepo: whether it returns, by the status of the reply, or none where that is
-- rejected. A 422 says that the repository is there.
unfoldable pub create_submission_repo : Option ℕ → Bool
create_submission_repo none = false
create_submission_repo (some status) = (status / 100 == 2) || status == 422

-- The strategy of `passport.authorize`: the token and the name of the account.
unfoldable pub verify_connect : Option ℕ → Text → Profile → Option (Text × Text)
unfolding create_submission_repo
verify_connect created token p =
    if create_submission_repo created then some (token, p.username) else none
