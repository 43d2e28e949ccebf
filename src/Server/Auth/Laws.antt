-- ===== src/Server/Auth/Laws.antt =====
-- What the routes of server/src/routes/auth.js leave behind.
use bsg.Prelude.{
  Bool, true, false, ◌&&◌, ◌||◌, Option, none, some, [], ◌∷◌, ◌≡◌, ◌⊎◌, inl, inr, refl,
  if◌then◌else◌, Text, codes, text_eq, text_eq_refl, is_some, option_eq, Bool-cases, nonempty,
}
use bsg.Prelude.Json.{undefined}
use bsg.Server.Submission.{Reply, push_commit, solution_path}
use bsg.Server.Auth.{
  AuthUser, Account, AuthState, revoke, delete_stored_github_token, save_github_repo_link,
  get_github_repo_link, revoked_github, revoke_with, revoke_login, end_session, logout, connection,
  connect_status, connected, not_connected, connect_callback, link_of, truthy_text,
}

-- The token of an account that has one.
abbrev pub account_with : Text → Text → Account
account_with token username = record { token = some token; username = username }

connect_callback_branches :
    (saves : Bool) (user : Option AuthUser) (token username : Text) (s : AuthState)
    → nonempty token ≡ true
    → let (answer, t) = connect_callback saves user (some (account_with token username)) s in
      ((u : AuthUser) × (user ≡ some u)
        × (answer ≡ connected)
        × (get_github_repo_link u.id t ≡ some (account_with token username))
        × (t.revocations ≡ s.revocations))
      ⊎ ((answer ≡ not_connected)
          × (t.gh_repo ≡ s.gh_repo)
          × (t.revocations ≡ token ∷ s.revocations))
unfolding connect_callback save_github_repo_link get_github_repo_link
connect_callback_branches saves user [] username s h = absurd cc
connect_callback_branches saves none (c ∷ cs) username s h = inr (refl, refl, refl)
connect_callback_branches true (some u) (c ∷ cs) username s h =
    inl (u, refl, refl, rw (text_eq_refl u.id), refl)
connect_callback_branches false (some u) (c ∷ cs) username s h = inr (refl, refl, refl)

connect_callback-push :
    (u : AuthUser) (token username slug language : Text) (existing : Reply) (s : AuthState)
    → existing.ok ≡ false
    → let (answer, t) = connect_callback true (some u) (some (account_with token username)) s in
      (connect_status true (some u) t ≡ connection true (some username))
      × (push_commit (link_of (get_github_repo_link u.id t)) slug language (some existing)
          ≡ some record {
            token = token;
            owner = username;
            path = solution_path slug language;
            sha = undefined;
          })
unfolding connect_callback save_github_repo_link get_github_repo_link connect_status push_commit
connect_callback-push u token username slug language existing s h =
    rw (text_eq_refl u.id, h) (refl, refl)

abbrev option_true : Option Bool → Bool
option_true none = false
option_true (some b) = b

-- Whether a logout reaches the deletion of the stored token.
abbrev pub forgets : Option Bool → Bool → AuthUser → Bool
forgets reply deletes u =
    (is_some (truthy_text u.access_token)
      && option_eq (truthy_text u.provider) (some (codes "github")))
    && (option_true reply && deletes)

-- The revocation touches nothing but the stored token.
record Kept (b : Bool) (id : Text) (s t : AuthState) : Type 0 where
  session : t.session ≡ s.session
  cookie : t.cookie ≡ s.cookie
  logged_in : t.logged_in ≡ s.logged_in
  gh_repo : t.gh_repo ≡ s.gh_repo
  gh_token : t.gh_token id ≡ (if b then none else s.gh_token id)

unchanged : (id : Text) (s : AuthState) → Kept false id s s
unchanged id s = record {
  session = refl;
  cookie = refl;
  logged_in = refl;
  gh_repo = refl;
  gh_token = refl;
}

if_Kept :
    (b : Bool) (id : Text) (s t u : AuthState)
    → Kept false id s t
    → Kept false id s u
    → Kept false id s (if b then t else u)
if_Kept true id s t u p q = p
if_Kept false id s t u p q = q

kept : (id : Text) (s : AuthState) (token : Text) → Kept false id s (revoke token s)
kept id s token = record {
  session = refl;
  cookie = refl;
  logged_in = refl;
  gh_repo = refl;
  gh_token = refl;
}

revoked_github-Kept :
    (reply : Option Bool) (deletes : Bool) (id token : Text) (s : AuthState)
    → Kept (option_true reply && deletes) id s (revoked_github reply deletes id (revoke token s))
unfolding delete_stored_github_token
revoked_github-Kept (some true) true id token s = record {
  session = refl;
  cookie = refl;
  logged_in = refl;
  gh_repo = refl;
  gh_token = rw (text_eq_refl id) refl;
}
revoked_github-Kept (some true) false id token s = kept id s token
revoked_github-Kept (some false) deletes id token s = kept id s token
revoked_github-Kept none deletes id token s = kept id s token

revoke_with-Kept :
    (reply : Option Bool) (deletes : Bool) (id : Text) (token provider : Option Text)
    (s : AuthState)
    → Kept
        ((is_some token && option_eq provider (some (codes "github")))
          && (option_true reply && deletes))
        id
        s
        (revoke_with reply deletes id token provider s)
revoke_with-Kept reply deletes id none provider s = unchanged id s
revoke_with-Kept reply deletes id (some t) none s = unchanged id s
revoke_with-Kept reply deletes id (some t) (some p) s =
    elim (Bool-cases (text_eq p (codes "github"))) [
      | inl e ↦ rw e (revoked_github-Kept reply deletes id t s)
      | inr e ↦
          rw e (
            if_Kept (text_eq p (codes "google")) id s (revoke t s) s (kept id s t) (unchanged id s))
    ]

logout_branches :
    (reply : Option Bool) (deletes logout_fails destroy_fails : Bool) (u : AuthUser) (s : AuthState)
    → let (status, t) = logout reply deletes logout_fails destroy_fails (some u) s in
      (status ≡ (if logout_fails || destroy_fails then 500 else 200))
      × (t.session ≡ ((logout_fails || destroy_fails) && s.session))
      × (t.cookie ≡ ((logout_fails || destroy_fails) && s.cookie))
      × (t.logged_in ≡ (logout_fails && s.logged_in))
      × (t.gh_repo ≡ s.gh_repo)
      × (t.gh_token u.id ≡ (if forgets reply deletes u then none else s.gh_token u.id))
unfolding logout
logout_branches reply deletes logout_fails destroy_fails u s =
    ended logout_fails destroy_fails
      (revoke_with-Kept reply deletes u.id (truthy_text u.access_token) (truthy_text u.provider) s)
  where
    t : AuthState
    t = revoke_login reply deletes (some u) s

    ended :
        (l d : Bool)
        → Kept (forgets reply deletes u) u.id s t
        → ((end_session l d t).0 ≡ (if l || d then 500 else 200))
          × ((end_session l d t).1.session ≡ ((l || d) && s.session))
          × ((end_session l d t).1.cookie ≡ ((l || d) && s.cookie))
          × ((end_session l d t).1.logged_in ≡ (l && s.logged_in))
          × ((end_session l d t).1.gh_repo ≡ s.gh_repo)
          × ((end_session l d t).1.gh_token u.id
              ≡ (if forgets reply deletes u then none else s.gh_token u.id))
    ended true d k = (refl, k.session, k.cookie, k.logged_in, k.gh_repo, k.gh_token)
    ended false true k = (refl, k.session, k.cookie, refl, k.gh_repo, k.gh_token)
    ended false false k = (refl, refl, refl, refl, k.gh_repo, k.gh_token)
