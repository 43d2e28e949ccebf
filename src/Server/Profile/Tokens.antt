-- ===== src/Server/Profile/Tokens.antt =====
-- The token that a login leaves: server/src/config/passport.js.
use bsg.Prelude.{
  Bool, true, false, ◌&&◌, not, some, ◌≡◌, refl, ap, sym, ◌∙◌, if◌then◌else◌, Text, text_eq,
  text_eq_refl, eq_of_text_eq, mem_text, nonempty, Bool-cases, Option-cases, ◌⊎◌, inl, inr,
}
use bsg.Server.Auth.{AuthState, revoke}
use bsg.Server.Profile.{TokenReplies, save_github_token, save_if, sync_token}

save_if-revocations :
    (b : Bool) (id token : Text) (s : AuthState)
    → (save_if b id token s).revocations ≡ s.revocations
unfolding save_github_token
save_if-revocations true id token s = refl
save_if-revocations false id token s = refl

save_if-gh_token :
    (b : Bool) (id token k : Text) (s : AuthState)
    → (text_eq id k ≡ false) ⊎ (s.gh_token k ≡ some token)
    → (save_if b id token s).gh_token k ≡ s.gh_token k
unfolding save_github_token
save_if-gh_token true id token k s (inl h) = rw h refl
save_if-gh_token true id token k s (inr h) = elim (Bool-cases (text_eq id k)) [
  | inl e ↦ rw e (sym h)
  | inr e ↦ rw e refl
]
save_if-gh_token false id token k s h = refl

-- Which tokens are stored and which were asked to be revoked, after a login of a user with a token.
module _ (r : TokenReplies) (id token : Text) where
  asked :
      (revokes : Bool) (previous : Text) (s : AuthState)
      → mem_text previous
          (if revokes
            then save_if r.saves id token (revoke previous s)
            else revoke previous s).revocations
        ≡ true
  asked true previous s =
      rw (save_if-revocations r.saves id token (revoke previous s), text_eq_refl previous) refl
  asked false previous s = rw (text_eq_refl previous) refl

  -- A token that was stored for the user is still stored after a login of the user, or was asked to be
  -- revoked, whichever requests fail.
  pub sync_token-revokes :
      (s : AuthState) (previous : Text)
      → s.gh_token id ≡ some previous
      → nonempty previous ≡ true
      → ((sync_token r id token s).gh_token id ≡ some previous)
        ⊎ (mem_text previous (sync_token r id token s).revocations ≡ true)
  unfolding sync_token
  sync_token-revokes s previous h full = elim (Bool-cases r.reads) [
    | inl reads ↦ elim (Bool-cases (text_eq previous token)) [
      | inl e ↦
          let same = eq_of_text_eq previous token e in
          rw (reads, h, full, e)
            (inl (save_if-gh_token r.saves id token id s (inr (h ∙ ap some same)) ∙ h))
      | inr e ↦ rw (reads, h, full, e) (inr (asked r.revokes previous s))
    ]
    | inr unread ↦ rw unread (inl h)
  ]

  kept :
      (b revokes : Bool) (previous other : Text) (s : AuthState)
      → text_eq id other ≡ false
      → (if b
            then (if revokes
                then save_if r.saves id token (revoke previous s)
                else revoke previous s)
            else save_if r.saves id token s).gh_token
          other
        ≡ s.gh_token other
  kept true true previous other s h =
      save_if-gh_token r.saves id token other (revoke previous s) (inl h)
  kept true false previous other s h = refl
  kept false revokes previous other s h = save_if-gh_token r.saves id token other s (inl h)

  -- A login leaves what is stored for the other users.
  pub sync_token-others :
      (s : AuthState) (other : Text)
      → text_eq id other ≡ false
      → (sync_token r id token s).gh_token other ≡ s.gh_token other
  unfolding sync_token
  sync_token-others s other h = elim (Bool-cases r.reads) [
    | inl reads ↦ elim (Option-cases (s.gh_token id)) [
      | inl e ↦ rw (reads, e) (save_if-gh_token r.saves id token other s (inl h))
      | inr (previous, e) ↦
          rw (reads, e)
            (kept (nonempty previous && not (text_eq previous token)) r.revokes previous other s h)
    ]
    | inr unread ↦ rw unread refl
  ]
