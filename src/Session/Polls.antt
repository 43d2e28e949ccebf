-- ===== src/Session/Polls.antt =====
-- How the panel's polling ends: bsg-frontend/apps/extension/hooks/useGitHubConnection.ts.
use bsg.Prelude.{
  ℕ, suc, ◌+◌, ◌≤◌, Bool, true, false, ◌||◌, not, Option, none, some, List, [], ◌∷◌, ◌≡◌, refl, ◌∙◌,
  ◌⊎◌, arith, if◌then◌else◌, any, Bool-cases, inl, inr,
}
use bsg.Session.{GitHubConnection, Tick, Polling, refresh, is_linked, check_connection, poll}

-- A tick that finds the account linked or the tab closed.
abbrev pub ends : Tick → Bool
ends t = is_linked t.reply || t.closed

-- The ticks up to the first that ends the polling.
abbrev pub ticks_until : List Tick → ℕ
ticks_until [] = 0
ticks_until (t ∷ ts) = if ends t then 1 else suc (ticks_until ts)

refresh_requests :
    (o : Option GitHubConnection) (p : Polling) → (refresh o p).requests ≡ suc p.requests
refresh_requests none p = refl
refresh_requests (some c) p = refl

refresh_scheduled :
    (o : Option GitHubConnection) (p : Polling) → (refresh o p).scheduled ≡ p.scheduled
refresh_scheduled none p = refl
refresh_scheduled (some c) p = refl

module _ (t : Tick) (p : Polling) where
  fired : Polling
  fired = refresh t.reply record p { scheduled = false }

  fired_off : fired.scheduled ≡ false
  unfolding fired
  fired_off = refresh_scheduled t.reply record p { scheduled = false }

  fired_one : fired.requests ≡ suc p.requests
  unfolding fired
  fired_one = refresh_requests t.reply record p { scheduled = false }

  check_connection_cases :
      ((ends t ≡ true)
        × ((check_connection t p).scheduled ≡ false)
        × ((check_connection t p).requests ≤ p.requests + 2))
      ⊎ ((ends t ≡ false)
          × ((check_connection t p).scheduled ≡ true)
          × ((check_connection t p).requests ≡ suc p.requests))
  unfolding check_connection fired
  check_connection_cases = elim (Bool-cases (is_linked t.reply)) [
    | inl linked ↦ rw linked (inl (refl, fired_off, omega (arith, fired_one)))
    | inr unlinked ↦ elim (Bool-cases t.closed) [
      | inl gone ↦
          rw (unlinked, gone)
            (inl (
              refl,
              refresh_scheduled t.last fired ∙ fired_off,
              omega (arith, fired_one, refresh_requests t.last fired),
            ))
      | inr there ↦ rw (unlinked, there) (inr (refl, refl, fired_one))
    ]
  ]

poll_stopped : (ts : List Tick) (p : Polling) → p.scheduled ≡ false → poll ts p ≡ p
unfolding poll
poll_stopped [] p h = refl
poll_stopped (t ∷ ts) p h = rw h refl

poll_scheduled :
    (ts : List Tick) (p : Polling)
    → p.scheduled ≡ true
    → ((poll ts p).scheduled ≡ not (any ends ts))
      × ((poll ts p).requests ≤ p.requests + ticks_until ts + 1)
unfolding poll check_connection
poll_scheduled [] p h = (h, omega arith)
poll_scheduled (t ∷ ts) p h =
    let c = check_connection t p in
    elim (check_connection_cases t p) [
      | inl (e, off, few) ↦ rw (h, e, poll_stopped ts c off) (off, omega (arith, few))
      | inr (e, on, one) ↦
          let (same, few) = poll_scheduled ts c on in rw (h, e) (same, omega (arith, few, one))
    ]
