-- ===== src/Tests/Playing.antt =====
-- Tests of the game events, the timer and the retries: bsg-frontend/apps/extension/hooks.
use bsg.Prelude.{ℕ, zero, suc, none, some, [], ◌∷◌, ◌≡◌, refl, Text, codes}
use bsg.Prelude.Int.{pos, ◌+ℤ◌, ◌*ℤ◌, finite, num_add}
use bsg.Prelude.Json.{undefined}
use bsg.Requests.{Reply, replied}
use bsg.Requests.Retries.{SettlesAt, fetch_with_retry_total}
use bsg.Events.{EventsState, end_time_of, on_round_start, problems_of}
use bsg.Events.Handlers.{resume_on_mount}
use bsg.Events.Timing.{end_time_of_clocks, IsRound, IsStamped}
use bsg.Events.Rounds.{reloaded, resume_after_round_start}
use bsg.Tests.{
  panel, round_payload, stamped_payload, unstamped_payload, update_tab, update_tab-Obeys, sum, lru,
  sum-IsSlug, lru-IsSlug,
}

abbrev waiting : EventsState
waiting = record { world = panel; next_problem = none; last_game = none }

abbrev r1 : Text
r1 = codes "r1"

resume_after_round_start_example :
    (resume_on_mount update_tab
      (pos 5)
      (reloaded (on_round_start update_tab (pos 0) r1 round_payload waiting))).world.tabs
    ≡ (on_round_start update_tab (pos 0) r1 round_payload waiting).world.tabs
unfolding problems_of
resume_after_round_start_example =
    resume_after_round_start update_tab update_tab-Obeys (pos 0) (pos 5) r1 round_payload waiting
      sum (lru ∷ []) refl (sum-IsSlug, (lru-IsSlug, tt)) refl

payload-IsRound : IsRound stamped_payload (pos 1000) (pos 30)
payload-IsRound = record { new_format = refl; starts = refl; lasts = refl }

payload-IsStamped : IsStamped stamped_payload (pos 990)
payload-IsStamped = record { stamped = refl; clock = refl }

unstamped-IsRound : IsRound unstamped_payload (pos 1000) (pos 30)
unstamped-IsRound = record { new_format = refl; starts = refl; lasts = refl }

end_time_of_clocks_example :
    (end_time_of (pos 990 *ℤ pos 1000 +ℤ pos 60_000) stamped_payload
      ≡ num_add (end_time_of (pos 5) unstamped_payload) (finite (pos 60_000)))
    × (end_time_of (pos 5) unstamped_payload
        ≡ finite (pos 1000 *ℤ pos 1000 +ℤ pos 30 *ℤ pos 60 *ℤ pos 1000))
end_time_of_clocks_example =
    end_time_of_clocks (pos 5) (pos 60_000) (pos 1000) (pos 30) (pos 990) stamped_payload
      unstamped_payload payload-IsRound payload-IsStamped unstamped-IsRound refl

abbrev busy_once : ℕ → Reply
busy_once zero = replied 429 none
busy_once (suc n) = replied 200 (some undefined)

fetch_with_retry_total_example : (n : ℕ) × SettlesAt busy_once n
fetch_with_retry_total_example = fetch_with_retry_total busy_once
