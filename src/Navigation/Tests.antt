-- ===== src/Navigation/Tests.antt =====
-- Tests of the navigation: bsg-frontend/apps/extension/hooks/useRoomEvents.ts and
-- bsg-frontend/apps/extension/utils/navigation.ts.
use bsg.Prelude.{ℕ, true, false, Option, some, [], ◌∷◌, ◌≡◌, refl, Text, codes}
use bsg.Prelude.Effects.{returns, throws}
use bsg.Prelude.Json.{undefined, str, obj, bool, field, end}
use bsg.Navigation.{
  Tab, Tabs, navigate_active_tab, issue, go_to, visit, resolve_resume_slug, parse_problem_slug,
  problem_url, push_route, rejected, is_navigation_cancellation,
}

abbrev update : ℕ → Text → Option Tab
update id url = some (record { id = some id; url = some url })

abbrev browsing : Text → Tabs
browsing url = record {
  available = true;
  active = some (record { id = some 7; url = some url });
  issued = [];
}

resume_moves_once :
    (navigate_active_tab update
      (λ url. resolve_resume_slug url (codes "sum" ∷ []))
      (browsing (codes "https://leetcode.com/"))).issued
    ≡ (7, codes "https://leetcode.com/problems/sum/") ∷ []
unfolding navigate_active_tab issue go_to visit resolve_resume_slug problem_url parse_problem_slug
resume_moves_once = refl

push_route_runs :
    (push_route (rejected (str (codes "Navigation rejected."))) ≡ returns false)
    × (push_route (rejected (obj (field (codes "cancelled") (bool true) end))) ≡ returns false)
    × (push_route (rejected undefined) ≡ throws)
unfolding push_route is_navigation_cancellation
push_route_runs = (refl, refl, refl)
