-- ===== src/Tests/Navigating.antt =====
-- Tests of the tab navigation: bsg-frontend/apps/extension/hooks/useRoomEvents.ts.
use bsg.Prelude.{[], ◌∷◌, ◌≡◌, codes}
use bsg.Navigation.{navigate_active_tab, resolve_resume_slug}
use bsg.Navigation.Replay.{repeat, resume_replays}
use bsg.Tests.{update_tab, update_tab-Obeys, browsing, sum, lru, sum-IsSlug, lru-IsSlug}

resume_replays_example :
    repeat 3
      (navigate_active_tab update_tab (λ url. resolve_resume_slug url (sum ∷ lru ∷ [])))
      (browsing (codes "https://leetcode.com/"))
    ≡ navigate_active_tab update_tab
        (λ url. resolve_resume_slug url (sum ∷ lru ∷ []))
        (browsing (codes "https://leetcode.com/"))
resume_replays_example =
    resume_replays update_tab update_tab-Obeys (sum ∷ lru ∷ []) (sum-IsSlug, (lru-IsSlug, tt))
      (browsing (codes "https://leetcode.com/")) 2
