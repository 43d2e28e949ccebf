-- ===== src/Navigation.antt =====
-- Automatic navigation of the LeetCode tab, and route changes of the panel:
-- bsg-frontend/apps/extension/hooks/useRoomEvents.ts (its exported helpers and
-- `navigateActiveTab`) and bsg-frontend/apps/extension/utils/navigation.ts.
-- What `chrome.tabs.update` resolves to is a parameter: `none` is a rejected promise.
pub mod Slugs
pub mod Replay
mod Tests
use bsg.Prelude.{
  ℕ, zero, suc, Bool, true, false, ◌&&◌, ◌||◌, not, Option, none, some, List, [], ◌∷◌, ◌++◌, ◌==◌,
  if◌then◌else◌, Text, codes, option_eq, text_eq, mem_text, strip_prefix, includes, nonempty,
}
use bsg.Prelude.Json.{Json, undefined, null, bool, obj, is_str, get_opt}
use bsg.Prelude.Effects.{Outcome, returns, throws}

-- [^/?#]
abbrev pub is_slug_char : ℕ → Bool
is_slug_char c = not (c == b'/' || (c == b'?' || c == b'#'))

abbrev pub slug_span : Text → Text
slug_span [] = []
slug_span (c ∷ s) = if is_slug_char c then c ∷ slug_span s else []

abbrev pub problems_part : Text
problems_part = codes "/problems/"

abbrev captured : Text → Option Text
captured [] = none
captured (c ∷ s) = some (c ∷ s)

abbrev capture_after : Option Text → Option Text
capture_after none = none
capture_after (some rest) = captured (slug_span rest)

-- The pattern `\/problems\/([^/?#]+)` at the start of a text: its group.
abbrev pub match_here : Text → Option Text
match_here s = capture_after (strip_prefix problems_part s)

-- The leftmost match.
unfoldable pub parse_problem_slug : Text → Option Text
parse_problem_slug [] = none
parse_problem_slug (c ∷ s) = elim (match_here (c ∷ s)) [
  | some slug ↦ some slug
  | none ↦ parse_problem_slug s
]

unfoldable pub problem_url : Text → Text
problem_url slug = codes "https://leetcode.com/problems/" ++ (slug ++ codes "/")

-- `currentSlug && problems.includes(currentSlug)`
abbrev pub is_round_problem : Option Text → List Text → Bool
is_round_problem none problems = false
is_round_problem (some slug) problems = nonempty slug && mem_text slug problems

unfoldable pub resolve_resume_slug : Text → List Text → Option Text
resolve_resume_slug tab_url [] = none
resolve_resume_slug tab_url (p ∷ ps) =
    if is_round_problem (parse_problem_slug tab_url) (p ∷ ps)
    then none
    else if not (includes (codes "leetcode.com") tab_url)
    then none
    else some p

-- chrome.tabs.Tab, of which the program reads two optional fields.
pub record Tab : Type 0 where
  pub id : Option ℕ
  pub url : Option Text

-- The active tab of the current window, and the updates issued so far, the last one first.
pub record Tabs : Type 0 where
  pub available : Bool
  pub active : Option Tab
  pub issued : List (ℕ × Text)

-- Falsy parts: the id 0 and the empty address.
abbrev pub both_truthy : Option ℕ → Option Text → Option (ℕ × Text)
both_truthy (some (suc i)) (some (c ∷ s)) = some (suc i, c ∷ s)
both_truthy _ _ = none

-- `!tab?.id || !tab.url`
abbrev pub usable : Option Tab → Option (ℕ × Text)
usable none = none
usable (some t) = both_truthy t.id t.url

-- The tab that may be moved, where the extension's API is there.
abbrev pub open_tab : Tabs → Option (ℕ × Text)
open_tab s = if s.available then usable s.active else none

-- The tab after an update: a rejected one is logged and leaves the tab.
abbrev settle : Option Tab → Option Tab → Option Tab
settle none before = before
settle (some t) before = some t

module _ (update : ℕ → Text → Option Tab) where
  pub issue : ℕ → Text → Tabs → Tabs
  issue id url s = record s {
    issued = (id, url) ∷ s.issued;
    active = settle (update id url) s.active;
  }

  -- `!targetSlug || parseProblemSlug(tab.url) === targetSlug` returns early.
  go_to : ℕ → Text → Option Text → Tabs → Tabs
  go_to id url none s = s
  go_to id url (some slug) s =
      if not (nonempty slug) || option_eq (parse_problem_slug url) (some slug)
      then s
      else issue id (problem_url slug) s

  visit : (Text → Option Text) → Option (ℕ × Text) → Tabs → Tabs
  visit decide none s = s
  visit decide (some (id, url)) s = go_to id url (decide url) s

  unfoldable pub navigate_active_tab : (Text → Option Text) → Tabs → Tabs
  unfolding visit go_to
  navigate_active_tab decide s = visit decide (open_tab s) s

abbrev rejected_message : Text
rejected_message = codes "Navigation rejected."

-- An own property: `'cancelled' in error && error.cancelled === true`, and the same of `message`.
abbrev is_true : Json → Bool
is_true (bool b) = b
is_true v = false

unfoldable pub is_navigation_cancellation : Json → Bool
is_navigation_cancellation error =
    is_str error rejected_message
    || (is_true (get_opt error (codes "cancelled"))
        || is_str (get_opt error (codes "message")) rejected_message)

-- What `router.push` settles to.
pub data Pushed : Type 0 where
  resolved : Bool → Pushed
  rejected : Json → Pushed

unfoldable pub push_route : Pushed → Outcome Bool
unfolding is_navigation_cancellation
push_route (resolved b) = returns b
push_route (rejected error) = if is_navigation_cancellation error then returns false else throws
