-- ===== src/Chat/Display.antt =====
-- What the chat shows of its groups:
-- bsg-frontend/apps/extension/customComponents/RoomDisplays/ChatDisplay.tsx, with its search among
-- the emojis.
pub mod Whole
use bsg.Prelude.{
  ℕ, Bool, true, false, ◌&&◌, ◌||◌, not, Option, none, some, List, [], ◌∷◌, ◌++◌, map, any, ◌≡◌,
  refl, sym, ◌∙◌, ap, if◌then◌else◌, Text, codes, text_eq, text_eq_refl, eq_of_text_eq, nonempty,
  includes, All, Bool-cases, inl, inr, All-append,
}
use mathlib.Core.List.{append_assoc, append-nil}
use bsg.Chat.{ChatMessage}
use bsg.Chat.Groups.{Group, joins, add_message, grouped_messages}

-- Where and how a line stands: in the middle, at the right, or below its sender's name at the left.
pub data Bubble : Type 0 where
  system_line own_bubble other_bubble : Text → Bubble

abbrev pub is_user : Option Text → Text → Bool
is_user none handle = false
is_user (some id) handle = text_eq handle id

abbrev pub bubble_at : Bool → Text → Bubble
bubble_at true text = own_bubble text
bubble_at false text = other_bubble text

abbrev pub bubbles_at : Bool → List ChatMessage → List Bubble
bubbles_at own [] = []
bubbles_at own (m ∷ ms) = bubble_at own m.text ∷ bubbles_at own ms

-- What is shown of a group: of one that begins with a system line, that line alone.
abbrev pub shown_group : Option Text → Group → List Bubble
shown_group user_id g =
    if g.head.is_system
    then system_line g.head.text ∷ []
    else bubbles_at (is_user user_id g.head.user_handle) (g.head ∷ g.tail)

unfoldable pub shown_groups : Option Text → List Group → List Bubble
shown_groups user_id [] = []
shown_groups user_id (g ∷ gs) = shown_group user_id g ++ shown_groups user_id gs

pub record Emoji : Type 0 where
  pub emoji : Text
  pub name : Text
  pub keywords : List Text

-- emojiSearchResults
unfoldable pub emoji_search_results : Text → List Emoji → List Emoji
emoji_search_results search [] = []
emoji_search_results search (e ∷ es) =
    let rest = emoji_search_results search es in
    if nonempty search
      && (includes search e.name || any (λ keyword. includes search keyword) e.keywords)
    then e ∷ rest
    else rest
