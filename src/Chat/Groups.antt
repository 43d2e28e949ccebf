-- ===== src/Chat/Groups.antt =====
-- The grouping of consecutive messages of one sender: `groupedMessages` of
-- bsg-frontend/apps/extension/hooks/useChatSocket.ts. A group is never empty; it is its first
-- message with the others.
use bsg.Prelude.{
  Bool, true, false, ◌&&◌, not, List, [], ◌∷◌, ◌++◌, ◌≡◌, refl, sym, text_eq, if◌then◌else◌,
  Bool-cases, inl, inr, All, All-append,
}
use mathlib.Core.List.{append_assoc, append-nil}
use bsg.Chat.{ChatMessage}

pub record Group : Type 0 where
  pub head : ChatMessage
  pub tail : List ChatMessage

abbrev pub members : Group → List ChatMessage
members g = g.head ∷ g.tail

-- !msg.isSystem && lastGroup[0].userHandle === msg.userHandle
abbrev pub joins : Group → ChatMessage → Bool
joins g msg = not msg.is_system && text_eq g.head.user_handle msg.user_handle

-- One round of the reduction: `lastGroup.push(msg)` or `groups.push([msg])`.
unfoldable pub add_message : List Group → ChatMessage → List Group
add_message [] msg = record { head = msg; tail = [] } ∷ []
add_message (g ∷ []) msg =
    if joins g msg
    then record g { tail = g.tail ++ msg ∷ [] } ∷ []
    else g ∷ record { head = msg; tail = [] } ∷ []
add_message (g ∷ h ∷ gs) msg = g ∷ add_message (h ∷ gs) msg

unfoldable pub reduce : List Group → List ChatMessage → List Group
reduce groups [] = groups
reduce groups (msg ∷ msgs) = reduce (add_message groups msg) msgs

unfoldable pub grouped_messages : List ChatMessage → List Group
unfolding reduce add_message
grouped_messages msgs = reduce [] msgs

-- The messages of all groups, in order.
abbrev pub ungroup : List Group → List ChatMessage
ungroup [] = []
ungroup (g ∷ gs) = members g ++ ungroup gs

ungroup-add_message :
    (gs : List Group) (msg : ChatMessage) → ungroup (add_message gs msg) ≡ ungroup gs ++ msg ∷ []
unfolding add_message
ungroup-add_message [] msg = refl
ungroup-add_message (g ∷ []) msg = elim (Bool-cases (joins g msg)) [
  | inl h ↦ simp (h, append-nil)
  | inr h ↦ simp (h, append-nil)
]
ungroup-add_message (g ∷ h ∷ gs) msg = simp (ungroup-add_message (h ∷ gs) msg, append_assoc)

ungroup-reduce :
    (gs : List Group) (msgs : List ChatMessage) → ungroup (reduce gs msgs) ≡ ungroup gs ++ msgs
unfolding reduce
ungroup-reduce gs [] = sym (append-nil _)
ungroup-reduce gs (msg ∷ msgs) =
    simp (ungroup-reduce (add_message gs msg) msgs, ungroup-add_message, append_assoc)

-- Grouping loses, adds and reorders no message.
pub ungroup-grouped_messages : (msgs : List ChatMessage) → ungroup (grouped_messages msgs) ≡ msgs
unfolding grouped_messages
ungroup-grouped_messages msgs = ungroup-reduce [] msgs

-- All of a group but its first message are user messages of the first one's sender.
abbrev pub IsUniform : Group → Type 0
IsUniform g = All (λ m. joins g m ≡ true) g.tail

-- A group is followed only by a message that could not join it.
abbrev pub IsMaximal : List Group → Type 0
IsMaximal [] = Unit
IsMaximal (g ∷ []) = Unit
IsMaximal (g ∷ h ∷ gs) = (joins g h.head ≡ false) × IsMaximal (h ∷ gs)

abbrev pub IsGrouping : List Group → Type 0
IsGrouping gs = All IsUniform gs × IsMaximal gs

All-add_message :
    (gs : List Group) (msg : ChatMessage) → All IsUniform gs → All IsUniform (add_message gs msg)
unfolding add_message
All-add_message [] msg h = (tt, tt)
All-add_message (g ∷ []) msg (u, _) = elim (Bool-cases (joins g msg)) [
  | inl h ↦ rw h (All-append _ g.tail (msg ∷ []) u (h, tt), tt)
  | inr h ↦ rw h (u, (tt, tt))
]
All-add_message (g ∷ h ∷ gs) msg (u, us) = (u, All-add_message (h ∷ gs) msg us)

-- What follows a group keeps its first message, when something is added behind it.
IsMaximal-add_message :
    (gs : List Group) (msg : ChatMessage) → IsMaximal gs → IsMaximal (add_message gs msg)
unfolding add_message
IsMaximal-add_message [] msg h = tt
IsMaximal-add_message (g ∷ []) msg _ = elim (Bool-cases (joins g msg)) [
  | inl h ↦ rw h tt
  | inr h ↦ rw h (h, tt)
]
IsMaximal-add_message (g ∷ h ∷ []) msg (e, _) = elim (Bool-cases (joins h msg)) [
  | inl k ↦ rw k (e, tt)
  | inr k ↦ rw k (e, (k, tt))
]
IsMaximal-add_message (g ∷ h ∷ k ∷ gs) msg (e, es) = (e, IsMaximal-add_message (h ∷ k ∷ gs) msg es)

reduce-IsGrouping :
    (gs : List Group) (msgs : List ChatMessage) → IsGrouping gs → IsGrouping (reduce gs msgs)
unfolding reduce
reduce-IsGrouping gs [] h = h
reduce-IsGrouping gs (msg ∷ msgs) (u, m) =
    reduce-IsGrouping (add_message gs msg) msgs
      (All-add_message gs msg u, IsMaximal-add_message gs msg m)

-- Every group is of one sender, with system lines only at its head, and no group could have taken
-- in the message behind it.
grouped_messages-IsGrouping : (msgs : List ChatMessage) → IsGrouping (grouped_messages msgs)
unfolding grouped_messages
grouped_messages-IsGrouping msgs = reduce-IsGrouping [] msgs (tt, tt)
