-- ===== src/Chat/Display/Whole.antt =====
-- The chat shows all of its messages:
-- bsg-frontend/apps/extension/customComponents/RoomDisplays/ChatDisplay.tsx.
use bsg.Prelude.{
  Bool, true, false, ◌&&◌, not, Option, List, [], ◌∷◌, ◌++◌, map, ◌≡◌, refl, sym, ◌∙◌, ap,
  if◌then◌else◌, Text, codes, text_eq, eq_of_text_eq, All, Bool-cases, inl, inr, arith,
}
use mathlib.Core.List.{append_assoc, append-nil}
use bsg.Chat.{ChatMessage}
use bsg.Chat.Groups.{Group, joins, add_message, reduce, grouped_messages}
use bsg.Chat.Display.{
  Bubble, system_line, is_user, bubble_at, bubbles_at, shown_group, shown_groups,
}

-- The system's lines, and no others, are of the sender System.
abbrev pub IsMarked : ChatMessage → Type 0
IsMarked m = text_eq m.user_handle (codes "System") ≡ m.is_system

-- How one message is shown, whatever stands before it.
abbrev pub bubble_of : Option Text → ChatMessage → Bubble
bubble_of user_id m =
    if m.is_system then system_line m.text else bubble_at (is_user user_id m.user_handle) m.text

bubbles_at-append :
    (own : Bool) (ms : List ChatMessage) (m : ChatMessage)
    → bubbles_at own (ms ++ m ∷ []) ≡ bubbles_at own ms ++ bubble_at own m.text ∷ []
bubbles_at-append own [] m = refl
bubbles_at-append own (n ∷ ms) m = ap (λ l. bubble_at own n.text ∷ l) (bubbles_at-append own ms m)

joins_parts : (system same : Bool) → (not system && same) ≡ true → (system ≡ false) × (same ≡ true)
joins_parts system same h = ground arith

-- No message joins a group that begins with a system line.
joins-IsMarked :
    (g : Group) (m : ChatMessage)
    → IsMarked g.head
    → IsMarked m
    → joins g m ≡ true
    → (g.head.is_system ≡ false) × (m.is_system ≡ false) × (g.head.user_handle ≡ m.user_handle)
joins-IsMarked g m k h j =
    let (plain, e) = joins_parts m.is_system (text_eq g.head.user_handle m.user_handle) j in
    let same = eq_of_text_eq g.head.user_handle m.user_handle e in
    (sym k ∙ ap (λ u. text_eq u (codes "System")) same ∙ h ∙ plain, plain, same)

plain_bubble :
    (user_id : Option Text) (handle : Text) (m : ChatMessage)
    → m.is_system ≡ false
    → handle ≡ m.user_handle
    → bubble_at (is_user user_id handle) m.text ≡ bubble_of user_id m
plain_bubble user_id handle m h same = rw (h, same) refl

shown_joined :
    (user_id : Option Text) (g : Group) (m : ChatMessage)
    → g.head.is_system ≡ false
    → m.is_system ≡ false
    → g.head.user_handle ≡ m.user_handle
    → shown_group user_id record g { tail = g.tail ++ m ∷ [] }
      ≡ shown_group user_id g ++ bubble_of user_id m ∷ []
shown_joined user_id g m k h same =
    let own = is_user user_id g.head.user_handle in
    rw k (
      bubbles_at-append own (g.head ∷ g.tail) m
      ∙ ap (λ b. bubbles_at own (g.head ∷ g.tail) ++ b ∷ [])
          (plain_bubble user_id g.head.user_handle m h same))

shown_single :
    (user_id : Option Text) (m : ChatMessage)
    → shown_group user_id record { head = m; tail = [] } ≡ bubble_of user_id m ∷ []
shown_single user_id m = elim (Bool-cases m.is_system) [ inl e ↦ rw e refl | inr e ↦ rw e refl ]

shown-add_message :
    (user_id : Option Text) (gs : List Group) (m : ChatMessage)
    → All (λ g. IsMarked g.head) gs
    → IsMarked m
    → shown_groups user_id (add_message gs m) ≡ shown_groups user_id gs ++ bubble_of user_id m ∷ []
unfolding shown_groups add_message
shown-add_message user_id [] m k h = ap (λ l. l ++ []) (shown_single user_id m)
shown-add_message user_id (g ∷ []) m (k, ks) h = elim (Bool-cases (joins g m)) [
  | inl e ↦
      let (plain, single, same) = joins-IsMarked g m k h e in
      rw e (
        append-nil (shown_group user_id record g { tail = g.tail ++ m ∷ [] })
        ∙ shown_joined user_id g m plain single same
        ∙ ap (λ l. l ++ bubble_of user_id m ∷ []) (sym (append-nil (shown_group user_id g))))
  | inr e ↦ rw e (
      ap (λ l. shown_group user_id g ++ (l ++ [])) (shown_single user_id m)
      ∙ ap (λ l. l ++ bubble_of user_id m ∷ []) (sym (append-nil (shown_group user_id g))))
]
shown-add_message user_id (g ∷ i ∷ gs) m (k, ks) h =
    ap (λ l. shown_group user_id g ++ l) (shown-add_message user_id (i ∷ gs) m ks h)
    ∙ sym (
        append_assoc (shown_group user_id g) (shown_groups user_id (i ∷ gs))
          (bubble_of user_id m ∷ []))

IsMarked-add_message :
    (gs : List Group) (m : ChatMessage)
    → All (λ g. IsMarked g.head) gs
    → IsMarked m
    → All (λ g. IsMarked g.head) (add_message gs m)
unfolding add_message
IsMarked-add_message [] m k h = (h, tt)
IsMarked-add_message (g ∷ []) m (k, ks) h = elim (Bool-cases (joins g m)) [
  | inl e ↦ rw e (k, tt)
  | inr e ↦ rw e (k, (h, tt))
]
IsMarked-add_message (g ∷ i ∷ gs) m (k, ks) h = (k, IsMarked-add_message (i ∷ gs) m ks h)

shown-reduce :
    (user_id : Option Text) (gs : List Group) (ms : List ChatMessage)
    → All (λ g. IsMarked g.head) gs
    → All IsMarked ms
    → shown_groups user_id (reduce gs ms) ≡ shown_groups user_id gs ++ map (bubble_of user_id) ms
unfolding reduce
shown-reduce user_id gs [] k h = sym (append-nil (shown_groups user_id gs))
shown-reduce user_id gs (m ∷ ms) k (h, hs) =
    shown-reduce user_id (add_message gs m) ms (IsMarked-add_message gs m k h) hs
    ∙ ap (λ l. l ++ map (bubble_of user_id) ms) (shown-add_message user_id gs m k h)
    ∙ append_assoc (shown_groups user_id gs) (bubble_of user_id m ∷ []) (map (bubble_of user_id) ms)

-- The chat shows every message once and in order, the system's in the middle and the user's own at
-- the right, where the system's lines, and no others, are of the sender System.
pub shown_groups-grouped_messages :
    (user_id : Option Text) (ms : List ChatMessage)
    → All IsMarked ms
    → shown_groups user_id (grouped_messages ms) ≡ map (bubble_of user_id) ms
unfolding grouped_messages shown_groups
shown_groups-grouped_messages user_id ms h = shown-reduce user_id [] ms tt h
