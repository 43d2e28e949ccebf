-- ===== src/Events/Keys.antt =====
-- The keys by which the background worker tells a new round from one it has seen:
-- `roundKey` in bsg-frontend/apps/extension/hooks/useRoomEvents.ts.
use bsg.Prelude.{
  ℕ, true, false, List, [], ◌∷◌, ◌++◌, ◌≡◌, ◌≢◌, ◌↔◌, ◌⊎◌, inl, inr, subst, refl, sym, ◌∙◌, arith,
  Text, codes, All, ◌==◌, text_or, join,
}
use bsg.Prelude.Int.{ℤ, pos}
use bsg.Prelude.Decimal.{
  natural_text, natural_text-digits, natural_text_injective, integer_text, is_digit,
}
use bsg.Prelude.Json.{Json, num, get_opt}
use bsg.Events.{is_round_data, round_key, ended_key}

append-cancel : (p s t : Text) → p ++ s ≡ p ++ t → s ≡ t
append-cancel [] s t e = e
append-cancel (c ∷ p) s t e = append-cancel p s t cc

-- Room ids are UUIDs: they hold no bar.
abbrev pub IsPlain : Text → Type 0
IsPlain s = All (λ c. (c == b'|') ≡ false) s

-- Behind a plain text, the first bar ends it.
plain_prefix :
    (r q s t : Text) → IsPlain r → IsPlain q → r ++ b'|' ∷ s ≡ q ++ b'|' ∷ t → (r ≡ q) × (s ≡ t)
plain_prefix [] [] s t h k e = (refl, cc)
plain_prefix [] (d ∷ q) s t h (k, ks) e = absurd (ground arith)
plain_prefix (c ∷ r) [] s t (h, hs) k e = absurd (ground arith)
plain_prefix (c ∷ r) (d ∷ q) s t (h, hs) (k, ks) e =
    let (same, rest) = plain_prefix r q s t hs ks cc in let first : c ≡ d = cc in (cc, rest)

-- A payload of the new format that starts at a natural number of seconds.
pub record StartsAt (v : Json) (start : ℕ) : Type 0 where
  pub new_format : is_round_data v ≡ true
  pub time : get_opt v (codes "startTime") ≡ num (pos start)

round_key_of_start :
    (r : Text) (v : Json) (ps : List Text) (n : ℕ)
    → StartsAt v n
    → round_key r v ps ≡ r ++ b'|' ∷ natural_text n
unfolding round_key integer_text
round_key_of_start r v ps n h = rw (h.new_format, h.time)

-- The keys of two rounds agree only if the rooms and the start times do, so a replay keeps its key
-- and any other round gets another one.
pub round_key_iff :
    (r q : Text) (v w : Json) (ps qs : List Text) (m n : ℕ)
    → IsPlain r
    → IsPlain q
    → StartsAt v m
    → StartsAt w n
    → (round_key r v ps ≡ round_key q w qs) ↔ ((r ≡ q) × (m ≡ n))
round_key_iff r q v w ps qs m n h k hv hw =
    let left = round_key_of_start r v ps m hv in
    let right = round_key_of_start q w qs n hw in
    (
      λ e.
          let (same, digits) =
            plain_prefix r q (natural_text m) (natural_text n) h k (sym left ∙ e ∙ right) in
          (same, natural_text_injective m n digits),
      λ (same, time). rw (left, right, same, time),
    )

-- A key that carries on with a letter is not that of a start time.
digits_ne_letter : (n c : ℕ) (s : Text) → is_digit c ≡ false → natural_text n ≢ c ∷ s
digits_ne_letter n c s h e =
    let (first, _) = subst (All (λ c. is_digit c ≡ true)) e (natural_text-digits n) in cc

-- The payloads of the two formats that the server sends.
abbrev pub IsPayload : Json → Type 0
IsPayload v = ((n : ℕ) × StartsAt v n) ⊎ (is_round_data v ≡ false)

round_key_ne_word :
    (r q : Text) (v : Json) (ps : List Text) (c : ℕ) (s : Text)
    → IsPlain r
    → IsPlain q
    → IsPayload v
    → is_digit c ≡ false
    → c ≢ b'l'
    → round_key r v ps ≢ q ++ b'|' ∷ c ∷ s
unfolding round_key
round_key_ne_word r q v ps c s h k (inl (n, at)) letter ne e =
    let (_, digits) =
      plain_prefix r q (natural_text n) (c ∷ s) h k (sym (round_key_of_start r v ps n at) ∙ e) in
    digits_ne_letter n c s letter digits
round_key_ne_word r q v ps c s h k (inr legacy) letter ne e =
    let tail : Text = codes "egacy|" ++ text_or (join (codes "|") ps) (codes "round") in
    let old : round_key r v ps ≡ r ++ b'|' ∷ b'l' ∷ tail = rw legacy in
    let (_, rest) = plain_prefix r q (b'l' ∷ tail) (c ∷ s) h k (sym old ∙ e) in
    let letters : b'l' ≡ c = cc in ne (sym letters)

-- The key that a round's end leaves behind is no round's key, so a following round always differs
-- from it and is reset, even one of the legacy format with the same problems.
round_key-ne-ended_key :
    (r q : Text) (v : Json) (ps : List Text) (now : ℤ)
    → IsPlain r
    → IsPlain q
    → IsPayload v
    → round_key r v ps ≢ ended_key q now
unfolding ended_key
round_key-ne-ended_key r q v ps now h k p =
    round_key_ne_word r q v ps b'e' (codes "nded|" ++ integer_text now) h k p refl
      (λ e. omega arith)
