-- ===== src/Server/Profile/Names.antt =====
-- The parts of a name: server/src/config/passport.js.
use bsg.Prelude.{
  ℕ, false, List, [], ◌∷◌, ◌++◌, ◌≡◌, refl, ap, sym, ◌∙◌, Text, join, split_on, ◌==◌, ==_iff,
  Bool-cases, inl, inr, ◌⊎◌, All, onto_first,
}
use bsg.Server.Profile.{first_word, other_words}

join-onto_first :
    (sep : Text) (c : ℕ) (t : Text) (ts : List Text)
    → join sep (onto_first c (t ∷ ts)) ≡ c ∷ join sep (t ∷ ts)
join-onto_first sep c t [] = refl
join-onto_first sep c t (u ∷ us) = refl

-- A split has a first part, which holds no separator.
split_on-cases :
    (d : ℕ) (s : Text)
    → (t : Text) × (ts : List Text) × (split_on d s ≡ t ∷ ts) × All (λ c. (c == d) ≡ false) t
split_on-cases d [] = ([], [], refl, tt)
split_on-cases d (c ∷ s) = elim (Bool-cases (c == d)) [
  | inl e ↦ ([], split_on d s, rw e refl, tt)
  | inr e ↦ let (t, ts, k, h) = split_on-cases d s in (c ∷ t, ts, rw (e, k) refl, (e, h))
]

join-split_on : (d : ℕ) (s : Text) → join (d ∷ []) (split_on d s) ≡ s
join-split_on d [] = refl
join-split_on d (c ∷ s) =
    let (t, ts, k, _) = split_on-cases d s in
    let rest : join (d ∷ []) (t ∷ ts) ≡ s = rw (← k) (join-split_on d s) in
    elim (Bool-cases (c == d)) [
      | inl e ↦
          let same : c ≡ d = (==_iff c d).0 e in
          rw (e, k) (ap (λ u. d ∷ u) rest ∙ ap (λ b. b ∷ s) (sym same))
      | inr e ↦ rw (e, k) (join-onto_first (d ∷ []) c t ts ∙ ap (λ u. c ∷ u) rest)
    ]

-- The first name holds no space, and it is the whole name, where the last name is empty, or the two
-- and a space between them make the name again.
pub first_word-other_words :
    (name : Text)
    → All (λ c. (c == b' ') ≡ false) (first_word name)
      × (((name ≡ first_word name) × (other_words name ≡ []))
          ⊎ (name ≡ first_word name ++ b' ' ∷ other_words name))
first_word-other_words name =
    let (t, ts, k, h) = split_on-cases b' ' name in
    let made = sym (join-split_on b' ' name) in (rw k h, parts t ts k made)
  where
    parts :
        (t : Text) (ts : List Text)
        → split_on b' ' name ≡ t ∷ ts
        → name ≡ join (b' ' ∷ []) (split_on b' ' name)
        → ((name ≡ first_word name) × (other_words name ≡ []))
          ⊎ (name ≡ first_word name ++ b' ' ∷ other_words name)
    parts t [] k made = inl (made ∙ rw k refl, rw k refl)
    parts t (u ∷ us) k made = inr (made ∙ rw k refl)
