-- ===== src/Page/Themes/Wanted.antt =====
-- The theme that the panel is to have, beside what is resolved by `getResolvedTheme` and the reads of
-- the preference in bsg-frontend/extension/contentScript.js.
use bsg.Prelude.{
  Bool, true, false, not, ◌||◌, Option, none, some, [], ◌∷◌, ◌≡◌, refl, sym, subst, if◌then◌else◌,
  Text, codes, text_eq, eq_of_text_eq, nonempty, option_eq, Bool-cases, inl, inr,
}
use bsg.Page.Themes.{Themes, resolved_theme, chosen, is_light}

-- Whether LeetCode's theme is light, or else, where it is neither of the two, the system's.
abbrev pub light_around : Option Text → Bool → Bool
light_around lc_theme prefers_dark =
    if option_eq lc_theme (some (codes "light"))
    then true
    else if option_eq lc_theme (some (codes "dark"))
    then false
    else not prefers_dark

-- No preference, an empty one or 'auto'.
abbrev pub is_automatic : Option Text → Bool
is_automatic none = true
is_automatic (some pref) = not (nonempty pref) || text_eq pref (codes "auto")

-- Whether the panel is to be light.
abbrev pub light_wanted : Option Text → Option Text → Bool → Bool
light_wanted pref lc_theme prefers_dark =
    if option_eq pref (some (codes "light"))
    then true
    else if is_automatic pref
    then light_around lc_theme prefers_dark
    else false

abbrev pub light_wanted_in : Themes → Bool
light_wanted_in t = light_wanted t.theme_preference t.lc_theme t.prefers_dark

pub resolved_theme-light_around :
    (lc : Option Text) (dark : Bool) → is_light (resolved_theme lc dark) ≡ light_around lc dark
unfolding resolved_theme
resolved_theme-light_around none true = refl
resolved_theme-light_around none false = refl
resolved_theme-light_around (some t) dark = elim (Bool-cases (text_eq t (codes "dark"))) [
  | inl e ↦
      subst (λ u. is_light (resolved_theme (some u) dark) ≡ light_around (some u) dark)
        (sym (eq_of_text_eq t (codes "dark") e)) refl
  | inr e ↦ rw e (neither t dark)
]
  where
    neither :
        (t : Text) (dark : Bool)
        → is_light (
            if text_eq t (codes "light")
            then codes "light"
            else if dark
            then codes "dark"
            else codes "light")
          ≡ (if text_eq t (codes "light") then true else not dark)
    neither t dark = elim (Bool-cases (text_eq t (codes "light"))) [
      | inl e ↦ rw e refl
      | inr e ↦ rw e (last dark)
    ]
      where
        last : (dark : Bool) → is_light (if dark then codes "dark" else codes "light") ≡ not dark
        last true = refl
        last false = refl

-- The theme that a choice names, or none where the themes around decide.
abbrev pub named : Option Text → Option Bool
named none = none
named (some pref) = some (is_light pref)

abbrev pub shown : Option Text → Bool → Option Bool → Bool
shown lc dark none = light_around lc dark
shown lc dark (some b) = b

pub light_wanted-chosen :
    (pref lc : Option Text) (dark : Bool)
    → light_wanted pref lc dark ≡ shown lc dark (named (chosen pref))
light_wanted-chosen none lc dark = refl
light_wanted-chosen (some []) lc dark = refl
light_wanted-chosen (some (c ∷ cs)) lc dark = elim (Bool-cases (text_eq (c ∷ cs) (codes "auto"))) [
  | inl e ↦
      subst (λ u. light_wanted (some u) lc dark ≡ shown lc dark (named (chosen (some u))))
        (sym (eq_of_text_eq (c ∷ cs) (codes "auto") e)) refl
  | inr e ↦ elim (Bool-cases (text_eq (c ∷ cs) (codes "light"))) [
    | inl f ↦
        subst (λ u. light_wanted (some u) lc dark ≡ shown lc dark (named (chosen (some u))))
          (sym (eq_of_text_eq (c ∷ cs) (codes "light") f)) refl
    | inr f ↦ rw (e, f) refl
  ]
]
