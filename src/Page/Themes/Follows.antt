-- ===== src/Page/Themes/Follows.antt =====
-- The panel has the theme that is chosen: bsg-frontend/extension/contentScript.js and
-- bsg-frontend/apps/extension/pages/_app.tsx.
use bsg.Prelude.{
  Bool, true, false, Option, none, some, List, [], ◌∷◌, ◌++◌, ◌≡◌, refl, sym, ◌∙◌, subst,
  if◌then◌else◌, Text, All,
}
use bsg.Page.Themes.{
  ThemeRead, sync_read, follow_read, Themes, resolved_theme, chosen, is_light, apply_theme,
  send_theme_to_iframe, sync_theme, follow_theme, preference_changed, leave_handle, deliver_first,
  read_first, Change, lc_switched, system_switched, preference, loaded, reloading, page_mounted,
  handle_left, answered, page_answered, step, run, send_chosen, follow_chosen, page_change,
}
use bsg.Page.Themes.Wanted.{
  light_around, light_wanted_in, named, shown, resolved_theme-light_around, light_wanted-chosen,
}

-- The page and the panel behind it are of the wanted theme.
pub record IsThemed (t : Themes) : Type 0 where
  pub page : t.light_page ≡ light_wanted_in t
  pub background : t.light_background ≡ light_wanted_in t

-- Neither a reload of the page nor its start.
abbrev pub stays : Change → Bool
stays reloading = false
stays page_mounted = false
stays _ = true

-- What a read's callback makes of what is shown, where none stands for the themes around.
abbrev follow_effect : Option Text → Option Bool → Option Bool
follow_effect none b = none
follow_effect (some pref) b = b

abbrev effect : ThemeRead → Option Bool → Option Bool
effect (sync_read pref) b = named (chosen pref)
effect (follow_read pref) b = follow_effect (chosen pref) b

abbrev final : Option Bool → List ThemeRead → Option Bool
final b [] = b
final b (r ∷ rs) = final (effect r b) rs

final-append :
    (b : Option Bool) (rs : List ThemeRead) (r : ThemeRead)
    → final b (rs ++ r ∷ []) ≡ effect r (final b rs)
final-append b [] r = refl
final-append b (q ∷ rs) r = final-append (effect q b) rs r

-- What all callbacks come to is the choice, whatever the themes around, or else the themes around.
abbrev Holds : Option Text → Option Text → Bool → Option Bool → Type 0
Holds none lc dark o = shown lc dark o ≡ light_around lc dark
Holds (some pref) lc dark o = o ≡ some (is_light pref)

named-Holds : (c lc : Option Text) (dark : Bool) → Holds c lc dark (named c)
named-Holds none lc dark = refl
named-Holds (some pref) lc dark = refl

follow_effect-Holds :
    (c lc lc' : Option Text) (dark dark' : Bool) (o : Option Bool)
    → Holds c lc dark o
    → Holds c lc' dark' (follow_effect c o)
follow_effect-Holds none lc lc' dark dark' o h = refl
follow_effect-Holds (some pref) lc lc' dark dark' o h = h

-- The themes around may be looked up now.
final-Holds :
    (c lc : Option Text) (dark : Bool) (rs : List ThemeRead)
    → Holds c lc dark (final none rs)
    → Holds c lc dark (final (some (light_around lc dark)) rs)
final-Holds none lc dark [] h = refl
final-Holds (some pref) lc dark [] h = absurd cc
final-Holds c lc dark (sync_read pref ∷ rs) h = h
final-Holds c lc dark (follow_read pref ∷ rs) h = go (chosen pref) (final-Holds c lc dark rs) h
  where
    go :
        (o : Option Text)
        → (Holds c lc dark (final none rs)
            → Holds c lc dark (final (some (light_around lc dark)) rs))
        → Holds c lc dark (final (follow_effect o none) rs)
        → Holds c lc dark (final (follow_effect o (some (light_around lc dark))) rs)
    go none rest h = h
    go (some pref) rest h = rest h

Shows : Themes → Bool → Type 0
Shows t b = Holds (chosen t.theme_preference) t.lc_theme t.prefers_dark (final (some b) t.reads)

record Following (t : Themes) : Type 0 where
  listens : t.mounted ≡ true
  no_read : t.page_read ≡ none
  page : Shows t t.light_page
  background : Shows t t.light_background

if_true : (P : Themes → Type 0) (b : Bool) (x y : Themes) → b ≡ true → P x → P (if b then x else y)
if_true P true x y h p = p
if_true P false x y h p = absurd cc

send-Following :
    (theme : Text) (t : Themes)
    → t.mounted ≡ true
    → t.page_read ≡ none
    → Shows t (is_light theme)
    → Following (send_theme_to_iframe theme t)
unfolding send_theme_to_iframe Shows
send-Following theme t m n h =
    let u = record t { light_background = is_light theme } in
    if_true Following t.mounted (apply_theme theme u) u m
      record { listens = m; no_read = n; page = h; background = h }

resolved-Following :
    (t : Themes)
    → t.mounted ≡ true
    → t.page_read ≡ none
    → Holds (chosen t.theme_preference) t.lc_theme t.prefers_dark (final none t.reads)
    → Following (send_chosen none t)
unfolding Shows send_chosen
resolved-Following t m n h =
    let c = chosen t.theme_preference in
    send-Following (resolved_theme t.lc_theme t.prefers_dark) t m n (
      subst (λ b. Holds c t.lc_theme t.prefers_dark (final (some b) t.reads))
        (sym (resolved_theme-light_around t.lc_theme t.prefers_dark))
        (final-Holds c t.lc_theme t.prefers_dark t.reads h))

deliver_first-Following :
    (rs : List ThemeRead) (t : Themes) → t.reads ≡ rs → Following t → Following (deliver_first rs t)
unfolding deliver_first Shows
deliver_first-Following [] t e h = h
deliver_first-Following (sync_read pref ∷ rs) t e h =
    let C = Holds (chosen t.theme_preference) t.lc_theme t.prefers_dark in
    let now : C (final (named (chosen pref)) rs) =
      subst (λ qs. C (final (some t.light_page) qs)) e h.page in
    go (chosen pref) now
  where
    go :
        (o : Option Text)
        → Holds (chosen t.theme_preference) t.lc_theme t.prefers_dark (final (named o) rs)
        → Following (send_chosen o record t { reads = rs })
    go none k = resolved-Following record t { reads = rs } h.listens h.no_read k
    go (some theme) k = send-Following theme record t { reads = rs } h.listens h.no_read k
deliver_first-Following (follow_read pref ∷ rs) t e h =
    let C = Holds (chosen t.theme_preference) t.lc_theme t.prefers_dark in
    go (chosen pref) (subst (λ qs. C (final (some t.light_page) qs)) e h.page)
      (subst (λ qs. C (final (some t.light_background) qs)) e h.background)
  where
    go :
        (o : Option Text)
        → Holds
            (chosen t.theme_preference)
            t.lc_theme
            t.prefers_dark
            (final (follow_effect o (some t.light_page)) rs)
        → Holds
            (chosen t.theme_preference)
            t.lc_theme
            t.prefers_dark
            (final (follow_effect o (some t.light_background)) rs)
        → Following (follow_chosen o record t { reads = rs })
    go none k l = resolved-Following record t { reads = rs } h.listens h.no_read k
    go (some theme) k l = record {
      listens = h.listens;
      no_read = h.no_read;
      page = k;
      background = l;
    }

-- A read that is asked for after the themes or the preference may have changed.
ask-Shows :
    (r : ThemeRead) (t : Themes) (b : Bool)
    → Holds
        (chosen t.theme_preference)
        t.lc_theme
        t.prefers_dark
        (effect r (final (some b) t.reads))
    → Shows record t { reads = t.reads ++ r ∷ [] } b
unfolding Shows
ask-Shows r t b h = rw (final-append (some b) t.reads r) h

sync_theme-Following :
    (t : Themes) → t.mounted ≡ true → t.page_read ≡ none → Following (sync_theme t)
unfolding sync_theme
sync_theme-Following t m n =
    let own = named-Holds (chosen t.theme_preference) t.lc_theme t.prefers_dark in
    record {
      listens = m;
      no_read = n;
      page = ask-Shows (sync_read t.theme_preference) t t.light_page own;
      background = ask-Shows (sync_read t.theme_preference) t t.light_background own;
    }

follow_theme-Following :
    (lc : Option Text) (dark : Bool) (t : Themes)
    → Following t
    → Following (follow_theme record t { lc_theme = lc; prefers_dark = dark })
unfolding follow_theme Shows
follow_theme-Following lc dark t h =
    let u = record t { lc_theme = lc; prefers_dark = dark } in
    let r = follow_read t.theme_preference in
    let now : (o : Option Bool)
        → Holds (chosen t.theme_preference) t.lc_theme t.prefers_dark o
        → Holds (chosen t.theme_preference) lc dark (effect r o) =
      follow_effect-Holds (chosen t.theme_preference) t.lc_theme lc t.prefers_dark dark in
    record {
      listens = h.listens;
      no_read = h.no_read;
      page = ask-Shows r u t.light_page (now (final (some t.light_page) t.reads) h.page);
      background =
          ask-Shows r u t.light_background
            (now (final (some t.light_background) t.reads) h.background);
    }

page_change-heard :
    (o : Option Text) (t : Themes)
    → t.mounted ≡ true
    → t.page_read ≡ none
    → ((page_change o t).mounted ≡ true) × ((page_change o t).page_read ≡ none)
page_change-heard none t m n = (m, n)
page_change-heard (some pref) t m n =
    if_true (λ u. (u.mounted ≡ true) × (u.page_read ≡ none)) t.mounted (apply_theme pref t) t m
      (m, n)

step-Following : (c : Change) (t : Themes) → stays c ≡ true → Following t → Following (step c t)
unfolding step preference_changed leave_handle Shows
step-Following (lc_switched theme) t s h = follow_theme-Following theme t.prefers_dark t h
step-Following (system_switched dark) t s h = follow_theme-Following t.lc_theme dark t h
step-Following (preference pref) t s h =
    let (m, n) =
      page_change-heard (chosen pref) record t { theme_preference = pref } h.listens h.no_read in
    sync_theme-Following (page_change (chosen pref) record t { theme_preference = pref }) m n
step-Following loaded t s h = sync_theme-Following t h.listens h.no_read
step-Following handle_left t s h = record {
  listens = h.listens;
  no_read = h.no_read;
  page = h.page;
  background = h.background;
}
step-Following answered t s h = deliver_first-Following t.reads t refl h
step-Following page_answered t s h = subst (λ o. Following (read_first o t)) (sym h.no_read) h
step-Following reloading t s h = absurd cc
step-Following page_mounted t s h = absurd cc

run_from :
    (cs : List Change) (t : Themes)
    → All (λ c. stays c ≡ true) cs
    → Following t
    → Following (run cs t)
unfolding run
run_from [] t s h = h
run_from (c ∷ cs) t (s, ss) h = run_from cs (step c t) ss (step-Following c t s h)

light_wanted-shown : (t : Themes) (b : Bool) → t.reads ≡ [] → Shows t b → b ≡ light_wanted_in t
unfolding Shows
light_wanted-shown t b e h =
    let now =
      subst (λ rs. Holds (chosen t.theme_preference) t.lc_theme t.prefers_dark (final (some b) rs))
        e h in
    go (chosen t.theme_preference) now
    ∙ sym (light_wanted-chosen t.theme_preference t.lc_theme t.prefers_dark)
  where
    go :
        (c : Option Text)
        → Holds c t.lc_theme t.prefers_dark (some b)
        → b ≡ shown t.lc_theme t.prefers_dark (named c)
    go none k = k
    go (some pref) k = let k' : some b ≡ some (is_light pref) = k in cc

-- From the iframe's load event on, where the panel's page listens by then and its own first read is
-- answered: over every course of changes of the preference, of LeetCode's theme and of the system's,
-- and of answers of the storage in the order of the reads, while the page is not loaded again, once
-- no read is open, the page and the panel behind it are light exactly if the preference is 'light',
-- or it is empty or 'auto' and LeetCode's theme is light or, where that is neither light nor dark,
-- the system's is not dark.
pub run-IsThemed :
    (cs : List Change) (t : Themes)
    → t.mounted ≡ true
    → t.page_read ≡ none
    → All (λ c. stays c ≡ true) cs
    → (run (loaded ∷ cs) t).reads ≡ []
    → IsThemed (run (loaded ∷ cs) t)
unfolding run step
run-IsThemed cs t m n s e =
    let h = run_from cs (sync_theme t) s (sync_theme-Following t m n) in
    let u = run cs (sync_theme t) in
    record {
      page = light_wanted-shown u u.light_page e h.page;
      background = light_wanted-shown u u.light_background e h.background;
    }
