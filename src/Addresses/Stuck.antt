-- ===== src/Addresses/Stuck.antt =====
-- Which address a start of the panel ends with: bsg-frontend/apps/extension/lib/config.ts.
use bsg.Prelude.{
  Bool, true, none, some, List, [], ◌∷◌, ◌≡◌, refl, Text, nonempty, Bool-cases, inl, inr, subst,
  All,
}
use bsg.Addresses.{
  production_server_url, local_server_urls, StoredConfig, Env, env_or, initial, detect_among,
  stored_or, on_config, start,
}

detect_among-All :
    (P : Text → Type 0) (healthy : Text → Bool) (urls : List Text) (url : Text)
    → All P urls
    → detect_among healthy urls ≡ some url
    → P url
unfolding detect_among
detect_among-All P healthy [] url a h = absurd cc
detect_among-All P healthy (u ∷ us) url (p, a) h = elim (Bool-cases (healthy u)) [
  | inl e ↦ let found : some u ≡ some url = rw e at h in let same : u ≡ url = cc in subst P same p
  | inr e ↦ let rest = rw e at h in detect_among-All P healthy us url a rest
]

-- A start in which no local server answers ends with the stored address, if there is one that is
-- not empty, and else with that of the build.
pub start-remote :
    (healthy : Text → Bool) (env : Env) (stored : StoredConfig)
    → detect_among healthy local_server_urls ≡ none
    → (start true healthy env stored).server_url
      ≡ stored_or stored.config_server_url (some (env_or env.server production_server_url))
unfolding start initial on_config
start-remote healthy env stored h = rw h refl

-- Once a local server has answered, each later start in which none does ends with the address of
-- that local server, and not with that of the build.
pub start-stuck :
    (healthy later : Text → Bool) (env : Env) (stored : StoredConfig) (url : Text)
    → detect_among healthy local_server_urls ≡ some url
    → detect_among later local_server_urls ≡ none
    → (start true later env (start true healthy env stored).stored).server_url ≡ some url
unfolding start initial on_config
start-stuck healthy later env stored url h k =
    let full : nonempty url ≡ true =
      detect_among-All (λ u. nonempty u ≡ true) healthy local_server_urls url (refl, (refl, tt))
        h in
    rw (h, k, full) refl
