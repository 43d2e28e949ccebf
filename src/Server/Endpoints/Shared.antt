-- ===== src/Server/Endpoints/Shared.antt =====
-- Which counters the limiter per endpoint uses: server/src/middleware/rate-limit.js.
use bsg.Prelude.{
  ℕ, suc, some, List, [], ◌∷◌, ◌≡◌, refl, ap, sym, ◌∙◌, Text, codes, text_eq, eq_of_text_eq, All,
  Bool-cases, Option-cases, inl, inr, ◌==◌, ◌/◌, ◌++◌,
}
use bsg.Prelude.Decimal.{natural_text}
use bsg.Server.FixedWindow.{Redis, Options, get_identifier, check_limit, current_key, window_ms}
use bsg.Server.Endpoints.{
  Config, Limiters, Request, entry, new_limiter, get_limiter, middleware, run, endpoint_of,
}

-- Every limiter that is kept is the one that the configuration gives.
abbrev pub IsConfigured : Config → Limiters → Type 0
IsConfigured config = All (λ e. e.1 ≡ new_limiter config e.0)

entry-IsConfigured :
    (config : Config) (k : Text) (ls : Limiters) (o : Options)
    → IsConfigured config ls
    → entry k ls ≡ some o
    → o ≡ new_limiter config k
entry-IsConfigured config k [] o h e = absurd cc
entry-IsConfigured config k ((j, v) ∷ m) o (p, h) e = elim (Bool-cases (text_eq j k)) [
  | inl same ↦
      let found : some v ≡ some o = rw same at e in
      let here : v ≡ o = cc in sym here ∙ p ∙ ap (new_limiter config) (eq_of_text_eq j k same)
  | inr other ↦ let rest = rw other at e in entry-IsConfigured config k m o h rest
]

get_limiter-IsConfigured :
    (config : Config) (k : Text) (ls : Limiters)
    → IsConfigured config ls
    → ((get_limiter config k ls).0 ≡ new_limiter config k)
      × IsConfigured config (get_limiter config k ls).1
unfolding get_limiter
get_limiter-IsConfigured config k ls h = elim (Option-cases (entry k ls)) [
  | inl e ↦ rw e (refl, (refl, h))
  | inr (o, e) ↦ rw e (entry-IsConfigured config k ls o h e, h)
]

-- The key of a user's or an address's counter, for the endpoint of another request.
abbrev pub request_key : Config → Request → Request → ℕ → Text
request_key config q q' now =
    current_key (new_limiter config (endpoint_of q')) (get_identifier q.user_id q.ip) now

module _ {S : Type 0} (redis : Redis S) where
  run-IsConfigured :
      (config : Config) (es : List (Request × ℕ)) (ls : Limiters) (s : S)
      → IsConfigured config ls
      → IsConfigured config (run redis config es (ls, s)).0
  unfolding run middleware
  run-IsConfigured config [] ls s h = h
  run-IsConfigured config ((q, now) ∷ es) ls s h =
      run-IsConfigured config es _ _ (get_limiter-IsConfigured config (endpoint_of q) ls h).1

  -- After any requests, the limiter that an endpoint gets is that of its own configuration, or of the
  -- default one where it has none, whatever was asked for before.
  pub run-get_limiter :
      (config : Config) (es : List (Request × ℕ)) (s : S) (endpoint : Text)
      → (get_limiter config endpoint (run redis config es ([], s)).0).0
        ≡ new_limiter config endpoint
  run-get_limiter config es s endpoint =
      (get_limiter-IsConfigured config endpoint (run redis config es ([], s)).0
        (run-IsConfigured config es [] s tt)).0

  check_limit-value :
      (o : Options) (id : Text) (now : ℕ) (s t : S) (n : ℕ)
      → redis.incr (current_key o id now) s ≡ some (n, t)
      → redis.value (current_key o id now) (check_limit redis o id now s).1
        ≡ suc (redis.value (current_key o id now) s)
  unfolding check_limit
  check_limit-value o id now s t n e =
      let k = current_key o id now in
      let stored = redis.incr_stores k s n t e ∙ redis.incr_adds k s n t e in
      elim (Bool-cases (n == 1)) [
        | inl first ↦ elim (Option-cases (redis.expire k o.window_seconds t)) [
          | inl x ↦ rw (e, first, x) stored
          | inr (t', x) ↦ rw (e, first, x) (redis.expire_keeps k o.window_seconds t t' x ∙ stored)
        ]
        | inr later ↦ rw (e, later) stored
      ]

  same_key :
      (o o' : Options) (id : Text) (now now' : ℕ)
      → o.key_prefix ≡ o'.key_prefix
      → o.window_seconds ≡ o'.window_seconds
      → now / window_ms o ≡ now' / window_ms o'
      → current_key o id now ≡ current_key o' id now'
  unfolding current_key
  same_key o o' id now now' p w h =
      ap (λ i. o.key_prefix ++ (id ++ (codes ":" ++ natural_text i))) h
      ∙ ap (λ k. k ++ (id ++ (codes ":" ++ natural_text (now' / window_ms o')))) p

  -- A counted request to one endpoint adds one to the counter of every other endpoint whose limiter
  -- has the same prefix and the same window, for the same user or address and the same window, where
  -- the kept limiters are those of the configuration.
  pub middleware-shared :
      (config : Config) (q q' : Request) (now now' : ℕ) (ls : Limiters) (s t : S) (n : ℕ)
      → IsConfigured config ls
      → (new_limiter config (endpoint_of q)).key_prefix
        ≡ (new_limiter config (endpoint_of q')).key_prefix
      → (new_limiter config (endpoint_of q)).window_seconds
        ≡ (new_limiter config (endpoint_of q')).window_seconds
      → now / window_ms (new_limiter config (endpoint_of q))
        ≡ now' / window_ms (new_limiter config (endpoint_of q'))
      → redis.incr (request_key config q q now) s ≡ some (n, t)
      → redis.value (request_key config q q' now') (middleware redis config q now (ls, s)).1.1
        ≡ suc (redis.value (request_key config q q' now') s)
  unfolding middleware
  middleware-shared config q q' now now' ls s t n h p w same e =
      let o = new_limiter config (endpoint_of q) in
      let o' = new_limiter config (endpoint_of q') in
      let id = get_identifier q.user_id q.ip in
      rw
        (
          (get_limiter-IsConfigured config (endpoint_of q) ls h).0,
          ← same_key o o' id now now' p w same,
        )
        (check_limit-value o id now s t n e)
