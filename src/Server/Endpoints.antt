-- ===== src/Server/Endpoints.antt =====
-- The limiter that has a budget for each endpoint: server/src/middleware/rate-limit.js
-- `PerEndpointRateLimiter` and `createPerEndpointRateLimitMiddleware`.
pub mod Shared
use bsg.Prelude.{
  ℕ, Bool, true, false, Option, none, some, List, [], ◌∷◌, ◌++◌, if◌then◌else◌, Text, codes,
  text_eq, or_else,
}
use bsg.Server.FixedWindow.{
  Redis, Options, GivenOptions, rate_limiter, get_identifier, check_limit, Result, is_allowed,
}

-- The configuration by endpoint, in which `none` is a key that is there and undefined.
abbrev pub Config : Type 0
Config = List (Text × GivenOptions)

abbrev pub no_options : GivenOptions
no_options = record {
  window_seconds = none;
  burst_size = none;
  key_prefix = none;
  skip_successful_requests = none;
  skip_failed_requests = none;
}

abbrev pub entry {ℓ} : {A : Type ℓ} → Text → List (Text × A) → Option A
entry k [] = none
entry k ((j, v) ∷ m) = if text_eq j k then some v else entry k m

-- { default: { windowSeconds: 1, burstSize: 100 }, ...endpointConfig }
unfoldable pub endpoint_config : Config → Config
endpoint_config given =
    given
    ++ (codes "default", record no_options { window_seconds = some 1; burst_size = some 100 }) ∷ []

-- new RateLimiter(redisClient, this.config[endpoint] || this.config.default)
unfoldable pub new_limiter : Config → Text → Options
unfolding rate_limiter
new_limiter config endpoint =
    rate_limiter
      (or_else (entry endpoint config) (or_else (entry (codes "default") config) no_options))

-- this.limiters
abbrev pub Limiters : Type 0
Limiters = List (Text × Options)

abbrev pub or_new : Option Options → Config → Text → Limiters → Options × Limiters
or_new (some o) config endpoint ls = (o, ls)
or_new none config endpoint ls =
    (new_limiter config endpoint, (endpoint, new_limiter config endpoint) ∷ ls)

-- getLimiter: the limiter that was made for the endpoint, or a new one.
unfoldable pub get_limiter : Config → Text → Limiters → Options × Limiters
get_limiter config endpoint ls = or_new (entry endpoint ls) config endpoint ls

pub record Request : Type 0 where
  pub method : Text
  pub path : Text
  pub user_id : Option Text
  pub ip : Text

abbrev pub endpoint_of : Request → Text
endpoint_of q = q.method ++ (codes ":" ++ q.path)

module _ {S : Type 0} (redis : Redis S) (config : Config) where
  -- The middleware: whether the request is let pass.
  unfoldable pub middleware : Request → ℕ → Limiters × S → Bool × (Limiters × S)
  unfolding get_limiter check_limit get_identifier
  middleware q now (ls, s) =
      let (o, ls') = get_limiter config (endpoint_of q) ls in
      let (r, s') = check_limit redis o (get_identifier q.user_id q.ip) now s in
      (is_allowed redis o r, (ls', s'))

  unfoldable pub run : List (Request × ℕ) → Limiters × S → Limiters × S
  unfolding middleware
  run [] st = st
  run ((q, now) ∷ es) st = run es (middleware q now st).1
