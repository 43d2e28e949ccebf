-- ===== src/Server/FixedWindow.antt =====
-- The limiter of server/src/middleware/rate-limit.js: `RateLimiter`, and the two functions that make
-- its middleware. Redis is a parameter: a command that is rejected leaves its state alone.
pub mod Budget
use bsg.Prelude.{
  ℕ, zero, suc, ◌≤◌, ◌≡◌, pick, ◌+◌, ◌-◌, ◌*◌, ◌/◌, Bool, true, false, ◌&&◌, ◌||◌, not, Option,
  none, some, List, [], ◌∷◌, ◌++◌, ◌==◌, if◌then◌else◌, Text, codes, or_else, leb,
}
use bsg.Prelude.Decimal.{natural_text}

-- The commands that the limiter sends, and what it relies on for the counter under a key: INCR adds
-- one and answers the sum, EXPIRE leaves the counter there for the seconds that it is given, which
-- are those of a whole window, and DECR takes off one at most.
pub record Redis (S : Type 0) : Type 0 where
  pub incr : Text → S → Option (ℕ × S)
  pub expire : Text → ℕ → S → Option S
  pub decr : Text → S → S
  pub del : Text → S → S
  pub get : Text → S → Option ℕ
  pub value : Text → S → ℕ
  pub incr_adds : (k : Text) (s : S) (n : ℕ) (t : S) → incr k s ≡ some (n, t) → n ≡ suc (value k s)
  pub incr_stores : (k : Text) (s : S) (n : ℕ) (t : S) → incr k s ≡ some (n, t) → value k t ≡ n
  pub expire_keeps :
      (k : Text) (seconds : ℕ) (s t : S) → expire k seconds s ≡ some t → value k t ≡ value k s
  pub decr_takes : (k : Text) (s : S) → value k s ≤ suc (value k (decr k s))

-- The constructor's options, where 0 and the empty text are falsy.
pub record Options : Type 0 where
  pub window_seconds : ℕ
  pub burst_size : ℕ
  pub key_prefix : Text
  pub skip_successful_requests : Bool
  pub skip_failed_requests : Bool

-- The fields of the object that a caller hands over; `none` is undefined.
pub record GivenOptions : Type 0 where
  pub window_seconds : Option ℕ
  pub burst_size : Option ℕ
  pub key_prefix : Option Text
  pub skip_successful_requests : Option Bool
  pub skip_failed_requests : Option Bool

-- n || default
abbrev number_or : Option ℕ → ℕ → ℕ
number_or none d = d
number_or (some zero) d = d
number_or (some (suc n)) d = suc n

abbrev key_or : Option Text → Text → Text
key_or none d = d
key_or (some []) d = d
key_or (some (c ∷ s)) d = c ∷ s

-- new RateLimiter(redisClient, options)
unfoldable pub rate_limiter : GivenOptions → Options
rate_limiter o = record {
  window_seconds = number_or o.window_seconds 1;
  burst_size = number_or o.burst_size 20;
  key_prefix = key_or o.key_prefix (codes "ratelimit:");
  skip_successful_requests = or_else o.skip_successful_requests false;
  skip_failed_requests = or_else o.skip_failed_requests false;
}

-- createRateLimitMiddleware: the options of its limiter.
unfoldable pub middleware_options : GivenOptions → Options
unfolding rate_limiter
middleware_options o = rate_limiter record {
  window_seconds = some (number_or o.window_seconds 1);
  burst_size = some (number_or o.burst_size 100);
  key_prefix = some (key_or o.key_prefix (codes "ratelimit:"));
  skip_successful_requests = some (or_else o.skip_successful_requests false);
  skip_failed_requests = some (or_else o.skip_failed_requests true);
}

-- getIdentifier: the user's id, where there is a user, or the address.
unfoldable pub get_identifier : Option Text → Text → Text
get_identifier (some id) ip = codes "user:" ++ id
get_identifier none ip = codes "ip:" ++ ip

pub record Counted : Type 0 where
  pub allowed : Bool
  pub current : ℕ
  pub key : Text
  pub limit : ℕ
  pub remaining : ℕ
  pub reset_at : ℕ

-- What `checkLimit` returns: `failed` is `{ allowed: true, error: true }`.
pub data Result : Type 0 where
  counted : Counted → Result
  failed : Result

abbrev pub window_ms : Options → ℕ
window_ms o = o.window_seconds * 1000

unfoldable pub current_key : Options → Text → ℕ → Text
current_key o identifier now =
    o.key_prefix ++ (identifier ++ (codes ":" ++ natural_text (now / window_ms o)))

module _ {S : Type 0} (redis : Redis S) (o : Options) where
  abbrev pub result_of : ℕ → Text → ℕ → Result
  result_of now key current = counted record {
    allowed = leb current o.burst_size;
    current = current;
    key = key;
    limit = o.burst_size;
    remaining = o.burst_size - current;
    reset_at = (now / window_ms o + 1) * window_ms o;
  }

  abbrev after_expire : Option S → S → Result → Result × S
  after_expire none s r = (failed, s)
  after_expire (some t) s r = (r, t)

  abbrev after_incr : ℕ → Text → Option (ℕ × S) → S → Result × S
  after_incr now key none s = (failed, s)
  after_incr now key (some (current, t)) s =
      if current == 1
      then after_expire (redis.expire key o.window_seconds t) t (result_of now key current)
      else (result_of now key current, t)

  unfoldable pub check_limit : Text → ℕ → S → Result × S
  unfolding current_key
  check_limit identifier now s =
      let key = current_key o identifier now in after_incr now key (redis.incr key s) s

  abbrev pub is_allowed : Result → Bool
  is_allowed failed = true
  is_allowed (counted c) = c.allowed

  -- Whether a response with this status gives its slot back.
  abbrev pub should_skip : ℕ → Bool
  should_skip status =
      (o.skip_successful_requests && not (leb 400 status))
      || (o.skip_failed_requests && leb 400 status)

  abbrev refund : Result → S → S
  refund failed s = s
  refund (counted c) s = redis.decr c.key s

  -- What the wrapped `res.json` of a request that passed does with the counter.
  unfoldable pub on_json : Result → ℕ → S → S
  on_json r status s = if should_skip status then refund r s else s

  unfoldable pub reset : Text → ℕ → S → S
  unfolding current_key
  reset identifier now s = redis.del (current_key o identifier now) s

  unfoldable pub get_count : Text → ℕ → S → ℕ
  unfolding current_key
  get_count identifier now s = or_else (redis.get (current_key o identifier now) s) 0

-- One identifier's requests in a window: those that were counted and passed and whose response has
-- not been sent, and how many were counted, passed and kept their slot.
pub record Usage (S : Type 0) : Type 0 where
  pub store : S
  pub pending : List Result
  pub kept : ℕ

pub data Event : Type 0 where
  arrives : ℕ → Event
  responds : ℕ → ℕ → Event

module _ {S : Type 0} (redis : Redis S) (o : Options) (identifier : Text) where
  abbrev pub arrived : Result × S → Usage S → Usage S
  arrived (failed, s) u = record u { store = s }
  arrived (counted c, s) u = record u {
    store = s;
    pending = if c.allowed then counted c ∷ u.pending else u.pending;
  }

  abbrev pub responded : ℕ → Option (Result × List Result) → Usage S → Usage S
  unfolding on_json
  responded status none u = u
  responded status (some (r, rs)) u = record {
    store = on_json redis o r status u.store;
    pending = rs;
    kept = if should_skip redis o status then u.kept else suc u.kept;
  }

  unfoldable pub step : Event → Usage S → Usage S
  unfolding check_limit
  step (arrives now) u = arrived (check_limit redis o identifier now u.store) u
  step (responds i status) u = responded status (pick i u.pending) u

  unfoldable pub run : List Event → Usage S → Usage S
  run [] u = u
  run (e ∷ es) u = run es (step e u)
