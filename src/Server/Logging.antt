-- ===== src/Server/Logging.antt =====
-- The structured log of the server, and its check of what is posted:
-- server/src/middleware/logging.js `StructuredLogger`, `createStructuredLoggingMiddleware` and
-- `createValidationMiddleware`. Of a line's fields those are kept that tell what was logged.
pub mod Unmixed
use bsg.Prelude.{
  ℕ, zero, suc, ◌+◌, Bool, true, false, ◌&&◌, ◌||◌, not, Option, none, some, List, [], ◌∷◌, ◌++◌,
  if◌then◌else◌, Text, codes, text_eq, nonempty, includes, leb, ltb, get_elem?,
}
use bsg.Prelude.Int.{ℤ, pos, ltb_ℤ, ◌-ℤ◌}

pub data LogLevel : Type 0 where
  debug info warn error : LogLevel

-- What is read of a request and stays the same. Its path is that within the router that runs.
pub record LoggedRequest : Type 0 where
  pub method : Text
  pub ip : Text

-- The metadata of a call; `none` is a field that it leaves out, or null.
pub record Metadata : Type 0 where
  pub request_id : Option ℕ
  pub path : Option Text
  pub status_code : Option ℕ
  pub method : Option Text
  pub duration_ms : Option ℤ
  pub user_id : Option Text
  pub ip : Option Text

pub record LogEntry : Type 0 where
  pub level : LogLevel
  pub service : Text
  pub message : Text
  pub metadata : Metadata

-- What the wrapped functions of one response share.
pub record Exchange : Type 0 where
  pub request : LoggedRequest
  pub request_id : ℕ
  pub start_time : ℤ
  pub status_code : ℕ

pub record Logger : Type 0 where
  pub service : Text
  pub request_counter : ℕ
  -- the responses that may still be written, the youngest first
  pub exchanges : List Exchange
  -- the console, the last line first
  pub lines : List LogEntry

unfoldable pub new_logger : Text → Logger
new_logger service = record { service = service; request_counter = 0; exchanges = []; lines = [] }

abbrev pub log : LogLevel → Text → Metadata → Logger → Logger
log level message metadata s = record s {
  lines =
      record { level = level; service = s.service; message = message; metadata = metadata }
      ∷ s.lines;
}

-- `${req.method} ${req.path}`
abbrev pub message_of : LoggedRequest → Text → Text
message_of q path = q.method ++ (b' ' ∷ path)

-- The middleware at a request, which sets the status that Express starts with.
unfoldable pub arrive : LoggedRequest → ℤ → Logger → Logger
arrive q now s = record s {
  request_counter = suc s.request_counter;
  exchanges =
      record {
        request = q;
        request_id = suc s.request_counter;
        start_time = now;
        status_code = 200;
      }
      ∷ s.exchanges;
}

-- The wrapped res.status, at one exchange, where the request has a path.
abbrev pub warn_status : Text → ℕ → Exchange → Logger → Logger
warn_status path code x s =
    if leb 400 code
    then log warn (message_of x.request path)
        record {
          request_id = some x.request_id;
          path = some path;
          status_code = some code;
          method = none;
          duration_ms = none;
          user_id = none;
          ip = none;
        }
        s
    else s

-- The wrapped res.json, at one exchange; the user is the one signed in by then.
abbrev pub log_json : Text → Option Text → ℤ → Exchange → Logger → Logger
log_json path user_id now x s =
    log info (message_of x.request path)
      record {
        request_id = some x.request_id;
        path = some path;
        status_code = some x.status_code;
        method = some x.request.method;
        duration_ms = some (now -ℤ x.start_time);
        user_id = user_id;
        ip = some x.request.ip;
      }
      s

-- A line of the other code that has the logger: the check below and the limiters warn of a request
-- without its id.
abbrev pub log_elsewhere : LogLevel → Text → Option Text → Logger → Logger
log_elsewhere level message path s =
    log level message
      record {
        request_id = none;
        path = path;
        status_code = none;
        method = none;
        duration_ms = none;
        user_id = none;
        ip = none;
      }
      s

abbrev pub with_status : ℕ → ℕ → List Exchange → List Exchange
with_status i code [] = []
with_status zero code (x ∷ xs) = record x { status_code = code } ∷ xs
with_status (suc i) code (x ∷ xs) = x ∷ with_status i code xs

abbrev pub at_exchange : Option Exchange → (Exchange → Logger → Logger) → Logger → Logger
at_exchange none f s = s
at_exchange (some x) f s = f x s

pub data LogEvent : Type 0 where
  arrives : LoggedRequest → ℤ → LogEvent
  -- At a place among the exchanges, with the path.
  sets_status : ℕ → Text → ℕ → LogEvent
  sends_json : ℕ → Text → Option Text → ℤ → LogEvent
  logs_elsewhere : LogLevel → Text → Option Text → LogEvent

unfoldable pub step : LogEvent → Logger → Logger
unfolding arrive
step (arrives q now) s = arrive q now s
step (sets_status i path code) s =
    at_exchange (get_elem? s.exchanges i) (warn_status path code)
      record s { exchanges = with_status i code s.exchanges }
step (sends_json i path user_id now) s =
    at_exchange (get_elem? s.exchanges i) (log_json path user_id now) s
step (logs_elsewhere level message path) s = log_elsewhere level message path s

unfoldable pub run : List LogEvent → Logger → Logger
unfolding step
run [] s = s
run (e ∷ es) s = run es (step e s)

-- createValidationMiddleware: what is read of a request, where `content_length` is the number that
-- the header reads as, and `has_body` whether the parser in front of it left a body.
pub record PostedRequest : Type 0 where
  pub method : Text
  pub content_type : Option Text
  pub content_length : Option ℤ
  pub has_body : Bool

abbrev pub has_length : Option ℤ → Bool
has_length none = false
has_length (some n) = ltb_ℤ (pos 0) n

abbrev pub is_json_type : Option Text → Bool
is_json_type none = false
is_json_type (some t) = includes (codes "application/json") t

-- Whether the request goes on; else it is answered with 400.
unfoldable pub validates : PostedRequest → Bool
validates q =
    if text_eq q.method (codes "POST") || text_eq q.method (codes "PUT")
    then (if has_length q.content_length || q.has_body then is_json_type q.content_type else true)
    else true

abbrev pub max_size : ℕ
max_size = 1_048_576

-- The listener of `data`: the size so far, and how often 413 was answered.
unfoldable pub on_data : ℕ → ℕ × ℕ → ℕ × ℕ
on_data chunk (size, refusals) =
    if ltb max_size (size + chunk) then (size + chunk, suc refusals) else (size + chunk, refusals)
