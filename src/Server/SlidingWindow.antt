-- ===== src/Server/SlidingWindow.antt =====
-- The limiter of server/src/middleware/logging.js: `createRateLimitMiddleware`, over its map from
-- addresses to the instants of the requests that it let pass. Instants are milliseconds.
pub mod Trailing
use bsg.Prelude.{
  ℕ, suc, ◌+◌, Bool, true, false, Option, none, some, List, [], ◌∷◌, ◌++◌, if◌then◌else◌, Text,
  text_eq, or_else, length, ltb, leb,
}

abbrev pub ClientRequests : Type 0
ClientRequests = Text → Option (List ℕ)

abbrev pub put : Text → Option (List ℕ) → ClientRequests → ClientRequests
put ip times m = λ k. if text_eq ip k then times else m k

-- times.filter(time => now - time < timeWindow)
abbrev pub active : ℕ → ℕ → List ℕ → List ℕ
active window now [] = []
active window now (time ∷ times) =
    if ltb now (time + window) then time ∷ active window now times else active window now times

abbrev pub kept : List ℕ → Option (List ℕ)
kept [] = none
kept (t ∷ ts) = some (t ∷ ts)

abbrev pub swept : ℕ → ℕ → Option (List ℕ) → Option (List ℕ)
swept window now none = none
swept window now (some times) = kept (active window now times)

-- The callback of `setInterval`.
unfoldable pub sweep : ℕ → ℕ → ClientRequests → ClientRequests
sweep window now m = λ ip. swept window now (m ip)

-- The middleware: whether the request passes, and the map behind it.
unfoldable pub middleware : ℕ → ℕ → Text → ℕ → ClientRequests → Bool × ClientRequests
middleware limit window ip now m =
    let valid = active window now (or_else (m ip) []) in
    if leb limit (length valid)
    then (false, put ip (some valid) m)
    else (true, put ip (some (valid ++ now ∷ [])) m)

pub data Event : Type 0 where
  request : Text → ℕ → Event
  interval : ℕ → Event

-- The limiter's map, and the instants of all requests that it let pass, by their addresses.
abbrev pub History : Type 0
History = ClientRequests × (Text → List ℕ)

abbrev pub note_passed : Text → ℕ → Bool × ClientRequests → (Text → List ℕ) → History
note_passed ip now (true, m) log = (m, λ k. if text_eq ip k then log k ++ now ∷ [] else log k)
note_passed ip now (false, m) log = (m, log)

unfoldable pub step : ℕ → ℕ → Event → History → History
unfolding middleware sweep
step limit window (request ip now) (m, log) =
    note_passed ip now (middleware limit window ip now m) log
step limit window (interval now) (m, log) = (sweep window now m, log)

unfoldable pub run : ℕ → ℕ → List Event → History → History
run limit window [] h = h
run limit window (e ∷ es) h = run limit window es (step limit window e h)

abbrev pub no_requests : History
no_requests = (λ ip. none, λ ip. [])
