-- ===== src/Server/Logging/Unmixed.antt =====
-- Which request a logged line is about: server/src/middleware/logging.js.
use bsg.Prelude.{
  ℕ, zero, suc, ◌+◌, if◌then◌else◌, is_some, Option, none, some, List, [], ◌∷◌, ◌++◌, ◌≡◌, refl,
  sym, ◌∙◌, ap, Text, All, Bool-cases, Option-cases, ◌⊎◌, inl, inr, arith, get_elem?, length,
  length-append, subst, leb,
}
use bsg.Prelude.Int.{ℤ}
use mathlib.Core.List.{append_assoc, append-nil}
use bsg.Server.Logging.{
  LoggedRequest, message_of, LogEntry, Exchange, Logger, new_logger, arrive, warn_status, log_json,
  with_status, LogEvent, arrives, sets_status, sends_json, logs_elsewhere, log_elsewhere, step, run,
}

-- The requests of a course of events, in their order.
abbrev pub arrivals : List LogEvent → List LoggedRequest
arrivals [] = []
arrivals (arrives q now ∷ es) = q ∷ arrivals es
arrivals (sets_status i path code ∷ es) = arrivals es
arrivals (sends_json i path user_id now ∷ es) = arrivals es
arrivals (logs_elsewhere level message path ∷ es) = arrivals es

-- The request with an id, where ids count from 1.
abbrev pub request_with : ℕ → List LoggedRequest → Option LoggedRequest
request_with zero qs = none
request_with (suc i) qs = get_elem? qs i

-- A line has no id, or its message has the method of the request with its id, and the line's path.
abbrev pub IsAbout : List LoggedRequest → LogEntry → Type 0
IsAbout qs l =
    (l.metadata.request_id ≡ none)
    ⊎ ((id : ℕ) × (q : LoggedRequest) × (path : Text) × (l.metadata.request_id ≡ some id)
        × (request_with id qs ≡ some q)
        × (l.metadata.path ≡ some path)
        × (l.message ≡ message_of q path))

abbrev IsOpen : List LoggedRequest → Exchange → Type 0
IsOpen qs x = request_with x.request_id qs ≡ some x.request

record IsLogged (qs : List LoggedRequest) (s : Logger) : Type 0 where
  counted : s.request_counter ≡ length qs
  open_ones : All (IsOpen qs) s.exchanges
  logged : All (IsAbout qs) s.lines

get_elem?-append :
    (qs : List LoggedRequest) (r q : LoggedRequest) (i : ℕ)
    → get_elem? qs i ≡ some q
    → get_elem? (qs ++ r ∷ []) i ≡ some q
get_elem?-append [] r q i h = absurd cc
get_elem?-append (p ∷ qs) r q zero h = h
get_elem?-append (p ∷ qs) r q (suc i) h = get_elem?-append qs r q i h

get_elem?-length :
    (qs : List LoggedRequest) (r : LoggedRequest) → get_elem? (qs ++ r ∷ []) (length qs) ≡ some r
get_elem?-length [] r = refl
get_elem?-length (p ∷ qs) r = get_elem?-length qs r

request_with-append :
    (qs : List LoggedRequest) (r q : LoggedRequest) (id : ℕ)
    → request_with id qs ≡ some q
    → request_with id (qs ++ r ∷ []) ≡ some q
request_with-append qs r q zero h = absurd cc
request_with-append qs r q (suc i) h = get_elem?-append qs r q i h

IsOpen-append :
    (qs : List LoggedRequest) (r : LoggedRequest) (xs : List Exchange)
    → All (IsOpen qs) xs
    → All (IsOpen (qs ++ r ∷ [])) xs
IsOpen-append qs r [] h = tt
IsOpen-append qs r (x ∷ xs) (p, h) =
    (request_with-append qs r x.request x.request_id p, IsOpen-append qs r xs h)

IsAbout-append :
    (qs : List LoggedRequest) (r : LoggedRequest) (ls : List LogEntry)
    → All (IsAbout qs) ls
    → All (IsAbout (qs ++ r ∷ [])) ls
IsAbout-append qs r [] h = tt
IsAbout-append qs r (l ∷ ls) (inl e, h) = (inl e, IsAbout-append qs r ls h)
IsAbout-append qs r (l ∷ ls) (inr (id, q, path, k, e, p, m), h) =
    (inr (id, q, path, k, request_with-append qs r q id e, p, m), IsAbout-append qs r ls h)

IsOpen-with_status :
    (qs : List LoggedRequest) (i code : ℕ) (xs : List Exchange)
    → All (IsOpen qs) xs
    → All (IsOpen qs) (with_status i code xs)
IsOpen-with_status qs i code [] h = tt
IsOpen-with_status qs zero code (x ∷ xs) (p, h) = (p, h)
IsOpen-with_status qs (suc i) code (x ∷ xs) (p, h) = (p, IsOpen-with_status qs i code xs h)

IsOpen-get_elem? :
    (qs : List LoggedRequest) (xs : List Exchange) (i : ℕ) (x : Exchange)
    → All (IsOpen qs) xs
    → get_elem? xs i ≡ some x
    → IsOpen qs x
IsOpen-get_elem? qs [] i x h e = absurd cc
IsOpen-get_elem? qs (y ∷ ys) zero x (p, h) e = let same : y ≡ x = cc in subst (IsOpen qs) same p
IsOpen-get_elem? qs (y ∷ ys) (suc i) x (p, h) e = IsOpen-get_elem? qs ys i x h e

warn_status-IsLogged :
    (qs : List LoggedRequest) (path : Text) (code : ℕ) (x : Exchange) (s : Logger)
    → IsOpen qs x
    → IsLogged qs s
    → IsLogged qs (warn_status path code x s)
warn_status-IsLogged qs path code x s o h = elim (Bool-cases (leb 400 code)) [
  | inl e ↦ rw e record {
    counted = h.counted;
    open_ones = h.open_ones;
    logged = (inr (x.request_id, x.request, path, refl, o, refl, refl), h.logged);
  }
  | inr e ↦ rw e h
]

log_json-IsLogged :
    (qs : List LoggedRequest) (path : Text) (user_id : Option Text) (now : ℤ) (x : Exchange)
    (s : Logger)
    → IsOpen qs x
    → IsLogged qs s
    → IsLogged qs (log_json path user_id now x s)
log_json-IsLogged qs path user_id now x s o h = record {
  counted = h.counted;
  open_ones = h.open_ones;
  logged = (inr (x.request_id, x.request, path, refl, o, refl, refl), h.logged);
}

arrive-IsLogged :
    (qs : List LoggedRequest) (q : LoggedRequest) (now : ℤ) (s : Logger)
    → IsLogged qs s
    → IsLogged (qs ++ q ∷ []) (arrive q now s)
unfolding arrive
arrive-IsLogged qs q now s h = record {
  counted = ap suc h.counted ∙ sym (length-append qs (q ∷ []) ∙ omega arith);
  open_ones = (rw h.counted (get_elem?-length qs q), IsOpen-append qs q s.exchanges h.open_ones);
  logged = IsAbout-append qs q s.lines h.logged;
}

set_status-IsLogged :
    (qs : List LoggedRequest) (i : ℕ) (path : Text) (code : ℕ) (s : Logger)
    → IsLogged qs s
    → IsLogged qs (step (sets_status i path code) s)
unfolding step
set_status-IsLogged qs i path code s h =
    let t = record s { exchanges = with_status i code s.exchanges } in
    let k : IsLogged qs t = record {
      counted = h.counted;
      open_ones = IsOpen-with_status qs i code s.exchanges h.open_ones;
      logged = h.logged;
    } in
    elim (Option-cases (get_elem? s.exchanges i)) [
      | inl e ↦ rw e k
      | inr (x, e) ↦ rw e (
          warn_status-IsLogged qs path code x t (IsOpen-get_elem? qs s.exchanges i x h.open_ones e)
            k)
    ]

send_json-IsLogged :
    (qs : List LoggedRequest) (i : ℕ) (path : Text) (user_id : Option Text) (now : ℤ) (s : Logger)
    → IsLogged qs s
    → IsLogged qs (step (sends_json i path user_id now) s)
unfolding step
send_json-IsLogged qs i path user_id now s h = elim (Option-cases (get_elem? s.exchanges i)) [
  | inl e ↦ rw e h
  | inr (x, e) ↦ rw e (
      log_json-IsLogged qs path user_id now x s (IsOpen-get_elem? qs s.exchanges i x h.open_ones e)
        h)
]

run_from :
    (qs : List LoggedRequest) (es : List LogEvent) (s : Logger)
    → IsLogged qs s
    → IsLogged (qs ++ arrivals es) (run es s)
unfolding run step
run_from qs [] s h = rw (append-nil qs) h
run_from qs (arrives q now ∷ es) s h =
    rw (← append_assoc qs (q ∷ []) (arrivals es))
      (run_from (qs ++ q ∷ []) es (arrive q now s) (arrive-IsLogged qs q now s h))
run_from qs (sets_status i path code ∷ es) s h =
    run_from qs es (step (sets_status i path code) s) (set_status-IsLogged qs i path code s h)
run_from qs (logs_elsewhere level message path ∷ es) s h =
    run_from qs es (log_elsewhere level message path s)
      record { counted = h.counted; open_ones = h.open_ones; logged = (inl refl, h.logged) }
run_from qs (sends_json i path user_id now ∷ es) s h =
    run_from qs es (step (sends_json i path user_id now) s)
      (send_json-IsLogged qs i path user_id now s h)

-- How many lines have no id, and how many the other code logs.
abbrev pub without_id : List LogEntry → ℕ
without_id [] = 0
without_id (l ∷ ls) = if is_some l.metadata.request_id then without_id ls else suc (without_id ls)

abbrev pub said_elsewhere : List LogEvent → ℕ
said_elsewhere [] = 0
said_elsewhere (logs_elsewhere level message path ∷ es) = suc (said_elsewhere es)
said_elsewhere (e ∷ es) = said_elsewhere es

set_status-without_id :
    (i : ℕ) (path : Text) (code : ℕ) (s : Logger)
    → without_id (step (sets_status i path code) s).lines ≡ without_id s.lines
unfolding step
set_status-without_id i path code s = elim (Option-cases (get_elem? s.exchanges i)) [
  | inl e ↦ rw e refl
  | inr (x, e) ↦ elim (Bool-cases (leb 400 code)) [
    | inl c ↦ rw (e, c) refl
    | inr c ↦ rw (e, c) refl
  ]
]

send_json-without_id :
    (i : ℕ) (path : Text) (user_id : Option Text) (now : ℤ) (s : Logger)
    → without_id (step (sends_json i path user_id now) s).lines ≡ without_id s.lines
unfolding step
send_json-without_id i path user_id now s = elim (Option-cases (get_elem? s.exchanges i)) [
  | inl e ↦ rw e refl
  | inr (x, e) ↦ rw e refl
]

run-without_id :
    (es : List LogEvent) (s : Logger)
    → without_id (run es s).lines ≡ said_elsewhere es + without_id s.lines
unfolding run step arrive
run-without_id [] s = omega arith
run-without_id (arrives q now ∷ es) s = run-without_id es (arrive q now s)
run-without_id (sets_status i path code ∷ es) s =
    run-without_id es (step (sets_status i path code) s)
    ∙ ap (λ n. said_elsewhere es + n) (set_status-without_id i path code s)
run-without_id (sends_json i path user_id now ∷ es) s =
    run-without_id es (step (sends_json i path user_id now) s)
    ∙ ap (λ n. said_elsewhere es + n) (send_json-without_id i path user_id now s)
run-without_id (logs_elsewhere level message path ∷ es) s =
    run-without_id es (log_elsewhere level message path s) ∙ omega arith

-- However requests and responses interleave, the message of every line of the log that has an id is
-- the method of the request whose place among all requests is that id, and the line's path; and the
-- lines without an id are as many as the check of requests and the limiters logged.
pub run-IsAbout :
    (service : Text) (es : List LogEvent)
    → All (IsAbout (arrivals es)) (run es (new_logger service)).lines
      × (without_id (run es (new_logger service)).lines ≡ said_elsewhere es)
unfolding new_logger
run-IsAbout service es = (
  (run_from [] es (new_logger service)
      record { counted = refl; open_ones = tt; logged = tt }).logged,
  run-without_id es (new_logger service) ∙ omega arith,
)
