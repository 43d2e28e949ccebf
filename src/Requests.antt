-- ===== src/Requests.antt =====
-- Requests that are repeated when the server answers 429: the loop that `loadTopics` and
-- `loadCompanies` of bsg-frontend/apps/extension/hooks/useRoomChoice.ts, `loadProblems` of
-- bsg-frontend/apps/extension/hooks/useProblemPicker.ts and `checkActiveRoom` of
-- bsg-frontend/apps/extension/hooks/useRoomInit.ts share. `replies n` is the reply to attempt `n`.
pub mod Retries
use bsg.Prelude.{
  ℕ, zero, suc, ◌+◌, ◌*◌, ◌^◌, Bool, true, false, ◌&&◌, Option, none, some, if◌then◌else◌, ltb, leb,
  ◌==◌, Text, codes, List, [], ◌∷◌,
}
use bsg.Prelude.Json.{Json, get_opt, or_json, elements, arr, nil}

-- A rejected `fetch`, or a status and what `Response.json` resolves to (`none`: it rejects).
pub data Reply : Type 0 where
  rejected : Reply
  replied : ℕ → Option Json → Reply

abbrev pub is_busy : Reply → Bool
is_busy rejected = false
is_busy (replied status body) = status == 429

-- response.ok
abbrev pub is_ok : ℕ → Bool
is_ok status = leb 200 status && ltb status 300

-- The reply that is acted on, the number of requests made and the milliseconds waited.
pub record Settled : Type 0 where
  pub reply : Reply
  pub requests : ℕ
  pub waited : ℕ

abbrev wait_more : ℕ → Option Settled → Option Settled
wait_more delay none = none
wait_more delay (some s) = some (record s { requests = s.requests + 1; waited = s.waited + delay })

-- `none` means that the fuel ran out.
fetch_from : (ℕ → Reply) → ℕ → ℕ → Option Settled
fetch_from replies zero attempt = none
fetch_from replies (suc fuel) attempt =
    let again = wait_more (1000 * 2 ^ attempt) (fetch_from replies fuel (attempt + 1)) in
    if is_busy (replies attempt) && ltb attempt 3
    then again
    else some (record { reply = replies attempt; requests = 1; waited = 0 })

unfoldable pub fetch_with_retry : (ℕ → Reply) → Option Settled
unfolding fetch_from
fetch_with_retry replies = fetch_from replies 4 0

-- The body of a reply that is ok.
abbrev pub ok_body : Reply → Option Json
ok_body rejected = none
ok_body (replied status body) = if is_ok status then body else none

-- payload?.data || []
abbrev pub data_items : Json → List Json
data_items payload = elements (or_json (get_opt payload (codes "data")) (arr nil))
