-- ===== src/Events/Timing.antt =====
-- When a round ends on the client's clock: the end time of `applyRoundData` in
-- bsg-frontend/apps/extension/hooks/useRoomEvents.ts.
use bsg.Prelude.{arith, ◌+◌, ◌*◌, true, false, ◌≡◌, ap, codes}
use bsg.Prelude.Int.{
  ℤ, pos, negsuc, ◌+ℤ◌, ◌-ℤ◌, ◌*ℤ◌, finite, num_add, int_laws, pos_part, neg_part,
}
use bsg.Prelude.Json.{Json, truthy, get_opt}
use bsg.Events.{end_time_of, is_round_data, number_field, duration_ms}

-- A payload of the new format, with whole numbers.
pub record IsRound (v : Json) (start duration : ℤ) : Type 0 where
  pub new_format : is_round_data v ≡ true
  pub starts : number_field v (codes "startTime") ≡ finite start
  pub lasts : number_field v (codes "duration") ≡ finite duration

-- It also says what the server's clock showed when it was sent.
pub record IsStamped (v : Json) (server : ℤ) : Type 0 where
  pub stamped : truthy (get_opt v (codes "serverNow")) ≡ true
  pub clock : number_field v (codes "serverNow") ≡ finite server

duration_in_ms :
    (v : Json) (start duration : ℤ)
    → IsRound v start duration
    → duration_ms v ≡ finite (duration *ℤ pos 60 *ℤ pos 1000)
duration_in_ms v start duration h = rw h.lasts

-- With the server's clock the end is counted from the client's own.
stamped_end :
    (now start duration server : ℤ) (v : Json)
    → IsRound v start duration
    → IsStamped v server
    → end_time_of now v
      ≡ finite (now +ℤ (start -ℤ server) *ℤ pos 1000 +ℤ duration *ℤ pos 60 *ℤ pos 1000)
unfolding end_time_of
stamped_end now start duration server v h k =
    rw (h.new_format, k.stamped, h.starts, k.clock, h.lasts)

-- Without it the end is fixed by the payload, whenever it is handled.
unstamped_end :
    (now start duration : ℤ) (v : Json)
    → IsRound v start duration
    → truthy (get_opt v (codes "serverNow")) ≡ false
    → end_time_of now v ≡ finite (start *ℤ pos 1000 +ℤ duration *ℤ pos 60 *ℤ pos 1000)
unfolding end_time_of
unstamped_end now start duration v h k = rw (h.new_format, k, h.starts, h.lasts)

-- 1000 times an integer, by its parts.
thousandfold_parts :
    (a : ℤ)
    → pos_part (a *ℤ pos 1000) + neg_part a * 1000 ≡ pos_part a * 1000 + neg_part (a *ℤ pos 1000)
unfolding ◌*ℤ◌
thousandfold_parts (pos n) = ground arith
thousandfold_parts (negsuc n) = ground arith

shift : (d a b c : ℤ) → b *ℤ pos 1000 +ℤ d +ℤ (a -ℤ b) *ℤ pos 1000 +ℤ c ≡ a *ℤ pos 1000 +ℤ c +ℤ d
shift d a b c = omega (int_laws, thousandfold_parts)

-- A payload with the server's clock, handled when the client's clock is `d` milliseconds ahead of
-- that of the payload, ends the round `d` later, by the client's clock, than a payload of the same
-- start and duration without the server's clock, which ends it, whenever it is handled, when the
-- duration in minutes has passed since the start in seconds. So a client whose clock is wrong by `d`
-- counts down the right time, and a payload that is handled again ends the round later.
pub end_time_of_clocks :
    (now d start duration server : ℤ) (stamped unstamped : Json)
    → IsRound stamped start duration
    → IsStamped stamped server
    → IsRound unstamped start duration
    → truthy (get_opt unstamped (codes "serverNow")) ≡ false
    → (end_time_of (server *ℤ pos 1000 +ℤ d) stamped
        ≡ num_add (end_time_of now unstamped) (finite d))
      × (end_time_of now unstamped ≡ finite (start *ℤ pos 1000 +ℤ duration *ℤ pos 60 *ℤ pos 1000))
end_time_of_clocks now d start duration server stamped unstamped h k g u =
    let plain = unstamped_end now start duration unstamped g u in
    (
      rw (stamped_end (server *ℤ pos 1000 +ℤ d) start duration server stamped h k, plain)
          (ap finite (shift d start server (duration *ℤ pos 60 *ℤ pos 1000))),
      plain,
    )
