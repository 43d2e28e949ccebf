-- ===== src/Requests/Retries.antt =====
-- How the retries end: the loops of bsg-frontend/apps/extension/hooks/useRoomChoice.ts and others.
use bsg.Prelude.{ℕ, zero, suc, ◌≤◌, true, false, some, ◌≡◌, ◌⊎◌, inl, inr, refl, arith, Bool-cases}
use bsg.Requests.{Reply, is_busy, fetch_with_retry}

abbrev pub BusyBefore : (ℕ → Reply) → ℕ → Type 0
BusyBefore replies zero = Unit
BusyBefore replies (suc n) = BusyBefore replies n × (is_busy (replies n) ≡ true)

-- The loop ends at attempt `n`: all before it were answered 429, and it is not, unless it is the
-- fourth.
pub record SettlesAt (replies : ℕ → Reply) (n : ℕ) : Type 0 where
  pub waited : ℕ
  pub runs :
      fetch_with_retry replies
      ≡ some (record { reply = replies n; requests = suc n; waited = waited })
  pub at_most : (n ≤ 3) × (waited ≤ 7000)
  pub busy : BusyBefore replies n
  pub last : (is_busy (replies n) ≡ false) ⊎ (n ≡ 3)

-- Whatever the server answers, the loop ends within four requests and seven seconds of waiting: at
-- the first reply that is not a 429, or at the fourth.
pub fetch_with_retry_total : (replies : ℕ → Reply) → (n : ℕ) × SettlesAt replies n
unfolding fetch_with_retry
fetch_with_retry_total replies = elim (Bool-cases (is_busy (replies 0))) [
  | inr q ↦ (0, record { waited = 0; runs = rw q; at_most = omega arith; busy = tt; last = inl q })
  | inl a ↦ elim (Bool-cases (is_busy (replies 1))) [
    | inr q ↦ (
      1,
      record {
        waited = 1000;
        runs = rw (a, q);
        at_most = omega arith;
        busy = (tt, a);
        last = inl q;
      },
    )
    | inl b ↦ elim (Bool-cases (is_busy (replies 2))) [
      | inr q ↦ (
        2,
        record {
          waited = 3000;
          runs = rw (a, b, q);
          at_most = omega arith;
          busy = ((tt, a), b);
          last = inl q;
        },
      )
      | inl c ↦ (
        3,
        record {
          waited = 7000;
          runs = elim (Bool-cases (is_busy (replies 3))) [
            | inl d ↦ rw (a, b, c, d)
            | inr d ↦ rw (a, b, c, d)
          ];
          at_most = omega arith;
          busy = (((tt, a), b), c);
          last = inr refl;
        },
      )
    ]
  ]
]
