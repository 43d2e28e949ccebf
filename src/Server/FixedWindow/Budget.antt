-- ===== src/Server/FixedWindow/Budget.antt =====
-- How many requests pass in a window: server/src/middleware/rate-limit.js.
use bsg.Prelude.{
  ℕ, suc, ◌+◌, ◌≤◌, ◌≡◌, ◌∙◌, sym, subst, ap, refl, arith, ◌/◌, Option, none, some, List, [], ◌∷◌,
  ◌++◌, ◌==◌, ◌⊎◌, inl, inr, Text, codes, leb, leb→le, pick-cases, length, length-pick, All,
  All-pick, Bool-cases,
}
use bsg.Prelude.Decimal.{natural_text}
use bsg.Server.FixedWindow.{
  Redis, Options, Result, counted, failed, window_ms, current_key, result_of, check_limit,
  after_incr, after_expire, should_skip, on_json, Usage, Event, arrives, responds, arrived,
  responded, step, run,
}

-- All requests arrive in the window of an index.
abbrev pub InWindow : Options → ℕ → List Event → Type 0
InWindow o w [] = Unit
InWindow o w (arrives now ∷ es) = (now / window_ms o ≡ w) × InWindow o w es
InWindow o w (responds i status ∷ es) = InWindow o w es

module _ {S : Type 0} (redis : Redis S) (o : Options) (identifier : Text) (w : ℕ) where
  key : Text
  key = o.key_prefix ++ (identifier ++ (codes ":" ++ natural_text w))

  key_of_window : (now : ℕ) → now / window_ms o ≡ w → current_key o identifier now ≡ key
  unfolding key current_key
  key_of_window now h = ap (λ i. o.key_prefix ++ (identifier ++ (codes ":" ++ natural_text i))) h

  IsKeyed : Result → Type 0
  IsKeyed failed = ⊥
  IsKeyed (counted c) = c.key ≡ key

  record Within (u : Usage S) : Type 0 where
    keyed : All IsKeyed u.pending
    counts : length u.pending + u.kept ≤ redis.value key u.store
    fits : length u.pending + u.kept ≤ o.burst_size

  -- A check either fails, and loses no count, or counts the request.
  Checked : ℕ → Text → S → Result × S → Type 0
  Checked now k s r =
      ((t : S) × (r ≡ (failed, t)) × (redis.value k s ≤ redis.value k t))
      ⊎ ((t : S) × (r ≡ (result_of redis o now k (suc (redis.value k s)), t))
          × (redis.value k t ≡ suc (redis.value k s)))

  after_expire-Checked :
      (now : ℕ) (k : Text) (s t : S) (n : ℕ) (x : Option S)
      → redis.expire k o.window_seconds t ≡ x
      → n ≡ suc (redis.value k s)
      → redis.value k t ≡ n
      → Checked now k s (after_expire redis o x t (result_of redis o now k n))
  unfolding Checked
  after_expire-Checked now k s t n none q a b = inl (t, refl, omega arith)
  after_expire-Checked now k s t n (some t') q a b = inr (
    t',
    ap (λ m. (result_of redis o now k m, t')) a,
    redis.expire_keeps k o.window_seconds t t' q ∙ b ∙ a,
  )

  after_incr-Checked :
      (now : ℕ) (k : Text) (s : S) (r : Option (ℕ × S))
      → redis.incr k s ≡ r
      → Checked now k s (after_incr redis o now k r s)
  unfolding Checked
  after_incr-Checked now k s none q = inl (s, refl, omega arith)
  after_incr-Checked now k s (some (n, t)) q =
      let a = redis.incr_adds k s n t q in
      let b = redis.incr_stores k s n t q in
      elim (Bool-cases (n == 1)) [
        | inl first ↦
            rw first (after_expire-Checked now k s t n (redis.expire k o.window_seconds t) refl a b)
        | inr later ↦ rw later (inr (t, ap (λ m. (result_of redis o now k m, t)) a, b ∙ a))
      ]

  check_limit-Checked :
      (now : ℕ) (s : S) (k : Text)
      → current_key o identifier now ≡ k
      → Checked now k s (check_limit redis o identifier now s)
  unfolding check_limit
  check_limit-Checked now s k e =
      subst (λ k. Checked now k s (check_limit redis o identifier now s)) e
        (after_incr-Checked now (current_key o identifier now) s _ refl)

  arrived-Within :
      (now : ℕ) (u : Usage S) (r : Result × S)
      → Within u
      → Checked now key u.store r
      → Within (arrived redis o identifier r u)
  unfolding Checked IsKeyed
  arrived-Within now u r i (inl (t, e, le)) =
      rw e record { keyed = i.keyed; counts = omega (arith, i.counts); fits = i.fits }
  arrived-Within now u r i (inr (t, e, more)) =
      elim (Bool-cases (leb (suc (redis.value key u.store)) o.burst_size)) [
        | inl room ↦
            rw (e, room)
              record {
                keyed = (refl, i.keyed);
                counts = omega (arith, i.counts, more);
                fits =
                    omega
                      (arith, i.counts, leb→le (suc (redis.value key u.store)) o.burst_size room);
              }
        | inr full ↦
            rw (e, full)
              record { keyed = i.keyed; counts = omega (arith, i.counts, more); fits = i.fits }
      ]

  responded-Within :
      (r : Result) (rs : List Result) (status : ℕ) (u : Usage S)
      → IsKeyed r × All IsKeyed rs
      → Within u
      → length u.pending ≡ suc (length rs)
      → Within (responded redis o identifier status (some (r, rs)) u)
  unfolding responded on_json IsKeyed
  responded-Within failed rs status u (k, ks) i len = absurd k
  responded-Within (counted c) rs status u (k, ks) i len =
      elim (Bool-cases (should_skip redis o status)) [
        | inl skip ↦ rw skip record {
          keyed = ks;
          counts =
              subst (λ k. length rs + u.kept ≤ redis.value key (redis.decr k u.store)) (sym k)
                (omega (arith, i.counts, len, redis.decr_takes key u.store));
          fits = omega (arith, i.fits, len);
        }
        | inr keep ↦ rw keep record {
          keyed = ks;
          counts = omega (arith, i.counts, len);
          fits = omega (arith, i.fits, len);
        }
      ]

  step-Within :
      (e : Event) (u : Usage S)
      → InWindow o w (e ∷ [])
      → Within u
      → Within (step redis o identifier e u)
  unfolding step responded
  step-Within (arrives now) u (h, _) i =
      arrived-Within now u (check_limit redis o identifier now u.store) i
        (check_limit-Checked now u.store key (key_of_window now h))
  step-Within (responds n status) u h i = elim (pick-cases n u.pending) [
    | inl e ↦ rw e i
    | inr (r, rs, e) ↦ rw e (
        responded-Within r rs status u (All-pick IsKeyed n u.pending r rs i.keyed e) i
          (length-pick n u.pending r rs e))
  ]

  run-Within :
      (es : List Event) (u : Usage S)
      → InWindow o w es
      → Within u
      → Within (run redis o identifier es u)
  unfolding run
  run-Within [] u h i = i
  run-Within (arrives now ∷ es) u (h, hs) i =
      run-Within es (step redis o identifier (arrives now) u) hs
        (step-Within (arrives now) u (h, tt) i)
  run-Within (responds n status ∷ es) u h i =
      run-Within es (step redis o identifier (responds n status) u) h
        (step-Within (responds n status) u tt i)

-- In one window, however requests and responses interleave, and whichever Redis commands fail, at
-- most the burst size of one identifier's requests are counted, pass and keep their slot.
pub run-kept_within :
    {S : Type 0} (redis : Redis S) (o : Options) (identifier : Text) (w : ℕ) (es : List Event)
    (s : S)
    → InWindow o w es
    → (run redis o identifier es record { store = s; pending = []; kept = 0 }).kept ≤ o.burst_size
run-kept_within redis o identifier w es s h =
    let u =
      run-Within redis o identifier w es record { store = s; pending = []; kept = 0 } h
        record { keyed = tt; counts = omega arith; fits = omega arith } in
    omega (arith, u.fits)
