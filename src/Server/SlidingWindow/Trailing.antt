-- ===== src/Server/SlidingWindow/Trailing.antt =====
-- The limiter against one that keeps every instant: server/src/middleware/logging.js.
use bsg.Prelude.{
  ℕ, ◌+◌, ◌≤◌, false, not, Option, none, some, List, [], ◌∷◌, ◌++◌, ◌≡◌, ◌∙◌, refl, sym, ap, arith,
  if◌then◌else◌, Text, text_eq, eq_of_text_eq, or_else, length, length-append, leb, leb-false,
  Bool-cases, inl, inr,
}
use bsg.Server.SlidingWindow.{
  ClientRequests, put, active, kept, swept, sweep, middleware, Event, request, interval, History,
  step, run, no_requests,
}

active-active : (w m n : ℕ) (xs : List ℕ) → m ≤ n → active w n (active w m xs) ≡ active w n xs
active-active w m n [] h = refl
active-active w m n (x ∷ xs) h = ground (arith, active-active w m n xs h)

length-active-le :
    (w m n : ℕ) (xs : List ℕ) → m ≤ n → length (active w n xs) ≤ length (active w m xs)
length-active-le w m n [] h = omega arith
length-active-le w m n (x ∷ xs) h = ground (arith, length-active-le w m n xs h)

active-append : (w n : ℕ) (xs ys : List ℕ) → active w n (xs ++ ys) ≡ active w n xs ++ active w n ys
active-append w n [] ys = refl
active-append w n (x ∷ xs) ys = ground (arith, active-append w n xs ys)

length-active-one : (w n t : ℕ) → length (active w n (t ∷ [])) ≤ 1
length-active-one w n t = ground arith

-- The instant of an event.
abbrev pub at : Event → ℕ
at (request ip now) = now
at (interval now) = now

-- No event is before an instant or before the event ahead of it.
abbrev pub InOrder : ℕ → List Event → Type 0
InOrder last [] = Unit
InOrder last (e ∷ es) = (last ≤ at e) × InOrder (at e) es

-- The last event's instant.
abbrev pub ends : ℕ → List Event → ℕ
ends last [] = last
ends last (e ∷ es) = ends (at e) es

module _ (limit window : ℕ) where
  -- From an instant on, the map knows as many active requests as the whole log, at most the limit.
  record Faithful (last : ℕ) (h : History) : Type 0 where
    same :
        (ip : Text) (n : ℕ)
        → last ≤ n
        → active window n (or_else (h.0 ip) []) ≡ active window n (h.1 ip)
    fits : (ip : Text) (n : ℕ) → last ≤ n → length (active window n (h.1 ip)) ≤ limit

  kept_same : (n : ℕ) (ts : List ℕ) → active window n (or_else (kept ts) []) ≡ active window n ts
  kept_same n [] = refl
  kept_same n (t ∷ ts) = refl

  -- What a request puts in the place of its address's instants.
  put_same :
      (ip : Text) (now : ℕ) (m : ClientRequests) (log : Text → List ℕ) (new : List ℕ) (k : Text)
      (n : ℕ)
      → active window n (or_else (m k) []) ≡ active window n (log k)
      → active window n (active window now (or_else (m ip) []) ++ new)
        ≡ active window n (log ip ++ new)
      → active window n
          (or_else (put ip (some (active window now (or_else (m ip) []) ++ new)) m k) [])
        ≡ active window n (if text_eq ip k then log k ++ new else log k)
  put_same ip now m log new k n old added = elim (Bool-cases (text_eq ip k)) [
    | inl e ↦ rw e (added ∙ ap (λ i. active window n (log i ++ new)) (eq_of_text_eq ip k e))
    | inr e ↦ rw e old
  ]

  sweep-same :
      (o : Option (List ℕ)) (m n : ℕ)
      → m ≤ n
      → active window n (or_else (swept window m o) []) ≡ active window n (or_else o [])
  sweep-same none m n h = refl
  sweep-same (some times) m n h =
      kept_same n (active window m times) ∙ active-active window m n times h

  room_for_one :
      (ip k : Text) (now n : ℕ) (log : Text → List ℕ) (valid : List ℕ)
      → ip ≡ k
      → now ≤ n
      → valid ≡ active window now (log ip)
      → leb limit (length valid) ≡ false
      → length (active window n (log k)) + length (active window n (now ∷ [])) ≤ limit
  room_for_one ip k now n log valid e l same free =
      let size : length valid ≡ length (active window now (log k)) =
        ap length same ∙ ap (λ i. length (active window now (log i))) e in
      omega (
        arith,
        leb-false limit (length valid) free,
        length-active-one window n now,
        length-active-le window now n (log k) l,
      )

  step-Faithful :
      (e : Event) (last : ℕ) (h : History)
      → last ≤ at e
      → Faithful last h
      → Faithful (at e) (step limit window e h)
  unfolding step middleware sweep
  step-Faithful (interval now) last (m, log) le f = record {
    same = λ ip n l. sweep-same (m ip) now n l ∙ f.same ip n (omega arith);
    fits = λ ip n l. f.fits ip n (omega arith);
  }
  step-Faithful (request ip now) last (m, log) le f =
      let valid = active window now (or_else (m ip) []) in
      elim (Bool-cases (leb limit (length valid))) [
        | inl full ↦ rw full record {
          same = λ k n l. elim (Bool-cases (text_eq ip k)) [
            | inl e ↦ rw e (
                active-active window now n (or_else (m ip) []) l
                ∙ f.same ip n (omega arith)
                ∙ ap (λ i. active window n (log i)) (eq_of_text_eq ip k e))
            | inr e ↦ rw e (f.same k n (omega arith))
          ];
          fits = λ k n l. f.fits k n (omega arith);
        }
        | inr free ↦ rw free record {
          same = λ k n l. put_same ip now m log (now ∷ []) k n (f.same k n (omega arith)) (
              active-append window n valid (now ∷ [])
              ∙ ap (λ a. a ++ active window n (now ∷ []))
                  (active-active window now n (or_else (m ip) []) l ∙ f.same ip n (omega arith))
              ∙ sym (active-append window n (log ip) (now ∷ [])));
          fits = λ k n l. elim (Bool-cases (text_eq ip k)) [
            | inl e ↦
                rw
                  (
                    e,
                    active-append window n (log k) (now ∷ []),
                    length-append (active window n (log k)) (active window n (now ∷ [])),
                  )
                  (room_for_one ip k now n log valid (eq_of_text_eq ip k e) l (f.same ip now le)
                    free)
            | inr e ↦ rw e (f.fits k n (omega arith))
          ];
        }
      ]

  run-Faithful :
      (es : List Event) (last : ℕ) (h : History)
      → InOrder last es
      → Faithful last h
      → Faithful (ends last es) (run limit window es h)
  unfolding run
  run-Faithful [] last h o f = f
  run-Faithful (e ∷ es) last h (le, o) f =
      run-Faithful es (at e) (step limit window e h) o (step-Faithful e last h le f)

  empty-Faithful : Faithful 0 no_requests
  empty-Faithful = record { same = λ ip n l. refl; fits = λ ip n l. omega arith }

  middleware_passes :
      (ip : Text) (now : ℕ) (m : ClientRequests)
      → (middleware limit window ip now m).0
        ≡ not (leb limit (length (active window now (or_else (m ip) []))))
  unfolding middleware
  middleware_passes ip now m =
      elim (Bool-cases (leb limit (length (active window now (or_else (m ip) []))))) [
        | inl full ↦ rw full refl
        | inr free ↦ rw free refl
      ]

  -- At no instant do the requests from one address that were let pass in the window behind it
  -- exceed the limit, after any events in the order of their instants.
  pub run-passed_within :
      (es : List Event) (ip : Text) (now : ℕ)
      → InOrder 0 es
      → ends 0 es ≤ now
      → length (active window now ((run limit window es no_requests).1 ip)) ≤ limit
  run-passed_within es ip now o l = (run-Faithful es 0 no_requests o empty-Faithful).fits ip now l

  -- After any events in the order of their instants, a request is let pass exactly if fewer than
  -- the limit of all requests that were let pass from its address lie in the window behind it,
  -- though the limiter forgets the older ones.
  pub middleware-run :
      (es : List Event) (ip : Text) (now : ℕ)
      → InOrder 0 es
      → ends 0 es ≤ now
      → let (m, log) = run limit window es no_requests in
        (middleware limit window ip now m).0 ≡ not (leb limit (length (active window now (log ip))))
  middleware-run es ip now o l =
      let f = run-Faithful es 0 no_requests o empty-Faithful in
      let (m, log) = run limit window es no_requests in
      middleware_passes ip now m ∙ ap (λ ts. not (leb limit (length ts))) (f.same ip now l)
