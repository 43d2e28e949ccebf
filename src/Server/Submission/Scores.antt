-- ===== src/Server/Submission/Scores.antt =====
-- When a solution is scored and pushed: server/src/routes/submission.js.
use bsg.Prelude.{
  ℕ, Bool, true, false, ◌&&◌, Option, none, some, List, [], ◌∷◌, ◌≡◌, refl, ap, suc, Text,
  if◌then◌else◌, codes, is_some, Bool-cases, inl, inr,
}
use bsg.Prelude.Json.{Json, undefined, truthy, is_str, get_opt}
use bsg.Server.Submission.{
  Reply, Body, Link, push_if, Request, score, push_to_github, Handled, problem_data, room_id,
  submit, respond, refused, after_statistics, after_score, submit_score, after_lookup, in_room,
  after_active_room, internal_error, submitted,
}

abbrev pub is_score : Request → Bool
is_score (score room id body) = true
is_score r = false

abbrev pub is_push : Request → Bool
is_push (push_to_github link slug language code) = true
is_push r = false

abbrev pub count : (Request → Bool) → List Request → ℕ
count p [] = 0
count p (r ∷ rs) = if p r then suc (count p rs) else count p rs

abbrev or_undefined : Option Json → Json
or_undefined none = undefined
or_undefined (some v) = v

-- The room and the problem of the replies, undefined where a reply has none.
abbrev pub room_of : Option Reply → Json
room_of none = undefined
room_of (some r) = if r.ok then or_undefined (room_id r.json) else undefined

abbrev pub problem_of : Option Reply → Json
problem_of none = undefined
problem_of (some r) =
    if r.ok then get_opt (or_undefined (problem_data r.json)) (codes "id") else undefined

abbrev pub is_ok : Option Reply → Bool
is_ok none = false
is_ok (some r) = r.ok

abbrev one_if : Bool → ℕ
one_if b = if b then 1 else 0

abbrev pub is_due : Bool → Body → Option Reply → Option Reply → Bool
is_due authenticated body active found =
    authenticated
    && (is_str body.status (codes "Accepted")
        && (truthy (room_of active) && truthy (problem_of found)))

-- How often a score and a push are asked for.
Asks : ℕ → ℕ → Handled → Type 0
Asks scores pushes h = (count is_score h.requests ≡ scores) × (count is_push h.requests ≡ pushes)

if_Asks :
    (m n : ℕ) (b : Bool) (h k : Handled) → Asks m n h → Asks m n k → Asks m n (if b then h else k)
if_Asks m n true h k p q = p
if_Asks m n false h k p q = q

refused-Asks : (r : Reply) (status : ℕ) (answer : Text) → Asks 0 0 (refused r status answer)
unfolding Asks
refused-Asks r status answer =
    if_Asks 0 0 r.text (respond status answer) internal_error (refl, refl) (refl, refl)

after_statistics-Asks : (r : Option Reply) → Asks 0 0 (after_statistics r)
unfolding Asks
after_statistics-Asks none = (refl, refl)
after_statistics-Asks (some r) =
    if_Asks 0 0 r.ok submitted (refused r 200 (codes "Score submitted")) (refl, refl)
      (refused-Asks r 200 (codes "Score submitted"))

module _ (body : Body) (link : Option Link) (statistics : Option Reply) where
  push_if-Asks : (h : Handled) → Asks 0 0 h → Asks 0 (one_if (is_some link)) (push_if link body h)
  unfolding Asks
  push_if-Asks h k = by_link link
    where
      by_link : (l : Option Link) → Asks 0 (one_if (is_some l)) (push_if l body h)
      by_link none = k
      by_link (some l) = let (a, b) = k in (a, ap suc b)

  after_score-Asks :
      (room difficulty : Json) (scored : Option Reply)
      → Asks 0
          (one_if (is_ok scored && is_some link))
          (after_score body link statistics room difficulty scored)
  unfolding Asks
  after_score-Asks room difficulty none = (refl, refl)
  after_score-Asks room difficulty (some r) = elim (Bool-cases r.ok) [
    | inl good ↦ rw good (push_if-Asks _ (after_statistics-Asks statistics))
    | inr bad ↦ rw bad (refused-Asks r 500 (codes "Failed to submit score"))
  ]

  submit_score-Asks :
      (scored : Option Reply) (room : Json) (info : Option Json)
      → let due = truthy (get_opt (or_undefined info) (codes "id")) in
        Asks
          (one_if due)
          (one_if (due && (is_ok scored && is_some link)))
          (submit_score body link statistics scored room info)
  unfolding Asks
  submit_score-Asks scored room none = (refl, refl)
  submit_score-Asks scored room (some info) =
      elim (Bool-cases (truthy (get_opt info (codes "id")))) [
        | inl found ↦
            let (a, b) = after_score-Asks room (get_opt info (codes "difficulty")) scored in
            rw found (ap suc a, b)
        | inr missing ↦ rw missing (refl, refl)
      ]

  after_lookup-Asks :
      (scored : Option Reply) (room : Json) (found : Option Reply)
      → let due = truthy (problem_of found) in
        Asks
          (one_if due)
          (one_if (due && (is_ok scored && is_some link)))
          (after_lookup body link statistics scored room found)
  unfolding Asks
  after_lookup-Asks scored room none = (refl, refl)
  after_lookup-Asks scored room (some r) = elim (Bool-cases r.ok) [
    | inl good ↦ rw good (submit_score-Asks scored room (problem_data r.json))
    | inr bad ↦ rw bad (refused-Asks r 500 (codes "Problem lookup failed"))
  ]

  in_room-Asks :
      (found scored : Option Reply) (room : Option Json)
      → let due = truthy (or_undefined room) && truthy (problem_of found) in
        Asks
          (one_if due)
          (one_if (due && (is_ok scored && is_some link)))
          (in_room body link statistics found scored room)
  unfolding Asks
  in_room-Asks found scored none = (refl, refl)
  in_room-Asks found scored (some room) = elim (Bool-cases (truthy room)) [
    | inl there ↦ rw there (after_lookup-Asks scored room found)
    | inr missing ↦ rw missing (refl, refl)
  ]

  after_active_room-Asks :
      (found scored active : Option Reply)
      → let due = truthy (room_of active) && truthy (problem_of found) in
        Asks
          (one_if due)
          (one_if (due && (is_ok scored && is_some link)))
          (after_active_room body link statistics found scored active)
  unfolding Asks
  after_active_room-Asks found scored none = (refl, refl)
  after_active_room-Asks found scored (some r) = elim (Bool-cases r.ok) [
    | inl good ↦ rw good (in_room-Asks found scored (room_id r.json))
    | inr bad ↦ rw bad (refused-Asks r 500 (codes "Failed to check active room"))
  ]

-- A submission is scored once if the request is authenticated, the solution accepted, and there
-- are an active room and a problem, and otherwise never; and it is pushed to GitHub once if
-- moreover the score was accepted and the user has connected a repository, and otherwise never.
pub submit-scores :
    (authenticated : Bool) (body : Body) (link : Option Link)
    (active found scored statistics : Option Reply)
    → let h = submit authenticated body link active found scored statistics in
      (count is_score h.requests ≡ one_if (is_due authenticated body active found))
      × (count is_push h.requests
          ≡ one_if (is_due authenticated body active found && (is_ok scored && is_some link)))
unfolding submit Asks
submit-scores false body link active found scored statistics = (refl, refl)
submit-scores true body link active found scored statistics =
    elim (Bool-cases (is_str body.status (codes "Accepted"))) [
      | inl good ↦ rw good (after_active_room-Asks body link statistics found scored active)
      | inr bad ↦ rw bad (refl, refl)
    ]
