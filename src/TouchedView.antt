-- ===== src/TouchedView.antt =====
-- The panel's view of the touched problems: bsg-frontend/apps/extension/hooks/useTouchedProblems.ts,
-- beside the worker that owns the stored slugs. The hook's read finds what is stored when the hook
-- starts, and its answer may come at any time after that; the storage tells of its changes in the
-- order in which they come about.
pub mod Agrees
use bsg.Prelude.{
  Bool, true, false, Option, none, some, List, [], ◌∷◌, ◌++◌, if◌then◌else◌, Text, ◌==◌,
}
use bsg.Worker.Touched.{SessionStorage, Fate, TouchRequest, handle, touched}

pub record TouchedView : Type 0 where
  pub storage : SessionStorage
  -- what the hook's read has found, until its callback
  pub answer : Option (List Text)
  -- the new values that the storage has not told of yet
  pub notices : List (List Text)
  -- the hook's set, as the list that it is made of
  pub slugs : List Text
  pub cancelled : Bool

-- The hook's start, with its read and its listener.
unfoldable pub mount : SessionStorage → TouchedView
mount s = record {
  storage = s;
  answer = some (touched s);
  notices = [];
  slugs = [];
  cancelled = false;
}

-- setTouched, in the read's callback and in handleChanged: an unmounted hook does nothing.
unfoldable pub receive : List Text → TouchedView → TouchedView
receive slugs v = if v.cancelled then v else record v { slugs = slugs }

abbrev pub answer_read : Option (List Text) → TouchedView → TouchedView
unfolding receive
answer_read none v = v
answer_read (some slugs) v = receive slugs record v { answer = none }

abbrev pub deliver_first : List (List Text) → TouchedView → TouchedView
unfolding receive
deliver_first [] v = v
deliver_first (n ∷ ns) v = receive n record v { notices = ns }

-- A request to the worker, after which the storage tells of what was written.
abbrev pub announce : SessionStorage → SessionStorage → List (List Text) → List (List Text)
announce old new ns = if new.writes == old.writes then ns else ns ++ touched new ∷ []

pub data ViewEvent : Type 0 where
  requested : Fate → TouchRequest → ViewEvent
  answered delivered unmounted : ViewEvent

unfoldable pub step : ViewEvent → TouchedView → TouchedView
unfolding receive answer_read deliver_first
step (requested fate r) v = record v {
  storage = handle fate r v.storage;
  notices = announce v.storage (handle fate r v.storage) v.notices;
}
step answered v = answer_read v.answer v
step delivered v = deliver_first v.notices v
step unmounted v = record v { cancelled = true }

unfoldable pub run : List ViewEvent → TouchedView → TouchedView
unfolding step
run [] v = v
run (e ∷ es) v = run es (step e v)
