-- ===== src/Agent/Tracker.antt =====
-- concurrencyTracker of pkg/router/agent/invoke.go, and the invokes that hold a place in it: each was let
-- in by `try`, and gives its place back by the deferred `release` when it ends, however it ends.
pub mod Counts
use agenttier.Prelude.{
  ℕ, zero, suc, ◌+◌, ◌-◌, String, Bool, true, false, ◌&&◌, Option, none, some, List, [], ◌∷◌,
  if◌then◌else◌, ltb, leb, str_eq,
}
use agenttier.Prelude.Int.{ℤ, pos, ltb_ℤ, leb_ℤ}
use agenttier.Keys.Maps.{set_at}
use agenttier.Webhook.Subscription.{lookup}

abbrev pub Counts : Type 0
Counts = List (String × ℕ)

abbrev pub or_zero : Option ℕ → ℕ
or_zero none = 0
or_zero (some n) = n

unfoldable pub count_of : Counts → String → ℕ
unfolding lookup
count_of counts sandbox_id = or_zero (lookup sandbox_id counts)

-- The answers are the current count and whether there is a place.
unfoldable pub try : Counts → String → ℤ → (ℕ × Bool) × Counts
try counts sandbox_id limit =
    let cur = count_of counts sandbox_id in
    if ltb_ℤ (pos 0) limit && leb_ℤ limit (pos cur)
    then ((cur, false), counts)
    else ((cur + 1, true), set_at sandbox_id (cur + 1) counts)

unfoldable pub release : Counts → String → Counts
release counts sandbox_id =
    let cur = count_of counts sandbox_id in
    if ltb 0 cur then set_at sandbox_id (cur - 1) counts else counts

-- The sandboxes of the invokes that were let in and have not ended.
pub record Invokes : Type 0 where
  pub counts : Counts
  pub running : List String

pub data Event : Type 0 where
  start : String → Event
  finish : ℕ → Event

abbrev pub started : Invokes → String → (ℕ × Bool) × Counts → Invokes
started s sandbox_id ((_, true), counts) = record {
  counts = counts;
  running = sandbox_id ∷ s.running;
}
started s sandbox_id ((_, false), counts) = record s { counts = counts }

abbrev pub later : String → Option (String × List String) → Option (String × List String)
later sandbox_id none = none
later sandbox_id (some (found, others)) = some (found, sandbox_id ∷ others)

-- The invoke at a place, and the others.
abbrev pub pick : ℕ → List String → Option (String × List String)
pick n [] = none
pick zero (sandbox_id ∷ running) = some (sandbox_id, running)
pick (suc n) (sandbox_id ∷ running) = later sandbox_id (pick n running)

abbrev pub finished : Invokes → Option (String × List String) → Invokes
finished s none = s
finished s (some (sandbox_id, others)) = record {
  counts = release s.counts sandbox_id;
  running = others;
}

module _ (limit_of : String → ℤ) where
  unfoldable pub step : Event → Invokes → Invokes
  step (start sandbox_id) s = started s sandbox_id (try s.counts sandbox_id (limit_of sandbox_id))
  step (finish n) s = finished s (pick n s.running)

  unfoldable pub run : List Event → Invokes → Invokes
  run [] s = s
  run (event ∷ events) s = run events (step event s)

abbrev pub idle : Invokes
idle = record { counts = []; running = [] }
