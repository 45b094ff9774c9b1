-- ===== src/Keys/Validator/Requests.antt =====
-- Calls of ValidateKey of pkg/router/auth/apikey.go that run at the same time, each waiting for the
-- store between its two parts, among writes to the store and invalidations.
use agenttier.Prelude.{
  ℕ, suc, zero, ◌+◌, String, Option, none, some, List, [], ◌∷◌, ◌++◌, if◌then◌else◌, str_eq,
}
use agenttier.Keys.{ApiKeyRecord}
use agenttier.Keys.Validator.{Answer, accepted, Validator, without, check_cache, finish}

-- The validator, the clock, the store, and the calls that have their record and have not gone on.
pub record Front : Type 0 where
  pub validator : Validator
  pub now : ℕ
  pub store : String → Option ApiKeyRecord
  pub waiting : List (String × Option ApiKeyRecord)

pub data Event : Type 0 where
  pass : ℕ → Event
  begin : String → Event
  go_on : ℕ → Event
  write : String → Option ApiKeyRecord → Event
  invalidate_hash : String → Event

abbrev pub Calls : Type 0
Calls = List (String × Option ApiKeyRecord)

abbrev pub later :
    String × Option ApiKeyRecord
    → Option ((String × Option ApiKeyRecord) × Calls)
    → Option ((String × Option ApiKeyRecord) × Calls)
later call none = none
later call (some (found, others)) = some (found, call ∷ others)

-- The call at a place among those that wait, and the others.
abbrev pub pick : ℕ → Calls → Option ((String × Option ApiKeyRecord) × Calls)
pick n [] = none
pick zero (call ∷ calls) = some (call, calls)
pick (suc n) (call ∷ calls) = later call (pick n calls)

abbrev pub begun : Front → String → Option Answer × Validator → Front
begun s hash (some answer, v) = record s { validator = v }
begun s hash (none, v) = record s {
  validator = v;
  waiting = s.waiting ++ (hash, s.store hash) ∷ [];
}

abbrev pub gone_on : Front → Option ((String × Option ApiKeyRecord) × Calls) → Front
gone_on s none = s
gone_on s (some ((hash, found), others)) = record s {
  validator = (finish s.validator hash s.now s.now found).1;
  waiting = others;
}

unfoldable pub step : Event → Front → Front
step (pass d) s = record s { now = s.now + d }
step (begin hash) s = begun s hash (check_cache s.validator hash s.now s.now)
step (go_on n) s = gone_on s (pick n s.waiting)
step (write hash r) s = record s { store = λ (q : String). if str_eq hash q then r else s.store q }
step (invalidate_hash hash) s = record s { validator = without s.validator hash }

unfoldable pub run : List Event → Front → Front
run [] s = s
run (event ∷ events) s = run events (step event s)

-- The key whose call the event answers with claims.
abbrev pub accepted_hash : String → Option Answer → Option String
accepted_hash hash (some (accepted c)) = some hash
accepted_hash hash _ = none

abbrev pub accepted_call : Front → Option ((String × Option ApiKeyRecord) × Calls) → Option String
accepted_call s none = none
accepted_call s (some ((hash, found), others)) =
    accepted_hash hash (some (finish s.validator hash s.now s.now found).0)

unfoldable pub accepts : Event → Front → Option String
accepts (begin hash) s = accepted_hash hash (check_cache s.validator hash s.now s.now).0
accepts (go_on n) s = accepted_call s (pick n s.waiting)
accepts _ s = none
