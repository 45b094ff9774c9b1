-- ===== src/Keys/Validator/Revocation.antt =====
-- A key whose record is deleted, among calls of pkg/router/auth/apikey.go that run at the same time:
-- how long the validator goes on accepting it.
use agenttier.Prelude.{
  ℕ, ◌+◌, ◌≤◌, ◌<◌, String, false, Option, none, some, List, [], ◌∷◌, ◌≡◌, ◌≢◌, refl, subst, arith,
  lt→ltb, str_eq, ◌∙◌, eq_iff, eq_refl, All,
}
use agenttier.Keys.{ApiKeyRecord}
use agenttier.Keys.Cache.{get, remove}
use agenttier.Keys.Cache.Runs.{lookup-put_self}
use agenttier.Keys.Validator.{
  CacheEntry, Answer, accepted, key_not_found, key_expired, Validator, has_expired, claims_of,
  check_hit, check_cache, finish,
}
use agenttier.Keys.Maps.{lookup-delete_at_self}
use agenttier.Keys.Validator.Requests.{
  Front, Event, pass, begin, go_on, write, invalidate_hash, Calls, pick, begun, gone_on, step, run,
  accepted_hash, accepted_call, accepts,
}
use agenttier.Keys.Validator.Gone.{Leaves, NoneWaits, Gone, Picked, pick-NoneWaits, run-Gone}

none-some : {A : Type 0} {o : Option A} {a : A} → o ≡ none → o ≡ some a → ⊥
none-some out found = cc

module _ (h : String) where
  hit_accepts :
      (v : Validator) (now : ℕ) (found : Option CacheEntry)
      → accepted_hash h (check_hit v h now now found).0 ≡ some h
      → (e : CacheEntry) × (found ≡ some e) × (now < e.cached_at + v.cache_ttl)
  hit_accepts v now none is = cc
  hit_accepts v now (some entry) is = (entry, refl, ground arith)

  same_hash : (q : String) (o : Option Answer) → accepted_hash q o ≡ some h → q ≡ h
  same_hash q (some (accepted c)) is = cc
  same_hash q (some key_not_found) is = cc
  same_hash q (some key_expired) is = cc
  same_hash q none is = cc

  call_never :
      (s : Front) (picked : Option ((String × Option ApiKeyRecord) × Calls))
      → Picked h picked
      → accepted_call s picked ≡ some h
      → ⊥
  unfolding finish
  call_never s none p is = cc
  call_never s (some ((q, none), others)) p is = cc
  call_never s (some ((q, some r), others)) p is =
      different q p.0.0 (same_hash q (some (finish s.validator q s.now s.now (some r)).0) is)
    where
      different : (q : String) → str_eq q h ≡ false → q ≡ h → ⊥
      different q other e = ground (arith, eq_iff q h)

  -- Only a cached entry of the hash, a young one, makes a call accept it.
  Gone-accepts :
      (P : CacheEntry → Type 0) (event : Event) (s : Front)
      → Gone h P s
      → accepts event s ≡ some h
      → (e : CacheEntry) × P e × (s.now < e.cached_at + s.validator.cache_ttl)
  unfolding accepts check_cache
  Gone-accepts P (begin q) s g is =
      let same = same_hash q (check_cache s.validator q s.now s.now).0 is in
      let (e, found, young) =
        hit_accepts s.validator s.now (get s.validator.cache h) (
          subst (λ x. accepted_hash x (check_cache s.validator x s.now s.now).0 ≡ some h) same
            is) in
      (e, g.cached e found, young)
  Gone-accepts P (go_on n) s g is =
      absurd (call_never s (pick n s.waiting) (pick-NoneWaits h n s.waiting g.unfetched) is)
  Gone-accepts P (pass d) s g is = cc
  Gone-accepts P (write q r) s g is = cc
  Gone-accepts P (invalidate_hash q) s g is = cc

  begun-ttl :
      (s : Front) (q : String) (ttl : ℕ) (checked : Option Answer × Validator)
      → checked.1.cache_ttl ≡ ttl
      → (begun s q checked).validator.cache_ttl ≡ ttl
  begun-ttl s q ttl (some answer, v) e = e
  begun-ttl s q ttl (none, v) e = e

  hit-ttl :
      (v : Validator) (q : String) (a b : ℕ) (found : Option CacheEntry)
      → (check_hit v q a b found).1.cache_ttl ≡ v.cache_ttl
  hit-ttl v q a b none = refl
  hit-ttl v q a b (some entry) = ground arith

  finish-ttl :
      (v : Validator) (q : String) (now : ℕ) (found : Option ApiKeyRecord)
      → (finish v q now now found).1.cache_ttl ≡ v.cache_ttl
  unfolding finish
  finish-ttl v q now none = refl
  finish-ttl v q now (some r) = ground arith

  gone_on-ttl :
      (s : Front) (picked : Option ((String × Option ApiKeyRecord) × Calls))
      → (gone_on s picked).validator.cache_ttl ≡ s.validator.cache_ttl
  gone_on-ttl s none = refl
  gone_on-ttl s (some ((q, found), others)) = finish-ttl s.validator q s.now found

  step-ttl :
      (event : Event) (s : Front) → (step event s).validator.cache_ttl ≡ s.validator.cache_ttl
  unfolding step check_cache
  step-ttl (pass d) s = refl
  step-ttl (begin q) s =
      begun-ttl s q s.validator.cache_ttl (check_cache s.validator q s.now s.now)
        (hit-ttl s.validator q s.now s.now (get s.validator.cache q))
  step-ttl (go_on n) s = gone_on-ttl s (pick n s.waiting)
  step-ttl (write q r) s = refl
  step-ttl (invalidate_hash q) s = refl

  run-ttl :
      (events : List Event) (s : Front) → (run events s).validator.cache_ttl ≡ s.validator.cache_ttl
  unfolding run
  run-ttl [] s = refl
  run-ttl (event ∷ events) s = run-ttl events (step event s) ∙ step-ttl event s

  -- Where no waiting call has a record of a hash, and a cached entry of it is not from the future, the
  -- hash is deleted from the store, and no later event stores a record for it: whatever calls,
  -- writes and invalidations follow, in whatever order, a call that is answered with claims for the
  -- hash is answered less than the cache's time to live after the deletion.
  pub accepts-run-deleted :
      (s : Front) (events : List Event) (event : Event)
      → NoneWaits h s.waiting
      → ((e : CacheEntry) → get s.validator.cache h ≡ some e → e.cached_at ≤ s.now)
      → All (Leaves h) events
      → accepts event (run events (step (write h none) s)) ≡ some h
      → (run events (step (write h none) s)).now < s.now + s.validator.cache_ttl
  unfolding step
  accepts-run-deleted s events event waits cached leaves is =
      let s' = step (write h none) s in
      let Before : CacheEntry → Type 0 = λ e. e.cached_at ≤ s.now in
      let g : Gone h Before s' = record {
        unstored = rw (eq_refl h) refl;
        unfetched = waits;
        cached = cached;
      } in
      subst (λ (ttl : ℕ). (run events s').now < s.now + ttl) (run-ttl events s')
        (bound s.now _ _
          (Gone-accepts Before event (run events s') (run-Gone h Before events s' leaves g) is))
    where
      bound :
          (at now ttl : ℕ)
          → (e : CacheEntry) × (e.cached_at ≤ at) × (now < e.cached_at + ttl)
          → now < at + ttl
      bound at now ttl (e, before, young) = omega arith

  -- Where no waiting call has a record of a hash, the hash is deleted from the store and invalidated,
  -- and no later event stores a record for it: whatever calls, writes and invalidations follow, in
  -- whatever order, no call is answered with claims for the hash again.
  pub accepts-run-invalidated :
      (s : Front) (events : List Event) (event : Event)
      → NoneWaits h s.waiting
      → All (Leaves h) events
      → accepts event (run events (step (invalidate_hash h) (step (write h none) s))) ≢ some h
  unfolding step get remove
  accepts-run-invalidated s events event waits leaves is =
      let s' = step (invalidate_hash h) (step (write h none) s) in
      let g : Gone h (λ e. ⊥) s' = record {
        unstored = rw (eq_refl h) refl;
        unfetched = waits;
        cached = λ e found. none-some (lookup-delete_at_self h s.validator.cache.items) found;
      } in
      (Gone-accepts (λ e. ⊥) event (run events s') (run-Gone h (λ e. ⊥) events s' leaves g) is).1

-- A call that has its record when the key is deleted and invalidated puts it into the cache
-- afterwards: whatever the record, if it has not expired then, and the time to live is positive, the
-- next call with the key is answered with claims. On a validator whose cache is empty.
pub accepts-late_put :
    (h : String) (v : Validator) (now : ℕ) (store : String → Option ApiKeyRecord) (r : ApiKeyRecord)
    → get v.cache h ≡ none
    → store h ≡ some r
    → has_expired r.expires_at now ≡ false
    → 0 < v.cache_ttl
    → accepts (begin h) (
        run
          (begin h ∷ write h none ∷ invalidate_hash h ∷ go_on 0 ∷ [])
          (record { validator = v; now = now; store = store; waiting = [] }))
      ≡ some h
unfolding accepts run step check_cache finish get
accepts-late_put h v now store r empty stored fresh ttl =
    rw
      (
        empty,
        stored,
        fresh,
        lookup-put_self (remove v.cache h) h
            (record { claims = claims_of r; cached_at = now; expires_at = r.expires_at }),
        fresh,
        lt→ltb now (now + v.cache_ttl) (omega arith),
      )
      refl
