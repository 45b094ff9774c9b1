-- ===== src/Keys/Validator/Gone.antt =====
-- A key whose record is deleted, among calls of pkg/router/auth/apikey.go that run at the same time:
-- what stays true of it in the store, in the cache, and in the calls.
use agenttier.Prelude.{
  ℕ, suc, zero, ◌+◌, String, Bool, true, false, Option, none, some, List, [], ◌∷◌, ◌++◌, ◌≡◌, refl,
  arith, if◌then◌else◌, ltb, str_eq, name_cases, inl, inr, Bool-cases, All,
}
use agenttier.Keys.{ApiKeyRecord}
use agenttier.Keys.Cache.{get, put}
use agenttier.Keys.Cache.Runs.{put-Below, remove-Below}
use agenttier.Keys.Validator.{
  CacheEntry, Answer, Validator, has_expired, without, check_hit, check_cache, finish,
}
use agenttier.Webhook.Subscription.{lookup}
use agenttier.Keys.Validator.Requests.{
  Front, Event, pass, begin, go_on, write, invalidate_hash, Calls, later, pick, begun, gone_on,
  step, run,
}

module _ (h : String) where
  -- The event does not store a record for the hash.
  abbrev pub Leaves : Event → Type 0
  Leaves (write q (some r)) = str_eq q h ≡ false
  Leaves event = Unit

  -- No call that waits has a record of the hash.
  abbrev pub NoneWaits : Calls → Type 0
  NoneWaits [] = Unit
  NoneWaits ((q, none) ∷ calls) = NoneWaits calls
  NoneWaits ((q, some r) ∷ calls) = (str_eq q h ≡ false) × NoneWaits calls

  module _ (P : CacheEntry → Type 0) where
    abbrev pub Cached : Validator → Type 0
    Cached v = (e : CacheEntry) → get v.cache h ≡ some e → P e

    pub record Gone (s : Front) : Type 0 where
      pub unstored : s.store h ≡ none
      pub unfetched : NoneWaits s.waiting
      pub cached : Cached s.validator

    kept_by_remove :
        (same : Bool) (before : Option CacheEntry) (e : CacheEntry)
        → (if same then none else before) ≡ some e
        → before ≡ some e
    kept_by_remove true before e eq = cc
    kept_by_remove false before e eq = eq

    without-Cached : (v : Validator) (q : String) → Cached v → Cached (without v q)
    unfolding get
    without-Cached v q cached e found =
        cached e (
          kept_by_remove (str_eq q h) (lookup h v.cache.items) e (remove-Below v.cache h q e found))

    other_put-Cached :
        (v : Validator) (q : String) (x : CacheEntry)
        → str_eq q h ≡ false
        → Cached v
        → Cached (record v { cache = put v.cache q x })
    unfolding get
    other_put-Cached v q x other cached e found =
        let wrote = put-Below v.cache h q x e found in cached e (ground arith)

    finish-Cached :
        (v : Validator) (q : String) (now : ℕ) (found : Option ApiKeyRecord)
        → NoneWaits ((q, found) ∷ [])
        → Cached v
        → Cached (finish v q now now found).1
    unfolding finish
    finish-Cached v q now none out cached = cached
    finish-Cached v q now (some r) (other, _) cached =
        elim (Bool-cases (has_expired r.expires_at now)) [
          | inl expired ↦ rw expired cached
          | inr fresh ↦ rw fresh (other_put-Cached v q _ other cached)
        ]

    hit-Cached :
        (v : Validator) (q : String) (a b : ℕ) (found : Option CacheEntry)
        → Cached v
        → Cached (check_hit v q a b found).1
    hit-Cached v q a b none cached = cached
    hit-Cached v q a b (some entry) cached = elim (Bool-cases (has_expired entry.expires_at a)) [
      | inl expired ↦ rw expired (without-Cached v q cached)
      | inr fresh ↦ elim (Bool-cases (ltb b (entry.cached_at + v.cache_ttl))) [
        | inl young ↦ rw (fresh, young) cached
        | inr old ↦ rw (fresh, old) (without-Cached v q cached)
      ]
    ]

  NoneWaits-snoc :
      (calls : Calls) (q : String) (found : Option ApiKeyRecord)
      → NoneWaits calls
      → NoneWaits ((q, found) ∷ [])
      → NoneWaits (calls ++ (q, found) ∷ [])
  NoneWaits-snoc [] q found all last = last
  NoneWaits-snoc ((x, none) ∷ calls) q found all last = NoneWaits-snoc calls q found all last
  NoneWaits-snoc ((x, some r) ∷ calls) q found all last =
      (all.0, NoneWaits-snoc calls q found all.1 last)

  fetched-NoneWaits :
      (store : String → Option ApiKeyRecord) (q : String) (found : Option ApiKeyRecord)
      → store h ≡ none
      → store q ≡ found
      → NoneWaits ((q, found) ∷ [])
  fetched-NoneWaits store q none out is = tt
  fetched-NoneWaits store q (some r) out is = elim (name_cases q h) [
    | inl same ↦ absurd (clash store r same out is)
    | inr other ↦ (other, tt)
  ]
    where
      clash :
          (store : String → Option ApiKeyRecord) (r : ApiKeyRecord) {q : String}
          → q ≡ h
          → store h ≡ none
          → store q ≡ some r
          → ⊥
      clash store r same out is = cc

  -- Of calls that have no record of the hash, the picked one has none, and neither have the others.
  abbrev pub Picked : Option ((String × Option ApiKeyRecord) × Calls) → Type 0
  Picked none = Unit
  Picked (some (call, others)) = NoneWaits (call ∷ []) × NoneWaits others

  Picked-later :
      (call : String × Option ApiKeyRecord)
      (answer : Option ((String × Option ApiKeyRecord) × Calls))
      → Picked answer
      → ((others : Calls) → NoneWaits others → NoneWaits (call ∷ others))
      → Picked (later call answer)
  Picked-later call none p add = tt
  Picked-later call (some (found, others)) p add = (p.0, add others p.1)

  pub pick-NoneWaits : (n : ℕ) (calls : Calls) → NoneWaits calls → Picked (pick n calls)
  pick-NoneWaits n [] all = tt
  pick-NoneWaits zero ((q, none) ∷ calls) all = (tt, all)
  pick-NoneWaits zero ((q, some r) ∷ calls) all = ((all.0, tt), all.1)
  pick-NoneWaits (suc n) ((q, none) ∷ calls) all =
      Picked-later (q, none) (pick n calls) (pick-NoneWaits n calls all) (λ others o. o)
  pick-NoneWaits (suc n) ((q, some r) ∷ calls) all =
      Picked-later (q, some r) (pick n calls) (pick-NoneWaits n calls all.1)
        (λ others o. (all.0, o))

  module _ (P : CacheEntry → Type 0) where
    begun-Gone :
        (s : Front) (q : String) (checked : Option Answer × Validator)
        → Gone P s
        → Cached P checked.1
        → Gone P (begun s q checked)
    begun-Gone s q (some answer, v) g cached = record {
      unstored = g.unstored;
      unfetched = g.unfetched;
      cached = cached;
    }
    begun-Gone s q (none, v) g cached = record {
      unstored = g.unstored;
      unfetched =
          NoneWaits-snoc s.waiting q (s.store q) g.unfetched
            (fetched-NoneWaits s.store q (s.store q) g.unstored refl);
      cached = cached;
    }

    gone_on-Gone :
        (s : Front) (picked : Option ((String × Option ApiKeyRecord) × Calls))
        → Gone P s
        → Picked picked
        → Gone P (gone_on s picked)
    gone_on-Gone s none g p = g
    gone_on-Gone s (some ((q, found), others)) g p = record {
      unstored = g.unstored;
      unfetched = p.1;
      cached = finish-Cached P s.validator q s.now found p.0 g.cached;
    }

    step-Gone : (event : Event) (s : Front) → Leaves event → Gone P s → Gone P (step event s)
    unfolding step check_cache
    step-Gone (pass d) s l g = record {
      unstored = g.unstored;
      unfetched = g.unfetched;
      cached = g.cached;
    }
    step-Gone (begin q) s l g =
        begun-Gone s q (check_cache s.validator q s.now s.now) g
          (hit-Cached P s.validator q s.now s.now (get s.validator.cache q) g.cached)
    step-Gone (go_on n) s l g =
        gone_on-Gone s (pick n s.waiting) g (pick-NoneWaits n s.waiting g.unfetched)
    step-Gone (write q none) s l g = record {
      unstored = ground (arith, g.unstored);
      unfetched = g.unfetched;
      cached = g.cached;
    }
    step-Gone (write q (some r)) s other g = record {
      unstored = rw other g.unstored;
      unfetched = g.unfetched;
      cached = g.cached;
    }
    step-Gone (invalidate_hash q) s l g = record {
      unstored = g.unstored;
      unfetched = g.unfetched;
      cached = without-Cached P s.validator q g.cached;
    }

    pub run-Gone :
        (events : List Event) (s : Front) → All Leaves events → Gone P s → Gone P (run events s)
    unfolding run
    run-Gone [] s l g = g
    run-Gone (event ∷ events) s l g = run-Gone events (step event s) l.1 (step-Gone event s l.0 g)
