-- ===== src/Agent/Tracker/Counts.antt =====
-- The counts of pkg/router/agent/invoke.go are those of the invokes that run.
use agenttier.Prelude.{
  ℕ, zero, suc, ◌+◌, ◌-◌, String, Bool, true, false, not, ◌&&◌, Option, none, some, List, [], ◌∷◌,
  ◌≡◌, refl, ap, subst, ◌∙◌, arith, if◌then◌else◌, ltb, str_eq, eq_iff, eq_refl, name_cases, inl,
  inr, Bool-cases,
}
use agenttier.Prelude.Int.{ℤ, pos, ltb_ℤ, leb_ℤ}
use agenttier.Agent.Tracker.{
  Counts, or_zero, count_of, try, release, Invokes, Event, start, finish, later, pick, finished,
  step, run, idle,
}
use agenttier.Keys.Maps.{set_at, lookup-set_at_self, lookup-set_at_ne}
use agenttier.Webhook.Subscription.{lookup}

-- How many of the running invokes are in the sandbox.
unfoldable pub running_in : String → List String → ℕ
running_in q [] = 0
running_in q (sandbox_id ∷ running) =
    let rest = running_in q running in if str_eq sandbox_id q then rest + 1 else rest

count_of-set_at_self : (counts : Counts) (q : String) (n : ℕ) → count_of (set_at q n counts) q ≡ n
unfolding count_of
count_of-set_at_self counts q n = ap or_zero (lookup-set_at_self q n counts)

count_of-set_at_ne :
    (counts : Counts) (k q : String) (n : ℕ)
    → str_eq k q ≡ false
    → count_of (set_at k n counts) q ≡ count_of counts q
unfolding count_of
count_of-set_at_ne counts k q n other = ap or_zero (lookup-set_at_ne k n q counts other)

-- Writing the count of one sandbox.
pub written :
    (counts : Counts) (k q : String) (n : ℕ)
    → count_of (set_at k n counts) q ≡ (if str_eq k q then n else count_of counts q)
written counts k q n = elim (name_cases k q) [
  | inl same ↦
      rw ((eq_iff k q).1 same)
        (subst (λ x. count_of (set_at k n counts) x ≡ n) same (count_of-set_at_self counts k n))
  | inr other ↦ rw other (count_of-set_at_ne counts k q n other)
]

abbrev pub Exact : Invokes → Type 0
Exact s = (q : String) → count_of s.counts q ≡ running_in q s.running

-- Of the picked invoke and the others, the sums.
Sums : String → List String → Option (String × List String) → Type 0
Sums q running none = Unit
Sums q running (some (found, others)) =
    running_in q running ≡ (if str_eq found q then running_in q others + 1 else running_in q others)

later-Sums :
    (q k : String) (running : List String) (picked : Option (String × List String))
    → Sums q running picked
    → Sums q (k ∷ running) (later k picked)
unfolding Sums running_in
later-Sums q k running none h = tt
later-Sums q k running (some (found, others)) h = ground arith

pick-Sums : (q : String) (n : ℕ) (running : List String) → Sums q running (pick n running)
unfolding Sums running_in
pick-Sums q n [] = tt
pick-Sums q zero (k ∷ running) = refl
pick-Sums q (suc n) (k ∷ running) = later-Sums q k running (pick n running) (pick-Sums q n running)

idle-Exact : Exact idle
unfolding running_in count_of lookup
idle-Exact q = refl

module _ (limit_of : String → ℤ) where
  start-Exact : (s : Invokes) (k : String) → Exact s → Exact (step limit_of (start k) s)
  unfolding step try running_in
  start-Exact s k h q =
      elim (Bool-cases
        (ltb_ℤ (pos 0) (limit_of k) && leb_ℤ (limit_of k) (pos (count_of s.counts k)))) [
          | inl full ↦ rw full (h q)
          | inr place ↦ rw place (
              written s.counts k q (count_of s.counts k + 1) ∙ ground (arith, h q, h k, eq_iff k q))
        ]

  finished-Exact :
      (s : Invokes) (picked : Option (String × List String))
      → Exact s
      → ((q : String) → Sums q s.running picked)
      → Exact (finished s picked)
  unfolding release Sums
  finished-Exact s none h sums q = h q
  finished-Exact s (some (found, others)) h sums q =
      let own : count_of s.counts found ≡ running_in found others + 1 =
        h found ∙ sums found ∙ rw (eq_refl found) refl in
      let positive : ltb 0 (count_of s.counts found) ≡ true = ground (arith, own) in
      rw positive (
        written s.counts found q (count_of s.counts found - 1)
        ∙ ground (arith, h q, sums q, own, eq_iff found q))

  step-Exact : (event : Event) (s : Invokes) → Exact s → Exact (step limit_of event s)
  unfolding step
  step-Exact (start k) s h = start-Exact s k h
  step-Exact (finish n) s h = finished-Exact s (pick n s.running) h (λ q. pick-Sums q n s.running)

  run-Exact : (events : List Event) (s : Invokes) → Exact s → Exact (run limit_of events s)
  unfolding run
  run-Exact [] s h = h
  run-Exact (event ∷ events) s h = run-Exact events (step limit_of event s) (step-Exact event s h)

  -- No sandbox with a limit has more invokes than it.
  abbrev Within : Invokes → Type 0
  Within s =
      (q : String)
      → ltb_ℤ (pos 0) (limit_of q) ≡ true
      → leb_ℤ (pos (running_in q s.running)) (limit_of q) ≡ true

  start-Within :
      (s : Invokes) (k : String) → Exact s → Within s → Within (step limit_of (start k) s)
  unfolding step try running_in
  start-Within s k exact h q limited =
      elim (Bool-cases
        (ltb_ℤ (pos 0) (limit_of k) && leb_ℤ (limit_of k) (pos (count_of s.counts k)))) [
          | inl full ↦ rw full (h q limited)
          | inr place ↦ rw place (elim (name_cases k q) [
            | inl same ↦
                let room : leb_ℤ (limit_of q) (pos (running_in q s.running)) ≡ false =
                  subst (λ (n : ℕ). leb_ℤ (limit_of q) (pos n) ≡ false) (exact q)
                    (no_room limited (
                      subst
                        (λ x.
                          (ltb_ℤ (pos 0) (limit_of x)
                            && leb_ℤ (limit_of x) (pos (count_of s.counts x)))
                          ≡ false)
                        same place)) in
                rw ((eq_iff k q).1 same) (ground (arith, room))
            | inr other ↦ rw other (h q limited)
          ])
        ]
    where
      no_room : {a b : Bool} → a ≡ true → (a && b) ≡ false → b ≡ false
      no_room is e = ground (arith, is, e)

  finished-Within :
      (s : Invokes) (picked : Option (String × List String))
      → Within s
      → ((q : String) → Sums q s.running picked)
      → Within (finished s picked)
  unfolding Sums
  finished-Within s none h sums q limited = h q limited
  finished-Within s (some (found, others)) h sums q limited = ground (arith, h q limited, sums q)

  run-Within :
      (events : List Event) (s : Invokes) → Exact s → Within s → Within (run limit_of events s)
  unfolding run step
  run-Within [] s exact h = h
  run-Within (start k ∷ events) s exact h =
      run-Within events (step limit_of (start k) s) (step-Exact (start k) s exact)
        (start-Within s k exact h)
  run-Within (finish n ∷ events) s exact h =
      run-Within events (step limit_of (finish n) s) (step-Exact (finish n) s exact)
        (finished-Within s (pick n s.running) h (λ q. pick-Sums q n s.running))

  idle-Within : Within idle
  unfolding running_in
  idle-Within q limited = ground (arith, limited)

  not_over :
      (q : String) (s : Invokes)
      → (ltb_ℤ (pos 0) (limit_of q) ≡ true
          → leb_ℤ (pos (running_in q s.running)) (limit_of q) ≡ true)
      → (ltb_ℤ (pos 0) (limit_of q) && ltb_ℤ (limit_of q) (pos (running_in q s.running))) ≡ false
  not_over q s within = elim (Bool-cases (ltb_ℤ (pos 0) (limit_of q))) [
    | inl limited ↦ rw limited (ground (arith, within limited))
    | inr free ↦ rw free refl
  ]

  -- After any starts and ends of invokes, in any order, the count of each sandbox is the number of its
  -- invokes that run, which is at most its limit where the limit is positive; and the next one is
  -- refused exactly if the limit is positive and as many are running.
  pub run-Exact-Within :
      (events : List Event) (q : String)
      → let s = run limit_of events idle in
        (count_of s.counts q ≡ running_in q s.running)
        × ((ltb_ℤ (pos 0) (limit_of q) && ltb_ℤ (limit_of q) (pos (running_in q s.running)))
            ≡ false)
        × ((try s.counts q (limit_of q)).0.1
            ≡ not (ltb_ℤ (pos 0) (limit_of q) && leb_ℤ (limit_of q) (pos (running_in q s.running))))
  unfolding try
  run-Exact-Within events q =
      let s = run limit_of events idle in
      let exact = run-Exact events idle idle-Exact in
      (
        exact q,
        not_over q (run limit_of events idle) (run-Within events idle idle-Exact idle-Within q),
        ground (arith, exact q),
      )
