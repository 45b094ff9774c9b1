-- ===== src/WarmPool/Race.antt =====
-- Claims of pool.go that race over one API server: no pod is claimed twice. The API server is an
-- interface with the laws of optimistic concurrency that Claim's comment relies on; its history is a
-- sequence of states, and each claimer's list and updates stand at their places in it.
use agenttier.Prelude.{
  ℕ, zero, suc, ◌≤◌, ◌<◌, String, true, false, Option, none, some, List, ◌≡◌, ◌≢◌, sym, ap, subst,
  ◌∙◌, ◌⊎◌, inl, inr, arith, In, name_cases, eq_iff, Bool-cases, dec_lt,
}
use agenttier.WarmPool.Pods.{PoolPod, unlabelled}
use agenttier.WarmPool.Claim.{Answer, won, conflict, gone, broken, ClaimEnv, claimed, claim}
use agenttier.WarmPool.Claim.Outcomes.{Claims, claim-Claims}

pub record ApiServer : Type 1 where
  pub State : Type 0
  -- The object stored under a name.
  pub stored : State → String → Option PoolPod
  -- The revision of the last write, from which versions are taken.
  pub revision : State → ℕ
  pub update : State → PoolPod → Answer × State

module _ (api : ApiServer) where
  open api use {State, stored, revision, update}

  -- What a write to some name leaves: other names as they were, and a new version.
  pub record Optimistic : Type 0 where
    pub version_le :
        (s : State) (name : String) (pod : PoolPod)
        → stored s name ≡ some pod
        → pod.version ≤ revision s
    -- An update is accepted only from the version that is stored, and stores the labels of the copy
    -- under a new version.
    pub accepted :
        (s s' : State) (copy : PoolPod)
        → update s copy ≡ (won, s')
        → ((old : PoolPod) × (stored s copy.name ≡ some old) × (old.version ≡ copy.version))
          × ((new : PoolPod) × (stored s' copy.name ≡ some new)
              × (new.pooled ≡ copy.pooled)
              × (revision s < new.version))
          × ((name : String) → name ≢ copy.name → stored s' name ≡ stored s name)
    -- One that is not changes nothing.
    pub refused :
        (s s' : State) (copy : PoolPod) (a : Answer) → update s copy ≡ (a, s') → a ≢ won → s' ≡ s

  module _ (states : ℕ → State) where
    -- What the object of a name is after the event at a place that is no claimer's: what it was, or
    -- written anew, without being put into the pool, or created under a name that was never used.
    abbrev pub Written : ℕ → String → PoolPod → Type 0
    Written i name new =
        (stored (states i) name ≡ some new)
        ⊎ ((revision (states i) < new.version)
            × (((old : PoolPod) × (stored (states i) name ≡ some old)
                  × (new.pooled ≡ true → old.pooled ≡ true))
                ⊎ ((k : ℕ) → k ≤ i → stored (states k) name ≡ none)))

    -- What happens at a place of the history: a claimer's update of a pod, or what others write.
    pub data Event (i : ℕ) : Type 0 where
      updated :
          (pod : PoolPod) (a : Answer)
          → update (states i) (unlabelled pod) ≡ (a, states (suc i))
          → Event i
      wrote :
          revision (states i) ≤ revision (states (suc i))
          → ((name : String) (new : PoolPod)
              → stored (states (suc i)) name ≡ some new
              → Written i name new)
          → Event i

    -- The claimers, by number: the answers that each had, and where in the history they were given. A
    -- list has pods of the pool as they are stored there, an update that is answered as won was accepted
    -- there, and no place has updates of two claimers. What was never asked counts as not won.
    pub record Claimers : Type 0 where
      pub env : ℕ → ClaimEnv
      pub listed_at : ℕ → ℕ → ℕ
      pub updated_at : ℕ → ℕ → PoolPod → ℕ
      pub lists :
          (c a : ℕ) (pods : List PoolPod) (p : PoolPod)
          → (env c).listed a ≡ some pods
          → In p pods
          → (stored (states (listed_at c a)) p.name ≡ some p) × (p.pooled ≡ true)
      pub updates :
          (c a : ℕ) (pods : List PoolPod) (p : PoolPod)
          → (env c).listed a ≡ some pods
          → In p pods
          → (env c).updated a (unlabelled p) ≡ won
          → update (states (updated_at c a p)) (unlabelled p)
            ≡ (won, states (suc (updated_at c a p)))
      pub apart :
          (c d a b : ℕ) (p q : PoolPod)
          → (env c).updated a (unlabelled p) ≡ won
          → (env d).updated b (unlabelled q) ≡ won
          → updated_at c a p ≡ updated_at d b q
          → c ≡ d

    same_pod : {object : Option PoolPod} {p q : PoolPod} → object ≡ some p → object ≡ some q → p ≡ q
    same_pod h k = cc

    module _ (laws : Optimistic) (events : (i : ℕ) → Event i) where
      open laws use {version_le, accepted, refused}

      -- The object of a name, if there is one, is out of the pool, and was written after a place.
      abbrev IsOutSince : ℕ → String → ℕ → Type 0
      IsOutSince i name k =
          (q : PoolPod)
          → stored (states k) name ≡ some q
          → (q.pooled ≡ false) × (revision (states i) < q.version)

      kept :
          (k : ℕ) (pod : PoolPod) (a : Answer)
          → update (states k) (unlabelled pod) ≡ (a, states (suc k))
          → a ≢ won
          → states (suc k) ≡ states k
      kept k pod a u = refused (states k) (states (suc k)) (unlabelled pod) a u

      still : (k : ℕ) → states (suc k) ≡ states k → revision (states k) ≤ revision (states (suc k))
      still k e = rw e (omega arith)

      event_grows : (k : ℕ) → Event k → revision (states k) ≤ revision (states (suc k))
      event_grows k (updated pod won u) =
          let (_, (new, put, _, later), _) =
            accepted (states k) (states (suc k)) (unlabelled pod) u in
          let top = version_le (states (suc k)) pod.name new put in omega arith
      event_grows k (updated pod conflict u) = still k (kept k pod conflict u (λ e. cc))
      event_grows k (updated pod gone u) = still k (kept k pod gone u (λ e. cc))
      event_grows k (updated pod broken u) = still k (kept k pod broken u (λ e. cc))
      event_grows k (wrote grows writes) = grows

      grows : (i k : ℕ) → i ≤ k → revision (states i) ≤ revision (states k)
      grows i zero h = let e : i ≡ 0 = omega arith in rw e (omega arith)
      grows i (suc k) h = elim (dec_lt k i) [
        | yes now ↦ let e : i ≡ suc k = omega arith in rw e (omega arith)
        | no before ↦
            let up = grows i k (omega arith) in let next = event_grows k (events k) in omega arith
      ]

      -- A claim takes the pod out of the pool, with a new version.
      claimed-IsOutSince :
          (i : ℕ) (p : PoolPod)
          → update (states i) (unlabelled p) ≡ (won, states (suc i))
          → IsOutSince i p.name (suc i)
      claimed-IsOutSince i p u q at =
          let (_, (new, put, labels, later), _) =
            accepted (states i) (states (suc i)) (unlabelled p) u in
          let q_new : q ≡ new = same_pod at put in rw q_new (labels, later)

      updated-IsOutSince :
          (i k : ℕ) (name : String) (pod : PoolPod)
          → i ≤ k
          → update (states k) (unlabelled pod) ≡ (won, states (suc k))
          → IsOutSince i name k
          → IsOutSince i name (suc k)
      updated-IsOutSince i k name pod h u out q at = elim (name_cases name pod.name) [
        | inl same ↦
            let (outside, later) =
              claimed-IsOutSince k pod u q
                (subst (λ n. stored (states (suc k)) n ≡ some q) same at) in
            let before = grows i k h in (outside, omega arith)
        | inr other ↦
            let (_, _, others) = accepted (states k) (states (suc k)) (unlabelled pod) u in
            out q (sym (others name (ground (arith, eq_iff name pod.name))) ∙ at)
      ]

      wrote-IsOutSince :
          (i k : ℕ) (name : String) (first : PoolPod)
          → i ≤ k
          → stored (states i) name ≡ some first
          → ((n : String) (new : PoolPod) → stored (states (suc k)) n ≡ some new → Written k n new)
          → IsOutSince i name k
          → IsOutSince i name (suc k)
      wrote-IsOutSince i k name first h used writes out q at = elim (writes name q at) [
        | inl same ↦ out q same
        | inr (later, how) ↦ elim how [
          | inl (old, was, stays) ↦
              let outside = (out old was).0 in
              let before = grows i k h in
              elim (Bool-cases q.pooled) [
                | inl inside ↦ let again = stays inside in absurd (cc)
                | inr outside_now ↦ (outside_now, omega arith)
              ]
          | inr unused ↦ let never = unused i h in absurd (cc)
        ]
      ]

      unchanged :
          (i k : ℕ) (name : String)
          → states (suc k) ≡ states k
          → IsOutSince i name k
          → IsOutSince i name (suc k)
      unchanged i k name e out q at = out q (ap (λ s. stored s name) (sym e) ∙ at)

      event-IsOutSince :
          (i k : ℕ) (name : String) (first : PoolPod)
          → i ≤ k
          → stored (states i) name ≡ some first
          → Event k
          → IsOutSince i name k
          → IsOutSince i name (suc k)
      event-IsOutSince i k name first h used (updated pod won u) out =
          updated-IsOutSince i k name pod h u out
      event-IsOutSince i k name first h used (updated pod conflict u) out =
          unchanged i k name (kept k pod conflict u (λ e. cc)) out
      event-IsOutSince i k name first h used (updated pod gone u) out =
          unchanged i k name (kept k pod gone u (λ e. cc)) out
      event-IsOutSince i k name first h used (updated pod broken u) out =
          unchanged i k name (kept k pod broken u (λ e. cc)) out
      event-IsOutSince i k name first h used (wrote later writes) out =
          wrote-IsOutSince i k name first h used writes out

      -- From then on it stays out.
      later-IsOutSince :
          (i k : ℕ) (p : PoolPod)
          → update (states i) (unlabelled p) ≡ (won, states (suc i))
          → i < k
          → IsOutSince i p.name k
      later-IsOutSince i zero p u h = absurd (omega arith)
      later-IsOutSince i (suc k) p u h = elim (dec_lt i k) [
        | yes before ↦
            let ((first, used, _), _, _) = accepted (states i) (states (suc i)) (unlabelled p) u in
            event-IsOutSince i k p.name first (omega arith) used (events k)
              (later-IsOutSince i k p u before)
        | no now ↦
            let e : i ≡ k = omega arith in
            subst (λ j. IsOutSince i p.name (suc j)) e (claimed-IsOutSince i p u)
      ]

      -- A pod that is listed in the pool is not updated from there once it has been claimed.
      never_again :
          (i l j : ℕ) (p q : PoolPod)
          → update (states i) (unlabelled p) ≡ (won, states (suc i))
          → update (states j) (unlabelled q) ≡ (won, states (suc j))
          → i < j
          → q.name ≡ p.name
          → stored (states l) q.name ≡ some q
          → q.pooled ≡ true
          → ⊥
      never_again i l j p q u v after same at pooled = elim (dec_lt i l) [
        | yes relisted ↦
            let outside =
              (later-IsOutSince i l p u relisted q
                (subst (λ n. stored (states l) n ≡ some q) same at)).0 in
            absurd (cc)
        | no before ↦
            let ((old, was, version), _, _) =
              accepted (states j) (states (suc j)) (unlabelled q) v in
            let later =
              (later-IsOutSince i j p u after old
                (subst (λ n. stored (states j) n ≡ some old) same was)).1 in
            let top = version_le (states l) q.name q at in
            let up = grows l i (omega arith) in omega arith
      ]

-- However many claimers list and update pods of the pool in whatever order, and whatever others write
-- in between without putting an object back into the pool or creating one under a name that was used
-- before, no two claims return the same pod.
pub claim_once :
    (api : ApiServer) (states : ℕ → api.State)
    → Optimistic api
    → ((i : ℕ) → Event api states i)
    → (cs : Claimers api states) (c d : ℕ) (name volume volume' : String) → c ≢ d
    → claim (cs.env c) ≡ claimed name volume
    → claim (cs.env d) ≢ claimed name volume'
claim_once api states laws events cs c d name volume volume' other mine theirs =
    let (a, _, _, (pods, listed, (p, (m, _, u), named, _))) =
      subst (Claims (cs.env c) 0 3) mine (claim-Claims (cs.env c)) in
    let (b, _, _, (pods', listed', (q, (m', _, u'), named', _))) =
      subst (Claims (cs.env d) 0 3) theirs (claim-Claims (cs.env d)) in
    let same : q.name ≡ p.name = sym named' ∙ named in
    let (at, pooled) = cs.lists c a pods p listed m in
    let (at', pooled') = cs.lists d b pods' q listed' m' in
    let first = cs.updates c a pods p listed m u in
    let second = cs.updates d b pods' q listed' m' u' in
    let i = cs.updated_at c a p in
    let j = cs.updated_at d b q in
    elim (dec_lt i j) [
      | yes before ↦
          never_again api states laws events i (cs.listed_at d b) j p q first second before same at'
            pooled'
      | no not_before ↦ elim (dec_lt j i) [
        | yes after ↦
            never_again api states laws events j (cs.listed_at c a) i q p second first after
              (sym same) at pooled
        | no not_after ↦ let e : i ≡ j = omega arith in absurd (other (cs.apart c d a b p q u u' e))
      ]
    ]
