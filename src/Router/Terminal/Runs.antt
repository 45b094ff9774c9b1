-- ===== src/Router/Terminal/Runs.antt =====
-- Whatever is done to the sessions in whatever order, and what ends them.
use agenttier.Prelude.{
  ℕ, String, true, Option, none, some, List, [], ◌∷◌, str_eq, keep, In, In-keep, ◌≡◌, ◌≢◌, refl, ap,
  ◌∙◌, ◌↔◌, inl, inr, arith, eq_iff, name_cases, Bool-cases, ltb, ◌-◌,
}
use agenttier.Router.Terminal.{
  Session, Manager, new_manager, find, remove, create_session, get_session, reconnect_at,
  reconnect_found, reconnect, disconnect_session, disconnect_found, remove_session, remove_found,
  get_sandbox_sessions, terminate_sandbox_sessions, terminate_user_sessions, cleanup_each, cleanup,
  is_expired_session, default_reconnect_ttl,
}
use agenttier.Router.Terminal.Lists.{In-delete, In-delete_all, find_iff}
use agenttier.Router.Terminal.Consistency.{
  Consistent, Owns, remove-Consistent, terminate_sandbox_sessions-Consistent,
  terminate_user_sessions-Consistent, create_session-Consistent,
}

In-find : (id : String) (s : Session) (l : List Session) → find id l ≡ some s → In s l
unfolding find
In-find id s [] h = cc
In-find id s (t ∷ l) h = elim (name_cases t.id id) [
  | inl same ↦ inl (let test : str_eq t.id id ≡ true = (eq_iff t.id id).1 same in ground arith)
  | inr other ↦ inr (In-find id s l (ground arith))
]

found_Owns :
    (id : String) (s : Session) (m : Manager)
    → Consistent m
    → find id m.sessions ≡ some s
    → Owns m s
found_Owns id s m inv h t there same = inv.by_id t s there (In-find id s m.sessions h) same

-- The times of disconnection are no part of it.
timed-Consistent :
    (m : Manager) (at : String → Option ℕ)
    → Consistent m
    → Consistent (record m { disconnected_at = at })
timed-Consistent m at inv = record { listed = inv.listed; by_id = inv.by_id; once = inv.once }

reconnect_at-Consistent :
    (now : ℕ) (s : Session) (since : Option ℕ) (m : Manager)
    → Owns m s
    → Consistent m
    → Consistent (reconnect_at now s since m).1
reconnect_at-Consistent now s none m own inv = inv
reconnect_at-Consistent now s (some since) m own inv =
    elim (Bool-cases (ltb default_reconnect_ttl (now - since))) [
      | inl late ↦ rw late (remove-Consistent s m own inv)
      | inr early ↦ rw early (timed-Consistent m _ inv)
    ]

reconnect_found-Consistent :
    (now : ℕ) (found : Option Session) (m : Manager)
    → ((s : Session) → found ≡ some s → Owns m s)
    → Consistent m
    → Consistent (reconnect_found now found m).1
reconnect_found-Consistent now none m own inv = inv
reconnect_found-Consistent now (some s) m own inv =
    reconnect_at-Consistent now s (m.disconnected_at s.id) m (own s refl) inv

disconnect_found-Consistent :
    (now : ℕ) (found : Option Session) (m : Manager)
    → Consistent m
    → Consistent (disconnect_found now found m)
disconnect_found-Consistent now none m inv = inv
disconnect_found-Consistent now (some s) m inv = timed-Consistent m _ inv

remove_found-Consistent :
    (found : Option Session) (m : Manager)
    → ((s : Session) → found ≡ some s → Owns m s)
    → Consistent m
    → Consistent (remove_found found m)
remove_found-Consistent none m own inv = inv
remove_found-Consistent (some s) m own inv = remove-Consistent s m (own s refl) inv

remove-Owns : (s t : Session) (m : Manager) → Owns m t → Owns (remove s m) t
unfolding remove
remove-Owns s t m own u there same = own u ((In-delete s.id u m.sessions).0 there).0 same

cleanup_each-Consistent :
    (now : ℕ) (l : List Session) (m : Manager)
    → ((s : Session) → In s l → Owns m s)
    → Consistent m
    → Consistent (cleanup_each now l m)
unfolding cleanup_each
cleanup_each-Consistent now [] m own inv = inv
cleanup_each-Consistent now (s ∷ l) m own inv =
    elim (Bool-cases (is_expired_session now (m.disconnected_at s.id))) [
      | inl late ↦ rw late (
          cleanup_each-Consistent now l (remove s m) (λ t h. remove-Owns s t m (own t (inr h)))
            (remove-Consistent s m (own s (inl refl)) inv))
      | inr early ↦ rw early (cleanup_each-Consistent now l m (λ t h. own t (inr h)) inv)
    ]

-- What is done to a new manager: the IDs that are drawn for sessions are new.
pub data Run : Manager → Type 0 where
  started : Run new_manager
  created :
      {m : Manager} (s : Session)
      → ((t : Session) → In t m.sessions → t.id ≢ s.id)
      → Run m
      → Run (create_session s m)
  reconnected : {m : Manager} (id : String) (now : ℕ) → Run m → Run (reconnect id now m).1
  disconnected : {m : Manager} (id : String) (now : ℕ) → Run m → Run (disconnect_session id now m)
  removed : {m : Manager} (id : String) → Run m → Run (remove_session id m)
  terminated : {m : Manager} (b : String) → Run m → Run (terminate_sandbox_sessions b m)
  revoked : {m : Manager} (b user : String) → Run m → Run (terminate_user_sessions b user m)
  cleaned : {m : Manager} (now : ℕ) → Run m → Run (cleanup now m)

Run-Consistent : {m : Manager} → Run m → Consistent m
unfolding new_manager reconnect disconnect_session remove_session cleanup
Run-Consistent started = record {
  listed = λ b s. (λ h. absurd h, λ h. h.0);
  by_id = λ s t h. absurd h;
  once = λ b. tt;
}
Run-Consistent (created {m} s new r) = create_session-Consistent s m new (Run-Consistent r)
Run-Consistent (reconnected {m} id now r) =
    let inv = Run-Consistent r in
    reconnect_found-Consistent now (find id m.sessions) m (λ s h. found_Owns id s m inv h) inv
Run-Consistent (disconnected {m} id now r) =
    disconnect_found-Consistent now (find id m.sessions) m (Run-Consistent r)
Run-Consistent (removed {m} id r) =
    let inv = Run-Consistent r in
    remove_found-Consistent (find id m.sessions) m (λ s h. found_Owns id s m inv h) inv
Run-Consistent (terminated {m} b r) = terminate_sandbox_sessions-Consistent b m (Run-Consistent r)
Run-Consistent (revoked {m} b user r) =
    terminate_user_sessions-Consistent b user m (Run-Consistent r)
Run-Consistent (cleaned {m} now r) =
    let inv = Run-Consistent r in
    cleanup_each-Consistent now m.sessions m (λ s h t k same. inv.by_id t s k h same) inv

-- After whatever was done, the sessions listed for a sandbox are exactly those that are found under
-- their own ID and belong to the sandbox.
pub get_sandbox_sessions_iff :
    {m : Manager} (b : String) (s : Session)
    → Run m
    → In s (get_sandbox_sessions b m) ↔ ((get_session s.id m ≡ some s) × (s.sandbox_id ≡ b))
unfolding get_session
get_sandbox_sessions_iff {m} b s r =
    let inv = Run-Consistent r in
    (
      λ h.
          let (known, mine) = (inv.listed b s).0 h in
          ((find_iff s m.sessions (λ t k same. inv.by_id t s k known same)).1 known, mine),
      λ (found, mine). (inv.listed b s).1 (In-find s.id s m.sessions found, mine),
    )

-- A termination ends exactly the sessions of the sandbox, and a revocation exactly those of the user
-- on the sandbox: all others stay, after whatever was done before.
pub terminate_sessions_iff :
    {m : Manager} (b user : String) (s : Session)
    → Run m
    → (In s (terminate_sandbox_sessions b m).sessions ↔ (In s m.sessions × (s.sandbox_id ≢ b)))
      × (In s (terminate_user_sessions b user m).sessions
          ↔ (In s m.sessions × ¬ ((s.sandbox_id ≡ b) × (s.user_id ≡ user))))
unfolding terminate_sandbox_sessions terminate_user_sessions
terminate_sessions_iff {m} b user s r =
    let inv = Run-Consistent r in
    let hers = λ (t : Session). str_eq t.user_id user in
    let (to, from) = In-delete_all (m.by_sandbox b) s m.sessions in
    let (to', from') = In-delete_all (keep hers (m.by_sandbox b)) s m.sessions in
    (
      (
        λ h. ((to h).0, λ mine. (to h).1 s ((inv.listed b s).1 ((to h).0, mine)) refl),
        λ (known, other). from (
          known,
          λ t there same.
              let (t_known, at) = (inv.listed b t).0 there in
              other (ap (λ (x : Session). x.sandbox_id) (inv.by_id s t known t_known same) ∙ at),
        ),
      ),
      (
        λ h. (
          (to' h).0,
          λ (mine, me).
              (to' h).1 s
                ((In-keep hers s (m.by_sandbox b)).1
                  ((inv.listed b s).1 ((to' h).0, mine), (eq_iff s.user_id user).1 me))
                refl,
        ),
        λ (known, other). from' (
          known,
          λ t closed same.
              let (there, test) = (In-keep hers t (m.by_sandbox b)).0 closed in
              let (t_known, at) = (inv.listed b t).0 there in
              let s_t = inv.by_id s t known t_known same in
              other (
                ap (λ (x : Session). x.sandbox_id) s_t ∙ at,
                ap (λ (x : Session). x.user_id) s_t ∙ (eq_iff t.user_id user).0 test,
              ),
        ),
      ),
    )
