-- ===== src/Router/Terminal/Consistency.antt =====
-- The two maps of the sessions hold the same sessions, whatever is done.
use agenttier.Prelude.{
  ℕ, String, true, not, Option, List, [], ◌∷◌, ◌++◌, str_eq, keep, In, In-keep, ◌≡◌, ◌≢◌, refl, sym,
  ap, ◌∙◌, ◌↔◌, inl, inr, arith, eq_iff, name_cases, Bool-cases,
}
use agenttier.Router.Terminal.{
  Session, Manager, assign, delete, remove_first, remove, create_session, delete_all,
  terminate_sandbox_sessions, terminate_user_sessions,
}
use agenttier.Router.Terminal.Lists.{
  IdsDiffer, In-delete, In-remove_first, IdsDiffer-remove_first, IdsDiffer-keep, In-append,
  IdsDiffer-append, In-delete_all,
}

pub record Consistent (m : Manager) : Type 0 where
  -- A sandbox's list holds exactly the sessions of the sandbox.
  pub listed :
      (b : String) (s : Session) → In s (m.by_sandbox b) ↔ (In s m.sessions × (s.sandbox_id ≡ b))
  -- An ID is that of one session.
  pub by_id : (s t : Session) → In s m.sessions → In t m.sessions → s.id ≡ t.id → s ≡ t
  -- A sandbox's list names a session once.
  pub once : (b : String) → IdsDiffer (m.by_sandbox b)

assigned :
    (old : String → List Session) (key b : String) (new : List Session) (P : List Session → Type 0)
    → (key ≡ b → P new)
    → (key ≢ b → P (old b))
    → P (assign old key new b)
assigned old key b new P here there = elim (name_cases key b) [
  | inl same ↦ let test : str_eq key b ≡ true = (eq_iff key b).1 same in rw test (here same)
  | inr other ↦ rw other (there (λ e. ground (arith, eq_iff key b)))
]

-- A change that takes the same sessions out of the map of IDs and of one sandbox's list.
shrunk :
    (m : Manager) (Stays : Session → Type 0) (sessions list : List Session) (b : String)
    (at : String → Option ℕ)
    → Consistent m
    → ((s : Session) → In s sessions ↔ (In s m.sessions × Stays s))
    → ((s : Session) → In s list ↔ (In s (m.by_sandbox b) × Stays s))
    → ((s : Session) → In s m.sessions → s.sandbox_id ≢ b → Stays s)
    → IdsDiffer list
    → Consistent (record {
      sessions = sessions;
      by_sandbox = assign m.by_sandbox b list;
      disconnected_at = at;
    })
shrunk m Stays sessions list b at inv ids there elsewhere differ = record {
  listed = λ b' s.
      assigned m.by_sandbox b b' list (λ l. In s l ↔ (In s sessions × (s.sandbox_id ≡ b')))
        (λ same. (
          λ h.
              let (old, stays) = (there s).0 h in
              let (known, mine) = (inv.listed b s).0 old in ((ids s).1 (known, stays), mine ∙ same),
          λ (h, mine).
              let (known, stays) = (ids s).0 h in
              (there s).1 ((inv.listed b s).1 (known, mine ∙ sym same), stays),
        ))
        (λ other. (
          λ h.
              let (known, mine) = (inv.listed b' s).0 h in
              ((ids s).1 (known, elsewhere s known (λ e. other (sym e ∙ mine))), mine),
          λ (h, mine). (inv.listed b' s).1 (((ids s).0 h).0, mine),
        ));
  by_id = λ s t h k. inv.by_id s t ((ids s).0 h).0 ((ids t).0 k).0;
  once = λ b'. assigned m.by_sandbox b b' list IdsDiffer (λ _. differ) (λ _. inv.once b');
}

-- A session's ID is its own among the sessions.
abbrev pub Owns : Manager → Session → Type 0
Owns m s = (t : Session) → In t m.sessions → t.id ≡ s.id → t ≡ s

pub remove-Consistent :
    (s : Session) (m : Manager) → Owns m s → Consistent m → Consistent (remove s m)
unfolding remove
remove-Consistent s m own inv =
    shrunk m (λ t. t.id ≢ s.id) (delete s.id m.sessions)
      (remove_first s.id (m.by_sandbox s.sandbox_id)) s.sandbox_id m.disconnected_at inv
      (λ t. In-delete s.id t m.sessions)
      (λ t. In-remove_first s.id t (m.by_sandbox s.sandbox_id) (inv.once s.sandbox_id))
      (λ t h other same. other (ap (λ (x : Session). x.sandbox_id) (own t h same)))
      (IdsDiffer-remove_first s.id (m.by_sandbox s.sandbox_id) (inv.once s.sandbox_id))

-- The sessions of one sandbox are apart from all others by their IDs.
apart :
    (m : Manager) (b : String) (s t : Session)
    → Consistent m
    → In s m.sessions
    → s.sandbox_id ≢ b
    → In t (m.by_sandbox b)
    → s.id ≢ t.id
apart m b s t inv known other mine same =
    let (t_known, at) = (inv.listed b t).0 mine in
    other (ap (λ (x : Session). x.sandbox_id) (inv.by_id s t known t_known same) ∙ at)

pub terminate_sandbox_sessions-Consistent :
    (b : String) (m : Manager) → Consistent m → Consistent (terminate_sandbox_sessions b m)
unfolding terminate_sandbox_sessions
terminate_sandbox_sessions-Consistent b m inv =
    shrunk m (λ s. (t : Session) → In t (m.by_sandbox b) → s.id ≢ t.id)
      (delete_all (m.by_sandbox b) m.sessions) [] b m.disconnected_at inv
      (λ s. In-delete_all (m.by_sandbox b) s m.sessions)
      (λ s. (λ h. absurd h, λ (h, stays). stays s h refl))
      (λ s h other t mine. apart m b s t inv h other mine) tt

-- Those of a sandbox that a revocation leaves are those of other users.
pub staying :
    (m : Manager) (b user : String) (s : Session)
    → Consistent m
    → In s (keep (λ t. not (str_eq t.user_id user)) (m.by_sandbox b)) ↔ (
        In s (m.by_sandbox b)
        × ((t : Session) → In t (keep (λ u. str_eq u.user_id user) (m.by_sandbox b)) → s.id ≢ t.id))
staying m b user s inv =
    let (to, from) = In-keep (λ (t : Session). not (str_eq t.user_id user)) s (m.by_sandbox b) in
    let mine = λ (t : Session). str_eq t.user_id user in
    (
      λ h. (
        (to h).0,
        λ t closed same.
            let (there, hers) = (In-keep mine t (m.by_sandbox b)).0 closed in
            let s_t =
              inv.by_id s t ((inv.listed b s).0 (to h).0).0 ((inv.listed b t).0 there).0 same in
            let test = (to h).1 in ground arith,
      ),
      λ (h, stays). from (
        h,
        elim (Bool-cases (str_eq s.user_id user)) [
          | inl hers ↦ absurd (stays s ((In-keep mine s (m.by_sandbox b)).1 (h, hers)) refl)
          | inr others ↦ rw others refl
        ],
      ),
    )

pub terminate_user_sessions-Consistent :
    (b user : String) (m : Manager) → Consistent m → Consistent (terminate_user_sessions b user m)
unfolding terminate_user_sessions
terminate_user_sessions-Consistent b user m inv =
    let mine = λ (s : Session). str_eq s.user_id user in
    let others = λ (s : Session). not (str_eq s.user_id user) in
    shrunk m (λ s. (t : Session) → In t (keep mine (m.by_sandbox b)) → s.id ≢ t.id)
      (delete_all (keep mine (m.by_sandbox b)) m.sessions) (keep others (m.by_sandbox b)) b
      m.disconnected_at inv (λ s. In-delete_all (keep mine (m.by_sandbox b)) s m.sessions)
      (λ s. staying m b user s inv)
      (λ s h other t closed.
        apart m b s t inv h other ((In-keep mine t (m.by_sandbox b)).0 closed).0)
      (IdsDiffer-keep others (m.by_sandbox b) (inv.once b))

pub create_session-Consistent :
    (s : Session) (m : Manager)
    → ((t : Session) → In t m.sessions → t.id ≢ s.id)
    → Consistent m
    → Consistent (create_session s m)
unfolding create_session
create_session-Consistent s m new inv = record {
  listed = λ b t.
      assigned m.by_sandbox s.sandbox_id b (m.by_sandbox s.sandbox_id ++ (s ∷ []))
        (λ l. In t l ↔ (In t (s ∷ delete s.id m.sessions) × (t.sandbox_id ≡ b)))
        (λ same. (
          λ h. elim ((In-append t s (m.by_sandbox s.sandbox_id)).0 h) [
            | inl old ↦
                let (known, mine) = (inv.listed s.sandbox_id t).0 old in
                (inr ((In-delete s.id t m.sessions).1 (known, new t known)), mine ∙ same)
            | inr e ↦ (inl e, ap (λ (x : Session). x.sandbox_id) e ∙ same)
          ],
          λ (h, mine). (In-append t s (m.by_sandbox s.sandbox_id)).1 (elim h [
            | inl e ↦ inr e
            | inr old ↦ inl (
                (inv.listed s.sandbox_id t).1
                  (((In-delete s.id t m.sessions).0 old).0, mine ∙ sym same))
          ]),
        ))
        (λ other. (
          λ h.
              let (known, mine) = (inv.listed b t).0 h in
              (inr ((In-delete s.id t m.sessions).1 (known, new t known)), mine),
          λ (h, mine). elim h [
            | inl e ↦ absurd (other (sym (ap (λ (x : Session). x.sandbox_id) e) ∙ mine))
            | inr old ↦ (inv.listed b t).1 (((In-delete s.id t m.sessions).0 old).0, mine)
          ],
        ));
  by_id = λ t u h k same. elim h [
    | inl e ↦ elim k [
      | inl e' ↦ e ∙ sym e'
      | inr old ↦
          absurd (((In-delete s.id u m.sessions).0 old).1 (sym same ∙ ap (λ (x : Session). x.id) e))
    ]
    | inr old ↦ elim k [
      | inl e' ↦
          absurd (((In-delete s.id t m.sessions).0 old).1 (same ∙ ap (λ (x : Session). x.id) e'))
      | inr old' ↦
          inv.by_id t u ((In-delete s.id t m.sessions).0 old).0
            ((In-delete s.id u m.sessions).0 old').0 same
    ]
  ];
  once = λ b.
      assigned m.by_sandbox s.sandbox_id b (m.by_sandbox s.sandbox_id ++ (s ∷ [])) IdsDiffer
        (λ _.
          IdsDiffer-append s (m.by_sandbox s.sandbox_id)
            (λ t h. new t ((inv.listed s.sandbox_id t).0 h).0) (inv.once s.sandbox_id))
        (λ _. inv.once b);
}
