-- ===== src/Router/Terminal/Lists.antt =====
-- Lists of sessions: what the loops of the session manager leave in them.
use agenttier.Prelude.{
  String, Bool, true, not, some, List, [], ◌∷◌, ◌++◌, str_eq, keep, In, In-keep, ◌≡◌, ◌≢◌, refl,
  sym, ap, ◌∙◌, ◌↔◌, ◌⊎◌, inl, inr, arith, eq_iff, name_cases, Bool-cases,
}
use agenttier.Router.Terminal.{Session, delete, find, remove_first, delete_all}

-- No two sessions of the list share an ID.
abbrev pub IdsDiffer : List Session → Type 0
IdsDiffer [] = Unit
IdsDiffer (s ∷ l) = ((t : Session) → In t l → t.id ≢ s.id) × IdsDiffer l

pub In-delete :
    (id : String) (s : Session) (l : List Session) → In s (delete id l) ↔ (In s l × (s.id ≢ id))
In-delete id s l =
    let (to, from) = In-keep (λ (t : Session). not (str_eq t.id id)) s l in
    (
      λ h. ((to h).0, λ e. let t = (to h).1 in ground (arith, eq_iff s.id id)),
      λ (h, differ). from (h, ground (arith, eq_iff s.id id)),
    )

pub In-remove_first :
    (id : String) (s : Session) (l : List Session)
    → IdsDiffer l
    → In s (remove_first id l) ↔ (In s l × (s.id ≢ id))
unfolding remove_first
In-remove_first id s [] d = (λ h. absurd h, λ h. h.0)
In-remove_first id s (t ∷ l) d = elim (name_cases t.id id) [
  | inl same ↦
      let test : str_eq t.id id ≡ true = (eq_iff t.id id).1 same in
      rw test (
        λ h. (inr h, λ i. d.0 s h (i ∙ sym same)),
        λ (h, i). elim h [ inl e ↦ absurd (i (ap (λ (x : Session). x.id) e ∙ same)) | inr m ↦ m ],
      )
  | inr other ↦
      let (to, from) = In-remove_first id s l d.1 in
      let differ : t.id ≢ id = λ e. ground (arith, eq_iff t.id id) in
      rw other (
        λ h. elim h [
          | inl e ↦ (inl e, λ i. differ (sym (ap (λ (x : Session). x.id) e) ∙ i))
          | inr m ↦ (inr (to m).0, (to m).1)
        ],
        λ (h, i). elim h [ inl e ↦ inl e | inr m ↦ inr (from (m, i)) ],
      )
]

pub IdsDiffer-remove_first :
    (id : String) (l : List Session) → IdsDiffer l → IdsDiffer (remove_first id l)
unfolding remove_first
IdsDiffer-remove_first id [] d = tt
IdsDiffer-remove_first id (t ∷ l) d = elim (name_cases t.id id) [
  | inl same ↦ let test : str_eq t.id id ≡ true = (eq_iff t.id id).1 same in rw test d.1
  | inr other ↦
      rw other
        ((λ s h. d.0 s ((In-remove_first id s l d.1).0 h).0), IdsDiffer-remove_first id l d.1)
]

pub IdsDiffer-keep : (p : Session → Bool) (l : List Session) → IdsDiffer l → IdsDiffer (keep p l)
IdsDiffer-keep p [] d = tt
IdsDiffer-keep p (t ∷ l) d = elim (Bool-cases (p t)) [
  | inl pass ↦ rw pass ((λ s h. d.0 s ((In-keep p s l).0 h).0), IdsDiffer-keep p l d.1)
  | inr miss ↦ rw miss (IdsDiffer-keep p l d.1)
]

pub In-append : (s t : Session) (l : List Session) → In s (l ++ (t ∷ [])) ↔ (In s l ⊎ (s ≡ t))
In-append s t [] = (
  λ h. elim h [ inl e ↦ inr e | inr x ↦ absurd x ],
  λ h. elim h [ inl x ↦ absurd x | inr e ↦ inl e ],
)
In-append s t (u ∷ l) =
    let (to, from) = In-append s t l in
    (
      λ h. elim h [
        | inl e ↦ inl (inl e)
        | inr m ↦ elim (to m) [ inl x ↦ inl (inr x) | inr e ↦ inr e ]
      ],
      λ h. elim h [
        | inl x ↦ elim x [ inl e ↦ inl e | inr m ↦ inr (from (inl m)) ]
        | inr e ↦ inr (from (inr e))
      ],
    )

pub IdsDiffer-append :
    (t : Session) (l : List Session)
    → ((s : Session) → In s l → s.id ≢ t.id)
    → IdsDiffer l
    → IdsDiffer (l ++ (t ∷ []))
IdsDiffer-append t [] new d = ((λ s h. absurd h), tt)
IdsDiffer-append t (u ∷ l) new d = (
  λ s h. elim ((In-append s t l).0 h) [
    | inl m ↦ d.0 s m
    | inr e ↦ λ same. new u (inl refl) (sym same ∙ ap (λ (x : Session). x.id) e)
  ],
  IdsDiffer-append t l (λ s h. new s (inr h)) d.1,
)

pub In-delete_all :
    (closed : List Session) (s : Session) (l : List Session)
    → In s (delete_all closed l) ↔ (In s l × ((t : Session) → In t closed → s.id ≢ t.id))
unfolding delete_all
In-delete_all [] s l = (λ h. (h, λ t x. absurd x), λ h. h.0)
In-delete_all (c ∷ closed) s l =
    let (to, from) = In-delete_all closed s (delete c.id l) in
    let (one, back) = In-delete c.id s l in
    (
      λ h. (
        (one (to h).0).0,
        λ t x. elim x [
          | inl e ↦ λ same. (one (to h).0).1 (same ∙ ap (λ (x : Session). x.id) e)
          | inr later ↦ (to h).1 t later
        ],
      ),
      λ h. from (back (h.0, h.1 c (inl refl)), λ t x. h.1 t (inr x)),
    )

-- A session is found under its ID where the ID is its own.
pub find_iff :
    (s : Session) (l : List Session)
    → ((t : Session) → In t l → t.id ≡ s.id → t ≡ s)
    → (find s.id l ≡ some s) ↔ In s l
unfolding find
find_iff s [] own = (λ h. cc, λ m. absurd m)
find_iff s (t ∷ l) own =
    let (to, from) = find_iff s l (λ u m. own u (inr m)) in
    elim (name_cases t.id s.id) [
      | inl same ↦
          let test : str_eq t.id s.id ≡ true = (eq_iff t.id s.id).1 same in
          rw test (λ h. inl (sym (own t (inl refl) same)), λ m. ap some (own t (inl refl) same))
      | inr other ↦
          let differ : t.id ≢ s.id = λ e. ground (arith, eq_iff t.id s.id) in
          rw other (
            λ h. inr (to h),
            λ m. elim m [
              | inl e ↦ absurd (differ (sym (ap (λ (x : Session). x.id) e)))
              | inr later ↦ from later
            ],
          )
    ]
