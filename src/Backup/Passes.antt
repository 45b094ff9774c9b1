-- ===== src/Backup/Passes.antt =====
-- Which snapshots there are after a pass.
use agenttier.Prelude.{
  ℕ, ◌+◌, ◌≤◌, true, false, not, Option, none, some, List, [], ◌∷◌, ◌≡◌, refl, subst, ◌↔◌, ◌⊎◌, inl,
  inr, arith, In, In-keep, keep, Bool-cases,
}
use agenttier.Backup.{
  Volume, Snapshot, BackupEnv, snapshot_name, backup_of, snapshot_volume, snapshot_all,
  snapshot_managed_pvcs, is_past, is_pruned, prune_expired, run_once,
}

-- The snapshot that a pass takes of a volume, which is not pooled and can be snapshotted.
abbrev pub TakenOf : BackupEnv → ℕ → Volume → Snapshot → Type 0
TakenOf env now v s =
    (v.pooled ≡ false)
    × (env.creates (snapshot_name env now v.name) ≡ true)
    × (s ≡ backup_of env now v.name)

-- A snapshot that a pass takes of a managed volume.
abbrev pub Taken : BackupEnv → ℕ → List Volume → Snapshot → Type 0
Taken env now volumes s = (v : Volume) × (In v volumes × (v.managed ≡ true)) × TakenOf env now v s

-- A backup whose creation is known to lie the retention back, and that can be deleted.
abbrev pub Expired : BackupEnv → ℕ → ℕ → Snapshot → Type 0
Expired env now retention s =
    (s.backup ≡ true)
    × ((t : ℕ) × (s.created ≡ some t) × (t + retention ≤ now))
    × (env.deletes s.name ≡ true)

In-snapshot_volume :
    (env : BackupEnv) (now : ℕ) (v : Volume) (snapshots : List Snapshot) (s : Snapshot)
    → In s (snapshot_volume env now v snapshots) ↔ (In s snapshots ⊎ TakenOf env now v s)
In-snapshot_volume env now v snapshots s = elim (Bool-cases v.pooled) [
  | inl pooled ↦ rw pooled (λ h. inl h, λ h. elim h [ inl m ↦ m | inr t ↦ let no = t.0 in cc ])
  | inr own ↦ elim (Bool-cases (env.creates (snapshot_name env now v.name))) [
    | inl made ↦
        rw (own, made)
          (
            λ h. elim h [ inl e ↦ inr (refl, refl, e) | inr m ↦ inl m ],
            λ h. elim h [ inl m ↦ inr m | inr t ↦ inl t.2 ],
          )
    | inr lost ↦ rw (own, lost) (λ h. inl h, λ h. elim h [ inl m ↦ m | inr t ↦ let no = t.1 in cc ])
  ]
]

In-snapshot_all :
    (env : BackupEnv) (now : ℕ) (volumes : List Volume) (snapshots : List Snapshot) (s : Snapshot)
    → In s (snapshot_all env now volumes snapshots)
      ↔ (In s snapshots ⊎ ((v : Volume) × In v volumes × TakenOf env now v s))
unfolding snapshot_all
In-snapshot_all env now [] snapshots s =
    (λ h. inl h, λ h. elim h [ inl m ↦ m | inr t ↦ absurd t.1 ])
In-snapshot_all env now (v ∷ volumes) snapshots s =
    let (to, from) = In-snapshot_all env now volumes (snapshot_volume env now v snapshots) s in
    let (to_one, from_one) = In-snapshot_volume env now v snapshots s in
    (
      λ h. elim (to h) [
        | inl m ↦ elim (to_one m) [ inl old ↦ inl old | inr t ↦ inr (v, inl refl, t) ]
        | inr (w, m, t) ↦ inr (w, inr m, t)
      ],
      λ h. elim h [
        | inl old ↦ from (inl (from_one (inl old)))
        | inr (w, m, t) ↦ elim m [
          | inl e ↦ from (inl (from_one (inr (subst (λ u. TakenOf env now u s) e t))))
          | inr later ↦ from (inr (w, later, t))
        ]
      ],
    )

is_past_iff :
    (now retention : ℕ) (created : Option ℕ)
    → (is_past now retention created ≡ true)
      ↔ ((t : ℕ) × (created ≡ some t) × (t + retention ≤ now))
is_past_iff now retention none = (λ h. cc, λ h. let e = h.1 in cc)
is_past_iff now retention (some t) = (λ h. (t, refl, ground arith), λ (u, e, le). ground arith)

is_pruned_iff :
    (env : BackupEnv) (now retention : ℕ) (s : Snapshot)
    → (is_pruned env now retention s ≡ true) ↔ Expired env now retention s
is_pruned_iff env now retention s =
    let (to, from) = is_past_iff now retention s.created in
    (λ h. (ground arith, to (ground arith), ground arith), λ h. let past = from h.1 in ground arith)

-- After a pass whose two lists succeed there are exactly the snapshots that were there and those of the
-- managed volumes that are not pooled and could be snapshotted, less the backups that are known to be
-- as old as the retention and could be deleted.
pub run_once-In :
    (env : BackupEnv) (now later retention : ℕ) (volumes : List Volume) (snapshots : List Snapshot)
    (s : Snapshot)
    → env.lists_volumes ≡ true
    → env.lists_snapshots ≡ true
    → In s (run_once env now later retention volumes snapshots)
      ↔ ((In s snapshots ⊎ Taken env now volumes s) × ¬ Expired env later retention s)
unfolding run_once snapshot_managed_pvcs prune_expired snapshot_all
run_once-In env now later retention volumes snapshots s lv ls =
    let all = snapshot_all env now (keep (λ (v : Volume). v.managed) volumes) snapshots in
    let (to, from) =
      In-snapshot_all env now (keep (λ (v : Volume). v.managed) volumes) snapshots s in
    let (kept, keeps) = In-keep (λ (x : Snapshot). not (is_pruned env later retention x)) s all in
    let (is_old, was_old) = is_pruned_iff env later retention s in
    rw (lv, ls)
      (
        λ h. (
          elim (to (kept h).0) [
            | inl old ↦ inl old
            | inr (v, m, t) ↦ inr (v, (In-keep (λ (u : Volume). u.managed) v volumes).0 m, t)
          ],
          λ x. let pruned = was_old x in let stays = (kept h).1 in ground arith,
        ),
        λ (h, stays). keeps (
          from (elim h [
            | inl old ↦ inl old
            | inr (v, m, t) ↦ inr (v, (In-keep (λ (u : Volume). u.managed) v volumes).1 m, t)
          ]),
          elim (Bool-cases (is_pruned env later retention s)) [
            | inl pruned ↦ absurd (stays (is_old pruned))
            | inr other ↦ rw other refl
          ],
        ),
      )
