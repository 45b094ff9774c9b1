-- ===== src/Backup.antt =====
-- pkg/controller/backup/scheduler.go: the snapshots of managed volumes, and their pruning. The API
-- server's answers are parameters.
pub mod Passes
mod Tests
use Prim.Native.String
use agenttier.Prelude.{
  ℕ, ◌+◌, ◌-◌, String, Bool, true, false, not, ◌&&◌, Option, none, some, List, [], ◌∷◌, ◌++◌,
  if◌then◌else◌, str_eq, leb, length, keep,
}

-- A volume claim with its two labels.
pub record Volume : Type 0 where
  pub name : String
  pub managed : Bool
  pub pooled : Bool

-- `created` is the creation time, if it is known; `backup` whether the snapshot's kind is that of a
-- scheduled backup.
pub record Snapshot : Type 0 where
  pub name : String
  pub source : String
  pub backup : Bool
  pub created : Option ℕ

-- Whether the two lists succeed, whether a snapshot of a name can be created and deleted, the time that
-- the API server stamps on what it creates, and how the time of the pass is printed in seconds.
pub record BackupEnv : Type 0 where
  pub lists_volumes : Bool
  pub lists_snapshots : Bool
  pub creates : String → Bool
  pub deletes : String → Bool
  pub stamp : Option ℕ
  pub unix : ℕ → String

-- The name with the time in seconds.
abbrev pub snapshot_name : BackupEnv → ℕ → String → String
snapshot_name env now volume = String.◌++◌ volume (String.◌++◌ "-backup-" (env.unix now))

abbrev pub backup_of : BackupEnv → ℕ → String → Snapshot
backup_of env now volume = record {
  name = snapshot_name env now volume;
  source = volume;
  backup = true;
  created = env.stamp;
}

-- One round of the loop over the managed volumes: a pooled one is skipped, a refused creation too.
abbrev pub snapshot_volume : BackupEnv → ℕ → Volume → List Snapshot → List Snapshot
snapshot_volume env now volume snapshots =
    if volume.pooled
    then snapshots
    else (if env.creates (snapshot_name env now volume.name)
        then backup_of env now volume.name ∷ snapshots
        else snapshots)

unfoldable pub snapshot_all : BackupEnv → ℕ → List Volume → List Snapshot → List Snapshot
snapshot_all env now [] snapshots = snapshots
snapshot_all env now (volume ∷ volumes) snapshots =
    snapshot_all env now volumes (snapshot_volume env now volume snapshots)

unfoldable pub snapshot_managed_pvcs : BackupEnv → ℕ → List Volume → List Snapshot → List Snapshot
snapshot_managed_pvcs env now volumes snapshots =
    if env.lists_volumes
    then snapshot_all env now (keep (λ (v : Volume). v.managed) volumes) snapshots
    else snapshots

-- Not after the cutoff, `now` less the retention; never where the creation time is unknown. A cutoff
-- before the epoch is after no snapshot.
abbrev pub is_past : ℕ → ℕ → Option ℕ → Bool
is_past now retention none = false
is_past now retention (some created) = leb (created + retention) now

abbrev pub is_pruned : BackupEnv → ℕ → ℕ → Snapshot → Bool
is_pruned env now retention s = s.backup && (is_past now retention s.created && env.deletes s.name)

unfoldable pub prune_expired : BackupEnv → ℕ → ℕ → List Snapshot → List Snapshot
prune_expired env now retention snapshots =
    if env.lists_snapshots
    then keep (λ s. not (is_pruned env now retention s)) snapshots
    else snapshots

-- The readings of the clock for the snapshots are taken as one, `now`; that for the pruning is `later`.
unfoldable pub run_once : BackupEnv → ℕ → ℕ → ℕ → List Volume → List Snapshot → List Snapshot
unfolding snapshot_managed_pvcs prune_expired
run_once env now later retention volumes snapshots =
    prune_expired env later retention (snapshot_managed_pvcs env now volumes snapshots)
