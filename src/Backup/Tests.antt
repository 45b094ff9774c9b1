-- ===== src/Backup/Tests.antt =====
-- The theorem on backups at a concrete input.
use agenttier.Prelude.{true, false, some, [], ◌∷◌, refl, ◌↔◌, ◌⊎◌, In}
use agenttier.Backup.{Volume, Snapshot, BackupEnv, run_once}
use agenttier.Backup.Passes.{Taken, Expired, run_once-In}

abbrev served : BackupEnv
served = record {
  lists_volumes = true;
  lists_snapshots = true;
  creates = λ name. true;
  deletes = λ name. true;
  stamp = some 100;
  unix = λ t. "100";
}

abbrev workspace : Volume
workspace = record { name = "sb-1"; managed = true; pooled = false }

abbrev old_backup : Snapshot
old_backup = record { name = "sb-1-backup-10"; source = "sb-1"; backup = true; created = some 10 }

run_once-In_example :
    In old_backup (run_once served 100 101 30 (workspace ∷ []) (old_backup ∷ [])) ↔ (
      (In old_backup (old_backup ∷ []) ⊎ Taken served 100 (workspace ∷ []) old_backup)
      × ¬ Expired served 101 30 old_backup)
run_once-In_example =
    run_once-In served 100 101 30 (workspace ∷ []) (old_backup ∷ []) old_backup refl refl
