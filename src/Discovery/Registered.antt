-- ===== src/Discovery/Registered.antt =====
-- What a run of the discovery does to the databases and the backups.
use pgwarden.Prelude.{
  ◌≡◌, refl, ◌∙◌, Bool, true, false, not, ◌&&◌, ◌||◌, none, Result, ok, err, List, [], ◌∷◌, ◌++◌,
  Bytes, text_eq, text_eq_refl, text_eq_iff, arith, Bool-cases, Option-cases, inl, inr,
}
use pgwarden.Config.{Config, HostConfig, ClusterConfig, ConfigError, max_db_size_bytes}
use pgwarden.Scan.{Event, discover_clusters, info, database_register_started, database_found}
use pgwarden.Discovery.{
  database_event, log, record_ensured, run_database, run_databases, run_listed, run_clusters,
  run_scanned, run_hosts, run_locked, all_hosts, is_too_big, count_seen, count_skipped,
  count_backup, count_database, count_cluster, fail_with,
}
use pgwarden.Discovery.Register.{
  State, Calls, Backup, RemoteDatabase, Ensured, has_backup, dest_dir, backup_name, ensure_database,
  new_backup, create_backup, finish_backup, add_backup, ensure_backup, is_excluded, no_effect,
}

-- The backup destinations are all different, and no backup is both parallel and serializable-deferrable.
unfoldable pub AreSound : List Backup → Type 0
AreSound [] = Unit
AreSound (b ∷ backups) =
    (has_backup b.dest_dir backups ≡ false)
    × (((b.parallel_dump_enabled && b.opt_serializable_deferrable) ≡ false) × AreSound backups)

has_backup-snoc :
    (dir : Bytes) (b : Backup) (backups : List Backup)
    → has_backup dir (backups ++ b ∷ []) ≡ (has_backup dir backups || text_eq b.dest_dir dir)
unfolding has_backup
has_backup-snoc dir b [] = ground arith
has_backup-snoc dir b (c ∷ backups) = ground (arith, has_backup-snoc dir b backups)

has_backup-In :
    (dir other : Bytes) (backups : List Backup)
    → has_backup dir backups ≡ false
    → text_eq dir other ≡ true
    → has_backup other backups ≡ false
has_backup-In dir other backups h e = rw (← (text_eq_iff dir other).0 e) h

text_eq_sym : (a b : Bytes) → text_eq a b ≡ text_eq b a
unfolding text_eq
text_eq_sym [] [] = refl
text_eq_sym [] (y ∷ b) = refl
text_eq_sym (x ∷ a) [] = refl
text_eq_sym (x ∷ a) (y ∷ b) = ground (arith, text_eq_sym a b)

snoc-AreSound :
    (b : Backup) (backups : List Backup)
    → has_backup b.dest_dir backups ≡ false
    → (b.parallel_dump_enabled && b.opt_serializable_deferrable) ≡ false
    → AreSound backups
    → AreSound (backups ++ b ∷ [])
unfolding AreSound has_backup
snoc-AreSound b [] h fits s = (refl, (fits, tt))
snoc-AreSound b (c ∷ backups) h fits s = (
  has_backup-snoc c.dest_dir b backups ∙ ground (arith, s.0, text_eq_sym b.dest_dir c.dest_dir, h),
  (s.1.0, snoc-AreSound b backups (ground (arith, h)) fits s.1.1),
)

ensure_database-backups :
    (calls : Calls) (cfg : Config) (host : HostConfig) (cluster : ClusterConfig)
    (db : RemoteDatabase) (name : Bytes) (s : State)
    → (ensure_database calls cfg host cluster db name s).1.backups ≡ s.backups
unfolding ensure_database
ensure_database-backups calls cfg host cluster db name s = ground arith

add_backup-AreSound :
    (calls : Calls) (cfg : Config) (b : Backup) (r : Result Bytes Bool) (s : State)
    → has_backup b.dest_dir s.backups ≡ false
    → (b.parallel_dump_enabled && b.opt_serializable_deferrable) ≡ false
    → AreSound s.backups
    → AreSound (add_backup calls cfg b (r, s)).1.backups
unfolding add_backup finish_backup create_backup
add_backup-AreSound calls cfg b (err e) s h fits sound = sound
add_backup-AreSound calls cfg b (ok created) s h fits sound =
    elim (Option-cases (calls.parse_uuid cfg.defaults.destination_id)) [
      | inr (e, bad) ↦ rw bad sound
      | inl fine ↦ elim (Option-cases (calls.insert_backup b.dest_dir)) [
        | inr (e, bad) ↦ rw (fine, bad) sound
        | inl inserted ↦ elim (Option-cases (calls.schedule_job b.dest_dir)) [
          | inr (e, bad) ↦ rw (fine, inserted, bad) (snoc-AreSound b s.backups h fits sound)
          | inl scheduled ↦ rw (fine, inserted, scheduled) (snoc-AreSound b s.backups h fits sound)
        ]
      ]
    ]

ensure_backup-AreSound :
    (calls : Calls) (cfg : Config) (host : HostConfig) (cluster : ClusterConfig)
    (db : RemoteDatabase) (serializable : Bool) (s : State)
    → AreSound s.backups
    → AreSound (ensure_backup calls cfg host cluster db serializable s).1.backups
unfolding ensure_backup
ensure_backup-AreSound calls cfg host cluster db serializable s sound =
    let dir = dest_dir host cluster db in
    let ensured = ensure_database calls cfg host cluster db (backup_name host cluster db) s in
    let kept = ensure_database-backups calls cfg host cluster db (backup_name host cluster db) s in
    elim (Option-cases (calls.find_backup dir)) [
      | inr (e, bad) ↦ rw bad sound
      | inl fine ↦ elim (Bool-cases (has_backup dir s.backups)) [
        | inl known ↦ rw (fine, known) sound
        | inr fresh ↦
            rw (fine, fresh)
              (add_backup-AreSound calls cfg (new_backup calls cfg host cluster db serializable)
                ensured.0 ensured.1 (rw kept fresh) (ground arith) (rw kept sound))
      ]
    ]

record_ensured-backups :
    (host : HostConfig) (cluster : ClusterConfig) (db : RemoteDatabase) (r : Ensured) (s : State)
    → (record_ensured host cluster db (r, s)).backups ≡ s.backups
unfolding record_ensured fail_with count_skipped count_backup count_database log
record_ensured-backups host cluster db r s = ground arith

module _ (calls : Calls) (cfg : Config) where
  run_database-AreSound :
      (host : HostConfig) (no_replica : Bool) (cluster : ClusterConfig) (db : RemoteDatabase)
      (s : State)
      → AreSound s.backups
      → AreSound (run_database calls cfg host no_replica cluster db s).backups
  unfolding run_database log count_seen
  run_database-AreSound host no_replica cluster db s sound =
      let seen =
        log (database_event info database_register_started host cluster db)
          (count_seen (database_event info database_found host cluster db) s) in
      let ensured = ensure_backup calls cfg host cluster db no_replica seen in
      elim (Bool-cases (is_excluded cfg db.name host cluster)) [
        | inl out ↦ rw out sound
        | inr wanted ↦
            elim (Bool-cases (is_too_big (max_db_size_bytes cfg.defaults) db.size_bytes)) [
              | inl big ↦ rw (wanted, big) sound
              | inr fits ↦
                  rw (wanted, fits)
                    (rw (record_ensured-backups host cluster db ensured.0 ensured.1)
                      (ensure_backup-AreSound calls cfg host cluster db no_replica seen sound))
            ]
      ]

  run_databases-AreSound :
      (host : HostConfig) (no_replica : Bool) (cluster : ClusterConfig) (dbs : List RemoteDatabase)
      (s : State)
      → AreSound s.backups
      → AreSound (run_databases calls cfg host no_replica cluster dbs s).backups
  unfolding run_databases
  run_databases-AreSound host no_replica cluster [] s sound = sound
  run_databases-AreSound host no_replica cluster (db ∷ dbs) s sound =
      run_databases-AreSound host no_replica cluster dbs
        (run_database calls cfg host no_replica cluster db s)
        (run_database-AreSound host no_replica cluster db s sound)

  run_listed-AreSound :
      (host : HostConfig) (no_replica : Bool) (cluster : ClusterConfig)
      (listed : Result Bytes (List RemoteDatabase)) (s : State)
      → AreSound s.backups
      → AreSound (run_listed calls cfg host no_replica cluster listed s).backups
  unfolding run_listed fail_with log
  run_listed-AreSound host no_replica cluster (err e) s sound = sound
  run_listed-AreSound host no_replica cluster (ok dbs) s sound =
      run_databases-AreSound host no_replica cluster dbs _ sound

  run_clusters-AreSound :
      (host : HostConfig) (no_replica : Bool) (clusters : List ClusterConfig) (s : State)
      → AreSound s.backups
      → AreSound (run_clusters calls cfg host no_replica clusters s).backups
  unfolding run_clusters count_cluster log
  run_clusters-AreSound host no_replica [] s sound = sound
  run_clusters-AreSound host no_replica (cluster ∷ clusters) s sound =
      run_clusters-AreSound host no_replica clusters _
        (run_listed-AreSound host no_replica cluster (calls.list_databases host cluster) _ sound)

  run_scanned-AreSound :
      (host : HostConfig) (no_replica : Bool)
      (scanned : List Event × Result ConfigError (List ClusterConfig)) (s : State)
      → AreSound s.backups
      → AreSound (run_scanned calls cfg host no_replica scanned s).backups
  unfolding run_scanned fail_with log
  run_scanned-AreSound host no_replica (events, err e) s sound = sound
  run_scanned-AreSound host no_replica (events, ok clusters) s sound =
      run_clusters-AreSound host no_replica clusters _ sound

  run_hosts-AreSound :
      (hosts : List (HostConfig × Bool)) (s : State)
      → AreSound s.backups
      → AreSound (run_hosts calls cfg hosts s).backups
  unfolding run_hosts
  run_hosts-AreSound [] s sound = sound
  run_hosts-AreSound ((host, no_replica) ∷ hosts) s sound =
      run_hosts-AreSound hosts _
        (run_scanned-AreSound host no_replica (discover_clusters calls.network cfg host) s sound)

-- Where the backup destinations are distinct and no backup is both parallel and serializable-deferrable, a run
-- of the discovery keeps it so, whatever the network and the databases answer; also when the hosts of
-- the configuration overlap.
pub run_locked-AreSound :
    (calls : Calls) (cfg : Config) (s : State)
    → AreSound s.backups
    → AreSound (run_locked calls cfg s).backups
unfolding run_locked log
run_locked-AreSound calls cfg s sound = run_hosts-AreSound calls cfg (all_hosts cfg) _ sound

finish-registers :
    (calls : Calls) (cfg : Config) (b : Backup) (r : Result Bytes Bool) (s : State)
    → (add_backup calls cfg b (r, s)).0.failed ≡ none
    → ((add_backup calls cfg b (r, s)).0.created_backup ≡ true)
      × (((add_backup calls cfg b (r, s)).0.skipped ≡ false)
          × (has_backup b.dest_dir (add_backup calls cfg b (r, s)).1.backups ≡ true))
unfolding add_backup finish_backup create_backup
finish-registers calls cfg b (err e) s h = absurd (cc)
finish-registers calls cfg b (ok created) s h =
    elim (Option-cases (calls.parse_uuid cfg.defaults.destination_id)) [
      | inr (e, bad) ↦ absurd (let no = rw bad at h in cc)
      | inl fine ↦ elim (Option-cases (calls.insert_backup b.dest_dir)) [
        | inr (e, bad) ↦ absurd (let no = rw (fine, bad) at h in cc)
        | inl inserted ↦ elim (Option-cases (calls.schedule_job b.dest_dir)) [
          | inr (e, bad) ↦ absurd (let no = rw (fine, inserted, bad) at h in cc)
          | inl scheduled ↦
              rw (fine, inserted, scheduled)
                (
                  refl,
                  (
                    refl,
                    has_backup-snoc b.dest_dir b s.backups
                        ∙ ground (arith, text_eq_refl b.dest_dir),
                  ),
                )
        ]
      ]
    ]

-- A registration that reports no failure leaves a backup for the database's directory, and reports either that it made
-- one or that there was one; the same registration then only reports that there is one and changes nothing.
pub ensure_backup-registers :
    (calls : Calls) (cfg : Config) (host : HostConfig) (cluster : ClusterConfig)
    (db : RemoteDatabase) (serializable : Bool) (s : State)
    → (ensure_backup calls cfg host cluster db serializable s).0.failed ≡ none
    → let (r, after) = ensure_backup calls cfg host cluster db serializable s in
      ((r.created_backup ≡ not r.skipped)
        × (has_backup (dest_dir host cluster db) after.backups ≡ true))
      × (ensure_backup calls cfg host cluster db serializable after
          ≡ (record no_effect { skipped = true }, after))
unfolding ensure_backup
ensure_backup-registers calls cfg host cluster db serializable s h =
    let dir = dest_dir host cluster db in
    let b = new_backup calls cfg host cluster db serializable in
    let d = ensure_database calls cfg host cluster db (backup_name host cluster db) s in
    elim (Option-cases (calls.find_backup dir)) [
      | inr (e, bad) ↦ absurd (let no = rw bad at h in cc)
      | inl fine ↦ elim (Bool-cases (has_backup dir s.backups)) [
        | inl known ↦ rw (fine, known) (rw known ((refl, refl), refl))
        | inr fresh ↦
            (let ends = finish-registers calls cfg b d.0 d.1 (rw (fine, fresh) at h) in
              rw (fine, fresh) (rw (ends.1.1) ((rw (ends.0, ends.1.0) refl, refl), refl)))
      ]
    ]
