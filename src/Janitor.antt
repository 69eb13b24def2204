-- ===== src/Janitor.antt =====
-- crates/detritus-server/src/janitor.rs: the retention of logs, crash indexes and blobs.
pub mod Steps
pub mod Retention
pub mod Cycle
pub mod Survival
use rs_detritus.Common.{
  ℕ, Str, Bool, true, false, Option, none, some, List, [], ◌∷◌, ◌++◌, bytes, ◌+◌, ◌*◌, ◌%◌, ◌^◌,
  ltb, leb, nat_eqb, length, ◌==◌, nat_eq, list_eq, contains, if◌then◌else◌, Result, ok, err, panic,
  Action, pure, throw, lift, ◌>>=◌, ◌>>◌, strip_suffix,
}
use rs_detritus.FilePath.{FilePath, join, extension, file_name}
use rs_detritus.Storage.{IoError, not_found, StoragePaths}
use rs_detritus.Disk.{
  File, Disk, Io, operation, files_below, read_file, remove_file, walk, raise_io, attempt,
}
use rs_detritus.Metrics.{Metrics, JanitorMetricStats, observe_janitor, add_u64}

pub record RetentionConfig : Type 0 where
  pub logs_ttl_days : ℕ
  pub crashes_ttl_days : ℕ
  -- seconds
  pub janitor_interval : ℕ

abbrev pub default_retention : RetentionConfig
default_retention = record { logs_ttl_days = 14; crashes_ttl_days = 90; janitor_interval = 60 * 60 }

-- The counts of a cycle, which wrap around at 64 bits.
pub record JanitorStats : Type 0 where
  pub logs_deleted : ℕ
  pub indexes_deleted : ℕ
  pub blobs_deleted : ℕ
  pub bytes_freed : ℕ

abbrev pub no_stats : JanitorStats
no_stats = record { logs_deleted = 0; indexes_deleted = 0; blobs_deleted = 0; bytes_freed = 0 }

-- `JanitorStats::as_metrics`
unfoldable pub as_metrics : JanitorStats → JanitorMetricStats
as_metrics s = record {
  logs_deleted = s.logs_deleted;
  indexes_deleted = s.indexes_deleted;
  blobs_deleted = s.blobs_deleted;
  bytes_freed = s.bytes_freed;
}

pub data JanitorError : Type 0 where
  io : IoError → JanitorError

abbrev pub Sweeping : Type 0 → Type 0
Sweeping A = Action Disk JanitorError A

-- `ttl_days * 24 * 60 * 60` of `u64`, which wraps in a release build.
abbrev pub ttl_seconds : ℕ → ℕ
ttl_seconds ttl_days = ttl_days * 86400 % 2 ^ 64

-- The end of `is_older_than`, on the times. `SystemTime - Duration` panics where the seconds leave
-- `i64`; a cutoff before the epoch is in order.
unfoldable pub is_past : ℕ → ℕ → ℕ → Result JanitorError Bool
is_past ttl_days modified now =
    if nat_eqb ttl_days 0
    then ok true
    else if ltb (now + 2 ^ 63) (ttl_seconds ttl_days)
    then panic
    else ok (leb (modified + ttl_seconds ttl_days) now)

clock_now : Sweeping ℕ
clock_now d = (ok d.clock, d)

unfoldable pub is_older_than : FilePath → ℕ → Sweeping Bool
unfolding clock_now
is_older_than path ttl_days = do
  metadata ← raise_io io (read_file path)
  now ← clock_now
  lift (is_past ttl_days metadata.modified now)

length_or_zero : Result IoError File → ℕ
length_or_zero (ok f) = length f.content
length_or_zero (err e) = 0
length_or_zero panic = 0

unfoldable pub file_len : FilePath → Sweeping ℕ
unfolding length_or_zero
file_len path = do r ← attempt (read_file path); pure (length_or_zero r)

abbrev is_nonempty : List FilePath → Bool
is_nonempty [] = false
is_nonempty (p ∷ ps) = true

dir_exists : FilePath → Io Bool
dir_exists root = operation (λ d. (ok (is_nonempty (files_below root d.files)), d))

-- `collect_files`; the disk keeps no directories, so one without files reads as missing.
unfoldable pub collect_files : FilePath → Sweeping (List FilePath)
unfolding dir_exists
collect_files root = do
  there ← raise_io io (dir_exists root)
  if there then raise_io io (walk root) else pure []

abbrev pub has_extension : Str → FilePath → Bool
has_extension ext p = elim (extension p) [ none ↦ false | some e ↦ e == ext ]

filter_extension : Str → List FilePath → List FilePath
filter_extension ext [] = []
filter_extension ext (p ∷ ps) =
    let rest = filter_extension ext ps in if has_extension ext p then p ∷ rest else rest

unfoldable pub snapshot_blobs : FilePath → Sweeping (List FilePath)
unfolding filter_extension
snapshot_blobs root = do files ← collect_files root; pure (filter_extension (bytes "bin") files)

-- A file that is past its time goes, and its length is counted.
unfoldable pub delete_counted : FilePath → Sweeping ℕ
delete_counted path = do len ← file_len path; raise_io io (remove_file path); pure len

-- The body of the loop of `prune_logs`.
unfoldable pub prune_log : ℕ → FilePath → JanitorStats → Sweeping JanitorStats
prune_log ttl_days path stats =
    if has_extension (bytes "ndjson") path
    then (do
      old ← is_older_than path ttl_days
      if old
          then (do
            len ← delete_counted path
            pure (record stats {
              logs_deleted = add_u64 stats.logs_deleted 1;
              bytes_freed = add_u64 stats.bytes_freed len;
            }))
          else pure stats)
    else pure stats

unfoldable pub prune_log_files : ℕ → List FilePath → JanitorStats → Sweeping JanitorStats
prune_log_files ttl_days [] stats = pure stats
prune_log_files ttl_days (p ∷ ps) stats = do
  stats' ← prune_log ttl_days p stats
  prune_log_files ttl_days ps stats'

unfoldable pub prune_logs : StoragePaths → ℕ → JanitorStats → Sweeping JanitorStats
prune_logs storage ttl_days stats = do
  files ← collect_files (join storage.data_dir (bytes "logs"))
  prune_log_files ttl_days files stats

-- `serde_json` on an index: the digests of its dump and of its attachments.
abbrev pub IndexParser : Type 0
IndexParser = Str → Option (List Str)

abbrev pub Pruned : Type 0
Pruned = JanitorStats × List Str

abbrev pub digests_of : Option (List Str) → List Str
digests_of none = []
digests_of (some shas) = shas

module _ (parse_index : IndexParser) where
  -- The body of the loop of `prune_indexes_and_collect_references`.
  unfoldable pub prune_index : ℕ → FilePath → JanitorStats → List Str → Sweeping Pruned
  prune_index ttl_days path stats referenced =
      if has_extension (bytes "json") path
      then (do
        old ← is_older_than path ttl_days
        if old
            then (do
              len ← delete_counted path
              pure (
                record stats {
                  indexes_deleted = add_u64 stats.indexes_deleted 1;
                  bytes_freed = add_u64 stats.bytes_freed len;
                },
                referenced,
              ))
            else (do
              file ← raise_io io (read_file path)
              pure (stats, digests_of (parse_index file.content) ++ referenced)))
      else pure (stats, referenced)

  unfoldable pub prune_index_files : ℕ → List FilePath → JanitorStats → List Str → Sweeping Pruned
  prune_index_files ttl_days [] stats referenced = pure (stats, referenced)
  prune_index_files ttl_days (p ∷ ps) stats referenced = do
    (stats', referenced') ← prune_index ttl_days p stats referenced
    prune_index_files ttl_days ps stats' referenced'

  abbrev pub index_root : StoragePaths → FilePath
  index_root storage = join (join storage.data_dir (bytes "crashes")) (bytes "by-source")

  unfoldable pub prune_indexes_and_collect_references :
      StoragePaths → ℕ → JanitorStats → Sweeping Pruned
  prune_indexes_and_collect_references storage ttl_days stats = do
    files ← collect_files (index_root storage)
    prune_index_files ttl_days files stats []

-- The hash of a blob's file name.
unfoldable pub blob_hash : FilePath → Option Str
blob_hash p = elim (file_name p) [ none ↦ none | some name ↦ strip_suffix (bytes ".bin") name ]

count_removed : JanitorStats → ℕ → Result IoError (Unit {0}) → Sweeping JanitorStats
count_removed stats len (ok _) = pure (record stats {
  blobs_deleted = add_u64 stats.blobs_deleted 1;
  bytes_freed = add_u64 stats.bytes_freed len;
})
count_removed stats len (err not_found) = pure stats
count_removed stats len (err e) = throw (io e)
count_removed stats len panic = lift panic

unfoldable pub sweep_one : FilePath → JanitorStats → Sweeping JanitorStats
unfolding count_removed
sweep_one blob stats = do
  len ← file_len blob
  removed ← attempt (remove_file blob)
  count_removed stats len removed

abbrev pub is_kept : List Str → FilePath → Bool
is_kept referenced blob = elim (blob_hash blob) [
  | none ↦ true
  | some hash ↦ contains referenced hash
]

unfoldable pub sweep_blobs : List FilePath → List Str → JanitorStats → Sweeping JanitorStats
sweep_blobs [] referenced stats = pure stats
sweep_blobs (blob ∷ blobs) referenced stats = do
  stats' ← if is_kept referenced blob then pure stats else sweep_one blob stats
  sweep_blobs blobs referenced stats'

-- The snapshot is taken before the indexes are read.
unfoldable pub run_janitor_cycle :
    IndexParser → StoragePaths → RetentionConfig → Sweeping JanitorStats
run_janitor_cycle parse_index storage config = do
  snapshot ← snapshot_blobs (join (join storage.data_dir (bytes "crashes")) (bytes "by-hash"))
  stats ← prune_logs storage config.logs_ttl_days no_stats
  (stats', referenced) ←
      prune_indexes_and_collect_references parse_index storage config.crashes_ttl_days stats
  sweep_blobs snapshot referenced stats'

observe_cycle : ℕ → Result JanitorError JanitorStats → Metrics → Metrics
observe_cycle elapsed (ok stats) m = observe_janitor (bytes "ok") elapsed (as_metrics stats) m
observe_cycle elapsed (err e) m = observe_janitor (bytes "error") elapsed (as_metrics no_stats) m
observe_cycle elapsed panic m = m

-- One round of the loop of `spawn_janitor`, with the time that it took. A panic ends the task.
unfoldable pub janitor_tick :
    IndexParser → StoragePaths → RetentionConfig → ℕ → Disk × Metrics → Disk × Metrics
unfolding observe_cycle
janitor_tick parse_index storage config elapsed (d, m) =
    let (r, d') = run_janitor_cycle parse_index storage config d in (d', observe_cycle elapsed r m)
