-- ===== src/Janitor/Retention.antt =====
-- Pruning spares what is young, and finds the digests of the indexes that it spares.
use rs_detritus.Common.{
  Str, Bool, true, false, some, List, [], ◌∷◌, ◌++◌, bytes, nat_eq, list_eq, contains,
  if◌then◌else◌, ok, pure, ◌>>=◌, ◌≡◌, inl, inr, ap, ◌∙◌, arith, Bool-cases,
}
use rs_detritus.Common.Ends.{Ends, Ends-ok, Ends-bind}
use rs_detritus.Common.Table.{lookup}
use rs_detritus.FilePath.{FilePath, join}
use rs_detritus.Storage.{StoragePaths}
use rs_detritus.Disk.{File, Disk, raise_io, read_file}
use rs_detritus.Disk.Spared.{ReadsAs, Meets, read_file-Ends}
use rs_detritus.Metrics.{add_u64}
use rs_detritus.Janitor.{
  RetentionConfig, JanitorStats, io, is_past, is_older_than, collect_files, has_extension,
  delete_counted, prune_log, prune_log_files, prune_logs, IndexParser, Pruned, digests_of,
  prune_index,
}
use rs_detritus.Janitor.Steps.{
  Fits, Spared, NoClaim, raise_io-Ends, Judged, is_older_than-Ends, delete_counted-Ends,
  collect_files-Ends,
}

contains-append_left :
    (xs ys : List Str) (a : Str) → contains xs a ≡ true → contains (xs ++ ys) a ≡ true
unfolding contains
contains-append_left [] ys a h = cc h
contains-append_left (x ∷ xs) ys a h = ground (arith, contains-append_left xs ys a)

contains-append_right :
    (xs ys : List Str) (a : Str) → contains ys a ≡ true → contains (xs ++ ys) a ≡ true
unfolding contains
contains-append_right [] ys a h = h
contains-append_right (x ∷ xs) ys a h = ground (arith, contains-append_right xs ys a h)

module _ (P : FilePath → Type 0) (d0 : Disk) (parse_index : IndexParser) (storage : StoragePaths)
    (config : RetentionConfig) where
  -- The files are no logs, and those that are indexes are young.
  pub record IsRetained : Type 0 where
    pub fits_logs : Fits config.logs_ttl_days
    pub fits_crashes : Fits config.crashes_ttl_days
    pub no_log : (q : FilePath) → P q → has_extension (bytes "ndjson") q ≡ false
    pub young :
        (q : FilePath) (f : File)
        → P q
        → has_extension (bytes "json") q ≡ true
        → lookup q d0.files ≡ some f
        → is_past config.crashes_ttl_days f.modified d0.clock ≡ ok false

  abbrev S : Disk → Type 0
  S = Spared P d0

  module _ (v : IsRetained) where
    prune_old_log-Ends :
        (old : Bool) (p : FilePath) (stats : JanitorStats) (d : Disk)
        → ¬ P p
        → S d
        → Ends S (NoClaim P d0) (
            (if old
                then (delete_counted p >>= λ len. pure (record stats {
                  logs_deleted = add_u64 stats.logs_deleted 1;
                  bytes_freed = add_u64 stats.bytes_freed len;
                }))
                else pure stats)
              d)
    prune_old_log-Ends true p stats d n h =
        Ends-bind (NoClaim P d0) (NoClaim P d0) (delete_counted p) _ d
          (delete_counted-Ends P d0 p d n h) (λ len d1 h1 _. Ends-ok _ d1 h1 tt)
    prune_old_log-Ends false p stats d n h = Ends-ok stats d h tt

    prune_log-Ends :
        (p : FilePath) (stats : JanitorStats) (d : Disk)
        → S d
        → Ends S (NoClaim P d0) (prune_log config.logs_ttl_days p stats d)
    unfolding prune_log
    prune_log-Ends p stats d h = elim (Bool-cases (has_extension (bytes "ndjson") p)) [
      | inl log ↦
          let n : ¬ P p = λ hp. cc (log, v.no_log p hp) in
          rw log (
            Ends-bind (Judged P d0 p config.logs_ttl_days) (NoClaim P d0)
              (is_older_than p config.logs_ttl_days) _ d
              (is_older_than-Ends P d0 p config.logs_ttl_days d v.fits_logs h)
              (λ old d1 h1 _. prune_old_log-Ends old p stats d1 n h1))
      | inr other ↦ rw other (Ends-ok stats d h tt)
    ]

    prune_log_files-Ends :
        (ps : List FilePath) (stats : JanitorStats) (d : Disk)
        → S d
        → Ends S (NoClaim P d0) (prune_log_files config.logs_ttl_days ps stats d)
    unfolding prune_log_files
    prune_log_files-Ends [] stats d h = Ends-ok stats d h tt
    prune_log_files-Ends (p ∷ ps) stats d h =
        Ends-bind (NoClaim P d0) (NoClaim P d0) (prune_log config.logs_ttl_days p stats) _ d
          (prune_log-Ends p stats d h) (λ stats' d1 h1 _. prune_log_files-Ends ps stats' d1 h1)

    pub prune_logs-Ends :
        (stats : JanitorStats) (d : Disk)
        → S d
        → Ends S (NoClaim P d0) (prune_logs storage config.logs_ttl_days stats d)
    unfolding prune_logs
    prune_logs-Ends stats d h =
        Ends-bind (Meets P d0 (join storage.data_dir (bytes "logs"))) (NoClaim P d0)
          (collect_files (join storage.data_dir (bytes "logs"))) _ d
          (collect_files-Ends P d0 (join storage.data_dir (bytes "logs")) d h)
          (λ ps d1 h1 _. prune_log_files-Ends ps stats d1 h1)

    -- What is found in one file: nothing is forgotten, and the digests of a spared index are there.
    pub record Found (p : FilePath) (before after : List Str) : Type 0 where
      pub grows : (hash : Str) → contains before hash ≡ true → contains after hash ≡ true
      pub refers :
          (f : File) (hash : Str)
          → P p
          → has_extension (bytes "json") p ≡ true
          → lookup p d0.files ≡ some f
          → contains (digests_of (parse_index f.content)) hash ≡ true
          → contains after hash ≡ true

    prune_verdict-Ends :
        (old : Bool) (p : FilePath) (stats : JanitorStats) (refs : List Str) (d : Disk)
        → has_extension (bytes "json") p ≡ true
        → Judged P d0 p config.crashes_ttl_days old d
        → S d
        → Ends S
            (λ (r : Pruned) _. Found p refs r.1)
            ((if old
                then (delete_counted p >>= λ len. pure (
                  record stats {
                    indexes_deleted = add_u64 stats.indexes_deleted 1;
                    bytes_freed = add_u64 stats.bytes_freed len;
                  },
                  refs,
                ))
                else (raise_io io (read_file p) >>= λ file.
                    pure (stats, digests_of (parse_index file.content) ++ refs)))
              d)
    prune_verdict-Ends true p stats refs d index judged h =
        let n : ¬ P p =
          λ hp. let (f, there, past) = judged hp in cc (past, v.young p f hp index there) in
        Ends-bind (NoClaim P d0) _ (delete_counted p) _ d (delete_counted-Ends P d0 p d n h)
          (λ len d1 h1 _.
            Ends-ok _ d1 h1
              (record { grows = λ hash e. e; refers = λ f hash hp _ _ _. absurd (n hp) }))
    prune_verdict-Ends false p stats refs d index judged h =
        Ends-bind (ReadsAs P d0 p) _ (raise_io io (read_file p)) _ d
          (raise_io-Ends P d0 (ReadsAs P d0 p) io (read_file p) d (read_file-Ends P d0 p d h))
          λ file d1 h1 reads. Ends-ok _ d1 h1 (record {
            grows =
                λ hash e. contains-append_right (digests_of (parse_index file.content)) refs hash e;
            refers = λ f hash hp _ there e.
                let same : file ≡ f = cc (reads hp, there) in
                contains-append_left (digests_of (parse_index file.content)) refs hash
                  (ap (λ (x : File). contains (digests_of (parse_index x.content)) hash) same ∙ e);
          })

    pub prune_index-Ends :
        (p : FilePath) (stats : JanitorStats) (refs : List Str) (d : Disk)
        → S d
        → Ends S
            (λ (r : Pruned) _. Found p refs r.1)
            (prune_index parse_index config.crashes_ttl_days p stats refs d)
    unfolding prune_index
    prune_index-Ends p stats refs d h = elim (Bool-cases (has_extension (bytes "json") p)) [
      | inl index ↦ rw index (
          Ends-bind (Judged P d0 p config.crashes_ttl_days) _
            (is_older_than p config.crashes_ttl_days) _ d
            (is_older_than-Ends P d0 p config.crashes_ttl_days d v.fits_crashes h)
            (λ old d1 h1 judged. prune_verdict-Ends old p stats refs d1 index judged h1))
      | inr other ↦ rw other (
          Ends-ok (stats, refs) d h
            (record {
              grows = λ hash e. e;
              refers = λ f hash hp index _ _. absurd (cc (index, other));
            }))
    ]
