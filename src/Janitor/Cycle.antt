-- ===== src/Janitor/Cycle.antt =====
-- A whole cycle spares what is young and what is referred to.
use rs_detritus.Common.{
  Str, Bool, true, false, none, some, List, [], ◌∷◌, bytes, nat_eq, list_eq, contains,
  if◌then◌else◌, Result, pure, ◌≡◌, ◌⊎◌, inl, inr, refl, ap, sym, ◌∙◌, IsIn,
}
use mathlib.Core.Path.{subst}
use rs_detritus.Common.Ends.{Ends, Ends-ok, Ends-bind, Ends-weaken}
use rs_detritus.Common.Table.{lookup}
use rs_detritus.FilePath.{FilePath, strip_path_prefix}
use rs_detritus.Storage.{StoragePaths}
use rs_detritus.Disk.{File, Disk}
use rs_detritus.Disk.Spared.{Meets}
use rs_detritus.Janitor.{
  RetentionConfig, JanitorStats, JanitorError, no_stats, collect_files, has_extension,
  snapshot_blobs, prune_logs, IndexParser, Pruned, digests_of, prune_index, prune_index_files,
  index_root, prune_indexes_and_collect_references, blob_hash, sweep_one, is_kept, sweep_blobs,
  run_janitor_cycle,
}
use rs_detritus.Janitor.Steps.{Spared, NoClaim, sweep_one-Ends, collect_files-Ends}
use rs_detritus.Janitor.Retention.{IsRetained, Found, prune_logs-Ends, prune_index-Ends}

module _ (P : FilePath → Type 0) (d0 : Disk) (parse_index : IndexParser) (storage : StoragePaths)
    (config : RetentionConfig) (v : IsRetained P d0 parse_index storage config) where
  abbrev S : Disk → Type 0
  S = Spared P d0

  -- What is found in all the files of a list.
  record FoundAll (ps : List FilePath) (before after : List Str) : Type 0 where
    all_grow : (hash : Str) → contains before hash ≡ true → contains after hash ≡ true
    all_refer :
        (p : FilePath) (f : File) (hash : Str)
        → IsIn p ps
        → P p
        → has_extension (bytes "json") p ≡ true
        → lookup p d0.files ≡ some f
        → contains (digests_of (parse_index f.content)) hash ≡ true
        → contains after hash ≡ true

  found_nowhere : (p : FilePath) → ¬ IsIn p []
  found_nowhere p ([], after, e) = cc e
  found_nowhere p (b ∷ before, after, e) = cc e

  refers-cons :
      (q : FilePath) (ps : List FilePath) (before middle after : List Str)
      → Found P d0 parse_index storage config v q before middle
      → FoundAll ps middle after
      → (p : FilePath) (f : File) (hash : Str) → IsIn p (q ∷ ps)
      → P p
      → has_extension (bytes "json") p ≡ true
      → lookup p d0.files ≡ some f
      → contains (digests_of (parse_index f.content)) hash ≡ true
      → contains after hash ≡ true
  refers-cons q ps before middle after one rest p f hash ([], behind, split) hp index there e =
      let same : q ≡ p = cc split in
      rest.all_grow hash (
        one.refers f hash (subst P (sym same) hp) (ap (has_extension (bytes "json")) same ∙ index)
          (ap (λ x. lookup x d0.files) same ∙ there) e)
  refers-cons q ps before middle after one rest p f hash (b ∷ front, behind, split) hp index there
        e =
      rest.all_refer p f hash (front, behind, cc split) hp index there e

  FoundAll-cons :
      (q : FilePath) (ps : List FilePath) (before middle after : List Str)
      → Found P d0 parse_index storage config v q before middle
      → FoundAll ps middle after
      → FoundAll (q ∷ ps) before after
  FoundAll-cons q ps before middle after one rest = record {
    all_grow = λ hash e. rest.all_grow hash (one.grows hash e);
    all_refer = refers-cons q ps before middle after one rest;
  }

  prune_index_files-Ends :
      (ps : List FilePath) (stats : JanitorStats) (refs : List Str) (d : Disk)
      → S d
      → Ends S
          (λ (r : Pruned) _. FoundAll ps refs r.1)
          (prune_index_files parse_index config.crashes_ttl_days ps stats refs d)
  unfolding prune_index_files
  prune_index_files-Ends [] stats refs d h =
      Ends-ok (stats, refs) d h
        (record {
          all_grow = λ hash e. e;
          all_refer = λ p f hash nowhere _ _ _ _. absurd (found_nowhere p nowhere);
        })
  prune_index_files-Ends (q ∷ ps) stats refs d h =
      Ends-bind (λ (r : Pruned) _. Found P d0 parse_index storage config v q refs r.1)
        (λ (r : Pruned) _. FoundAll (q ∷ ps) refs r.1)
        (prune_index parse_index config.crashes_ttl_days q stats refs) _ d
        (prune_index-Ends P d0 parse_index storage config v q stats refs d h)
        λ r d1 h1 one.
          Ends-weaken (λ (s : Pruned) _. FoundAll ps r.1 s.1)
            (λ (s : Pruned) _. FoundAll (q ∷ ps) refs s.1) _
            (λ s d' rest. FoundAll-cons q ps refs r.1 s.1 one rest)
            (prune_index_files-Ends ps r.0 r.1 d1 h1)

  sweep_if-Ends :
      (kept : Bool) (p : FilePath) (stats : JanitorStats) (d : Disk)
      → (kept ≡ false → ¬ P p)
      → S d
      → Ends S (NoClaim P d0) ((if kept then pure stats else sweep_one p stats) d)
  sweep_if-Ends true p stats d n h = Ends-ok stats d h tt
  sweep_if-Ends false p stats d n h = sweep_one-Ends P d0 p stats d (n refl) h

  sweep_blobs-Ends :
      (ps : List FilePath) (refs : List Str) (stats : JanitorStats) (d : Disk)
      → ((p : FilePath) → P p → is_kept refs p ≡ true)
      → S d
      → Ends S (NoClaim P d0) (sweep_blobs ps refs stats d)
  unfolding sweep_blobs
  sweep_blobs-Ends [] refs stats d kept h = Ends-ok stats d h tt
  sweep_blobs-Ends (p ∷ ps) refs stats d kept h =
      Ends-bind (NoClaim P d0) (NoClaim P d0)
        (if is_kept refs p then pure stats else sweep_one p stats) _ d
        (sweep_if-Ends (is_kept refs p) p stats d (λ gone hp. cc (gone, kept p hp)) h)
        (λ stats' d1 h1 _. sweep_blobs-Ends ps refs stats' d1 kept h1)

  snapshot_blobs-Ends :
      (root : FilePath) (d : Disk) → S d → Ends S (NoClaim P d0) (snapshot_blobs root d)
  unfolding snapshot_blobs
  snapshot_blobs-Ends root d h =
      Ends-bind (Meets P d0 root) (NoClaim P d0) (collect_files root) _ d
        (collect_files-Ends P d0 root d h) (λ files d1 h1 _. Ends-ok _ d1 h1 tt)

  -- A spared file is no blob, or the digest in its name is in an index that is spared.
  abbrev pub Referred : FilePath → Type 0
  Referred p =
      (blob_hash p ≡ none)
      ⊎ ((hash : Str) × (q r : FilePath) × (f : File) × (blob_hash p ≡ some hash)
          × P q
          × (has_extension (bytes "json") q ≡ true)
          × (strip_path_prefix (index_root parse_index storage) q ≡ some r)
          × (lookup q d0.files ≡ some f)
          × (contains (digests_of (parse_index f.content)) hash ≡ true))

  is_kept-Referred :
      (ps : List FilePath) (refs : List Str) (p : FilePath)
      → Meets P d0 (index_root parse_index storage) ps d0
      → FoundAll ps [] refs
      → Referred p
      → is_kept refs p ≡ true
  is_kept-Referred ps refs p meets all (inl no_blob) = rw (no_blob, is_kept)
  is_kept-Referred ps refs p meets all (inr (hash, q, r, f, named, hq, index, under, there, e)) =
      rw (named, is_kept) (all.all_refer q f hash (meets q r f hq under there) hq index there e)

  -- The two steps behind the logs.
  abbrev sweep_rest : List FilePath → Pruned → Disk → Result JanitorError JanitorStats × Disk
  sweep_rest snapshot r = sweep_blobs snapshot r.1 r.0

  pub cycle-Ends :
      (d : Disk)
      → ((p : FilePath) → P p → Referred p)
      → S d
      → Ends S (NoClaim P d0) (run_janitor_cycle parse_index storage config d)
  unfolding run_janitor_cycle prune_indexes_and_collect_references
  cycle-Ends d referred h =
      Ends-bind (NoClaim P d0) (NoClaim P d0) (snapshot_blobs _) _ d (snapshot_blobs-Ends _ d h)
        λ snapshot d1 h1 _.
          Ends-bind (NoClaim P d0) (NoClaim P d0) (prune_logs storage config.logs_ttl_days no_stats)
            _ d1 (prune_logs-Ends P d0 parse_index storage config v no_stats d1 h1)
            λ stats d2 h2 _.
              Ends-bind (λ (r : Pruned) _. (p : FilePath) → P p → is_kept r.1 p ≡ true)
                (NoClaim P d0)
                (prune_indexes_and_collect_references parse_index storage config.crashes_ttl_days
                  stats)
                _ d2
                (Ends-bind (Meets P d0 (index_root parse_index storage)) _
                  (collect_files (index_root parse_index storage)) _ d2
                  (collect_files-Ends P d0 (index_root parse_index storage) d2 h2)
                  λ files d3 h3 meets.
                    Ends-weaken (λ (r : Pruned) _. FoundAll files [] r.1) _ _
                      (λ r d' all p hp. is_kept-Referred files r.1 p meets all (referred p hp))
                      (prune_index_files-Ends files stats [] d3 h3))
                (λ r d3 h3 kept. sweep_blobs-Ends snapshot r.1 r.0 d3 kept h3)
