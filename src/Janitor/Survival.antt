-- ===== src/Janitor/Survival.antt =====
-- A young index and the blobs that it refers to survive a cycle.
use rs_detritus.Common.{
  ℕ, Str, Bool, true, false, Option, none, some, List, [], ◌∷◌, bytes, ◌==◌, nat_eq, list_eq,
  contains, Result, ok, err, panic, ◌≡◌, ◌≢◌, ◌⊎◌, inl, inr, refl, ap, sym, ◌∙◌, arith, All,
}
use rs_detritus.Common.Ends.{Ends}
use rs_detritus.Common.Table.{lookup}
use rs_detritus.FilePath.{FilePath, extension, strip_path_prefix}
use rs_detritus.Storage.{StoragePaths}
use rs_detritus.Disk.{File, Disk}
use rs_detritus.Disk.Spared.{SparesAll, IsSpared}
use rs_detritus.Janitor.{
  RetentionConfig, is_past, has_extension, IndexParser, digests_of, index_root, blob_hash,
  run_janitor_cycle,
}
use rs_detritus.Janitor.Steps.{Fits}
use rs_detritus.Janitor.Retention.{IsRetained}
use rs_detritus.Janitor.Cycle.{Referred, cycle-Ends}

-- The index and the blob.
abbrev pub IsPair : FilePath → FilePath → FilePath → Type 0
IsPair index blob q = (q ≡ index) ⊎ (q ≡ blob)

has_extension-of :
    (wanted ext : Str) (p : FilePath)
    → extension p ≡ some ext
    → has_extension wanted p ≡ (ext == wanted)
has_extension-of wanted ext p e = rw (e, has_extension)

module _ (parse_index : IndexParser) (storage : StoragePaths) (config : RetentionConfig) (d : Disk)
    (index blob : FilePath) where
  -- An index below the directory of the indexes that is not past its time, and a blob that it names.
  pub record RefersTo : Type 0 where
    pub below : FilePath
    pub is_below : strip_path_prefix (index_root parse_index storage) index ≡ some below
    pub index_extension : extension index ≡ some (bytes "json")
    pub index_is_no_blob : blob_hash index ≡ none
    pub index_file : File
    pub index_there : lookup index d.files ≡ some index_file
    pub young : is_past config.crashes_ttl_days index_file.modified d.clock ≡ ok false
    pub blob_extension : extension blob ≡ some (bytes "bin")
    pub hash : Str
    pub blob_name : blob_hash blob ≡ some hash
    pub blob_file : File
    pub blob_there : lookup blob d.files ≡ some blob_file
    pub named : contains (digests_of (parse_index index_file.content)) hash ≡ true

  module _ (v : RefersTo) (fits_logs : Fits config.logs_ttl_days)
      (fits_crashes : Fits config.crashes_ttl_days) where
    pair-no_log : (q : FilePath) → IsPair index blob q → has_extension (bytes "ndjson") q ≡ false
    unfolding bytes rs_detritus.Common.list_beq
    pair-no_log q (inl e) =
        ap (has_extension (bytes "ndjson")) e
        ∙ has_extension-of (bytes "ndjson") (bytes "json") index v.index_extension
        ∙ refl
    pair-no_log q (inr e) =
        ap (has_extension (bytes "ndjson")) e
        ∙ has_extension-of (bytes "ndjson") (bytes "bin") blob v.blob_extension
        ∙ refl

    index-is_json : has_extension (bytes "json") index ≡ true
    unfolding bytes rs_detritus.Common.list_beq
    index-is_json = has_extension-of (bytes "json") (bytes "json") index v.index_extension ∙ refl

    blob-no_json : has_extension (bytes "json") blob ≡ false
    unfolding bytes rs_detritus.Common.list_beq
    blob-no_json = has_extension-of (bytes "json") (bytes "bin") blob v.blob_extension ∙ refl

    pair-young :
        (q : FilePath) (f : File)
        → IsPair index blob q
        → has_extension (bytes "json") q ≡ true
        → lookup q d.files ≡ some f
        → is_past config.crashes_ttl_days f.modified d.clock ≡ ok false
    pair-young q f (inl e) json there =
        let same : v.index_file ≡ f = cc (v.index_there, there, ap (λ x. lookup x d.files) e) in
        ap (λ (x : File). is_past config.crashes_ttl_days x.modified d.clock) (sym same) ∙ v.young
    pair-young q f (inr e) json there =
        absurd (cc (json, blob-no_json, ap (has_extension (bytes "json")) e))

    pair-IsRetained : IsRetained (IsPair index blob) d parse_index storage config
    pair-IsRetained = record {
      fits_logs = fits_logs;
      fits_crashes = fits_crashes;
      no_log = pair-no_log;
      young = pair-young;
    }

    pair-Referred :
        (q : FilePath)
        → IsPair index blob q
        → Referred (IsPair index blob) d parse_index storage config pair-IsRetained q
    pair-Referred q (inl e) = inl (ap blob_hash e ∙ v.index_is_no_blob)
    pair-Referred q (inr e) = inr (
      v.hash,
      index,
      v.below,
      v.index_file,
      ap blob_hash e ∙ v.blob_name,
      inl refl,
      index-is_json,
      v.is_below,
      v.index_there,
      v.named,
    )

    -- An index that is not past its time and a blob that it refers to are both there, as they were,
    -- after a cycle of the janitor, however the cycle ends and whatever other tasks do meanwhile to
    -- other files, and the cycle does not panic, provided that the retention times fit the clock.
    pub run_janitor_cycle-retains :
        All (SparesAll (IsPair index blob) d) d.events
        → Ends
            (λ d'.
              (lookup index d'.files ≡ some v.index_file)
              × (lookup blob d'.files ≡ some v.blob_file))
            (λ _ _. Unit)
            (run_janitor_cycle parse_index storage config d)
    run_janitor_cycle-retains spared =
        let start : IsSpared (IsPair index blob) d d = record {
          files = λ q hq. refl;
          events = spared;
          clock = refl;
        } in
        let ends =
          cycle-Ends (IsPair index blob) d parse_index storage config pair-IsRetained d
            pair-Referred start in
        record {
          kept = (
            ends.kept.files index (inl refl) ∙ v.index_there,
            ends.kept.files blob (inr refl) ∙ v.blob_there,
          );
          returned = ends.returned;
          runs = ends.runs;
        }
