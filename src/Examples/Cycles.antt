-- ===== src/Examples/Cycles.antt =====
-- A cycle over one young index and the blob that it refers to.
use rs_detritus.Common.{
  ℕ, Str, Bool, true, false, Option, none, some, List, [], ◌∷◌, bytes, contains, nat_eq, list_eq,
  Result, ok, ◌≡◌, ◌≢◌, ◌⊎◌, inl, inr, refl, arith,
}
use rs_detritus.Common.Ends.{Ends}
use rs_detritus.Common.Table.{lookup}
use rs_detritus.FilePath.{FilePath}
use rs_detritus.Disk.{File, Disk, calm, fails}
use rs_detritus.Janitor.{RetentionConfig, default_retention, IndexParser, run_janitor_cycle}
use rs_detritus.Janitor.Survival.{RefersTo, run_janitor_cycle-retains}
use rs_detritus.Examples.Sources.{server_paths}

abbrev young_index : FilePath
young_index =
    bytes "srv"
    ∷ bytes "data"
    ∷ bytes "crashes"
    ∷ bytes "by-source"
    ∷ bytes "acme"
    ∷ bytes "i1"
    ∷ bytes "t-ab.json"
    ∷ []

abbrev its_blob : FilePath
its_blob =
    bytes "srv"
    ∷ bytes "data"
    ∷ bytes "crashes"
    ∷ bytes "by-hash"
    ∷ bytes "ab"
    ∷ bytes "abcd.bin"
    ∷ []

abbrev names_blob : IndexParser
names_blob s = some (bytes "abcd" ∷ [])

abbrev index_file : File
index_file = record { content = bytes "{}"; modified = 50 }

abbrev blob_file : File
blob_file = record { content = bytes "core"; modified = 40 }

abbrev busy_disk : Disk
busy_disk = record {
  files = (young_index, index_file) ∷ (its_blob, blob_file) ∷ [];
  events = calm ∷ calm ∷ fails ∷ [];
  clock = 60;
}

refers : RefersTo names_blob server_paths default_retention busy_disk young_index its_blob
unfolding bytes rs_detritus.FilePath.strip_path_prefix rs_detritus.FilePath.join
    rs_detritus.Common.list_beq rs_detritus.FilePath.extension rs_detritus.FilePath.file_name
    rs_detritus.FilePath.extension_of_name rs_detritus.FilePath.split_last_dot
    rs_detritus.Janitor.blob_hash rs_detritus.Common.strip_suffix lookup rs_detritus.Janitor.is_past
    contains
refers = record {
  below = bytes "acme" ∷ bytes "i1" ∷ bytes "t-ab.json" ∷ [];
  is_below = refl;
  index_extension = refl;
  index_is_no_blob = refl;
  index_file = index_file;
  index_there = refl;
  young = refl;
  blob_extension = refl;
  hash = bytes "abcd";
  blob_name = refl;
  blob_file = blob_file;
  blob_there = refl;
  named = refl;
}

run_janitor_cycle-retains_example :
    Ends
      (λ d'.
        (lookup young_index d'.files ≡ some index_file)
        × (lookup its_blob d'.files ≡ some blob_file))
      (λ _ _. Unit)
      (run_janitor_cycle names_blob server_paths default_retention busy_disk)
unfolding refers
run_janitor_cycle-retains_example =
    run_janitor_cycle-retains names_blob server_paths default_retention busy_disk young_index
      its_blob refers (omega arith) (omega arith) (tt, (tt, (tt, tt)))
