-- ===== src/Storage.antt =====
-- crates/detritus-server/src/storage.rs: the identity of a source and the layout of the data
-- directory.
pub mod Sources
pub mod Layout
pub mod Confined
use rs_detritus.Common.{
  ℕ, Str, Bool, true, false, Option, none, some, List, [], ◌∷◌, ◌++◌, bytes, ◌||◌, ◌==◌, nat_eq,
  list_eq, if◌then◌else◌, ◌≡◌, Result, ok, err, panic, and_then, contains, take, leb, length,
}
use rs_detritus.FilePath.{FilePath, join, strip_path_prefix}

-- The kinds of `io::Error` that the program tells apart.
pub data IoError : Type 0 where
  not_found already_exists other_io : IoError

pub data StorageError : Type 0 where
  invalid_component : Str → Str → StorageError
  io : IoError → StorageError

abbrev is_invalid : Str → Bool
is_invalid value =
    value == []
    || value == bytes "."
    || value == bytes ".."
    || contains value b'/'
    || contains value b'\\'

unfoldable pub validate_component : Str → Str → Result StorageError (Unit {0})
validate_component name value =
    if is_invalid value then err (invalid_component name value) else ok tt

pub record SourceKey : Type 0 where
  pub project : Str
  pub source_id : Str

-- `SourceKey::new`
unfoldable pub new_source_key : Str → Str → Result StorageError SourceKey
unfolding validate_component
new_source_key project source_id = and_then (validate_component (bytes "project") project) (λ _.
    and_then (validate_component (bytes "source_id") source_id)
      (λ _. ok (record { project = project; source_id = source_id })))

unfoldable pub canonical : SourceKey → Str
canonical k = k.project ++ (b'/' ∷ k.source_id)

pub record StoragePaths : Type 0 where
  pub data_dir : FilePath

-- The directories that `prepare` creates, in its order.
unfoldable pub tmp_dir : StoragePaths → FilePath
tmp_dir p = join p.data_dir (bytes "tmp")

unfoldable pub prepared_dirs : StoragePaths → List FilePath
prepared_dirs p =
    join p.data_dir (bytes "logs")
    ∷ join (join p.data_dir (bytes "crashes")) (bytes "by-hash")
    ∷ join (join p.data_dir (bytes "crashes")) (bytes "by-source")
    ∷ tmp_dir p
    ∷ []

-- The date is the text that chrono displays.
unfoldable pub log_file : StoragePaths → SourceKey → Str → FilePath
log_file p source date =
    join (join (join (join p.data_dir (bytes "logs")) source.project) source.source_id)
      (date ++ bytes ".ndjson")

-- `&sha256[..2]` panics on a shorter text.
unfoldable pub shard_prefix : Str → Result StorageError Str
shard_prefix sha256 = if leb 2 (length sha256) then ok (take 2 sha256) else panic

unfoldable pub blob_file : StoragePaths → Str → Str → FilePath
blob_file p prefix sha256 =
    join (join (join (join p.data_dir (bytes "crashes")) (bytes "by-hash")) prefix)
      (sha256 ++ bytes ".bin")

unfoldable pub blob_path : StoragePaths → Str → Result StorageError FilePath
unfolding shard_prefix blob_file
blob_path p sha256 = and_then (shard_prefix sha256) (λ prefix. ok (blob_file p prefix sha256))

unfoldable pub index_path : StoragePaths → SourceKey → Str → Str → FilePath
index_path p source timestamp sha256 =
    join
      (join (join (join (join p.data_dir (bytes "crashes")) (bytes "by-source")) source.project)
        source.source_id)
      (timestamp ++ (b'-' ∷ (sha256 ++ bytes ".json")))

unfoldable pub relative_to_data_dir : StoragePaths → FilePath → FilePath
relative_to_data_dir p path = elim (strip_path_prefix p.data_dir path) [ none ↦ path | some r ↦ r ]
