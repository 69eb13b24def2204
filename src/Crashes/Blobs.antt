-- ===== src/Crashes/Blobs.antt =====
-- crates/detritus-server/src/crashes.rs: `write_part_to_blob`, `finalize_blob` and `write_index`.
pub mod Addressed
pub mod Steps
pub mod Writing
pub mod Parts
use rs_detritus.Common.{
  ℕ, Str, Bool, true, false, Option, none, some, List, [], ◌∷◌, ◌++◌, bytes, ◌+◌, ltb, length,
  if◌then◌else◌, Result, ok, err, panic, Action, pure, throw, lift, map_err, ok_or, ◌>>=◌, ◌>>◌,
}
use rs_detritus.FilePath.{FilePath, join, parent, to_text}
use rs_detritus.Storage.{
  IoError, not_found, already_exists, other_io, StoragePaths, SourceKey, tmp_dir, blob_path,
  index_path, relative_to_data_dir,
}
use rs_detritus.Disk.{
  Disk, Io, create_dir_all, create_file, write_all, sync_file, remove_file, try_exists, hard_link,
  write_file, raise_io, attempt,
}
use rs_detritus.Protocol.{CrashMetadata}
use rs_detritus.Crashes.{
  BlobPointer, AttachmentPointer, CrashIndex, Chunk, data_chunk, broken_chunk, Field, CrashError,
  payload_too_large, json, multipart, storage, io, Libraries,
}

abbrev pub OnDisk : Type 0 → Type 0
OnDisk A = Action Disk CrashError A

-- The length and the bytes that went through the hasher. The sum of the lengths stays far below
-- 2^64, since the server limits a body to 150 MiB.
abbrev pub Written : Type 0
Written = ℕ × Str

refuse_payload : FilePath → ℕ → OnDisk Written
refuse_payload temp max_bytes = do attempt (remove_file temp); throw (payload_too_large max_bytes)

-- The loop over the chunks of a part.
unfoldable pub write_chunks : FilePath → ℕ → List Chunk → ℕ → Str → OnDisk Written
unfolding refuse_payload
write_chunks temp max_bytes [] len hashed = pure (len, hashed)
write_chunks temp max_bytes (broken_chunk ∷ cs) len hashed = throw multipart
write_chunks temp max_bytes (data_chunk b ∷ cs) len hashed =
    let rest : OnDisk Written = (do
      raise_io io (write_all temp b)
      write_chunks temp max_bytes cs (len + length b) (hashed ++ b)) in
    if ltb max_bytes (len + length b) then refuse_payload temp max_bytes else rest

create_parent : Option FilePath → OnDisk (Unit {0})
create_parent none = pure tt
create_parent (some dir) = raise_io io (create_dir_all dir)

-- The `match` on the result of the link.
after_link : FilePath → Result IoError (Unit {0}) → OnDisk Bool
after_link temp (ok _) = do raise_io io (remove_file temp); pure false
after_link temp (err already_exists) = do raise_io io (remove_file temp); pure true
after_link temp (err e) = do attempt (remove_file temp); throw (io e)
after_link temp panic = lift panic

publish : FilePath → FilePath → Bool → OnDisk Bool
publish temp dest true = do raise_io io (remove_file temp); pure true
publish temp dest false = do linked ← attempt (hard_link temp dest); after_link temp linked

unfoldable pub finalize_blob : StoragePaths → FilePath → Str → OnDisk (Str × Bool)
unfolding create_parent publish after_link
finalize_blob p temp sha256 = do
  dest ← lift (map_err storage (blob_path p sha256))
  create_parent (parent dest)
  there ← raise_io io (try_exists dest)
  dedup ← publish temp dest there
  pure (to_text (relative_to_data_dir p dest), dedup)

module _ (L : Libraries) where
  abbrev pub temp_path : StoragePaths → Str → FilePath
  temp_path p uuid = join (tmp_dir p) (uuid ++ bytes ".tmp")

  -- `write_part_to_blob`, with the UUID that it draws
  unfoldable pub write_part_to_blob : StoragePaths → Str → Field → ℕ → OnDisk BlobPointer
  unfolding write_chunks finalize_blob
  write_part_to_blob p uuid field max_bytes = do
    raise_io io (create_dir_all (tmp_dir p))
    raise_io io (create_file (temp_path p uuid))
    (len, hashed) ← write_chunks (temp_path p uuid) max_bytes field.chunks 0 []
    raise_io io (sync_file (temp_path p uuid))
    raise_io io (sync_file (temp_path p uuid))
    (path, dedup) ← finalize_blob p (temp_path p uuid) (L.digest hashed)
    pure (record {
      sha256 = L.digest hashed;
      len = len;
      path = path;
      dedup = dedup;
      content_encoding = field.content_encoding;
    })

  unfoldable pub write_index :
      StoragePaths
      → SourceKey
      → CrashMetadata L.Json
      → BlobPointer
      → List AttachmentPointer
      → OnDisk (Unit {0})
  unfolding create_parent
  write_index p source metadata dump attachments = do
    let path = index_path p source (L.format_timestamp metadata.timestamp) dump.sha256
    create_parent (parent path)
    encoded ← lift (
        ok_or json
          (L.encode_index (record { metadata = metadata; dump = dump; attachments = attachments })))
    raise_io io (write_file path encoded)
