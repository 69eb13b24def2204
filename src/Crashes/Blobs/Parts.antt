-- ===== src/Crashes/Blobs/Parts.antt =====
-- `write_part_to_blob` and `write_index` as a whole.
use rs_detritus.Common.{
  ℕ, Str, Option, none, some, List, [], ◌∷◌, ◌++◌, bytes, ◌≤◌, length, lift, ok_or, ◌≡◌, ◌≢◌, refl,
  ap, sym, ◌∙◌, arith,
}
use mathlib.Core.List.{append_cancel_left}
use rs_detritus.Common.Ends.{Ends, Ends-ok, Ends-err, Ends-bind, Ends-weaken}
use rs_detritus.FilePath.{FilePath, parent}
use rs_detritus.FilePath.Laws.{join-segment}
use rs_detritus.Storage.{StoragePaths, SourceKey, tmp_dir, index_path}
use rs_detritus.Storage.Sources.{IsSource}
use rs_detritus.Storage.Layout.{
  IsDigest, NoSlash, blob_place, long-IsSegment, literal-IsSegment, NoSlash-append, join_onto,
  index_path_parts,
}
use rs_detritus.Disk.{Disk, raise_io, create_dir_all, create_file, sync_file, write_file}
use rs_detritus.Protocol.{CrashMetadata}
use rs_detritus.Crashes.{
  BlobPointer, AttachmentPointer, CrashIndex, Field, CrashError, json, io, Libraries,
}
use rs_detritus.Crashes.Laws.{LibraryLaws, IsTemp}
use rs_detritus.Crashes.Blobs.{
  write_chunks, create_parent, finalize_blob, temp_path, write_part_to_blob, write_index,
}
use rs_detritus.Crashes.Blobs.Addressed.{IsAddressed}
use rs_detritus.Crashes.Blobs.Steps.{
  Anything, raise_io-Ends, Holds, create_dir_all-Ends, create_file-Ends, sync_file-Ends,
  write_file-Ends,
}
use rs_detritus.Multer.{part_bytes}
use rs_detritus.Crashes.Blobs.Writing.{Progress, write_chunks-Ends, finalize_blob-Ends}

-- The pointer of a part that arrived whole: the digest and the length of its bytes, and the length is
-- within the limit.
pub record PointsTo (L : Libraries) (max_bytes : ℕ) (field : Field) (pointer : BlobPointer)
    : Type 0 where
  pub content : Str
  pub whole : part_bytes field.chunks ≡ some content
  pub sha256 : pointer.sha256 ≡ L.digest content
  pub len : pointer.len ≡ length content
  pub fits : pointer.len ≤ max_bytes
  pub encoding : pointer.content_encoding ≡ field.content_encoding

module _ (L : Libraries) (laws : LibraryLaws L) (p : StoragePaths) where
  temp_path-IsTemp : (uuid : Str) → NoSlash uuid → IsTemp p (temp_path L p uuid)
  unfolding tmp_dir bytes
  temp_path-IsTemp uuid h = (
    uuid ++ bytes ".tmp",
    rw (join-segment p.data_dir (bytes "tmp") (literal-IsSegment _ _ _ (ground arith))) (
        join_onto p.data_dir (bytes "tmp" ∷ []) (uuid ++ bytes ".tmp")
          (long-IsSegment uuid _ _ _ (NoSlash-append uuid (bytes ".tmp") h (ground arith)))),
  )

  -- From a disk on which every blob has the content that it is named after, with libraries that
  -- keep `LibraryLaws`, a UUID without a slash, and other tasks that put blobs only where these
  -- belong and leave temporary files alone: however the upload of a part ends, every blob still
  -- has the content that it is named after, and nothing panics. If it returns a pointer, the part
  -- arrived whole, and the pointer has the digest and the length of its bytes, at most the limit,
  -- and the encoding of the part.
  pub write_part_to_blob-Ends :
      (uuid : Str) (field : Field) (max_bytes : ℕ) (d : Disk)
      → NoSlash uuid
      → IsAddressed L p d
      → Ends
          (IsAddressed L p)
          (λ pointer _. PointsTo L max_bytes field pointer)
          (write_part_to_blob L p uuid field max_bytes d)
  unfolding write_part_to_blob
  write_part_to_blob-Ends uuid field max_bytes d no_slash h =
      let temp = temp_path L p uuid in
      let is_temp = temp_path-IsTemp uuid no_slash in
      Ends-bind (Anything L p) _ (raise_io io (create_dir_all (tmp_dir p))) _ d
        (raise_io-Ends L p _ io (create_dir_all (tmp_dir p)) d
          (Ends-weaken _ (Anything L p) _ (λ a s _. tt) (create_dir_all-Ends L p (tmp_dir p) d h)))
        λ _ d1 h1 _.
          Ends-bind (λ _. Holds L p temp is_temp []) _ (raise_io io (create_file temp)) _ d1
            (raise_io-Ends L p _ io (create_file temp) d1 (create_file-Ends L p temp is_temp d1 h1))
            λ _ d2 h2 holds2.
              Ends-bind (Progress L p temp is_temp max_bytes [] field.chunks) _
                (write_chunks temp max_bytes field.chunks 0 []) _ d2
                (write_chunks-Ends L p temp is_temp max_bytes field.chunks 0 [] d2 h2 holds2 refl
                  (omega arith))
                λ w d3 h3 g.
                  Ends-bind (λ _. Holds L p temp is_temp w.1) _ (raise_io io (sync_file temp)) _ d3
                    (raise_io-Ends L p _ io (sync_file temp) d3
                      (sync_file-Ends L p temp is_temp w.1 d3 h3 g.on_disk))
                    λ _ d4 h4 holds4.
                      Ends-bind (λ _. Holds L p temp is_temp w.1) _ (raise_io io (sync_file temp)) _
                        d4
                        (raise_io-Ends L p _ io (sync_file temp) d4
                          (sync_file-Ends L p temp is_temp w.1 d4 h4 holds4))
                        λ _ d5 h5 holds5.
                          Ends-bind (Anything L p) _ (finalize_blob p temp (L.digest w.1)) _ d5
                            (finalize_blob-Ends L p temp is_temp laws w.1 d5 h5 holds5)
                            λ r d6 h6 _. Ends-ok _ d6 h6 (record {
                              content = w.1;
                              whole = g.whole ∙ ap some (sym g.hash);
                              sha256 = refl;
                              len = g.size;
                              fits = g.fits;
                              encoding = refl;
                            })

  source-ne-hash : bytes "by-source" ≢ bytes "by-hash"
  unfolding bytes
  source-ne-hash e = ground arith

  index_is_no_blob :
      (k : SourceKey) (t sha other : Str)
      → IsSource k
      → NoSlash t
      → IsDigest sha
      → index_path p k t sha ≢ blob_place p other
  index_is_no_blob k t sha other hk ht hs e =
      source-ne-hash
        (cc (append_cancel_left p.data_dir _ _ (sym (index_path_parts p k t sha hk ht hs) ∙ e)))

  create_parent-kept :
      (o : Option FilePath) (d : Disk)
      → IsAddressed L p d
      → Ends (IsAddressed L p) (Anything L p) (create_parent o d)
  unfolding create_parent
  create_parent-kept none d h = Ends-ok tt d h tt
  create_parent-kept (some dir) d h =
      raise_io-Ends L p _ io (create_dir_all dir) d
        (Ends-weaken _ (Anything L p) _ (λ a s _. tt) (create_dir_all-Ends L p dir d h))

  lift-ok_or-Ends :
      (o : Option Str) (d : Disk)
      → IsAddressed L p d
      → Ends {E = CrashError} (IsAddressed L p) (Anything L p) (lift (ok_or json o) d)
  lift-ok_or-Ends none d h = Ends-err json d h
  lift-ok_or-Ends (some s) d h = Ends-ok s d h tt

  -- The index goes beside the blobs, so writing it leaves each blob with its content.
  pub write_index-Ends :
      (source : SourceKey) (metadata : CrashMetadata L.Json) (dump : BlobPointer)
      (attachments : List AttachmentPointer) (d : Disk)
      → IsSource source
      → IsDigest dump.sha256
      → IsAddressed L p d
      → Ends (IsAddressed L p) (Anything L p) (write_index L p source metadata dump attachments d)
  unfolding write_index
  write_index-Ends source metadata dump attachments d hk hs h =
      let path = index_path p source (L.format_timestamp metadata.timestamp) dump.sha256 in
      let index : CrashIndex L.Json = record {
        metadata = metadata;
        dump = dump;
        attachments = attachments;
      } in
      Ends-bind (Anything L p) (Anything L p) (create_parent (parent path)) _ d
        (create_parent-kept (parent path) d h)
        λ _ d1 h1 _.
          Ends-bind (Anything L p) (Anything L p) (lift (ok_or json (L.encode_index index))) _ d1
            (lift-ok_or-Ends (L.encode_index index) d1 h1)
            λ encoded d2 h2 _. raise_io-Ends L p _ io (write_file path encoded) d2 (
              write_file-Ends L p path encoded d2
                (λ other.
                  index_is_no_blob source _ dump.sha256 other hk
                    (laws.timestamp-NoSlash metadata.timestamp) hs)
                h2)
