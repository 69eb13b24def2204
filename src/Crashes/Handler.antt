-- ===== src/Crashes/Handler.antt =====
-- crates/detritus-server/src/crashes.rs: `crashes_handler`, `crashes_inner` and `read_metadata`.
pub mod Gate
pub mod Safety
pub mod Opening
pub mod Malformed
use rs_detritus.Common.{
  ℕ, Str, Bool, true, false, Option, none, some, List, [], ◌∷◌, ◌++◌, bytes, ◌+◌, ◌/◌, ◌%◌, ltb,
  nat_eqb, length, if◌then◌else◌, ◌==◌, nat_eq, list_eq, Result, ok, err, panic, Action, pure,
  throw, lift, map_err, ok_or, and_then, ◌>>=◌, ◌>>◌, strip_prefix,
}
use rs_detritus.FilePath.{FilePath}
use rs_detritus.Storage.{StoragePaths, SourceKey, new_source_key}
use rs_detritus.Disk.{Disk}
use rs_detritus.Auth.{TokenContext, permits}
use rs_detritus.RateLimit.{RateLimiter, RateLimitError, check_crashes}
use rs_detritus.Metrics.{
  Metrics, observe_request, observe_bytes, observe_dedup_hit, observe_validation_failure,
}
use rs_detritus.Protocol.{CrashMetadata, protocol_version, crash_metadata}
use rs_detritus.Schemas.{SchemaError, SchemaRegistry, validate}
use rs_detritus.Crashes.{
  CrashResponse, BlobPointer, AttachmentPointer, Chunk, data_chunk, broken_chunk, Field, Part, part,
  broken_part, CrashError, bad_request, missing_part, protocol_mismatch, permission_denied,
  rate_limited, payload_too_large, schema_validation, internal, json, multipart, storage, Libraries,
  metadata_max_bytes, from_schema_error, status_code,
}
use rs_detritus.Crashes.Blobs.{write_part_to_blob, write_index}

-- The headers that the handler reads, as the outer option says whether the header is there and the
-- inner one whether it is text, and the body.
pub record Upload : Type 0 where
  pub content_type : Option (Option Str)
  pub body : Str

-- The shared state of the server that an upload reads and changes, with the clock and the count of
-- UUIDs drawn.
module _ (L : Libraries) where
  pub record World : Type 0 where
    pub disk : Disk
    pub limiter : RateLimiter L.float
    pub metrics : Metrics
    pub uuids : ℕ
    pub now : ℕ

  pub record Config : Type 0 where
    pub storage : StoragePaths
    pub max_dump_bytes : ℕ
    pub schema_registry : SchemaRegistry L.Json

  abbrev pub Serving : Type 0 → Type 0
  Serving A = Action World CrashError A

  unfoldable pub on_disk : {A : Type 0} → Action Disk CrashError A → Serving A
  on_disk m w = let (r, d) = m w.disk in (r, record w { disk = d })

  unfoldable pub on_metrics : (Metrics → Metrics) → Serving (Unit {0})
  on_metrics f w = (ok tt, record w { metrics = f w.metrics })

  unfoldable pub draw_uuid : Serving Str
  draw_uuid w = (ok (L.uuid w.uuids), record w { uuids = w.uuids + 1 })

  -- The loop of `read_metadata`.
  unfoldable pub read_chunks : List Chunk → Str → Result CrashError Str
  read_chunks [] bs = ok bs
  read_chunks (broken_chunk ∷ cs) bs = err multipart
  read_chunks (data_chunk b ∷ cs) bs =
      let rest = read_chunks cs (bs ++ b) in
      if ltb metadata_max_bytes (length bs + length b)
      then err (payload_too_large metadata_max_bytes)
      else rest

  unfoldable pub read_metadata : Field → Result CrashError (CrashMetadata L.Json)
  unfolding read_chunks
  read_metadata field =
      and_then (read_chunks field.chunks []) (λ bs. ok_or json (L.parse_metadata bs))

  header_text : Option (Option Str) → Result CrashError Str
  header_text none = err (bad_request (bytes "missing content-type header"))
  header_text (some none) = err (bad_request (bytes "content-type header is not UTF-8"))
  header_text (some (some s)) = ok s

  first_part : List Part → Result CrashError (Field × List Part)
  first_part [] = err (missing_part (bytes "metadata"))
  first_part (broken_part ∷ ps) = err multipart
  first_part (part field ∷ ps) = ok (field, ps)

  abbrev is_named : Str → Option Str → Bool
  is_named name none = false
  is_named name (some s) = s == name

  abbrev pub Opened : Type 0
  Opened = CrashMetadata L.Json × List Part

  check_version : List Part → CrashMetadata L.Json → Result CrashError Opened
  check_version ps metadata =
      if nat_eqb metadata.schema_version protocol_version
      then ok (metadata, ps)
      else err (protocol_mismatch metadata.schema_version protocol_version)

  -- The first part, with the parts behind it.
  open_first : Field × List Part → Result CrashError Opened
  open_first (field, ps) =
      if is_named (bytes "metadata") field.name
      then and_then (read_metadata field) (check_version ps)
      else err (bad_request (bytes "first multipart part must be `metadata`"))

  -- The part of `crashes_inner` up to the test of the protocol version: the metadata and the parts
  -- behind it.
  unfoldable pub open_upload : Upload → Result CrashError Opened
  unfolding header_text first_part open_first check_version
  open_upload u = and_then (header_text u.content_type) λ content_type.
      and_then
        (ok_or (bad_request (bytes "missing multipart boundary")) (L.parse_boundary content_type))
        λ boundary. and_then (first_part (L.parts boundary u.body)) open_first

  limit_crashes : TokenContext → SourceKey → Serving (Unit {0})
  limit_crashes token source w =
      let (r, limiter) = check_crashes L.float token.id source w.now w.limiter in
      (map_err (λ _. rate_limited) r, record w { limiter = limiter })

  report_schema : Result SchemaError (Unit {0}) → Serving (Unit {0})
  report_schema (ok _) = pure tt
  report_schema panic = lift panic
  report_schema (err e) = do
    on_metrics (observe_validation_failure (bytes "crashes"))
    throw (from_schema_error L.describe e)

  -- The part of `crashes_inner` from the source to the schema: who may upload what.
  unfoldable pub admit : Config → TokenContext → CrashMetadata L.Json → Serving SourceKey
  unfolding limit_crashes report_schema
  admit config token metadata = do
    source ←
        lift (map_err storage (new_source_key metadata.source.project metadata.source.install_id))
    if permits token source then pure tt else throw permission_denied
    limit_crashes token source
    value ← lift (map_err internal (L.metadata_value metadata))
    report_schema
        (validate L.Json config.schema_registry metadata.source.project crash_metadata value)
    pure source

  unfoldable pub store_part : Config → Field → Serving BlobPointer
  store_part config field = do
    uuid ← draw_uuid
    on_disk (write_part_to_blob L config.storage uuid field config.max_dump_bytes)

  to_attachment : Str → Option Str → BlobPointer → AttachmentPointer
  to_attachment key content_type pointer = record {
    key = key;
    content_type = elim content_type [ none ↦ bytes "application/octet-stream" | some t ↦ t ];
    sha256 = pointer.sha256;
    len = pointer.len;
    path = pointer.path;
    dedup = pointer.dedup;
    content_encoding = pointer.content_encoding;
  }

  -- What the name of a part asks for.
  pub data Purpose : Type 0 where
    metadata_again dump_again dump_part : Purpose
    attachment : Str → Purpose
    unexpected : Str → Purpose

  purpose_of_other : Str → Option Str → Purpose
  purpose_of_other name none = unexpected name
  purpose_of_other name (some key) = attachment key

  -- The `match` on the name; the dump is there already or not.
  unfoldable pub purpose : Str → Option BlobPointer → Purpose
  unfolding purpose_of_other
  purpose name dump =
      if name == bytes "metadata"
      then metadata_again
      else if name == bytes "dump"
      then elim dump [ none ↦ dump_part | some _ ↦ dump_again ]
      else purpose_of_other name (strip_prefix (bytes "attach:") name)

  abbrev pub Collected : Type 0
  Collected = Option BlobPointer × List AttachmentPointer

  serve_purpose :
      Config → Field → Purpose → Option BlobPointer → List AttachmentPointer → Serving Collected
  serve_purpose config field metadata_again dump attachments =
      throw (bad_request (bytes "metadata part must appear exactly once"))
  serve_purpose config field dump_again dump attachments =
      throw (bad_request (bytes "dump part must appear exactly once"))
  serve_purpose config field dump_part dump attachments = do
    pointer ← store_part config field
    pure (some pointer, attachments)
  serve_purpose config field (attachment key) dump attachments = do
    pointer ← store_part config field
    pure (dump, attachments ++ (to_attachment key field.content_type pointer ∷ []))
  serve_purpose config field (unexpected name) dump attachments =
      throw (bad_request (bytes "unexpected part `" ++ name ++ bytes "`"))

  take_named :
      Config → Field → Option Str → Option BlobPointer → List AttachmentPointer → Serving Collected
  take_named config field none dump attachments =
      throw (bad_request (bytes "multipart part is missing a name"))
  take_named config field (some name) dump attachments =
      serve_purpose config field (purpose name dump) dump attachments

  -- The body of the loop: what is collected with one more part.
  unfoldable pub take_part :
      Config → Field → Option BlobPointer → List AttachmentPointer → Serving Collected
  unfolding take_named serve_purpose to_attachment
  take_part config field dump attachments = take_named config field field.name dump attachments

  -- The loop over the parts behind the metadata.
  unfoldable pub collect_parts :
      Config → List Part → Option BlobPointer → List AttachmentPointer → Serving Collected
  collect_parts config [] dump attachments = pure (dump, attachments)
  collect_parts config (broken_part ∷ ps) dump attachments = throw multipart
  collect_parts config (part field ∷ ps) dump attachments = do
    (dump', attachments') ← take_part config field dump attachments
    collect_parts config ps dump' attachments'

  -- The end of `crashes_inner`.
  unfoldable pub finish :
      Config → SourceKey → CrashMetadata L.Json → Collected → Serving (ℕ × CrashResponse)
  finish config source metadata (none, attachments) = throw (missing_part (bytes "dump"))
  finish config source metadata (some dump, attachments) = do
    on_metrics (observe_bytes (bytes "crashes") dump.len)
    if dump.dedup then on_metrics observe_dedup_hit else pure tt
    on_disk (write_index L config.storage source metadata dump attachments)
    pure (201, record { id = dump.sha256; dedup = dump.dedup })

  unfoldable pub crashes_inner : Config → TokenContext → Upload → Serving (ℕ × CrashResponse)
  crashes_inner config token u = do
    (metadata, ps) ← lift (open_upload u)
    source ← admit config token metadata
    collected ← collect_parts config ps none []
    finish config source metadata collected

  abbrev status_of : Result CrashError (ℕ × CrashResponse) → ℕ
  status_of (ok (status, response)) = status
  status_of (err e) = status_code e
  status_of panic = 0

  -- `StatusCode::as_str`: three digits.
  abbrev pub status_text : ℕ → Str
  status_text n = (b'0' + n / 100) ∷ (b'0' + n / 10 % 10) ∷ (b'0' + n % 10) ∷ []

  observe_outcome :
      ℕ
      → Result CrashError (ℕ × CrashResponse)
      → World
      → Result CrashError (ℕ × CrashResponse) × World
  observe_outcome elapsed panic w = (panic, w)
  observe_outcome elapsed r w = (
    r,
    record w {
      metrics = observe_request (bytes "crashes") (status_text (status_of r)) elapsed w.metrics;
    },
  )

  -- `crashes_handler`, with the time that the request took
  unfoldable pub crashes_handler : Config → TokenContext → Upload → ℕ → Serving (ℕ × CrashResponse)
  unfolding observe_outcome
  crashes_handler config token u elapsed w =
      let (r, w') = crashes_inner config token u w in observe_outcome elapsed r w'
