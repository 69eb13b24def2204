-- ===== src/Crashes.antt =====
-- crates/detritus-server/src/crashes.rs: the upload of a crash. The types and the libraries that the
-- handler calls; the blobs, the gate and the handler itself are the children.
pub mod Laws
pub mod Blobs
pub mod Handler
use rs_detritus.Common.{ℕ, Str, Bool, Option, none, some, List, Result, ok, err, panic, ◌*◌, bytes}
use rs_detritus.Storage.{IoError, StorageError}
use rs_detritus.Protocol.{CrashMetadata}
use rs_detritus.Schemas.{SchemaError, validation}
use rs_detritus.RateLimit.Float.{Float64}
pub use rs_detritus.Multer.{Chunk, data_chunk, broken_chunk, Field, Part, part, broken_part}

abbrev pub metadata_max_bytes : ℕ
metadata_max_bytes = 64 * 1024

pub record CrashResponse : Type 0 where
  pub id : Str
  pub dedup : Bool

pub record BlobPointer : Type 0 where
  pub sha256 : Str
  pub len : ℕ
  pub path : Str
  pub dedup : Bool
  pub content_encoding : Option Str

pub record AttachmentPointer : Type 0 where
  pub key : Str
  pub content_type : Str
  pub sha256 : Str
  pub len : ℕ
  pub path : Str
  pub dedup : Bool
  pub content_encoding : Option Str

pub record CrashIndex (J : Type 0) : Type 0 where
  pub metadata : CrashMetadata J
  pub dump : BlobPointer
  pub attachments : List AttachmentPointer

pub data CrashError : Type 0 where
  bad_request : Str → CrashError
  missing_part : Str → CrashError
  protocol_mismatch : ℕ → ℕ → CrashError
  permission_denied rate_limited : CrashError
  payload_too_large : ℕ → CrashError
  schema_validation : List Str → CrashError
  internal : Str → CrashError
  json multipart : CrashError
  storage : StorageError → CrashError
  io : IoError → CrashError

-- The crates that the handler calls, each by what the handler sees of it.
pub record Libraries : Type 1 where
  pub Json : Type 0
  pub float : Float64
  -- `hex::encode` of the SHA-256 of the bytes
  pub digest : Str → Str
  -- `Uuid::new_v4`, drawn in turn
  pub uuid : ℕ → Str
  pub parse_boundary : Str → Option Str
  -- the parts of a body, for its boundary
  pub parts : Str → Str → List Part
  pub parse_metadata : Str → Option (CrashMetadata Json)
  pub metadata_value : CrashMetadata Json → Result Str Json
  pub encode_index : CrashIndex Json → Option Str
  -- the time in the form `%Y%m%dT%H%M%S%.fZ`
  pub format_timestamp : ℕ → Str
  pub describe : SchemaError → Str

-- `CrashError::from_schema_error`
unfoldable pub from_schema_error : (SchemaError → Str) → SchemaError → CrashError
from_schema_error describe (validation kind errors) = schema_validation errors
from_schema_error describe e = internal (describe e)

-- `CrashError::status_code`
unfoldable pub status_code : CrashError → ℕ
status_code (bad_request _) = 400
status_code (missing_part _) = 400
status_code json = 400
status_code multipart = 400
status_code (protocol_mismatch _ _) = 412
status_code permission_denied = 403
status_code rate_limited = 429
status_code (payload_too_large _) = 413
status_code (schema_validation _) = 422
status_code (internal _) = 500
status_code (storage (StorageError.invalid_component _ _)) = 400
status_code (storage (StorageError.io _)) = 500
status_code (io _) = 500
