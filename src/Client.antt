-- ===== src/Client.antt =====
-- crates/detritus-client: the client. It keeps crashes and logs in a spool until the server has them.
pub mod Compression
pub mod Spool
pub mod Upload
pub mod Shipper
pub mod Layer
pub mod PanicHook
use rs_detritus.Common.{ℕ, ℤ, Str, Bool, Option, Result}
use rs_detritus.Storage.{IoError}
use rs_detritus.Protocol.{CrashMetadata}

-- The file `sdk-config.json` of a crash.
pub record StoredUploadConfig : Type 0 where
  pub endpoint : Str
  pub sent_retention_days : ℕ

-- The crates that the client calls, each by what the client sees of it.
pub record ClientLibraries : Type 1 where
  pub Json : Type 0
  -- the addresses of the crate `url`
  pub Url : Type 0
  pub parse_url : Str → Option Url
  pub url_text : Url → Str
  pub url_path : Url → Str
  pub join_url : Url → Str → Option Url
  -- `zstd::encode_all`, with the level
  pub encode_all : Str → ℤ → Result IoError Str
  pub parse_metadata : Str → Option (CrashMetadata Json)
  -- `serde_json::to_vec` and `serde_json::to_vec_pretty`
  pub encode_metadata : CrashMetadata Json → Option Str
  pub pretty_metadata : CrashMetadata Json → Option Str
  pub parse_stored_config : Str → Option StoredUploadConfig
  pub encode_stored_config : StoredUploadConfig → Option Str
  pub pretty_stored_config : StoredUploadConfig → Option Str
  -- whether `HeaderValue::from_str` takes a text
  pub is_header_value : Str → Bool
  -- `Uuid::new_v4`, drawn in turn
  pub uuid : ℕ → Str
