-- ===== src/Protocol.antt =====
-- crates/detritus-protocol/src/crash.rs, source.rs, schema.rs: the types of the wire. `J` is the JSON
-- value of serde; a UUID is its text, and a time is a number of nanoseconds.
use rs_detritus.Common.{ℕ, Str, Bool, true, false, Option, none, List, [], ◌≡◌, ◌↔◌, arith, Eq}

-- The server and the client are built from one `PROTOCOL_VERSION`.
abbrev pub protocol_version : ℕ
protocol_version = 1

pub record SourceId : Type 0 where
  pub project : Str
  pub platform : Str
  pub version : Str
  pub install_id : Str

pub record AttachmentManifest : Type 0 where
  pub key : Str
  pub filename : Option Str
  pub content_type : Str
  pub len : ℕ

pub record BuildInfo : Type 0 where
  pub git_sha : Str
  pub profile : Str
  pub target_triple : Str

pub data CrashKind : Type 0 where
  minidump panic_tarball rustc_ice : CrashKind

pub record CrashMetadata (J : Type 0) : Type 0 where
  pub schema_version : ℕ
  pub source : SourceId
  pub timestamp : ℕ
  pub kind : CrashKind
  pub build : BuildInfo
  pub panic_text : Option Str
  pub context : J
  pub attachments : List AttachmentManifest

-- `CrashMetadata::new`
unfoldable pub new_crash_metadata :
    {J : Type 0} → SourceId → ℕ → CrashKind → BuildInfo → J → CrashMetadata J
new_crash_metadata source timestamp kind build context = record {
  schema_version = protocol_version;
  source = source;
  timestamp = timestamp;
  kind = kind;
  build = build;
  panic_text = none;
  context = context;
  attachments = [];
}

pub record CrashAttachment : Type 0 where
  pub key : Str
  pub content_type : Str
  pub bytes : Str

pub record CrashEnvelope (J : Type 0) : Type 0 where
  pub metadata : CrashMetadata J
  pub dump : Str
  pub attachments : List CrashAttachment

pub data SchemaKind : Type 0 where
  crash_metadata log_attributes : SchemaKind

abbrev pub kind_beq : SchemaKind → SchemaKind → Bool
kind_beq crash_metadata crash_metadata = true
kind_beq log_attributes log_attributes = true
kind_beq _ _ = false

pub kind_beq_iff : (a b : SchemaKind) → (kind_beq a b ≡ true) ↔ (a ≡ b)
kind_beq_iff a b = ground arith

instance abbrev pub schema_kind_eq : Eq SchemaKind
schema_kind_eq = record { decides = kind_beq_iff; test = kind_beq }
