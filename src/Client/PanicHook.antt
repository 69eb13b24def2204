-- ===== src/Client/PanicHook.antt =====
-- crates/detritus-client/src/panic_hook.rs: how a panic becomes a pending crash. The bundle of text,
-- backtrace and environment that `tar` and `flate2` make of a panic is a parameter, as are the decimal
-- numbers of `format!` and `OsStr::to_str`.
pub mod Context
pub mod Entries
use rs_detritus.Common.{
  ℕ, suc, Str, Bool, Option, none, some, List, [], ◌∷◌, ◌++◌, bytes, length, Result, ok, err, panic,
  pure, lift, ok_or, ◌>>=◌, ◌>>◌,
}
use rs_detritus.FilePath.{FilePath, file_name}
use rs_detritus.Storage.{IoError, other_io}
use rs_detritus.Protocol.{
  SourceId, BuildInfo, CrashKind, minidump, panic_tarball, CrashMetadata, AttachmentManifest,
  new_crash_metadata,
}
use rs_detritus.Client.{ClientLibraries, StoredUploadConfig}
use rs_detritus.Client.Spool.{SpoolIo, read_outside, create_pending, write_pending}

pub data PanicKind : Type 0 where
  native_minidump tarball_of_panic : PanicKind

-- `PanicKind::panic_crash_kind`
unfoldable pub panic_crash_kind : PanicKind → CrashKind
panic_crash_kind native_minidump = panic_tarball
panic_crash_kind tarball_of_panic = panic_tarball

-- What a panic carries: a `&str`, a `String` or any other value.
pub data Payload : Type 0 where
  str_payload string_payload : Str → Payload
  other_payload : Payload

-- A file with a line and a column, where the location is known.
pub record PanicInfo : Type 0 where
  pub payload : Payload
  pub location : Option (Str × ℕ × ℕ)

module _ (C : ClientLibraries) where
  -- Without the token, which no operation of the hook reads, and the folder, which is the `Spool`.
  pub record PanicHookConfig : Type 0 where
    pub endpoint : C.Url
    pub source : SourceId
    pub kind : PanicKind
    pub build : BuildInfo
    pub context : C.Json
    pub context_files : List FilePath
    pub sent_retention_days : ℕ

  module _ (show : ℕ → Str) (to_str : Str → Option Str) where
    payload_text : Payload → Str
    payload_text (str_payload s) = s
    payload_text (string_payload s) = s
    payload_text other_payload = bytes "<non-string panic payload>"

    located : Str → Option (Str × ℕ × ℕ) → Str
    located payload none = payload
    located payload (some (file, line, column)) =
        payload
        ++ (10 ∷ 10 ∷ [])
        ++ bytes "at "
        ++ file
        ++ bytes ":"
        ++ show line
        ++ bytes ":"
        ++ show column

    unfoldable pub panic_text : PanicInfo → Str
    unfolding payload_text located
    panic_text info = located (payload_text info.payload) info.location

    -- `StoredUploadConfig::from_config`
    unfoldable pub from_config : PanicHookConfig → StoredUploadConfig
    from_config config = record {
      endpoint = C.url_text config.endpoint;
      sent_retention_days = config.sent_retention_days;
    }

    name_or_index : ℕ → Option Str → Str
    name_or_index index none = bytes "context-" ++ show index ++ bytes ".json"
    name_or_index index (some name) = name

    unfoldable pub context_name : ℕ → FilePath → Str
    unfolding name_or_index
    context_name index path =
        name_or_index index (elim (file_name path) [ none ↦ none | some s ↦ to_str s ])

    unfoldable pub copy_context_file : ℕ → FilePath → Str → SpoolIo AttachmentManifest
    copy_context_file index path dir = do
      contents ← read_outside path
      write_pending dir (context_name index path) contents
      pure (record {
        key = bytes "context-" ++ show index;
        filename = some (context_name index path);
        content_type = bytes "application/json";
        len = length contents;
      })

    -- `copy_context_files`, from this index on.
    unfoldable pub copy_context_files : ℕ → List FilePath → Str → SpoolIo (List AttachmentManifest)
    copy_context_files index [] dir = pure []
    copy_context_files index (path ∷ paths) dir = do
      manifest ← copy_context_file index path dir
      rest ← copy_context_files (suc index) paths dir
      pure (manifest ∷ rest)

    -- The manifest of `sdk-config.json`, with the length of the compact encoding.
    unfoldable pub config_manifest : PanicHookConfig → AttachmentManifest
    config_manifest config = record {
      key = bytes "sdk-config";
      filename = some (bytes "sdk-config.json");
      content_type = bytes "application/json";
      len = elim (C.encode_stored_config (from_config config)) [ none ↦ 0 | some s ↦ length s ];
    }

    -- The three files that every entry has.
    unfoldable pub write_artifacts :
        PanicHookConfig → Str → CrashMetadata C.Json → Str → SpoolIo (Unit {0})
    write_artifacts config dir metadata dump = do
      text ← lift (ok_or other_io (C.pretty_metadata metadata))
      write_pending dir (bytes "metadata.json") text
      write_pending dir (bytes "dump.bin") dump
      stored ← lift (ok_or other_io (C.pretty_stored_config (from_config config)))
      write_pending dir (bytes "sdk-config.json") stored

    -- With `panic_tarball`, at a time in nanoseconds, into the entry that a new UUID names.
    unfoldable pub write_pending_crash :
        (Str → Result IoError Str) → PanicHookConfig → PanicInfo → Str → ℕ → SpoolIo (Unit {0})
    write_pending_crash tarball config info dir now = do
      create_pending dir
      dump ← lift (tarball (panic_text info))
      context ← copy_context_files 0 config.context_files dir
      write_artifacts config dir
          (record (new_crash_metadata config.source now (panic_crash_kind config.kind) config.build
            config.context) {
              panic_text = some (panic_text info);
              attachments = config_manifest config ∷ context;
            })
          dump

    unfoldable pub write_pending_minidump : PanicHookConfig → Str → Str → ℕ → SpoolIo (Unit {0})
    write_pending_minidump config dump dir now = do
      create_pending dir
      context ← copy_context_files 0 config.context_files dir
      write_artifacts config dir
          (record (new_crash_metadata config.source now minidump config.build config.context) {
            attachments = context;
          })
          dump
