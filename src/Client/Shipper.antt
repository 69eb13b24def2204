-- ===== src/Client/Shipper.antt =====
-- crates/detritus-client/src/shipper.rs: what becomes of the pending crashes.
pub mod Delivery
pub mod Preserved
pub mod Runs
pub mod Stored
pub mod Cleanup
pub mod Progress
use rs_detritus.Common.{
  ℕ, ℤ, Str, Bool, true, false, Option, none, some, List, [], ◌∷◌, ◌++◌, ◌+◌, ◌-◌, ◌*◌, ◌^◌, ◌&&◌,
  bytes, ltb, leb, ◌==◌, nat_eq, list_eq, if◌then◌else◌, Result, ok, err, panic, Action, pure,
  throw, lift, map_err, and_then, ok_or, ◌>>=◌, ◌>>◌, strip_suffix,
}
use rs_detritus.Common.Table.{lookup}
use rs_detritus.Storage.{IoError, other_io, not_found}
use rs_detritus.Protocol.{CrashMetadata, CrashEnvelope, CrashAttachment, AttachmentManifest}
use rs_detritus.Multipart.{
  ProtocolError, PartEncoding, EnvelopeEncodings, buffer, write_to_with_boundary_and_encodings,
  default_boundary,
}
use rs_detritus.Client.{ClientLibraries, StoredUploadConfig}
use rs_detritus.Client.Compression.{
  compress, default_compression_level, should_compress_content_type,
}
use rs_detritus.Client.Spool.{
  Spool, SpoolIo, Entry, io_step, read_pending, exists_pending, exists_sent, remove_sent,
  rename_to_sent, acquire_lock, pending_entries,
}
use rs_detritus.Client.Upload.{
  ShipConfig, ShipError, io, json, http, invalid_token, status, protocol, missing_stored_config,
  Reply, unreachable, answered, Request, World, Shipping, on_spool, post_envelope,
}

abbrev pub default_sent_retention_days : ℕ
default_sent_retention_days = 90

-- The seconds of a 64-bit number of days, which the multiplication saturates, and the instant that
-- lies as far back: the epoch if there is none.
unfoldable pub cutoff : ℕ → ℕ → ℕ
cutoff now retention_days =
    let seconds = retention_days * (24 * 60 * 60) in
    now - (if ltb seconds (2 ^ 64) then seconds else 2 ^ 64 - 1)

-- The time of the metadata; an error of the disk ends the cleaning.
unfoldable pub modified_sent : Str → SpoolIo ℕ
modified_sent name = do
  io_step
  λ s. elim (lookup name s.sent) [ none ↦ (err not_found, s) | some e ↦ (ok e.modified, s) ]

-- The loop of `cleanup_sent`.
unfoldable pub remove_older : ℕ → List Str → SpoolIo (Unit {0})
remove_older limit [] = pure tt
remove_older limit (entry ∷ rest) = do
  modified ← modified_sent entry
  if ltb modified limit then remove_sent entry else pure tt
  remove_older limit rest

unfoldable pub cleanup_sent : ℕ → SpoolIo (Unit {0})
cleanup_sent retention_days s =
    (pending_entries (λ t. t.sent) >>= remove_older (cutoff s.now retention_days)) s

unfoldable pub record_retention : Option ℕ → ℕ → Option ℕ
record_retention none days = some days
record_retention (some current) days = some (if ltb current days then days else current)

unfoldable pub retention_or_default : Option ℕ → ℕ
retention_or_default none = default_sent_retention_days
retention_or_default (some days) = days

-- `lock`, `create_dir_all` of both folders
unfoldable pub prepare : SpoolIo (Unit {0})
prepare = do acquire_lock; io_step; io_step

module _ (C : ClientLibraries) where
  -- The closures of `read_envelope`: nothing for a manifest without a file name.
  unfoldable pub read_attachment :
      Str → AttachmentManifest → Option Str → Shipping C (List CrashAttachment)
  read_attachment entry manifest none = pure []
  read_attachment entry manifest (some filename) = do
    contents ← on_spool C (read_pending entry filename)
    pure
        (record { key = manifest.key; content_type = manifest.content_type; bytes = contents } ∷ [])

  unfoldable pub read_attachments :
      Str → List AttachmentManifest → Shipping C (List CrashAttachment)
  read_attachments entry [] = pure []
  read_attachments entry (manifest ∷ rest) = do
    found ← read_attachment entry manifest manifest.filename
    others ← read_attachments entry rest
    pure (found ++ others)

  unfoldable pub read_envelope : Str → Shipping C (CrashEnvelope C.Json)
  read_envelope entry = do
    text ← on_spool C (read_pending entry (bytes "metadata.json"))
    metadata ← lift (ok_or json (C.parse_metadata text))
    dump ← on_spool C (read_pending entry (bytes "dump.bin"))
    attachments ← read_attachments entry metadata.attachments
    pure (record { metadata = metadata; dump = dump; attachments = attachments })

  unfoldable pub ship_one : Str → C.Url → Str → ShipConfig → Shipping C (Unit {0})
  ship_one entry endpoint token config = do
    envelope ← read_envelope entry
    post_envelope C endpoint token envelope config
    there ← on_spool C (exists_sent entry)
    if there then on_spool C (remove_sent entry) else pure tt
    on_spool C (rename_to_sent entry)

  -- The loop of `ship_pending_with_client`.
  unfoldable pub ship_entries : List Str → C.Url → Str → ShipConfig → ℕ → Shipping C ℕ
  ship_entries [] endpoint token config shipped = pure shipped
  ship_entries (entry ∷ rest) endpoint token config shipped = do
    ship_one entry endpoint token config
    ship_entries rest endpoint token config (shipped + 1)

  unfoldable pub ship_pending : C.Url → Str → ShipConfig → Shipping C ℕ
  ship_pending endpoint token config = do
    on_spool C prepare
    on_spool C (cleanup_sent default_sent_retention_days)
    entries ← on_spool C (pending_entries (λ s. s.pending))
    ship_entries entries endpoint token config 0

  read_if_there : Str → Bool → Shipping C (Option StoredUploadConfig)
  read_if_there entry false = pure none
  read_if_there entry true = do
    text ← on_spool C (read_pending entry (bytes "sdk-config.json"))
    config ← lift (ok_or json (C.parse_stored_config text))
    pure (some config)

  unfoldable pub read_stored_upload_config : Str → Shipping C (Option StoredUploadConfig)
  unfolding read_if_there
  read_stored_upload_config entry = do
    there ← on_spool C (exists_pending entry (bytes "sdk-config.json"))
    read_if_there entry there

  unfoldable pub resolve_stored_endpoint : Str → Shipping C (C.Url × ℕ)
  resolve_stored_endpoint entry = do
    stored ← read_stored_upload_config entry
    config ← lift (ok_or (missing_stored_config entry) stored)
    endpoint ← lift (ok_or (missing_stored_config entry) (C.parse_url config.endpoint))
    pure (endpoint, config.sent_retention_days)

  -- The loop of `ship_stored_with_client`.
  unfoldable pub ship_stored_entries :
      List Str → Str → ShipConfig → ℕ → Option ℕ → Shipping C (ℕ × Option ℕ)
  ship_stored_entries [] token config shipped retention = pure (shipped, retention)
  ship_stored_entries (entry ∷ rest) token config shipped retention = do
    (endpoint, days) ← resolve_stored_endpoint entry
    ship_one entry endpoint token config
    ship_stored_entries rest token config (shipped + 1) (record_retention retention days)

  unfoldable pub ship_stored : Str → ShipConfig → Shipping C ℕ
  ship_stored token config = do
    on_spool C prepare
    entries ← on_spool C (pending_entries (λ s. s.pending))
    (shipped, retention) ← ship_stored_entries entries token config 0 none
    on_spool C (cleanup_sent (retention_or_default retention))
    pure shipped
