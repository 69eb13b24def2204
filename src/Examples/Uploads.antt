-- ===== src/Examples/Uploads.antt =====
-- An upload of a dump by a permitted token, with libraries that stand for the crates.
use rs_detritus.Common.{
  ℕ, Str, Bool, true, false, Option, none, some, List, [], ◌∷◌, ◌++◌, bytes, ◌==◌, nat_eq, list_eq,
  pair_eq, if◌then◌else◌, Result, ok, err, panic, ◌≡◌, ◌≢◌, ◌⊎◌, inl, inr, refl, arith,
}
use rs_detritus.Common.Ends.{Ends}
use rs_detritus.Common.Table.{lookup, insert}
use rs_detritus.Storage.{new_source_key, canonical, blob_path, index_path, tmp_dir}
use rs_detritus.FilePath.{join, parent}
use rs_detritus.Storage.Layout.{IsDigest}
use rs_detritus.Disk.{Disk, calm, fails}
use rs_detritus.Metrics.{new_metrics}
use rs_detritus.Protocol.{
  SourceId, BuildInfo, CrashMetadata, panic_tarball, new_crash_metadata, crash_metadata,
  protocol_version,
}
use rs_detritus.Schemas.{SchemaRegistry, validate, validation}
use rs_detritus.Schemas.Default.{violations, validate_lem}
use rs_detritus.Auth.{TokenContext, to_context, permits}
use rs_detritus.RateLimit.{default_rate_limit, new_rate_limiter}
use rs_detritus.Crashes.{
  Field, part, data_chunk, broken_chunk, CrashError, protocol_mismatch, permission_denied,
  Libraries, CrashResponse, Part,
}
use rs_detritus.Crashes.Laws.{LibraryLaws}
use rs_detritus.Crashes.Blobs.{write_part_to_blob}
use rs_detritus.Crashes.Blobs.Addressed.{IsAddressed}
use rs_detritus.Crashes.Blobs.Parts.{PointsTo, write_part_to_blob-Ends}
use rs_detritus.Crashes.Handler.{
  Upload, World, Config, Opened, open_upload, read_metadata, read_chunks, admit, crashes_inner,
}
use rs_detritus.Crashes.Handler.Gate.{IsAdmitted, crashes_inner-IsAdmitted, crashes_inner-refused}
use rs_detritus.Crashes.Handler.Malformed.{
  IsMalformed, bad_parts, bad_first, other_version, crashes_inner-malformed,
}
use rs_detritus.Crashes.Handler.Safety.{crashes_inner-IsSafe}
use rs_detritus.Examples.Sources.{server_paths, digest_text, digest_text-IsDigest, day, day-NoSlash}
use rs_detritus.Examples.Limits.{whole}
use rs_detritus.Examples.Tokens.{writer}

abbrev pub origin : SourceId
origin = record {
  project = bytes "acme";
  platform = bytes "linux";
  version = bytes "1";
  install_id = bytes "i1";
}

abbrev pub build : BuildInfo
build = record { git_sha = bytes "0"; profile = bytes "release"; target_triple = bytes "x" }

abbrev pub report : CrashMetadata ℕ
report = new_crash_metadata origin 5 panic_tarball build 0

abbrev field_of : Str → Str → Field
field_of name content = record {
  name = some name;
  content_type = none;
  content_encoding = none;
  chunks = data_chunk content ∷ [];
}

abbrev good_parts : List Part
good_parts =
    part (field_of (bytes "metadata") (bytes "m"))
    ∷ part (field_of (bytes "dump") (bytes "core"))
    ∷ []

-- Every content has the one digest, and every body is the good one.
abbrev pub crates : Libraries
crates = record {
  Json = ℕ;
  float = whole;
  digest = λ s. digest_text;
  uuid = λ n. day;
  parse_boundary = λ s. some s;
  parts = λ boundary body. good_parts;
  parse_metadata = λ s. some report;
  metadata_value = λ m. ok 0;
  encode_index = λ i. some (bytes "{}");
  format_timestamp = λ t. day;
  describe = λ e. [];
}

crates-LibraryLaws : LibraryLaws crates
crates-LibraryLaws = record {
  digest-IsDigest = λ s. digest_text-IsDigest;
  uuid-NoSlash = λ n. day-NoSlash;
  metadata_value-runs = λ m e. cc e;
  timestamp-NoSlash = λ t. day-NoSlash;
}

abbrev config : Config crates
config = record { storage = server_paths; max_dump_bytes = 100; schema_registry = [] }

abbrev blank : Disk
blank = record { files = []; events = calm ∷ calm ∷ fails ∷ []; clock = 9 }

abbrev start : World crates
start = record {
  disk = blank;
  limiter = new_rate_limiter whole default_rate_limit;
  metrics = new_metrics;
  uuids = 0;
  now = 3;
}

abbrev calm_start : World crates
calm_start = record start { disk = record { files = []; events = []; clock = 9 } }

abbrev upload : Upload
upload = record {
  content_type = some (some (bytes "multipart/form-data; boundary=b"));
  body = bytes "body";
}

abbrev token : TokenContext
token = to_context writer

abbrev stranger : TokenContext
stranger = record token { project = bytes "other" }

blank-IsAddressed : IsAddressed crates server_paths blank
unfolding lookup
blank-IsAddressed = record { blobs = λ sha h f e. cc e; events = (tt, (tt, (tt, tt))) }

crashes_inner-IsSafe_example :
    Ends
      (λ w. IsAddressed crates server_paths w.disk)
      (λ r _. IsDigest r.1.id)
      (crashes_inner crates config token upload start)
crashes_inner-IsSafe_example =
    crashes_inner-IsSafe crates crates-LibraryLaws config token upload start blank-IsAddressed

write_part_to_blob-Ends_example :
    Ends
      (IsAddressed crates server_paths)
      (λ pointer _. PointsTo crates 100 (field_of (bytes "dump") (bytes "core")) pointer)
      (write_part_to_blob crates server_paths day
        (field_of (bytes "dump") (bytes "core"))
        100
        blank)
write_part_to_blob-Ends_example =
    write_part_to_blob-Ends crates crates-LibraryLaws server_paths day
      (field_of (bytes "dump") (bytes "core")) 100 blank day-NoSlash blank-IsAddressed

opened : open_upload crates upload ≡ ok (report, part (field_of (bytes "dump") (bytes "core")) ∷ [])
unfolding open_upload read_metadata read_chunks bytes new_crash_metadata rs_detritus.Common.list_beq
opened = refl

refused : (admit crates config stranger report start).0 ≡ err permission_denied
unfolding admit new_source_key permits bytes new_crash_metadata rs_detritus.Common.list_beq
    rs_detritus.Common.contains
refused = refl

created :
    (crashes_inner crates config token upload calm_start).0
    ≡ ok (201, record { id = digest_text; dedup = false })
unfolding crashes_inner open_upload read_metadata read_chunks bytes new_crash_metadata
    rs_detritus.Common.list_beq admit new_source_key permits rs_detritus.Common.contains to_context
    rs_detritus.Common.starts_with canonical rs_detritus.RateLimit.check_crashes
    rs_detritus.RateLimit.step_bucket lookup rs_detritus.RateLimit.new_rate_limiter validate
    rs_detritus.Crashes.Handler.collect_parts rs_detritus.Crashes.Handler.take_part
    rs_detritus.Crashes.Handler.purpose rs_detritus.Crashes.Handler.store_part
    rs_detritus.Crashes.Handler.draw_uuid rs_detritus.Crashes.Handler.on_disk
    rs_detritus.Crashes.Handler.finish rs_detritus.Crashes.Handler.on_metrics
    rs_detritus.Crashes.Blobs.write_part_to_blob rs_detritus.Crashes.Blobs.write_chunks
    rs_detritus.Crashes.Blobs.finalize_blob rs_detritus.Crashes.Blobs.write_index
    rs_detritus.Disk.raise_io rs_detritus.Disk.create_dir_all rs_detritus.Disk.create_file
    rs_detritus.Disk.write_all rs_detritus.Disk.sync_file insert join tmp_dir blob_path parent
    rs_detritus.Disk.try_exists rs_detritus.Disk.attempt rs_detritus.Disk.hard_link
    rs_detritus.Disk.remove_file index_path rs_detritus.Disk.write_file
created = refl

crashes_inner-IsAdmitted_example :
    (o : Opened crates) × (source : _) × (open_upload crates upload ≡ ok o)
    × (o.0.schema_version ≡ protocol_version)
    × IsAdmitted crates crates-LibraryLaws config token o.0 calm_start source
crashes_inner-IsAdmitted_example =
    crashes_inner-IsAdmitted crates crates-LibraryLaws config token upload calm_start created

-- A client of a later version.
abbrev future : Libraries
future = record crates { parse_metadata = λ s. some (record report { schema_version = 2 }) }

abbrev future_start : World future
future_start = record {
  disk = blank;
  limiter = new_rate_limiter whole default_rate_limit;
  metrics = new_metrics;
  uuids = 0;
  now = 3;
}

abbrev future_config : Config future
future_config = record {
  storage = config.storage;
  max_dump_bytes = config.max_dump_bytes;
  schema_registry = [];
}

upload-IsMalformed : IsMalformed future upload (protocol_mismatch 2 protocol_version)
unfolding new_crash_metadata bytes
upload-IsMalformed =
    bad_parts (bytes "multipart/form-data; boundary=b") (bytes "multipart/form-data; boundary=b")
      good_parts _ refl refl refl
      (bad_first _ _ _ (
        other_version (bytes "m") (record report { schema_version = 2 }) refl refl (omega arith)
          refl (λ e. omega arith)))

crashes_inner-malformed_example :
    crashes_inner future future_config token upload future_start
    ≡ (err (protocol_mismatch 2 protocol_version), future_start)
crashes_inner-malformed_example =
    crashes_inner-malformed future future_config token upload future_start
      (protocol_mismatch 2 protocol_version) upload-IsMalformed

crashes_inner-refused_example :
    ((crashes_inner crates config stranger upload start).0 ≡ err permission_denied)
    × ((crashes_inner crates config stranger upload start).1.disk ≡ start.disk)
crashes_inner-refused_example =
    crashes_inner-refused crates crates-LibraryLaws config stranger upload start permission_denied _
      opened refused

abbrev strict : SchemaRegistry ℕ
strict = ((bytes "acme", crash_metadata), λ n. bytes "too big" ∷ []) ∷ []

validate_lem_example :
    ((violations ℕ strict (bytes "acme") crash_metadata 7 ≡ [])
      × (validate ℕ strict (bytes "acme") crash_metadata 7 ≡ ok tt))
    ⊎ ((violations ℕ strict (bytes "acme") crash_metadata 7 ≢ [])
        × (validate ℕ strict (bytes "acme") crash_metadata 7
            ≡ err
                (validation crash_metadata (violations ℕ strict (bytes "acme") crash_metadata 7))))
validate_lem_example = validate_lem ℕ strict (bytes "acme") crash_metadata 7
