-- ===== src/Examples/Clients.antt =====
-- A crash with a log, on its way from the spool to the server.
use mathlib.Core.Path.{subst}
use mathlib.Core.List.{append-nil}
use rs_detritus.Common.{
  ℕ, Str, true, Option, none, some, List, [], ◌∷◌, ◌++◌, bytes, nat_eq, list_eq, ok, ◌≡◌, refl, sym,
  ap, All, starts_with, list_beq,
}
use rs_detritus.Common.Ends.{Ends}
use rs_detritus.Protocol.{CrashEnvelope, CrashAttachment, new_crash_metadata}
use rs_detritus.Multer.{Field, Part, part, broken_part, data_chunk}
use rs_detritus.Multipart.{
  buffer, write_to_with_boundary_and_encodings, read_from_with_boundary, no_encodings,
  EnvelopeEncodings,
}
use rs_detritus.Multipart.Format.{Form, envelope_forms, attachment_forms}
use rs_detritus.Multipart.Reader.{is_clear, read_body}
use rs_detritus.Multipart.Reader.Bodies.{IsSendable, read_body-multipart_body, read_body-write_to}
use rs_detritus.Multipart.RoundTrip.{AreReceived, IsParser, read_from_with_boundary-write_to}
use rs_detritus.Crashes.{Libraries}
use rs_detritus.Crashes.Handler.Opening.{IsOpened, open_upload-write_to}
use rs_detritus.Client.{ClientLibraries}
use rs_detritus.Client.Spool.{Entry, works}
use rs_detritus.Client.Upload.{default_ship_config, compress_envelope, World, answered, unreachable}
use rs_detritus.Client.Upload.Bodies.{
  IsInverse, AreDistinct, restore, restore_all, compress_envelope-restores,
}
use rs_detritus.Client.Upload.Runs.{ClientLaws}
use rs_detritus.Client.Shipper.{ship_pending, ship_stored}
use rs_detritus.Client.Shipper.Runs.{IsTallied, IsEndpoint, ship_pending-Ends}
use rs_detritus.Client.Shipper.Preserved.{IsPreserved}
use rs_detritus.Client.Shipper.Stored.{IsStoredAddress, ship_stored-Ends}
use rs_detritus.Examples.Uploads.{report, crates}

abbrev log_of : Str → CrashAttachment
log_of key = record { key = key; content_type = bytes "text/plain"; bytes = bytes "x" }

abbrev crash : CrashEnvelope ℕ
crash = record {
  metadata = report;
  dump = bytes "core";
  attachments = log_of (bytes "log") ∷ log_of (bytes "env") ∷ [];
}

abbrev field_with : Str → Str → Str → Field
field_with name content_type content = record {
  name = some name;
  content_type = some content_type;
  content_encoding = none;
  chunks = data_chunk content ∷ data_chunk [] ∷ [];
}

abbrev sent_parts : List Part
sent_parts =
    part (field_with (bytes "metadata") (bytes "application/json") (bytes "m"))
    ∷ part (field_with (bytes "dump") (bytes "application/octet-stream") (bytes "core"))
    ∷ part (field_with (bytes "attach:log") (bytes "text/plain") (bytes "x"))
    ∷ part (field_with (bytes "attach:env") (bytes "text/plain") (bytes "x"))
    ∷ []

sent_parts-AreReceived : AreReceived (envelope_forms crash no_encodings (bytes "m")) sent_parts
unfolding envelope_forms attachment_forms no_encodings bytes
sent_parts-AreReceived = (
  record { name = refl; content_type = refl; content_encoding = refl; whole = refl },
  (
    record { name = refl; content_type = refl; content_encoding = refl; whole = refl },
    (
      record { name = refl; content_type = refl; content_encoding = refl; whole = refl },
      (record { name = refl; content_type = refl; content_encoding = refl; whole = refl }, tt),
    ),
  ),
)

-- A parser that follows RFC 7578, in two chunks for each part.
abbrev received : List Form → List Part
received [] = []
received (f ∷ fs) =
    part (record {
      name = some f.name;
      content_type = some f.content_type;
      content_encoding = f.content_encoding;
      chunks = data_chunk f.contents ∷ data_chunk [] ∷ [];
    })
    ∷ received fs

received-AreReceived : (fs : List Form) → AreReceived fs (received fs)
received-AreReceived [] = tt
received-AreReceived (f ∷ fs) = (
  record {
    name = refl;
    content_type = refl;
    content_encoding = refl;
    whole = ap some (append-nil f.contents);
  },
  received-AreReceived fs,
)

abbrev or_broken : Option (List Form) → List Part
or_broken none = broken_part ∷ []
or_broken (some fs) = received fs

abbrev parser : Str → Str → List Part
parser boundary body = or_broken (read_body boundary body)

parser-IsParser : IsParser (λ f. true) parser
parser-IsParser = record {
  reads = λ boundary fs sendable plain.
      subst (λ o. AreReceived fs (or_broken o))
        (sym (read_body-multipart_body boundary fs sendable)) (received-AreReceived fs);
}

crash_forms : All (IsSendable (bytes "b0")) (envelope_forms crash no_encodings (bytes "m"))
unfolding envelope_forms attachment_forms no_encodings bytes is_clear starts_with
crash_forms = (
  record {
    apart = refl;
    one_head = refl;
    one_disposition = refl;
    one_type = refl;
    one_encoding = tt;
    unquoted = refl;
  },
  (
    record {
      apart = refl;
      one_head = refl;
      one_disposition = refl;
      one_type = refl;
      one_encoding = tt;
      unquoted = refl;
    },
    (
      record {
        apart = refl;
        one_head = refl;
        one_disposition = refl;
        one_type = refl;
        one_encoding = tt;
        unquoted = refl;
      },
      (
        record {
          apart = refl;
          one_head = refl;
          one_disposition = refl;
          one_type = refl;
          one_encoding = tt;
          unquoted = refl;
        },
        tt,
      ),
    ),
  ),
)

read_body-write_to_example :
    (body : Str) × (write_to_with_boundary_and_encodings buffer
        (λ m. some (bytes "m"))
        crash
        (bytes "b0")
        no_encodings
        []
      ≡ (ok tt, body))
    × (read_body (bytes "b0") body ≡ some (envelope_forms crash no_encodings (bytes "m")))
read_body-write_to_example =
    read_body-write_to (λ m. some (bytes "m")) crash (bytes "b0") no_encodings (bytes "m") refl
      crash_forms

read_from_with_boundary-write_to_example :
    (body : Str) × (write_to_with_boundary_and_encodings buffer
        (λ m. some (bytes "m"))
        crash
        (bytes "b0")
        no_encodings
        []
      ≡ (ok tt, body))
    × (read_from_with_boundary (λ s. some report) (λ a b. []) parser (ok body) (bytes "b0")
        ≡ ok crash)
unfolding new_crash_metadata envelope_forms attachment_forms
read_from_with_boundary-write_to_example =
    read_from_with_boundary-write_to (λ m. some (bytes "m")) (λ s. some report) (λ a b. [])
      (λ f. true) parser crash (bytes "b0") no_encodings (bytes "m") parser-IsParser refl refl refl
      crash_forms (refl, (refl, (refl, (refl, tt))))

abbrev receiving : Libraries
receiving = record crates { parts = λ boundary body. sent_parts }

open_upload-write_to_example :
    (body : Str) × (write_to_with_boundary_and_encodings buffer
        (λ m. some (bytes "m"))
        crash
        (bytes "b")
        no_encodings
        []
      ≡ (ok tt, body))
    × IsOpened receiving crash no_encodings
        (bytes "m")
        (record { content_type = some (some (bytes "b")); body = body })
unfolding new_crash_metadata
open_upload-write_to_example =
    open_upload-write_to receiving (λ m. some (bytes "m")) crash no_encodings (bytes "m")
      (bytes "b") (bytes "b") refl refl refl refl sent_parts-AreReceived

-- A compressor that puts a byte before the bytes, and its decoder.
abbrev unpack : Str → Option Str
unpack [] = none
unpack (c ∷ s) = some s

abbrev pub client : ClientLibraries
client = record {
  Json = ℕ;
  Url = Str;
  parse_url = λ s. some s;
  url_text = λ u. u;
  url_path = λ u. u;
  join_url = λ u s. some (u ++ s);
  encode_all = λ s level. ok (40 ∷ s);
  parse_metadata = λ s. some report;
  encode_metadata = λ m. some (bytes "m");
  pretty_metadata = λ m. some (bytes "m");
  parse_stored_config = λ s. none;
  encode_stored_config = λ c. none;
  pretty_stored_config = λ c. none;
  is_header_value = λ s. true;
  uuid = λ n. bytes "u";
}

client-ClientLaws : ClientLaws client
client-ClientLaws = record { encode_all-runs = λ s level e. cc e }

client-IsInverse : IsInverse client unpack default_ship_config.dump_compression_level
client-IsInverse s = (40 ∷ s, refl, refl)

crash-AreDistinct : AreDistinct crash.attachments
unfolding bytes list_beq
crash-AreDistinct = ((refl, tt), (tt, tt))

compress_envelope-restores_example :
    (sent : CrashEnvelope ℕ) × (encodings : EnvelopeEncodings) × (compress_envelope client
        default_ship_config crash
      ≡ ok (sent, encodings))
    × (sent.metadata ≡ crash.metadata)
    × (restore unpack encodings.dump sent.dump ≡ some crash.dump)
    × (restore_all unpack sent.attachments encodings.attachments ≡ some crash.attachments)
compress_envelope-restores_example =
    compress_envelope-restores unpack client default_ship_config client-IsInverse crash
      crash-AreDistinct

abbrev pub spooled : Entry
spooled = record {
  files = (bytes "metadata.json", bytes "m") ∷ (bytes "dump.bin", bytes "core") ∷ [];
  modified = 7;
}

-- The first upload is accepted; for the second nobody answers.
abbrev before_run : World client
before_run = record {
  spool = record {
    pending = (bytes "b", spooled) ∷ (bytes "a", spooled) ∷ [];
    sent = [];
    outside = [];
    events = works ∷ [];
    now = 9;
  };
  replies = answered 201 true ∷ unreachable ∷ [];
  exchanged = [];
}

ship_pending-Ends_example :
    Ends
      (IsPreserved client
        (IsEndpoint client (bytes "http://h"))
        (bytes "t")
        default_ship_config
        before_run)
      (IsTallied client client-ClientLaws
        (IsEndpoint client (bytes "http://h"))
        (bytes "t")
        default_ship_config
        before_run)
      (ship_pending client (bytes "http://h") (bytes "t") default_ship_config before_run)
ship_pending-Ends_example =
    ship_pending-Ends client client-ClientLaws (bytes "t") default_ship_config before_run
      (bytes "http://h")

-- With an address beside the entry.
abbrev addressed_client : ClientLibraries
addressed_client = record client {
  parse_stored_config = λ s. some (record { endpoint = s; sent_retention_days = 7 });
}

addressed_client-ClientLaws : ClientLaws addressed_client
addressed_client-ClientLaws = record { encode_all-runs = λ s level e. cc e }

abbrev before_stored_run : World addressed_client
before_stored_run = record {
  spool = record {
    pending =
        (
          bytes "a",
          record {
            files = (bytes "sdk-config.json", bytes "http://h") ∷ spooled.files;
            modified = 7;
          },
        )
        ∷ [];
    sent = [];
    outside = [];
    events = works ∷ [];
    now = 9;
  };
  replies = answered 201 true ∷ [];
  exchanged = [];
}

ship_stored-Ends_example :
    Ends
      (IsPreserved addressed_client
        (IsStoredAddress addressed_client)
        (bytes "t")
        default_ship_config
        before_stored_run)
      (IsTallied addressed_client addressed_client-ClientLaws
        (IsStoredAddress addressed_client)
        (bytes "t")
        default_ship_config
        before_stored_run)
      (ship_stored addressed_client (bytes "t") default_ship_config before_stored_run)
ship_stored-Ends_example =
    ship_stored-Ends addressed_client addressed_client-ClientLaws (bytes "t") default_ship_config
      before_stored_run
