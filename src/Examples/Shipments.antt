-- ===== src/Examples/Shipments.antt =====
-- Runs over a spool where nothing fails.
use rs_detritus.Common.{
  ℕ, Str, true, [], ◌∷◌, bytes, nat_eq, list_eq, list_beq, Result, ok, err, panic, ◌≡◌, refl, All,
}
use rs_detritus.Common.Table.{lookup}
use rs_detritus.Protocol.{CrashEnvelope, new_crash_metadata}
use rs_detritus.Client.Spool.{Spool, sort, names_of}
use rs_detritus.Client.Upload.{
  default_ship_config, World, answered, upload_body, compress_envelope, compress_attachments,
}
use rs_detritus.Client.Compression.{compress}
use rs_detritus.Multipart.{
  write_to_with_boundary_and_encodings, write_part, emit, write_attachments, settle,
}
use rs_detritus.Client.Shipper.{ship_one, ship_pending, cleanup_sent, cutoff}
use rs_detritus.Client.Shipper.Cleanup.Exact.{AreCleaned, cleanup_sent-AreCleaned}
use rs_detritus.Client.Shipper.Delivery.{Holds}
use rs_detritus.Client.Shipper.Delivery.Served.{request_for, moved, ship_one-ok}
use rs_detritus.Client.Shipper.Progress.{IsReady, HasMoved, ship_pending-sends}
use rs_detritus.Examples.Uploads.{report}
use rs_detritus.Examples.Clients.{client, spooled}

abbrev bare : CrashEnvelope ℕ
bare = record { metadata = report; dump = bytes "core"; attachments = [] }

abbrev text_of : {E : Type 0} → Result E Str → Str
text_of (ok s) = s
text_of (err e) = []
text_of panic = []

abbrev bare_body : Str
bare_body = text_of (upload_body client default_ship_config bare)

bare_body-upload_body : upload_body client default_ship_config bare ≡ ok bare_body
unfolding upload_body compress_envelope compress_attachments new_crash_metadata compress
    write_to_with_boundary_and_encodings write_part emit write_attachments settle
bare_body-upload_body = refl

spooled-Holds : Holds client spooled bare
unfolding lookup bytes list_beq new_crash_metadata
spooled-Holds = record {
  text = bytes "m";
  stored = refl;
  metadata = refl;
  dump = refl;
  attachments = refl;
}

-- Two pending entries, and a sent one that is too old.
abbrev served : World client
served = record {
  spool = record {
    pending = (bytes "b", spooled) ∷ (bytes "a", spooled) ∷ [];
    sent = (bytes "o", spooled) ∷ (bytes "n", record spooled { modified = 99999999 }) ∷ [];
    outside = [];
    events = [];
    now = 99999999;
  };
  replies = answered 201 true ∷ answered 200 true ∷ [];
  exchanged = [];
}

cleanup_sent-AreCleaned_example :
    (t : Spool) × (cleanup_sent 90 served.spool ≡ (ok tt, t))
    × AreCleaned (cutoff 99999999 90) (sort (names_of served.spool.sent)) served.spool t
unfolding sort bytes list_beq
cleanup_sent-AreCleaned_example =
    cleanup_sent-AreCleaned 90 served.spool refl ((refl, tt), (tt, tt))

ship_one-ok_example :
    ship_one client (bytes "b") (bytes "http://h") (bytes "t") default_ship_config served ≡ (
      ok tt,
      moved client
          (bytes "b")
          spooled
          (request_for client (bytes "http://h") (bytes "t") bare_body)
          served,
    )
unfolding lookup bytes list_beq
ship_one-ok_example =
    ship_one-ok client (bytes "b") spooled served refl refl (bytes "http://h") (bytes "t")
      default_ship_config bare bare_body 201 bare_body-upload_body refl refl refl spooled-Holds

b-IsReady : IsReady client default_ship_config served.spool (bytes "b")
unfolding lookup bytes list_beq
b-IsReady = record {
  entry = spooled;
  there = refl;
  envelope = bare;
  held = spooled-Holds;
  body = bare_body;
  written = bare_body-upload_body;
}

a-IsReady : IsReady client default_ship_config served.spool (bytes "a")
unfolding lookup bytes list_beq
a-IsReady = record {
  entry = spooled;
  there = refl;
  envelope = bare;
  held = spooled-Holds;
  body = bare_body;
  written = bare_body-upload_body;
}

ship_pending-sends_example :
    (t : World client) × (ship_pending client
        (bytes "http://h")
        (bytes "t")
        default_ship_config
        served
      ≡ (ok 2, t))
    × All (HasMoved client served.spool t.spool) (sort (names_of served.spool.pending))
unfolding sort bytes list_beq
ship_pending-sends_example =
    ship_pending-sends client (bytes "http://h") (bytes "t") default_ship_config refl served refl
      ((refl, tt), (tt, tt)) ((refl, tt), (tt, tt)) (a-IsReady, (b-IsReady, tt))
      (201, refl, refl, (200, refl, refl, tt))
