-- ===== src/Examples/Panics.antt =====
-- A panic with a context file, on a disk that works.
use rs_detritus.Common.{
  ℕ, Str, some, List, [], ◌∷◌, bytes, nat_eq, list_eq, list_beq, ok, ◌≡◌, refl,
}
use rs_detritus.Common.Table.{lookup}
use rs_detritus.FilePath.{file_name}
use rs_detritus.Protocol.{CrashMetadata, panic_tarball, new_crash_metadata}
use rs_detritus.Client.{ClientLibraries}
use rs_detritus.Client.Spool.{Entry, Spool}
use rs_detritus.Client.Spool.Working.{Returns}
use rs_detritus.Client.Shipper.Delivery.{Holds}
use rs_detritus.Client.PanicHook.{
  PanicHookConfig, PanicInfo, str_payload, tarball_of_panic, write_pending_crash, panic_text,
  config_manifest, context_name, panic_crash_kind,
}
use rs_detritus.Client.PanicHook.Entries.{IsUsable, panic_envelope, write_pending_crash-Holds}
use rs_detritus.Examples.Uploads.{report}
use rs_detritus.Examples.Clients.{client}

abbrev digits : ℕ → Str
digits n = bytes "0"

abbrev boom : PanicInfo
boom = record { payload = str_payload (bytes "boom"); location = some (bytes "a.rs", 0, 0) }

-- The metadata of the panic, as serde reads it back.
abbrev written : CrashMetadata ℕ
written = record (new_crash_metadata report.source 5 panic_tarball report.build 7) {
  panic_text = some (panic_text client digits (λ s. some s) boom);
  attachments =
      record {
        key = bytes "sdk-config";
        filename = some (bytes "sdk-config.json");
        content_type = bytes "application/json";
        len = 2;
      }
      ∷ record {
        key = bytes "context-0";
        filename = some (bytes "app.json");
        content_type = bytes "application/json";
        len = 3;
      }
      ∷ [];
}

abbrev panicking : ClientLibraries
panicking = record client {
  parse_metadata = λ s. some written;
  encode_stored_config = λ c. some (bytes "{}");
  pretty_stored_config = λ c. some (bytes "{ }");
}

abbrev hook : PanicHookConfig panicking
hook = record {
  endpoint = bytes "http://h";
  source = report.source;
  kind = tarball_of_panic;
  build = report.build;
  context = 7;
  context_files = (bytes "/" ∷ bytes "app.json" ∷ []) ∷ [];
  sent_retention_days = 7;
}

abbrev quiet_spool : Spool
quiet_spool = record {
  pending = [];
  sent = [];
  outside = (bytes "/" ∷ bytes "app.json" ∷ [], bytes "ctx") ∷ [];
  events = [];
  now = 5;
}

abbrev contents : List (List Str × Str)
contents = (bytes "/" ∷ bytes "app.json" ∷ [], bytes "ctx") ∷ []

contents-IsUsable : IsUsable panicking digits (λ s. some s) quiet_spool.outside contents
unfolding context_name bytes list_beq lookup file_name
contents-IsUsable = record {
  there = (refl, tt);
  apart = (tt, tt);
  not_metadata = (refl, tt);
  not_dump = (refl, tt);
  not_config = (refl, tt);
}

write_pending_crash-Holds_example :
    Returns tt
      (λ t.
        (entry : Entry) × (lookup (bytes "u") t.pending ≡ some entry)
        × Holds panicking entry (
            panic_envelope panicking digits
              (λ s. some s)
              hook
              boom
              5
              contents
              (bytes "tar")
              (bytes "{ }")))
      (write_pending_crash panicking digits
        (λ s. some s)
        (λ s. ok (bytes "tar"))
        hook
        boom
        (bytes "u")
        5
        quiet_spool)
unfolding new_crash_metadata panic_text panic_crash_kind config_manifest context_name bytes list_beq
    lookup file_name
write_pending_crash-Holds_example =
    write_pending_crash-Holds panicking digits (λ s. some s) hook boom 5 contents (bytes "tar")
      (bytes "{ }") (bytes "m") (λ s. ok (bytes "tar")) (bytes "u") quiet_spool refl refl refl refl
      refl refl refl contents-IsUsable
