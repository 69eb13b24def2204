-- ===== src/Client/Shipper/Delivery.antt =====
-- What becomes of one entry: it stays, or it is sent and moved.
pub mod Reading
pub mod Posting
pub mod Moving
pub mod Served
use mathlib.Core.Path.{subst}
use mathlib.Core.List.{append_assoc, append-nil}
use rs_detritus.Common.{
  ℕ, Str, Bool, true, false, Option, none, some, List, [], ◌∷◌, ◌++◌, bytes, Result, ok, err, panic,
  pure, lift, map_err, ok_or, ◌>>=◌, ◌>>◌, ◌≡◌, refl, sym, ◌∙◌, ap, ◌⊎◌, inl, inr, arith, IsIn,
  nat_eq, list_eq, if◌then◌else◌, Bool-cases, Option-cases,
}
use rs_detritus.Common.Ends.{
  Ends, Ends-ok, Ends-err, Ends-bind, Ends-weaken, Ends-keep, Ends-imply, lift-bind-Ends, lift-Ends,
  map_err-Ends, ok_or-runs, ok_or-some, choice-runs, choice-ok,
}
use rs_detritus.Common.Table.{Table, lookup, remove}
use rs_detritus.Storage.{IoError}
use rs_detritus.Protocol.{CrashEnvelope, CrashAttachment, AttachmentManifest}
use rs_detritus.Client.{ClientLibraries}
use rs_detritus.Client.Spool.{
  Entry, Spool, SpoolIo, read_pending, exists_sent, remove_sent, rename_to_sent, file_of,
}
use rs_detritus.Client.Spool.Kept.{
  Keeps, Nothing, read_pending-Ends, exists_sent-Ends, remove_sent-Ends, IsMoved, Settles,
  rename_to_sent-Ends,
}
use rs_detritus.Client.Upload.{
  ShipConfig, ShipError, io, json, Reply, unreachable, answered, Request, World, Shipping, on_spool,
  upload_body, is_success, judge_reply, next_reply, later_replies, http, status, invalid_token,
  send, bearer, post_envelope,
}
use rs_detritus.Client.Upload.Runs.{ClientLaws, upload_body-runs}
use rs_detritus.Client.Shipper.{read_attachment, read_attachments, read_envelope, ship_one}

-- What the files of an entry hold for a manifest with this file name.
abbrev pub IsAttached :
    Table Str Str → AttachmentManifest → Option Str → List CrashAttachment → Type 0
IsAttached files manifest none found = found ≡ []
IsAttached files manifest (some filename) found =
    (contents : Str) × (lookup filename files ≡ some contents)
    × (found
        ≡ record { key = manifest.key; content_type = manifest.content_type; bytes = contents }
          ∷ [])

abbrev pub AreAttached : Table Str Str → List AttachmentManifest → List CrashAttachment → Type 0
AreAttached files [] attachments = attachments ≡ []
AreAttached files (manifest ∷ rest) attachments =
    (found : List CrashAttachment) × (others : List CrashAttachment) × IsAttached files manifest
      manifest.filename found
    × AreAttached files rest others
    × (attachments ≡ found ++ others)

module _ (C : ClientLibraries) where
  -- The files of an entry hold an envelope.
  pub record Holds (entry : Entry) (envelope : CrashEnvelope C.Json) : Type 0 where
    pub text : Str
    pub stored : lookup (bytes "metadata.json") entry.files ≡ some text
    pub metadata : C.parse_metadata text ≡ some envelope.metadata
    pub dump : lookup (bytes "dump.bin") entry.files ≡ some envelope.dump
    pub attachments : AreAttached entry.files envelope.metadata.attachments envelope.attachments

  module _ (token : Str) (config : ShipConfig) where
    -- A request to this address carried the envelope, compressed, and the server answered that it has it.
    pub record IsAccepted (url : C.Url) (envelope : CrashEnvelope C.Json)
        (exchanged : List (Request C × Reply)) : Type 0 where
      pub request : Request C
      pub code : ℕ
      pub addressed : request.url ≡ url
      pub carries : upload_body C config envelope ≡ ok request.body
      pub authorized : request.authorization ≡ bytes "Bearer " ++ token
      pub success : is_success code ≡ true
      pub answer : IsIn (request, answered code true) exchanged

  module _ (to : Entry → C.Url → Type 0) (token : Str) (config : ShipConfig) where
    -- The same of an entry, and of an address that is meant for it.
    pub record IsDelivered (entry : Entry) (exchanged : List (Request C × Reply)) : Type 0 where
      pub envelope : CrashEnvelope C.Json
      pub held : Holds entry envelope
      pub url : C.Url
      pub intended : to entry url
      pub accepted : IsAccepted token config url envelope exchanged

    pub IsDelivered-extend :
        (entry : Entry) (xs more : List (Request C × Reply))
        → IsDelivered entry xs
        → IsDelivered entry (xs ++ more)
    IsDelivered-extend entry xs more d =
        let (before, after, e) = d.accepted.answer in
        let a = d.accepted in
        record {
          envelope = d.envelope;
          held = d.held;
          url = d.url;
          intended = d.intended;
          accepted = record {
            request = a.request;
            code = a.code;
            addressed = a.addressed;
            carries = a.carries;
            authorized = a.authorized;
            success = a.success;
            answer = (before, after ++ more, ap (λ ys. ys ++ more) e ∙ append_assoc before _ more);
          };
        }

  module _ (p : Table Str Entry) (xs : List (Request C × Reply)) where
    -- The pending entries are as they were, and perhaps requests were sent.
    abbrev pub Untouched : World C → Type 0
    Untouched w = Keeps p w.spool × ((more : List (Request C × Reply)) × (w.exchanged ≡ xs ++ more))

    module _ (to : Entry → C.Url → Type 0) (token : Str) (config : ShipConfig) (name : Str) where
      pub record IsShipped (w : World C) : Type 0 where
        pub moved : IsMoved p name w.spool
        pub delivered : IsDelivered to token config moved.entry w.exchanged
        pub longer : (more : List (Request C × Reply)) × (w.exchanged ≡ xs ++ more)

      -- Where an entry ends: as it was, or moved and delivered.
      abbrev pub IsSettled : World C → Type 0
      IsSettled w = Untouched w ⊎ IsShipped w
