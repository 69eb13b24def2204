-- ===== src/Client/Upload.antt =====
-- crates/detritus-client/src/shipper.rs: `post_envelope`, its configuration and its errors.
pub mod Bodies
pub mod Runs
use rs_detritus.Common.{
  ℕ, ℤ, Str, Bool, true, false, Option, none, some, List, [], ◌∷◌, ◌++◌, ◌+◌, ◌-◌, ◌*◌, ◌^◌, ◌&&◌,
  bytes, ltb, leb, ◌==◌, nat_eq, list_eq, if◌then◌else◌, Result, ok, err, panic, Action, pure,
  throw, lift, map_err, and_then, ok_or, ◌>>=◌, ◌>>◌, strip_suffix,
}
use rs_detritus.Common.Table.{lookup}
use rs_detritus.Storage.{IoError, other_io, not_found}
use rs_detritus.Protocol.{CrashMetadata, CrashEnvelope, CrashAttachment, AttachmentManifest}
use rs_detritus.Multipart.{
  ProtocolError, PartEncoding, EnvelopeEncodings, buffer, write_to_with_boundary_and_encodings,
  default_boundary,
}
use rs_detritus.Client.{ClientLibraries, StoredUploadConfig}
use rs_detritus.Client.Compression.{
  compress, default_compression_level, should_compress_content_type,
}
use rs_detritus.Client.Spool.{
  Spool, SpoolIo, Entry, io_step, read_pending, exists_pending, exists_sent, remove_sent,
  rename_to_sent, acquire_lock, pending_entries,
}

pub record ShipConfig : Type 0 where
  pub dump_compression_level : ℤ
  pub attachment_compression : Bool

unfoldable pub default_ship_config : ShipConfig
default_ship_config = record {
  dump_compression_level = default_compression_level;
  attachment_compression = true;
}

unfoldable pub with_dump_compression_level : ShipConfig → ℤ → ShipConfig
with_dump_compression_level config level = record config { dump_compression_level = level }

unfoldable pub with_attachment_compression : ShipConfig → Bool → ShipConfig
with_attachment_compression config enabled = record config { attachment_compression = enabled }

pub data ShipError : Type 0 where
  io : IoError → ShipError
  json http invalid_token : ShipError
  status : ℕ → ShipError
  protocol : ProtocolError → ShipError
  missing_stored_config : Str → ShipError

-- What comes of sending a request: no answer, or an answer of a status whose body can be read to its
-- end or not.
pub data Reply : Type 0 where
  unreachable : Reply
  answered : ℕ → Bool → Reply

-- `iter_mut().find(..)`: the bytes of the first attachment with the key.
unfoldable pub replace_first : Str → Str → List CrashAttachment → List CrashAttachment
replace_first key contents [] = []
replace_first key contents (a ∷ rest) =
    let others = replace_first key contents rest in
    if a.key == key then record a { bytes = contents } ∷ rest else a ∷ others

abbrev pub zstd : PartEncoding
zstd = record { content_encoding = some (bytes "zstd") }

abbrev pub plain : PartEncoding
plain = record { content_encoding = none }

unfoldable pub should_compress : ShipConfig → CrashAttachment → Bool
should_compress config a =
    config.attachment_compression && should_compress_content_type a.content_type

ends_with : Str → Str → Bool
ends_with suffix s = elim (strip_suffix suffix s) [ none ↦ false | some _ ↦ true ]

-- The next of the replies; past their end nobody answers.
abbrev pub next_reply : List Reply → Reply
next_reply [] = unreachable
next_reply (r ∷ rs) = r

abbrev pub later_replies : List Reply → List Reply
later_replies [] = []
later_replies (r ∷ rs) = rs

-- `StatusCode::is_success`
abbrev pub is_success : ℕ → Bool
is_success n = leb 200 n && ltb n 300

-- The end of `post_envelope`, which reads the body of the answer to its end.
unfoldable pub judge_reply : Reply → Result ShipError (Unit {0})
judge_reply unreachable = err http
judge_reply (answered code drained) =
    if is_success code then (if drained then ok tt else err http) else err (status code)

module _ (C : ClientLibraries) where
  pub record Request : Type 0 where
    pub url : C.Url
    pub authorization : Str
    pub content_type : Str
    pub body : Str

  -- The spool and the network: how the next requests go, and the requests sent so far with what came
  -- of them.
  pub record World : Type 0 where
    pub spool : Spool
    pub replies : List Reply
    pub exchanged : List (Request × Reply)

  abbrev pub Shipping : Type 0 → Type 0
  Shipping A = Action World ShipError A

  unfoldable pub on_spool : {A : Type 0} → SpoolIo A → Shipping A
  on_spool m w = let (r, s) = m w.spool in (map_err io r, record w { spool = s })

  abbrev pub Compressed : Type 0
  Compressed = List CrashAttachment × List PartEncoding

  -- The body of the loop over the attachments.
  unfoldable pub compress_attachment :
      ShipConfig
      → CrashAttachment
      → List CrashAttachment
      → List PartEncoding
      → Result ShipError Compressed
  compress_attachment config a locals encodings =
      if should_compress config a
      then and_then (map_err io (compress C a.bytes config.dump_compression_level))
          (λ c. ok (replace_first a.key c locals, encodings ++ (zstd ∷ [])))
      else ok (locals, encodings ++ (plain ∷ []))

  unfoldable pub compress_attachments :
      ShipConfig
      → List CrashAttachment
      → List CrashAttachment
      → List PartEncoding
      → Result ShipError Compressed
  compress_attachments config [] locals encodings = ok (locals, encodings)
  compress_attachments config (a ∷ rest) locals encodings =
      and_then (compress_attachment config a locals encodings)
        (λ p. compress_attachments config rest p.0 p.1)

  -- The compressed envelope and its encodings, as `post_envelope` builds them.
  unfoldable pub compress_envelope :
      ShipConfig
      → CrashEnvelope C.Json
      → Result ShipError (CrashEnvelope C.Json × EnvelopeEncodings)
  compress_envelope config envelope =
      and_then (map_err io (compress C envelope.dump config.dump_compression_level)) λ dump.
        and_then (compress_attachments config envelope.attachments envelope.attachments []) λ p.
          ok (
            record envelope { dump = dump; attachments = p.0 },
            record { dump = zstd; attachments = p.1 },
          )

  -- What `post_envelope` sends as the body.
  unfoldable pub upload_body : ShipConfig → CrashEnvelope C.Json → Result ShipError Str
  upload_body config envelope = and_then (compress_envelope config envelope) λ p.
      let (r, body) =
        write_to_with_boundary_and_encodings buffer C.encode_metadata p.0 default_boundary p.1 [] in
      and_then (map_err protocol r) (λ _. ok body)

  unfoldable pub crash_url : C.Url → C.Url
  unfolding ends_with
  crash_url endpoint =
      if ends_with (bytes "/v1/crashes") (C.url_path endpoint)
      then endpoint
      else elim (C.join_url endpoint (bytes "/v1/crashes")) [ none ↦ endpoint | some u ↦ u ]

  unfoldable pub bearer : Str → Result ShipError Str
  bearer token =
      let value = bytes "Bearer " ++ token in
      if C.is_header_value value then ok value else err invalid_token

  unfoldable pub send : Request → Shipping Reply
  send request w = (
    ok (next_reply w.replies),
    record w {
      replies = later_replies w.replies;
      exchanged = w.exchanged ++ ((request, next_reply w.replies) ∷ []);
    },
  )

  unfoldable pub post_envelope :
      C.Url → Str → CrashEnvelope C.Json → ShipConfig → Shipping (Unit {0})
  post_envelope endpoint token envelope config = do
    body ← lift (upload_body config envelope)
    authorization ← lift (bearer token)
    reply ← send (record {
      url = crash_url endpoint;
      authorization = authorization;
      content_type = bytes "multipart/form-data; boundary=" ++ default_boundary;
      body = body;
    })
    lift (judge_reply reply)
