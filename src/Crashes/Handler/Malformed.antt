-- ===== src/Crashes/Handler/Malformed.antt =====
-- crates/detritus-server/src/crashes.rs: the uploads that `crashes_inner` cannot open.
use rs_detritus.Common.{
  ℕ, Str, false, Option, none, some, List, [], ◌∷◌, ◌≤◌, ◌<◌, length, bytes, err, ◌≡◌, ◌≢◌, refl,
  ap, arith, inl, inr, Bool-cases, ◌==◌, eq_iff, nat_eq, list_eq, nat_eqb, nat_eqb_iff, ok_or,
  list_beq,
}
use rs_detritus.Multer.{part_bytes}
use rs_detritus.Protocol.{CrashMetadata, protocol_version}
use rs_detritus.Auth.{TokenContext}
use rs_detritus.Crashes.{
  Field, Part, part, broken_part, Libraries, CrashError, bad_request, missing_part, multipart, json,
  payload_too_large, protocol_mismatch, metadata_max_bytes,
}
use rs_detritus.Crashes.Handler.{
  Upload, World, Config, header_text, first_part, is_named, open_first, check_version,
  read_metadata, open_upload, crashes_inner,
}
use rs_detritus.Crashes.Handler.Opening.{read_chunks-small, read_chunks-large}

module _ (L : Libraries) where
  -- What is wrong with the first part of a body.
  pub data IsBadFirst (field : Field) : CrashError → Type 0 where
    other_name :
        field.name ≢ some (bytes "metadata")
        → IsBadFirst field (bad_request (bytes "first multipart part must be `metadata`"))
    too_long :
        (content : Str)
        → field.name ≡ some (bytes "metadata")
        → part_bytes field.chunks ≡ some content
        → metadata_max_bytes < length content
        → IsBadFirst field (payload_too_large metadata_max_bytes)
    no_metadata :
        (content : Str)
        → field.name ≡ some (bytes "metadata")
        → part_bytes field.chunks ≡ some content
        → length content ≤ metadata_max_bytes
        → L.parse_metadata content ≡ none
        → IsBadFirst field json
    other_version :
        (content : Str) (metadata : CrashMetadata L.Json)
        → field.name ≡ some (bytes "metadata")
        → part_bytes field.chunks ≡ some content
        → length content ≤ metadata_max_bytes
        → L.parse_metadata content ≡ some metadata
        → metadata.schema_version ≢ protocol_version
        → IsBadFirst field (protocol_mismatch metadata.schema_version protocol_version)

  -- What is wrong with the parts of a body.
  pub data AreBad : List Part → CrashError → Type 0 where
    no_part : AreBad [] (missing_part (bytes "metadata"))
    broken : (ps : List Part) → AreBad (broken_part ∷ ps) multipart
    bad_first :
        (field : Field) (ps : List Part) (e : CrashError)
        → IsBadFirst field e
        → AreBad (part field ∷ ps) e

  -- What is wrong with an upload, and the error that tells it.
  pub data IsMalformed (u : Upload) : CrashError → Type 0 where
    no_content_type :
        u.content_type ≡ none → IsMalformed u (bad_request (bytes "missing content-type header"))
    no_text :
        u.content_type ≡ some none
        → IsMalformed u (bad_request (bytes "content-type header is not UTF-8"))
    no_boundary :
        (content_type : Str)
        → u.content_type ≡ some (some content_type)
        → L.parse_boundary content_type ≡ none
        → IsMalformed u (bad_request (bytes "missing multipart boundary"))
    bad_parts :
        (content_type boundary : Str) (ps : List Part) (e : CrashError)
        → u.content_type ≡ some (some content_type)
        → L.parse_boundary content_type ≡ some boundary
        → L.parts boundary u.body ≡ ps
        → AreBad ps e
        → IsMalformed u e

  is_named-false :
      (o : Option Str) → o ≢ some (bytes "metadata") → is_named L (bytes "metadata") o ≡ false
  is_named-false none other = refl
  is_named-false (some s) other = elim (Bool-cases (s == bytes "metadata")) [
    | inl same ↦ absurd (other (ap some ((eq_iff s (bytes "metadata")).0 same)))
    | inr differs ↦ differs
  ]

  read_metadata-small :
      (field : Field) (content : Str)
      → part_bytes field.chunks ≡ some content
      → length content ≤ metadata_max_bytes
      → read_metadata L field ≡ ok_or json (L.parse_metadata content)
  unfolding read_metadata
  read_metadata-small field content whole small =
      rw (read_chunks-small L field.chunks [] content whole (omega arith)) refl

  read_metadata-large :
      (field : Field) (content : Str)
      → part_bytes field.chunks ≡ some content
      → metadata_max_bytes < length content
      → read_metadata L field ≡ err (payload_too_large metadata_max_bytes)
  unfolding read_metadata
  read_metadata-large field content whole large =
      rw (read_chunks-large L field.chunks [] content whole (omega arith) (omega arith)) refl

  other_version-false : (n : ℕ) → n ≢ protocol_version → nat_eqb n protocol_version ≡ false
  other_version-false n other = elim (Bool-cases (nat_eqb n protocol_version)) [
    | inl same ↦ absurd (other ((nat_eqb_iff n protocol_version).0 same))
    | inr differs ↦ differs
  ]

  open_first-bad :
      (field : Field) (ps : List Part) (e : CrashError)
      → IsBadFirst field e
      → open_first L (field, ps) ≡ err e
  unfolding open_first check_version bytes list_beq read_metadata
  open_first-bad field ps _ (other_name other) = rw (is_named-false field.name other) refl
  open_first-bad field ps _ (too_long content named whole large) =
      rw (named, read_metadata-large field content whole large) refl
  open_first-bad field ps _ (no_metadata content named whole small unread) =
      rw (named, read_metadata-small field content whole small, unread) refl
  open_first-bad field ps _ (other_version content metadata named whole small known other) =
      rw
        (
          named,
          read_metadata-small field content whole small,
          known,
          other_version-false metadata.schema_version other,
        )
        refl

  open_upload-malformed : (u : Upload) (e : CrashError) → IsMalformed u e → open_upload L u ≡ err e
  unfolding open_upload header_text first_part
  open_upload-malformed u _ (no_content_type missing) = rw missing refl
  open_upload-malformed u _ (no_text binary) = rw binary refl
  open_upload-malformed u _ (no_boundary content_type typed missing) = rw (typed, missing) refl
  open_upload-malformed u _ (bad_parts content_type boundary _ _ typed found parted no_part) =
      rw (typed, found, parted) refl
  open_upload-malformed u _ (bad_parts content_type boundary _ _ typed found parted (broken ps)) =
      rw (typed, found, parted) refl
  open_upload-malformed u _
        (bad_parts content_type boundary _ _ typed found parted (bad_first field ps e bad)) =
      rw (typed, found, parted) (open_first-bad field ps e bad)

  -- An upload without a readable content type or a boundary, without a first part, or whose first part
  -- is broken, is not the metadata, is longer than 64 KiB, cannot be parsed or is of another version of
  -- the protocol, ends with the error that tells so, and changes nothing at all: neither the disk nor
  -- the rate limiter nor the metrics.
  pub crashes_inner-malformed :
      (config : Config L) (token : TokenContext) (u : Upload) (w : World L) (e : CrashError)
      → IsMalformed u e
      → crashes_inner L config token u w ≡ (err e, w)
  unfolding crashes_inner
  crashes_inner-malformed config token u w e bad = rw (open_upload-malformed u e bad) refl
