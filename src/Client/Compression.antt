-- ===== src/Client/Compression.antt =====
-- crates/detritus-client/src/compression.rs: which attachments are compressed.
use rs_detritus.Common.{
  ℕ, zero, suc, ℤ, pos, Str, Bool, true, false, Option, none, some, List, [], ◌∷◌, map, ◌+◌, ◌==◌,
  ◌||◌, ◌&&◌, nat_eq, list_eq, bytes, length, leb, if◌then◌else◌, starts_with, strip_prefix,
  strip_suffix, Result,
}
use rs_detritus.Storage.{IoError}
use rs_detritus.Client.{ClientLibraries}

abbrev pub default_compression_level : ℤ
default_compression_level = pos 19

unfoldable pub compress : (C : ClientLibraries) → Str → ℤ → Result IoError Str
compress C contents level = C.encode_all contents level

-- `split(';').next()`
before_semicolon : Str → Str
before_semicolon [] = []
before_semicolon (c ∷ s) = let rest = before_semicolon s in if c == b';' then [] else c ∷ rest

-- The characters with the property `White_Space`, as UTF-8.
abbrev white_space : List Str
white_space =
    (9 ∷ [])
    ∷ (10 ∷ [])
    ∷ (11 ∷ [])
    ∷ (12 ∷ [])
    ∷ (13 ∷ [])
    ∷ (32 ∷ [])
    ∷ (194 ∷ 133 ∷ [])
    ∷ (194 ∷ 160 ∷ [])
    ∷ (225 ∷ 154 ∷ 128 ∷ [])
    ∷ (226 ∷ 128 ∷ 128 ∷ [])
    ∷ (226 ∷ 128 ∷ 129 ∷ [])
    ∷ (226 ∷ 128 ∷ 130 ∷ [])
    ∷ (226 ∷ 128 ∷ 131 ∷ [])
    ∷ (226 ∷ 128 ∷ 132 ∷ [])
    ∷ (226 ∷ 128 ∷ 133 ∷ [])
    ∷ (226 ∷ 128 ∷ 134 ∷ [])
    ∷ (226 ∷ 128 ∷ 135 ∷ [])
    ∷ (226 ∷ 128 ∷ 136 ∷ [])
    ∷ (226 ∷ 128 ∷ 137 ∷ [])
    ∷ (226 ∷ 128 ∷ 138 ∷ [])
    ∷ (226 ∷ 128 ∷ 168 ∷ [])
    ∷ (226 ∷ 128 ∷ 169 ∷ [])
    ∷ (226 ∷ 128 ∷ 175 ∷ [])
    ∷ (226 ∷ 129 ∷ 159 ∷ [])
    ∷ (227 ∷ 128 ∷ 128 ∷ [])
    ∷ []

-- The text without the first of these that it has at its end, if it has one.
cut_one : (Str → Str → Option Str) → List Str → Str → Option Str
cut_one cut [] s = none
cut_one cut (w ∷ ws) s = elim (cut w s) [ none ↦ cut_one cut ws s | some r ↦ some r ]

-- Each cut shortens the text, so that its length is fuel enough.
cut_all : ℕ → (Str → Str → Option Str) → Str → Str
cut_all zero cut s = s
cut_all (suc fuel) cut s = elim (cut_one cut white_space s) [
  | none ↦ s
  | some r ↦ cut_all fuel cut r
]

-- `str::trim`
unfoldable pub trim : Str → Str
unfolding cut_one cut_all
trim s = cut_all (length s) strip_suffix (cut_all (length s) strip_prefix s)

lower : ℕ → ℕ
lower c = if leb b'A' c && leb c b'Z' then c + 32 else c

-- `to_ascii_lowercase`
unfoldable pub to_ascii_lowercase : Str → Str
unfolding lower
to_ascii_lowercase s = map lower s

is_one_of : List Str → Str → Bool
is_one_of [] s = false
is_one_of (t ∷ ts) s = s == t || is_one_of ts s

is_packed : Str → Bool
is_packed base =
    is_one_of
      (bytes "application/zstd"
        ∷ bytes "application/gzip"
        ∷ bytes "application/x-gzip"
        ∷ bytes "application/zip"
        ∷ bytes "application/x-tar"
        ∷ bytes "application/octet-stream"
        ∷ [])
      base

is_media : Str → Bool
is_media base =
    starts_with (bytes "image/") base
    || starts_with (bytes "video/") base
    || starts_with (bytes "audio/") base

is_textual : Str → Bool
is_textual base =
    is_one_of
      (bytes "application/json"
        ∷ bytes "application/x-ndjson"
        ∷ bytes "application/yaml"
        ∷ bytes "application/x-yaml"
        ∷ bytes "application/xml"
        ∷ [])
      base

unfoldable pub should_compress_content_type : Str → Bool
unfolding before_semicolon is_packed is_media is_textual is_one_of
should_compress_content_type content_type =
    let base = to_ascii_lowercase (trim (before_semicolon content_type)) in
    if is_packed base
    then false
    else if is_media base
    then false
    else if starts_with (bytes "text/") base
    then true
    else is_textual base
