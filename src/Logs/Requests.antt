-- ===== src/Logs/Requests.antt =====
-- crates/detritus-server/src/logs.rs: what a request must carry, and the message of a refusal.
pub mod Truncation
use rs_detritus.Common.{
  ℕ, zero, suc, Str, Bool, true, false, Option, none, some, List, [], ◌∷◌, ◌++◌, bytes, ◌+◌, ◌-◌,
  ◌*◌, ◌/◌, ◌%◌, ◌^◌, ◌≤◌, ◌<◌, ltb, leb, nat_eqb, length, take, ◌==◌, nat_eq, list_eq, ◌&&◌,
  if◌then◌else◌, Result, ok, err, panic, and_then, map_err, ok_or,
}
use rs_detritus.Storage.{SourceKey, StorageError, invalid_component, new_source_key}
use rs_detritus.Protocol.{protocol_version}
use rs_detritus.Logs.{
  Code, failed_precondition, invalid_argument, Status, JsonValues, AnyValue, string_value,
  KeyValues, no_entries, entry, bare_entry, ResourceLogs,
}

abbrev pub refuse : Code → Str → Status
refuse code message = record { code = code; message = message }

digits_value : Str → ℕ → Option ℕ
digits_value [] n = some n
digits_value (c ∷ s) n =
    let m = n * 10 + (c - b'0') in
    let rest = digits_value s m in if leb b'0' c && leb c b'9' && ltb m (2 ^ 32) then rest else none

some_digits : Str → Option ℕ
some_digits [] = none
some_digits (c ∷ s) = digits_value (c ∷ s) 0

-- `str::parse::<u32>`: a sign `+` may stand before the digits.
unfoldable pub parse_u32 : Str → Option ℕ
unfolding digits_value some_digits
parse_u32 [] = none
parse_u32 (c ∷ s) = if nat_eqb c b'+' then some_digits s else some_digits (c ∷ s)

-- The decimal digits of a `u32`, which has ten at most, the last first in `rest`.
decimal_digits : ℕ → ℕ → Str → Str
decimal_digits zero n rest = rest
decimal_digits (suc fuel) n rest =
    let more = decimal_digits fuel (n / 10) ((b'0' + n % 10) ∷ rest) in
    if ltb n 10 then (b'0' + n) ∷ rest else more

unfoldable pub show_u32 : ℕ → Str
unfolding decimal_digits
show_u32 n = decimal_digits 10 n []

header_text : Option (Option Str) → Result Status Str
header_text none = err (refuse failed_precondition (bytes "missing x-protocol-version metadata"))
header_text (some none) =
    err (refuse failed_precondition (bytes "x-protocol-version metadata is not UTF-8"))
header_text (some (some s)) = ok s

check_parsed : ℕ → Result Status (Unit {0})
check_parsed parsed =
    if nat_eqb parsed protocol_version
    then ok tt
    else err (
        refuse failed_precondition (
          bytes "protocol version "
          ++ show_u32 parsed
          ++ bytes " does not match "
          ++ show_u32 protocol_version))

-- The outer `none` is a missing entry, the inner one an entry that is no visible text.
unfoldable pub validate_protocol_metadata : Option (Option Str) → Result Status (Unit {0})
unfolding header_text check_parsed
validate_protocol_metadata version = and_then (header_text version) λ text.
    and_then
      (ok_or (refuse failed_precondition (bytes "x-protocol-version metadata is not a u32"))
        (parse_u32 text))
      check_parsed

-- The `Display` of `StorageError`, as far as `SourceKey::new` returns it.
describe_storage : StorageError → Str
describe_storage (invalid_component name value) =
    bytes "invalid storage path component `" ++ name ++ bytes "`: `" ++ value ++ bytes "`"
describe_storage (StorageError.io _) = bytes "storage I/O error"

module _ (V : JsonValues) where
  any_value_string : AnyValue V → Option Str
  any_value_string (string_value s) = some s
  any_value_string _ = none

  -- The first entry with the key; what stands behind it is not looked at.
  unfoldable pub find_string : Str → KeyValues V → Option Str
  unfolding any_value_string
  find_string key no_entries = none
  find_string key (entry k v es) = if k == key then any_value_string v else find_string key es
  find_string key (bare_entry k es) = if k == key then none else find_string key es

  unfoldable pub required_attr : KeyValues V → Str → Result Status Str
  unfolding find_string
  required_attr attributes key =
      ok_or (refuse invalid_argument (bytes "missing resource attribute `" ++ key ++ bytes "`"))
        (find_string key attributes)

  -- Platform and version must be there, and are not used.
  unfoldable pub source_from_resource_logs : ResourceLogs V → Result Status SourceKey
  unfolding required_attr describe_storage
  source_from_resource_logs r =
      and_then
        (ok_or (refuse invalid_argument (bytes "resource_logs.resource is required")) r.resource)
        λ attributes. and_then (required_attr attributes (bytes "source.project")) λ project.
          and_then (required_attr attributes (bytes "source.platform")) λ _.
            and_then (required_attr attributes (bytes "source.version")) λ _.
              and_then (required_attr attributes (bytes "source.install_id")) λ install_id.
                map_err
                  (λ e.
                    refuse invalid_argument
                      (bytes "invalid source identity: " ++ describe_storage e))
                  (new_source_key project install_id)

-- `str::is_char_boundary`: a byte that continues a character is `0b10xxxxxx`.
is_boundary_byte : Option ℕ → Bool
is_boundary_byte none = true
is_boundary_byte (some b) = if leb 128 b then leb 192 b else true

nth_byte : Str → ℕ → Option ℕ
nth_byte [] n = none
nth_byte (c ∷ s) zero = some c
nth_byte (c ∷ s) (suc n) = nth_byte s n

-- At the end of the text there is a boundary, beyond it there is none.
unfoldable pub is_char_boundary : Str → ℕ → Bool
unfolding is_boundary_byte nth_byte
is_char_boundary s zero = true
is_char_boundary s (suc n) = leb (suc n) (length s) && is_boundary_byte (nth_byte s (suc n))

-- The loop that looks for a boundary downwards, which ends at 0 at the latest.
unfoldable pub boundary_below : Str → ℕ → ℕ
boundary_below s zero = zero
boundary_below s (suc n) =
    let below = boundary_below s n in if is_char_boundary s (suc n) then suc n else below

-- `&message[..end]`, which panics inside a character.
unfoldable pub slice_to : Str → ℕ → Result Status Str
slice_to s end = if is_char_boundary s end then ok (take end s) else panic

-- `…` in UTF-8
abbrev pub ellipsis : Str
ellipsis = 226 ∷ 128 ∷ 166 ∷ []

unfoldable pub truncate_message : Str → Result Status Str
truncate_message message =
    if ltb 1024 (length message)
    then and_then (slice_to message (boundary_below message 1021)) (λ s. ok (s ++ ellipsis))
    else ok message

-- `join(", ")`
unfoldable pub join_comma : List Str → Str
join_comma [] = []
join_comma (s ∷ []) = s
join_comma (s ∷ t ∷ ts) = s ++ (bytes ", " ++ join_comma (t ∷ ts))

unfoldable pub violation_message : List Str → Str
violation_message errors = bytes "log attribute validation failed: " ++ join_comma (take 5 errors)
