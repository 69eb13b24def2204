-- ===== src/Logs/Requests/Truncation.antt =====
-- The message of a refusal is cut between two characters, and a request is judged without a panic.
use rs_detritus.Common.{
  ℕ, zero, suc, Str, true, Option, none, some, ◌++◌, bytes, ◌≤◌, ltb, leb, length, take, ok, panic,
  ok_or, ◌≡◌, ◌<◌, ◌+◌, ◌∙◌, ap, false, ◌⊎◌, inl, inr, refl, arith, Bool-cases, length-append,
  length-take-le,
}
use rs_detritus.Common.Ends.{and_then-runs, map_err-runs, ok_or-runs}
use rs_detritus.Storage.{new_source_key}
use rs_detritus.Logs.{failed_precondition, JsonValues, KeyValues, ResourceLogs}
use rs_detritus.Logs.Requests.{
  header_text, check_parsed, refuse, parse_u32, validate_protocol_metadata,
  source_from_resource_logs, required_attr, is_char_boundary, boundary_below, slice_to, ellipsis,
  truncate_message,
}

boundary_below-is_char_boundary : (s : Str) (n : ℕ) → is_char_boundary s (boundary_below s n) ≡ true
unfolding boundary_below is_char_boundary
boundary_below-is_char_boundary s zero = refl
boundary_below-is_char_boundary s (suc n) = elim (Bool-cases (is_char_boundary s (suc n))) [
  | inl here ↦ rw here here
  | inr further ↦ rw further (boundary_below-is_char_boundary s n)
]

boundary_below-le : (s : Str) (n : ℕ) → boundary_below s n ≤ n
unfolding boundary_below
boundary_below-le s zero = omega arith
boundary_below-le s (suc n) = ground (arith, boundary_below-le s n)

le-cases : (m n : ℕ) → m ≤ suc n → (m ≤ n) ⊎ (m ≡ suc n)
le-cases m n within = elim (Bool-cases (leb m n)) [
  | inl inside ↦ inl (ground arith)
  | inr outside ↦ inr (ground arith)
]

boundary_below-is_last :
    (s : Str) (n m : ℕ) → boundary_below s n < m → m ≤ n → is_char_boundary s m ≡ false
unfolding boundary_below
boundary_below-is_last s zero m above within = absurd (omega arith)
boundary_below-is_last s (suc n) m above within = elim (Bool-cases (is_char_boundary s (suc n))) [
  | inl here ↦ let last : boundary_below s (suc n) ≡ suc n = rw here refl in absurd (omega arith)
  | inr further ↦
      let lower : boundary_below s (suc n) ≡ boundary_below s n = rw further refl in
      elim (le-cases m n within) [
        | inl inside ↦ boundary_below-is_last s n m (omega arith) inside
        | inr top ↦ ap (is_char_boundary s) top ∙ further
      ]
]

-- The last boundary of characters that leaves room for `…` in 1024 bytes.
pub record IsLastBoundary (message : Str) (end : ℕ) : Type 0 where
  pub boundary : is_char_boundary message end ≡ true
  pub room : end + 3 ≤ 1024
  pub last : (n : ℕ) → end < n → n + 3 ≤ 1024 → is_char_boundary message n ≡ false

-- A text as it is, if it has at most 1024 bytes, and cut at that boundary otherwise.
abbrev pub IsCut : Str → Str → Type 0
IsCut message t =
    ((length message ≤ 1024) × (t ≡ message))
    ⊎ ((1024 < length message)
        × ((end : ℕ) × IsLastBoundary message end × (t ≡ take end message ++ ellipsis)))

-- Nothing panics, and a message of a refusal goes out whole if it has at most 1024 bytes. A longer one
-- is cut at the last boundary of its characters that leaves room for `…`, and ends in `…`. Either way
-- it has at most 1024 bytes.
pub truncate_message_lem :
    (message : Str)
    → (t : Str) × (truncate_message message ≡ ok t) × (length t ≤ 1024) × IsCut message t
unfolding truncate_message slice_to
truncate_message_lem message = elim (Bool-cases (ltb 1024 (length message))) [
  | inl long ↦
      let end = boundary_below message 1021 in
      let cut = boundary_below-is_char_boundary message 1021 in
      let low = boundary_below-le message 1021 in
      let short : length (take end message ++ ellipsis) ≤ 1024 =
        omega (arith, length-append (take end message) ellipsis, length-take-le end message, low) in
      let last : IsLastBoundary message end = record {
        boundary = cut;
        room = omega (arith, low);
        last = λ n above within. boundary_below-is_last message 1021 n above (omega arith);
      } in
      (take end message ++ ellipsis, rw (long, cut), short, inr (ground arith, (end, last, refl)))
  | inr short ↦ (message, rw short, ground arith, inl (ground arith, refl))
]

pub truncate_message-runs : (message : Str) → ¬ (truncate_message message ≡ panic)
truncate_message-runs message e = let (t, done, _, _) = truncate_message_lem message in cc (done, e)

header_text-runs : (h : Option (Option Str)) → ¬ (header_text h ≡ panic)
unfolding header_text
header_text-runs none e = cc e
header_text-runs (some none) e = cc e
header_text-runs (some (some s)) e = cc e

check_parsed-runs : (n : ℕ) → ¬ (check_parsed n ≡ panic)
unfolding check_parsed
check_parsed-runs n e = ground arith

pub validate_protocol_metadata-runs :
    (h : Option (Option Str)) → ¬ (validate_protocol_metadata h ≡ panic)
unfolding validate_protocol_metadata
validate_protocol_metadata-runs h = and_then-runs (header_text h) _ (header_text-runs h) λ text.
    let bad = refuse failed_precondition (bytes "x-protocol-version metadata is not a u32") in
    and_then-runs (ok_or bad (parse_u32 text)) check_parsed (ok_or-runs bad (parse_u32 text))
      check_parsed-runs

new_source_key-runs : (a b : Str) → ¬ (new_source_key a b ≡ panic)
unfolding new_source_key
new_source_key-runs a b e = ground arith

module _ (V : JsonValues) where
  required_attr-runs :
      (attributes : KeyValues V) (key : Str) → ¬ (required_attr V attributes key ≡ panic)
  unfolding required_attr
  required_attr-runs attributes key = ok_or-runs _ _

  pub source_from_resource_logs-runs :
      (r : ResourceLogs V) → ¬ (source_from_resource_logs V r ≡ panic)
  unfolding source_from_resource_logs
  source_from_resource_logs-runs r =
      and_then-runs (ok_or _ r.resource) _ (ok_or-runs _ _) λ attributes.
        and_then-runs (required_attr V attributes _) _ (required_attr-runs attributes _) λ project.
          and_then-runs (required_attr V attributes _) _ (required_attr-runs attributes _) λ _.
            and_then-runs (required_attr V attributes _) _ (required_attr-runs attributes _) λ _.
              and_then-runs (required_attr V attributes _) _ (required_attr-runs attributes _)
                λ install_id.
                  map_err-runs _ (new_source_key project install_id)
                    (new_source_key-runs project install_id)
