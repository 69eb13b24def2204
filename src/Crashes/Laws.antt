-- ===== src/Crashes/Laws.antt =====
-- What is assumed of the libraries that an upload calls, and which files they keep apart.
use mathlib.Core.List.{append_cancel_left, append_cancel_right}
use rs_detritus.Common.{ℕ, Str, [], ◌∷◌, ◌++◌, bytes, ◌≡◌, ◌≢◌, arith}
use rs_detritus.Common.{panic}
use rs_detritus.FilePath.{FilePath}
use rs_detritus.Protocol.{CrashMetadata}
use rs_detritus.Storage.{StoragePaths}
use rs_detritus.Storage.Layout.{IsDigest, NoSlash, blob_place}
use rs_detritus.Crashes.{Libraries}

-- A digest is 64 lowercase hexadecimal digits, neither a UUID nor a time has a slash, and serde does
-- not panic.
pub record LibraryLaws (L : Libraries) : Type 0 where
  pub digest-IsDigest : (s : Str) → IsDigest (L.digest s)
  pub uuid-NoSlash : (n : ℕ) → NoSlash (L.uuid n)
  -- serde turns a value into JSON or reports why not
  pub metadata_value-runs : (m : CrashMetadata L.Json) → L.metadata_value m ≢ panic
  pub timestamp-NoSlash : (t : ℕ) → NoSlash (L.format_timestamp t)

module _ (p : StoragePaths) where
  -- The file of an upload that is under way.
  abbrev pub IsTemp : FilePath → Type 0
  IsTemp q = (name : Str) × (q ≡ p.data_dir ++ (bytes "tmp" ∷ name ∷ []))

  pub blob_place-injective : (a b : Str) → blob_place p a ≡ blob_place p b → a ≡ b
  blob_place-injective a b e =
      let tails = append_cancel_left p.data_dir _ _ e in
      append_cancel_right a b (bytes ".bin") (cc tails)

  tmp-ne-crashes : bytes "tmp" ≢ bytes "crashes"
  unfolding bytes
  tmp-ne-crashes e = ground arith

  pub blob_place-not-IsTemp : (sha : Str) → ¬ IsTemp (blob_place p sha)
  blob_place-not-IsTemp sha (name, e) = tmp-ne-crashes (cc (append_cancel_left p.data_dir _ _ e))
