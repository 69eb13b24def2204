-- ===== src/Storage/Confined.antt =====
-- Every file of a source lies below the data directory, and different sources share none.
use mathlib.Core.List.{append_cancel_left, append_cancel_right}
use rs_detritus.Common.{
  ℕ, Str, [], ◌∷◌, ◌++◌, bytes, ◌≡◌, ◌≢◌, refl, All, arith, ok, take, length, ap, ◌∙◌, sym, ◌≤◌,
  length-append,
}
use rs_detritus.FilePath.{FilePath}
use rs_detritus.FilePath.Laws.{strip_path_prefix-append}
use rs_detritus.Storage.{
  SourceKey, StoragePaths, log_file, blob_path, index_path, relative_to_data_dir,
}
use rs_detritus.Storage.Sources.{IsSource}
use rs_detritus.Storage.Layout.{
  IsDigest, NoSlash, log_file_parts, index_path_parts, blob_path_parts,
}

-- A path that stays below the data directory: its components follow those of the directory, and none
-- of them is `..`.
pub record IsConfined (p : StoragePaths) (path : FilePath) : Type 0 where
  pub rest : FilePath
  pub below : path ≡ p.data_dir ++ rest
  pub nonempty : rest ≢ []
  pub no_dot_dot : All (λ s. s ≢ bytes "..") rest

dots_of_length : (s : Str) → 3 ≤ length s → s ≢ bytes ".."
unfolding bytes
dots_of_length s h e = omega (arith, ap {A = Str} length e)

named_otherwise : (s : Str) (a b c : ℕ) (t : Str) → s ++ (a ∷ b ∷ c ∷ t) ≢ bytes ".."
named_otherwise s a b c t = dots_of_length _ (omega (arith, length-append {0} s (a ∷ b ∷ c ∷ t)))

index_name_otherwise : (s t : Str) → s ++ (b'-' ∷ (t ++ bytes ".json")) ≢ bytes ".."
unfolding bytes
index_name_otherwise s t = dots_of_length _ (
    omega (
      arith,
      length-append {0} s (b'-' ∷ (t ++ bytes ".json")),
      length-append {0} t (bytes ".json"),
    ))

shard_otherwise : (s : Str) → IsDigest s → take 2 s ≢ bytes ".."
unfolding bytes
shard_otherwise [] h e = absurd (omega (arith, h.size))
shard_otherwise (c ∷ s) h e = ground (arith, h.hex.0)

-- For a source that `SourceKey::new` made, a date and a time without a slash and a digest, the log
-- file, the crash index and the blob lie below the data directory: no project name or installation
-- identity leads out of it.
pub paths-IsConfined :
    (p : StoragePaths) (k : SourceKey) (date timestamp sha256 : Str)
    → IsSource k
    → NoSlash date
    → NoSlash timestamp
    → IsDigest sha256
    → IsConfined p (log_file p k date)
      × IsConfined p (index_path p k timestamp sha256)
      × ((b : FilePath) × (blob_path p sha256 ≡ ok b) × IsConfined p b)
unfolding bytes
paths-IsConfined p k date timestamp sha256 hk hd ht hs = (
  record {
    rest = bytes "logs" ∷ k.project ∷ k.source_id ∷ (date ++ bytes ".ndjson") ∷ [];
    below = log_file_parts p k date hk hd;
    nonempty = λ e. ground arith;
    no_dot_dot = (
      named_otherwise [] _ _ _ _,
      (hk.project.not_dot_dot, (hk.source_id.not_dot_dot, (named_otherwise date _ _ _ _, tt))),
    );
  },
  record {
    rest =
        bytes "crashes"
        ∷ bytes "by-source"
        ∷ k.project
        ∷ k.source_id
        ∷ (timestamp ++ (b'-' ∷ (sha256 ++ bytes ".json")))
        ∷ [];
    below = index_path_parts p k timestamp sha256 hk ht hs;
    nonempty = λ e. ground arith;
    no_dot_dot = (
      named_otherwise [] _ _ _ _,
      (
        named_otherwise [] _ _ _ _,
        (
          hk.project.not_dot_dot,
          (hk.source_id.not_dot_dot, (index_name_otherwise timestamp sha256, tt)),
        ),
      ),
    );
  },
  (
    p.data_dir
        ++ (bytes "crashes" ∷ bytes "by-hash" ∷ take 2 sha256 ∷ (sha256 ++ bytes ".bin") ∷ []),
    blob_path_parts p sha256 hs,
    record {
      rest = bytes "crashes" ∷ bytes "by-hash" ∷ take 2 sha256 ∷ (sha256 ++ bytes ".bin") ∷ [];
      below = refl;
      nonempty = λ e. ground arith;
      no_dot_dot = (
        named_otherwise [] _ _ _ _,
        (
          named_otherwise [] _ _ _ _,
          (shard_otherwise sha256 hs, (named_otherwise sha256 _ _ _ _, tt)),
        ),
      );
    },
  ),
)

key_path : (j k : SourceKey) → j.project ≡ k.project → j.source_id ≡ k.source_id → j ≡ k
key_path j k p s = λ i. record { project = p i; source_id = s i }

-- For valid sources, and dates without a slash, two log files are the same only if they are of the
-- same source and date: different sources never write to one file.
pub log_file_injective :
    (p : StoragePaths) (j k : SourceKey) (s t : Str)
    → IsSource j
    → IsSource k
    → NoSlash s
    → NoSlash t
    → log_file p j s ≡ log_file p k t
    → (j ≡ k) × (s ≡ t)
log_file_injective p j k s t hj hk hs ht e =
    let same =
      append_cancel_left p.data_dir _ _
        (sym (log_file_parts p j s hj hs) ∙ e ∙ log_file_parts p k t hk ht) in
    (key_path j k (cc same) (cc same), append_cancel_right s t (bytes ".ndjson") (cc same))

-- For valid sources, times without a slash and digests, two crash indexes are the same file only
-- if they are of the same source.
pub index_path_injective :
    (p : StoragePaths) (j k : SourceKey) (s t a b : Str)
    → IsSource j
    → IsSource k
    → NoSlash s
    → NoSlash t
    → IsDigest a
    → IsDigest b
    → index_path p j s a ≡ index_path p k t b
    → j ≡ k
index_path_injective p j k s t a b hj hk hs ht ha hb e =
    let same =
      append_cancel_left p.data_dir _ _
        (sym (index_path_parts p j s a hj hs ha) ∙ e ∙ index_path_parts p k t b hk ht hb) in
    key_path j k (cc same) (cc same)

-- The path in an index is the one of the blob relative to the data directory.
pub relative_to_data_dir-confined :
    (p : StoragePaths) (path : FilePath) (h : IsConfined p path)
    → relative_to_data_dir p path ≡ h.rest
unfolding relative_to_data_dir
relative_to_data_dir-confined p path h =
    rw (h.below, relative_to_data_dir, strip_path_prefix-append p.data_dir h.rest)
