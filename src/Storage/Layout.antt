-- ===== src/Storage/Layout.antt =====
-- Where the files of the data directory lie: below it whatever the source, and apart for different
-- sources, dates and digests.
use mathlib.Core.List.{append_assoc}
use rs_detritus.Common.{
  ℕ, Str, [], ◌∷◌, ◌++◌, bytes, ◌≡◌, ◌≢◌, ◌⊎◌, All, arith, ok, take, length, ap, ◌∙◌, ◌≤◌,
}
use rs_detritus.FilePath.{FilePath, join}
use rs_detritus.FilePath.Laws.{IsSegment, join-segment}
use rs_detritus.Storage.{SourceKey, StoragePaths, log_file, shard_prefix, blob_path, index_path}
use rs_detritus.Storage.Sources.{IsSource, IsComponent-IsSegment}

-- A byte of a lowercase hexadecimal digest.
abbrev pub IsHex : ℕ → Type 0
IsHex c = ((b'0' ≤ c) × (c ≤ b'9')) ⊎ ((b'a' ≤ c) × (c ≤ b'f'))

-- What `hex::encode(Sha256::finalize(..))` gives.
pub record IsDigest (s : Str) : Type 0 where
  pub size : length s ≡ 64
  pub hex : All IsHex s

abbrev pub NoSlash : Str → Type 0
NoSlash = All (λ c. c ≢ b'/')

pub NoSlash-append : (s t : Str) → NoSlash s → NoSlash t → NoSlash (s ++ t)
NoSlash-append [] t hs ht = ht
NoSlash-append (c ∷ s) t hs ht = (hs.0, NoSlash-append s t hs.1 ht)

pub NoSlash-hex : (s : Str) → All IsHex s → NoSlash s
NoSlash-hex [] h = tt
NoSlash-hex (c ∷ s) h = (λ e. ground (arith, h.0), NoSlash-hex s h.1)

-- A text that ends in a suffix of two bytes or more is no empty name, no `.`, and is `..` never if the
-- suffix ends otherwise.
pub long-IsSegment :
    (s : Str) (a b : ℕ) (t : Str) → NoSlash (s ++ (a ∷ b ∷ t)) → IsSegment (s ++ (a ∷ b ∷ t))
unfolding bytes
long-IsSegment [] a b t h = record {
  nonempty = λ e. ground arith;
  not_dot = λ e. ground arith;
  no_slash = h;
}
long-IsSegment (c ∷ []) a b t h = record {
  nonempty = λ e. ground arith;
  not_dot = λ e. ground arith;
  no_slash = h;
}
long-IsSegment (c ∷ d ∷ s) a b t h = record {
  nonempty = λ e. ground arith;
  not_dot = λ e. ground arith;
  no_slash = h;
}

dated-IsSegment : (date : Str) → NoSlash date → IsSegment (date ++ bytes ".ndjson")
unfolding bytes
dated-IsSegment date h = long-IsSegment date _ _ _ (NoSlash-append date _ h (ground arith))

pub join_onto : (d p : FilePath) (s : Str) → IsSegment s → join (d ++ p) s ≡ d ++ (p ++ (s ∷ []))
join_onto d p s h = join-segment (d ++ p) s h ∙ append_assoc d p (s ∷ [])

-- Five joins of segments add five components.
join_chain :
    (d : FilePath) (a b x y : Str)
    → IsSegment a
    → IsSegment b
    → IsSegment x
    → IsSegment y
    → join (join (join (join d a) b) x) y ≡ d ++ (a ∷ b ∷ x ∷ y ∷ [])
join_chain d a b x y ha hb hx hy = rw (
  join-segment d a ha,
  join_onto d (a ∷ []) b hb,
  join_onto d (a ∷ b ∷ []) x hx,
  join_onto d (a ∷ b ∷ x ∷ []) y hy,
)

pub literal-IsSegment : (c d : ℕ) (s : Str) → NoSlash (c ∷ d ∷ s) → IsSegment (c ∷ d ∷ s)
literal-IsSegment c d s h = long-IsSegment [] c d s h

-- The path of a log file, component by component.
pub log_file_parts :
    (p : StoragePaths) (k : SourceKey) (date : Str)
    → IsSource k
    → NoSlash date
    → log_file p k date
      ≡ p.data_dir ++ (bytes "logs" ∷ k.project ∷ k.source_id ∷ (date ++ bytes ".ndjson") ∷ [])
unfolding log_file bytes
log_file_parts p k date hk hd =
    join_chain p.data_dir (bytes "logs") k.project k.source_id (date ++ bytes ".ndjson")
      (literal-IsSegment _ _ _ (ground arith)) (IsComponent-IsSegment hk.project)
      (IsComponent-IsSegment hk.source_id) (dated-IsSegment date hd)

-- The path of a crash index.
pub index_path_parts :
    (p : StoragePaths) (k : SourceKey) (timestamp sha256 : Str)
    → IsSource k
    → NoSlash timestamp
    → IsDigest sha256
    → index_path p k timestamp sha256
      ≡ p.data_dir
        ++ (bytes "crashes"
            ∷ bytes "by-source"
            ∷ k.project
            ∷ k.source_id
            ∷ (timestamp ++ (b'-' ∷ (sha256 ++ bytes ".json")))
            ∷ [])
unfolding index_path bytes
index_path_parts p k timestamp [] hk ht hs = absurd (omega (arith, hs.size))
index_path_parts p k timestamp (c ∷ sha) hk ht hs =
    rw
      (join_chain p.data_dir (bytes "crashes") (bytes "by-source") k.project k.source_id
        (literal-IsSegment _ _ _ (ground arith)) (literal-IsSegment _ _ _ (ground arith))
        (IsComponent-IsSegment hk.project) (IsComponent-IsSegment hk.source_id))
      (join_onto p.data_dir (bytes "crashes" ∷ bytes "by-source" ∷ k.project ∷ k.source_id ∷ []) _ (
        long-IsSegment timestamp _ _ _ (
          NoSlash-append timestamp _ ht (
            λ e. ground arith,
            NoSlash-append (c ∷ sha) (bytes ".json") (NoSlash-hex (c ∷ sha) hs.hex) (ground arith),
          ))))

shard_prefix-digest : (s : Str) → IsDigest s → shard_prefix s ≡ ok (take 2 s)
unfolding shard_prefix
shard_prefix-digest s h = ground (arith, h.size)

shard-IsSegment : (s : Str) → IsDigest s → IsSegment (take 2 s)
shard-IsSegment [] h = absurd (omega (arith, h.size))
shard-IsSegment (c ∷ []) h = absurd (omega (arith, h.size))
shard-IsSegment (c ∷ d ∷ s) h =
    literal-IsSegment c d [] (ground (arith, NoSlash-hex (c ∷ d ∷ s) h.hex))

blob-IsSegment : (s : Str) → IsDigest s → IsSegment (s ++ bytes ".bin")
unfolding bytes
blob-IsSegment s h =
    long-IsSegment s _ _ _ (NoSlash-append s (bytes ".bin") (NoSlash-hex s h.hex) (ground arith))

abbrev pub blob_place : StoragePaths → Str → FilePath
blob_place p sha256 =
    p.data_dir
    ++ (bytes "crashes" ∷ bytes "by-hash" ∷ take 2 sha256 ∷ (sha256 ++ bytes ".bin") ∷ [])

-- The path of a blob: a digest is long enough for the slice, and the shard is its first two bytes.
pub blob_path_parts :
    (p : StoragePaths) (sha256 : Str)
    → IsDigest sha256
    → blob_path p sha256 ≡ ok (blob_place p sha256)
unfolding blob_path bytes
blob_path_parts p s hs = rw (shard_prefix-digest s hs) (
    ap ok (
      join_chain p.data_dir (bytes "crashes") (bytes "by-hash") (take 2 s) (s ++ bytes ".bin")
        (literal-IsSegment _ _ _ (ground arith)) (literal-IsSegment _ _ _ (ground arith))
        (shard-IsSegment s hs) (blob-IsSegment s hs)))
