-- ===== src/Examples/Sources.antt =====
-- The layout of the data directory and the identities of sources, on a concrete directory.
use rs_detritus.Common.{Str, [], ◌∷◌, bytes, ◌≡◌, ◌⊎◌, refl, arith, ok, err}
use rs_detritus.FilePath.{FilePath}
use rs_detritus.Storage.{
  invalid_component, SourceKey, new_source_key, StoragePaths, log_file, blob_path, index_path,
}
use rs_detritus.Storage.Sources.{IsComponent, IsSource, new_source_key_lem, canonical_injective}
use rs_detritus.Storage.Layout.{IsDigest, NoSlash}
use rs_detritus.Storage.Confined.{
  IsConfined, paths-IsConfined, log_file_injective, index_path_injective,
}

abbrev pub server_paths : StoragePaths
server_paths = record { data_dir = bytes "srv" ∷ bytes "data" ∷ [] }

abbrev pub acme : SourceKey
acme = record { project = bytes "acme"; source_id = bytes "i1" }

pub acme-IsSource : IsSource acme
unfolding bytes
acme-IsSource = record {
  project = record {
    nonempty = λ e. ground arith;
    not_dot = λ e. ground arith;
    not_dot_dot = λ e. ground arith;
    no_slash = ground arith;
    no_backslash = ground arith;
  };
  source_id = record {
    nonempty = λ e. ground arith;
    not_dot = λ e. ground arith;
    not_dot_dot = λ e. ground arith;
    no_slash = ground arith;
    no_backslash = ground arith;
  };
}

-- 64 digits
abbrev pub digest_text : Str
digest_text = bytes "0123456789abcdef0123456789abcdef0123456789abcdef0123456789abcdef"

pub digest_text-IsDigest : IsDigest digest_text
unfolding bytes
digest_text-IsDigest = record { size = refl; hex = ground arith }

abbrev pub day : Str
day = bytes "20260131"

pub day-NoSlash : NoSlash day
unfolding bytes
day-NoSlash = ground arith

new_source_key_lem_example :
    (IsComponent (bytes "acme")
      × IsComponent (bytes "..")
      × (new_source_key (bytes "acme") (bytes "..")
          ≡ ok (record { project = bytes "acme"; source_id = bytes ".." })))
    ⊎ ((¬ IsComponent (bytes "acme"))
        × (new_source_key (bytes "acme") (bytes "..")
            ≡ err (invalid_component (bytes "project") (bytes "acme"))))
    ⊎ (IsComponent (bytes "acme")
        × (¬ IsComponent (bytes ".."))
        × (new_source_key (bytes "acme") (bytes "..")
            ≡ err (invalid_component (bytes "source_id") (bytes ".."))))
new_source_key_lem_example = new_source_key_lem (bytes "acme") (bytes "..")

canonical_injective_example : acme ≡ acme
canonical_injective_example = canonical_injective acme acme acme-IsSource acme-IsSource refl

paths-IsConfined_example :
    IsConfined server_paths (log_file server_paths acme day)
    × IsConfined server_paths (index_path server_paths acme day digest_text)
    × ((b : FilePath) × (blob_path server_paths digest_text ≡ ok b) × IsConfined server_paths b)
paths-IsConfined_example =
    paths-IsConfined server_paths acme day day digest_text acme-IsSource day-NoSlash day-NoSlash
      digest_text-IsDigest

log_file_injective_example : (acme ≡ acme) × (day ≡ day)
log_file_injective_example =
    log_file_injective server_paths acme acme day day acme-IsSource acme-IsSource day-NoSlash
      day-NoSlash refl

index_path_injective_example : acme ≡ acme
index_path_injective_example =
    index_path_injective server_paths acme acme day day digest_text digest_text acme-IsSource
      acme-IsSource day-NoSlash day-NoSlash digest_text-IsDigest digest_text-IsDigest refl
