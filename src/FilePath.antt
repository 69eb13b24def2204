-- ===== src/FilePath.antt =====
-- Paths of the standard library (`std::path`) on Unix, as the sequence of their components: two
-- paths are equal in Rust exactly when their components are.
pub mod Laws
use rs_detritus.Common.{
  ℕ, Str, Bool, true, false, Option, none, some, List, [], ◌∷◌, ◌++◌, bytes, not, ◌||◌, ◌==◌,
  nat_eq, list_eq, if◌then◌else◌, ◌≡◌, refl,
}

abbrev pub FilePath : Type 0
FilePath = List Str

abbrev pub slash : ℕ
slash = b'/'

abbrev push_byte : ℕ → List Str → List Str
push_byte c [] = (c ∷ []) ∷ []
push_byte c (s ∷ ss) = (c ∷ s) ∷ ss

-- The pieces between the slashes.
segments : Str → List Str
segments [] = [] ∷ []
segments (c ∷ s) = let rest = segments s in if c == slash then [] ∷ rest else push_byte c rest

abbrev is_skipped : Str → Bool
is_skipped s = s == [] || s == bytes "."

drop_skipped : List Str → List Str
drop_skipped [] = []
drop_skipped (s ∷ ss) = let rest = drop_skipped ss in if is_skipped s then rest else s ∷ rest

-- `Path::components`, below the root: empty and `.` components are skipped, `..` is kept.
unfoldable pub components : Str → List Str
unfolding segments drop_skipped
components s = drop_skipped (segments s)

unfoldable pub is_absolute : Str → Bool
is_absolute [] = false
is_absolute (c ∷ s) = c == slash

-- `PathBuf::join`: an absolute path replaces what stands before it.
unfoldable pub join : FilePath → Str → FilePath
unfolding components is_absolute
join p s = if is_absolute s then bytes "/" ∷ components s else p ++ components s

-- `Path::file_name`, for paths that do not end in `..` or the root.
unfoldable pub file_name : FilePath → Option Str
file_name [] = none
file_name (s ∷ []) = some s
file_name (s ∷ ss) = file_name ss

unfoldable pub parent : FilePath → Option FilePath
parent [] = none
parent (s ∷ []) = some []
parent (s ∷ t ∷ ss) = elim (parent (t ∷ ss)) [ none ↦ none | some p ↦ some (s ∷ p) ]

-- The text before the last dot of a name, and the text behind it.
unfoldable pub split_last_dot : Str → Option (Str × Str)
split_last_dot [] = none
split_last_dot (c ∷ s) = elim (split_last_dot s) [
  | some (stem, ext) ↦ some (c ∷ stem, ext)
  | none ↦ if c == b'.' then some ([], s) else none
]

-- `Path::extension`: a name whose only dot is its first byte has none.
unfoldable pub extension_of_name : Str → Option Str
extension_of_name s = elim (split_last_dot s) [
  | none ↦ none
  | some ([], ext) ↦ none
  | some (c ∷ stem, ext) ↦ some ext
]

unfoldable pub extension : FilePath → Option Str
extension p = elim (file_name p) [ none ↦ none | some s ↦ extension_of_name s ]

-- `Path::strip_prefix` and `Path::starts_with`, by whole components
unfoldable pub strip_path_prefix : FilePath → FilePath → Option FilePath
strip_path_prefix [] p = some p
strip_path_prefix (d ∷ ds) [] = none
strip_path_prefix (d ∷ ds) (s ∷ ss) = if d == s then strip_path_prefix ds ss else none

-- `to_string_lossy` of a path whose components are UTF-8.
unfoldable pub to_text : FilePath → Str
to_text [] = []
to_text (s ∷ []) = s
to_text (s ∷ t ∷ ss) =
    let rest = to_text (t ∷ ss) in if s == bytes "/" then s ++ rest else s ++ (slash ∷ rest)
