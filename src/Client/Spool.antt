-- ===== src/Client/Spool.antt =====
-- crates/detritus-client/src/spool.rs and the calls of `std::fs` on the crash spool. An entry is a
-- directory below `pending/` or `sent/`; a file of it goes by the path that is joined to the entry.
-- Each operation may fail. While a process works on the spool it holds the lock, so that no other
-- process moves or removes an entry.
pub mod Kept
pub mod Sorting
pub mod Working
use rs_detritus.Common.{
  ℕ, Str, Bool, true, false, Option, none, some, List, [], ◌∷◌, nat_eqb, ltb, nat_eq, list_eq,
  if◌then◌else◌, Result, ok, err, panic, Action, pure, throw, ◌>>=◌, ◌>>◌, map, map_err,
}
use rs_detritus.Common.Table.{Table, lookup, insert, remove}
use rs_detritus.FilePath.{FilePath}
use rs_detritus.Storage.{IoError, not_found, other_io}

pub record Entry : Type 0 where
  pub files : Table Str Str
  -- the modification time of the directory, in seconds
  pub modified : ℕ

-- What becomes of an operation. One that fails may leave the files of the entry that it changes in any
-- state.
pub data Event : Type 0 where
  works : Event
  fails : IoError → Table Str Str → Event

pub record Spool : Type 0 where
  pub pending : Table Str Entry
  pub sent : Table Str Entry
  -- the files elsewhere on the disk
  pub outside : Table FilePath Str
  pub events : List Event
  pub now : ℕ

abbrev pub SpoolIo : Type 0 → Type 0
SpoolIo A = Action Spool IoError A

-- An operation, with what it does where it fails and where it works.
abbrev run_event :
    {A : Type 0} → (Table Str Str → Spool → Spool) → SpoolIo A → List Event → SpoolIo A
run_event damage m [] s = m s
run_event damage m (works ∷ es) s = m (record s { events = es })
run_event damage m (fails e left ∷ es) s = (err e, damage left (record s { events = es }))

abbrev undamaged : Table Str Str → Spool → Spool
undamaged left s = s

unfoldable pub operation : {A : Type 0} → (Table Str Str → Spool → Spool) → SpoolIo A → SpoolIo A
operation damage m s = run_event damage m s.events s

-- An operation of the disk that changes no entry.
unfoldable pub io_step : SpoolIo (Unit {0})
io_step s = operation undamaged (pure tt) s

found_or_missing : {A : Type 0} → Option A → SpoolIo A
found_or_missing none = throw not_found
found_or_missing (some a) = pure a

abbrev pub file_of : Option Entry → Str → Option Str
file_of none file = none
file_of (some e) file = lookup file e.files

-- `fs::read` of a file of a pending entry
unfoldable pub read_pending : Str → Str → SpoolIo Str
unfolding found_or_missing
read_pending name file s =
    operation undamaged (λ t. found_or_missing (file_of (lookup name t.pending) file) t) s

-- `fs::read` of a file elsewhere
unfoldable pub read_outside : FilePath → SpoolIo Str
unfolding found_or_missing
read_outside path s = operation undamaged (λ t. found_or_missing (lookup path t.outside) t) s

abbrev pub is_some : {A : Type 0} → Option A → Bool
is_some none = false
is_some (some a) = true

-- `Path::exists`: false where the disk does not answer.
abbrev never_fails : Result IoError Bool × Spool → Result IoError Bool × Spool
never_fails (ok b, s) = (ok b, s)
never_fails (err e, s) = (ok false, s)
never_fails (panic, s) = (panic, s)

unfoldable pub exists_pending : Str → Str → SpoolIo Bool
exists_pending name file s =
    never_fails
      (operation undamaged (λ t. (ok (is_some (file_of (lookup name t.pending) file)), t)) s)

unfoldable pub exists_sent : Str → SpoolIo Bool
exists_sent name s =
    never_fails (operation undamaged (λ t. (ok (is_some (lookup name t.sent)), t)) s)

abbrev damaged : Table Str Str → Option Entry → Table Str Entry → Str → Table Str Entry
damaged left none entries name = entries
damaged left (some e) entries name = insert name (record e { files = left }) entries

-- `fs::remove_dir_all` of a sent entry
unfoldable pub remove_sent : Str → SpoolIo (Unit {0})
remove_sent name s =
    operation (λ left t. record t { sent = damaged left (lookup name t.sent) t.sent name })
      (λ t. (ok tt, record t { sent = remove name t.sent })) s

-- `fs::rename` of a pending entry to `sent/`: it replaces no directory that holds a file.
abbrev holds_files : Option Entry → Bool
holds_files none = false
holds_files (some e) = elim e.files [ [] ↦ false | f ∷ fs ↦ true ]

rename_onto : Str → Option Entry → Bool → SpoolIo (Unit {0})
rename_onto name none occupied s = (err not_found, s)
rename_onto name (some e) true s = (err other_io, s)
rename_onto name (some e) false s =
    (ok tt, record s { pending = remove name s.pending; sent = insert name e s.sent })

unfoldable pub rename_to_sent : Str → SpoolIo (Unit {0})
unfolding rename_onto
rename_to_sent name s =
    operation undamaged
      (λ t. rename_onto name (lookup name t.pending) (holds_files (lookup name t.sent)) t) s

-- `fs::create_dir_all` of an entry
abbrev pub entry_or_new : ℕ → Option Entry → Entry
entry_or_new now none = record { files = []; modified = now }
entry_or_new now (some e) = e

unfoldable pub create_pending : Str → SpoolIo (Unit {0})
create_pending name s =
    operation undamaged
      (λ t. (
        ok tt,
        record t { pending = insert name (entry_or_new t.now (lookup name t.pending)) t.pending },
      ))
      s

-- A directory changes when a file appears in it.
abbrev written_at : Str → ℕ → Entry → ℕ
written_at file now e = elim (lookup file e.files) [ none ↦ now | some _ ↦ e.modified ]

-- `fs::write` of a file of a pending entry
unfoldable pub write_pending : Str → Str → Str → SpoolIo (Unit {0})
write_pending name file contents s =
    operation (λ left t. record t { pending = damaged left (lookup name t.pending) t.pending name })
      (λ t. elim (lookup name t.pending) [
        | none ↦ (err not_found, t)
        | some e ↦ (
          ok tt,
          record t {
            pending =
                insert name
                  (record {
                    files = insert file contents e.files;
                    modified = written_at file t.now e;
                  })
                  t.pending;
          },
        )
      ])
      s

-- `SpoolLock::acquire`: the directory, the file and the lock. The lock is released at the end.
unfoldable pub acquire_lock : SpoolIo (Unit {0})
acquire_lock = do io_step; io_step; io_step

text_leb : Str → Str → Bool
text_leb [] t = true
text_leb (a ∷ s) [] = false
text_leb (a ∷ s) (b ∷ t) =
    let rest = text_leb s t in if ltb a b then true else if nat_eqb a b then rest else false

place : Str → List Str → List Str
place s [] = s ∷ []
place s (t ∷ ts) = let rest = place s ts in if text_leb s t then s ∷ t ∷ ts else t ∷ rest

-- `sort` of the entries' paths
unfoldable pub sort : List Str → List Str
unfolding place text_leb
sort [] = []
sort (s ∷ ss) = place s (sort ss)

abbrev pub names_of : Table Str Entry → List Str
names_of t = map (λ p. p.0) t

abbrev none_if_missing : Result IoError (List Str) × Spool → Result IoError (List Str) × Spool
none_if_missing (err not_found, s) = (ok [], s)
none_if_missing (r, s) = (r, s)

-- `filter_map(Result::ok)` and `is_dir` for one item of the directory: false where the disk does not
-- give the item or does not answer what it is.
unfoldable pub is_listed : SpoolIo Bool
is_listed s = never_fails ((io_step >> io_step >> pure true) s)

keep_if : Bool → Str → List Str → List Str
keep_if false name names = names
keep_if true name names = name ∷ names

-- The items of a directory that are kept.
unfoldable pub list_items : List Str → SpoolIo (List Str)
unfolding keep_if
list_items [] = pure []
list_items (name ∷ names) = do
  listed ← is_listed
  rest ← list_items names
  pure (keep_if listed name rest)

-- `fs::read_dir`: nothing for a directory that is missing.
unfoldable pub read_items : (Spool → Table Str Entry) → SpoolIo (List Str)
read_items folder s = none_if_missing (operation undamaged (λ t. (ok (names_of (folder t)), t)) s)

-- `pending_entries` of `pending/`, and of `sent/`
unfoldable pub pending_entries : (Spool → Table Str Entry) → SpoolIo (List Str)
pending_entries folder = do items ← read_items folder; names ← list_items items; pure (sort names)
