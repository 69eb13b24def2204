-- ===== src/Disk.antt =====
-- The file system of the server and the client (`std::fs`, `tokio::fs`): files under paths. What other
-- tasks and the machine do between two operations comes as a list of events, one for each operation:
-- the operation may fail, and another task may create or remove a file just before it. Directories
-- hold nothing that the program reads back, so they are not kept.
pub mod Quiet
pub mod Spared
use rs_detritus.Common.{
  ℕ, Str, Bool, true, false, Option, none, some, List, [], ◌∷◌, ◌++◌, nat_eq, list_eq, Result, ok,
  err, Action, pure, map_err,
}
use rs_detritus.Common.Table.{Table, lookup, insert, remove}
use rs_detritus.FilePath.{FilePath, strip_path_prefix}
use rs_detritus.Storage.{IoError, not_found, already_exists, other_io}

pub record File : Type 0 where
  pub content : Str
  -- seconds of the system clock
  pub modified : ℕ

pub data Event : Type 0 where
  calm fails : Event
  creates : FilePath → File → Event
  removes : FilePath → Event

pub record Disk : Type 0 where
  pub files : Table FilePath File
  pub events : List Event
  pub clock : ℕ

abbrev pub Io : Type 0 → Type 0
Io A = Action Disk IoError A

unfoldable pub under_events : {A : Type 0} → List Event → Io A → Io A
under_events [] op d = op d
under_events (calm ∷ es) op d = op (record d { events = es })
under_events (fails ∷ es) op d = (err other_io, record d { events = es })
under_events (creates p f ∷ es) op d = op (record d { files = insert p f d.files; events = es })
under_events (removes p ∷ es) op d = op (record d { files = remove p d.files; events = es })

-- One operation, after what happens just before it.
unfoldable pub operation : {A : Type 0} → Io A → Io A
unfolding under_events
operation op d = under_events d.events op d

unfoldable pub create_dir_all : FilePath → Io (Unit {0})
unfolding operation
create_dir_all p = operation (pure tt)

abbrev pub put_file : FilePath → Str → Disk → Disk
put_file p content d = record d {
  files = insert p (record { content = content; modified = d.clock }) d.files;
}

-- `File::create` truncates.
unfoldable pub create_file : FilePath → Io (Unit {0})
unfolding operation
create_file p = operation (λ d. (ok tt, put_file p [] d))

unfoldable pub touch : FilePath → Option File → Disk → Disk
touch p none d = put_file p [] d
touch p (some f) d = d

-- `OpenOptions::new().create(true).append(true).open(..)` keeps what is there.
unfoldable pub open_append : FilePath → Io (Unit {0})
unfolding operation touch
open_append p = operation (λ d. (ok tt, touch p (lookup p d.files) d))

unfoldable pub append_content : FilePath → Str → Option File → Disk → Disk
append_content p chunk none d = d
append_content p chunk (some f) d = put_file p (f.content ++ chunk) d

-- `write_all` through the open file at this path; a file that was unlinked meanwhile takes the bytes
-- with it.
unfoldable pub write_all : FilePath → Str → Io (Unit {0})
unfolding operation append_content
write_all p chunk = operation (λ d. (ok tt, append_content p chunk (lookup p d.files) d))

-- `flush` and `sync_all`
unfoldable pub sync_file : FilePath → Io (Unit {0})
unfolding operation
sync_file p = operation (pure tt)

unfoldable pub unlink : FilePath → Option File → Io (Unit {0})
unlink p none d = (err not_found, d)
unlink p (some f) d = (ok tt, record d { files = remove p d.files })

unfoldable pub remove_file : FilePath → Io (Unit {0})
unfolding operation unlink
remove_file p = operation (λ d. unlink p (lookup p d.files) d)

abbrev pub is_there : Option File → Bool
is_there none = false
is_there (some _) = true

unfoldable pub try_exists : FilePath → Io Bool
unfolding operation
try_exists p = operation (λ d. (ok (is_there (lookup p d.files)), d))

unfoldable pub link : FilePath → Option File → Option File → Io (Unit {0})
link dest none target d = (err not_found, d)
link dest (some f) (some g) d = (err already_exists, d)
link dest (some f) none d = (ok tt, record d { files = insert dest f d.files })

-- The system call creates the name only if it is free.
unfoldable pub hard_link : FilePath → FilePath → Io (Unit {0})
unfolding operation link
hard_link source dest = operation (λ d. link dest (lookup source d.files) (lookup dest d.files) d)

-- `fs::write`
unfoldable pub write_file : FilePath → Str → Io (Unit {0})
unfolding operation
write_file p content = operation (λ d. (ok tt, put_file p content d))

unfoldable pub found : Option File → Io File
found none d = (err not_found, d)
found (some f) d = (ok f, d)

-- `fs::read` and `fs::metadata`: a file's content with its time and, by `length`, its size.
unfoldable pub read_file : FilePath → Io File
unfolding operation found
read_file p = operation (λ d. found (lookup p d.files) d)

unfoldable pub keep_below : Option FilePath → FilePath → List FilePath → List FilePath
keep_below none p rest = rest
keep_below (some r) p rest = p ∷ rest

unfoldable pub files_below : FilePath → Table FilePath File → List FilePath
unfolding keep_below
files_below root [] = []
files_below root ((p, f) ∷ t) = keep_below (strip_path_prefix root p) p (files_below root t)

-- A walk over the directory tree below a path; the order is the file system's.
unfoldable pub walk : FilePath → Io (List FilePath)
unfolding operation files_below
walk root = operation (λ d. (ok (files_below root d.files), d))

-- The error of an operation, as an error of the caller.
unfoldable pub raise_io : {E A : Type 0} → (IoError → E) → Io A → Action Disk E A
raise_io f m d = let (r, d') = m d in (map_err f r, d')

-- The operation with its error as a value: a `match` on the result, or `let _ =`.
unfoldable pub attempt : {E A : Type 0} → Io A → Action Disk E (Result IoError A)
attempt m d = let (r, d') = m d in (ok r, d')
