-- ===== src/Disk/Quiet.antt =====
-- The operations where nothing else happens on the disk.
use rs_detritus.Common.{Str, [], ok, ◌≡◌, nat_eq, list_eq}
use rs_detritus.Common.Table.{lookup}
use rs_detritus.FilePath.{FilePath}
use rs_detritus.Disk.{
  Disk, Io, under_events, operation, create_dir_all, open_append, touch, write_all, append_content,
  sync_file,
}

-- No task acts on the disk and no operation fails.
abbrev pub IsQuiet : Disk → Type 0
IsQuiet d = d.events ≡ []

operation-IsQuiet : {A : Type 0} (op : Io A) (d : Disk) → IsQuiet d → operation op d ≡ op d
unfolding operation under_events
operation-IsQuiet op d q = rw (q, under_events)

pub create_dir_all-IsQuiet : (p : FilePath) (d : Disk) → IsQuiet d → create_dir_all p d ≡ (ok tt, d)
unfolding create_dir_all
create_dir_all-IsQuiet p d q = operation-IsQuiet _ d q

pub open_append-IsQuiet :
    (p : FilePath) (d : Disk) → IsQuiet d → open_append p d ≡ (ok tt, touch p (lookup p d.files) d)
unfolding open_append
open_append-IsQuiet p d q = operation-IsQuiet _ d q

pub write_all-IsQuiet :
    (p : FilePath) (chunk : Str) (d : Disk)
    → IsQuiet d
    → write_all p chunk d ≡ (ok tt, append_content p chunk (lookup p d.files) d)
unfolding write_all
write_all-IsQuiet p chunk d q = operation-IsQuiet _ d q

pub sync_file-IsQuiet : (p : FilePath) (d : Disk) → IsQuiet d → sync_file p d ≡ (ok tt, d)
unfolding sync_file
sync_file-IsQuiet p d q = operation-IsQuiet _ d q
