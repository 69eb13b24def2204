-- ===== src/Logs/Writers.antt =====
-- crates/detritus-server/src/logs.rs: `LogWriterPool`, one bounded queue for each source, and the task
-- `writer_loop` behind it, which appends the lines to the file of the day.
pub mod Appending
use rs_detritus.Common.{
  ℕ, Str, Bool, true, false, Option, none, some, List, [], ◌∷◌, ◌++◌, bytes, ltb, length, ◌==◌, Eq,
  nat_eq, list_eq, pair_eq, if◌then◌else◌, ◌≡◌, ◌↔◌, arith, eq_iff, Result, ok, err, panic, Action,
  pure, ◌>>=◌, ◌>>◌, ◌&&◌,
}
use rs_detritus.Common.Table.{Table, lookup, insert}
use rs_detritus.FilePath.{FilePath, parent}
use rs_detritus.Storage.{IoError, SourceKey, StoragePaths, StorageError, log_file}
use rs_detritus.Disk.{Disk, Io, raise_io, create_dir_all, open_append, write_all, sync_file}

abbrev pub writer_channel_capacity : ℕ
writer_channel_capacity = 10000

abbrev pub key_beq : SourceKey → SourceKey → Bool
key_beq j k = j.project == k.project && j.source_id == k.source_id

pub key_beq_iff : (j k : SourceKey) → (key_beq j k ≡ true) ↔ (j ≡ k)
key_beq_iff j k = ground (arith, eq_iff j.project k.project, eq_iff j.source_id k.source_id)

instance abbrev pub source_key_eq : Eq SourceKey
source_key_eq = record { decides = key_beq_iff; test = key_beq }

module _ (J : Type 0) where
  -- The lines that wait in the channel of each source. Its receiver lives as long as a sender does.
  abbrev pub LogWriterPool : Type 0
  LogWriterPool = Table SourceKey (List J)

  unfoldable pub open_queue : SourceKey → Option (List J) → LogWriterPool → LogWriterPool
  open_queue source none pool = insert source [] pool
  open_queue source (some queue) pool = pool

  -- `LogWriterPool::sender_for`, which starts a writer for a new source
  unfoldable pub sender_for : SourceKey → LogWriterPool → LogWriterPool
  unfolding open_queue
  sender_for source pool = open_queue source (lookup source pool) pool

  abbrev pub queue_of : Option (List J) → List J
  queue_of none = []
  queue_of (some queue) = queue

  -- `Sender::try_send`, which fails on a full channel
  unfoldable pub try_send : SourceKey → J → LogWriterPool → Option LogWriterPool
  try_send source line pool =
      let queue = queue_of (lookup source pool) in
      if ltb (length queue) writer_channel_capacity
      then some (insert source (queue ++ (line ∷ [])) pool)
      else none

  take_first : SourceKey → List J → LogWriterPool → Option J × LogWriterPool
  take_first source [] pool = (none, pool)
  take_first source (line ∷ queue) pool = (some line, insert source queue pool)

  -- `Receiver::recv` of the writer, where a line waits
  unfoldable pub receive : SourceKey → LogWriterPool → Option J × LogWriterPool
  unfolding take_first
  receive source pool = take_first source (queue_of (lookup source pool)) pool

  module _ (encode : J → Option Str) where
    -- The day and the open file of a writer.
    pub record Writer : Type 0 where
      pub current_date : Option Str
      pub file : Option FilePath

    make_parent : Option FilePath → Action Disk StorageError (Unit {0})
    make_parent none = pure tt
    make_parent (some dir) = raise_io StorageError.io (create_dir_all dir)

    unfoldable pub open_log_file :
        StoragePaths → SourceKey → Str → Action Disk StorageError FilePath
    unfolding make_parent
    open_log_file storage source date = do
      make_parent (parent (log_file storage source date))
      raise_io StorageError.io (open_append (log_file storage source date))
      pure (log_file storage source date)

    unfoldable pub flush_file : Option FilePath → Io (Unit {0})
    flush_file none = pure tt
    flush_file (some path) = do sync_file path; sync_file path

    opened_at : Str → Option Str → Result StorageError FilePath → Writer
    opened_at today date (ok path) = record { current_date = some today; file = some path }
    opened_at today date (err e) = record { current_date = date; file = none }
    opened_at today date panic = record { current_date = date; file = none }

    -- A failed flush or a failed opening is logged. Without a file the line is lost.
    unfoldable pub rotate : StoragePaths → SourceKey → Str → Writer → Disk → Writer × Disk
    unfolding opened_at
    rotate storage source today w d =
        let (_, d1) = flush_file w.file d in
        let (r, d2) = open_log_file storage source today d1 in
        (opened_at today w.current_date r, d2)

    append_line : Option FilePath → Option Str → Disk → Disk
    append_line none encoded d = d
    append_line (some path) none d = d
    append_line (some path) (some encoded) d = (write_all path (encoded ++ (b'\n' ∷ [])) d).1

    is_current : Option Str → Str → Bool
    is_current none today = false
    is_current (some date) today = date == today

    -- The body of the loop of `writer_loop`: a line, and the day on which it is taken.
    unfoldable pub write_line : StoragePaths → SourceKey → Str → J → Writer → Disk → Writer × Disk
    unfolding append_line is_current
    write_line storage source today line w d =
        let (w1, d1) =
          if is_current w.current_date today then (w, d) else rotate storage source today w d in
        (w1, append_line w1.file (encode line) d1)

    unfoldable pub write_lines :
        StoragePaths → SourceKey → List (Str × J) → Writer → Disk → Writer × Disk
    write_lines storage source [] w d = (w, d)
    write_lines storage source ((today, line) ∷ rest) w d =
        let (w1, d1) = write_line storage source today line w d in
        write_lines storage source rest w1 d1

    -- `writer_loop` from its start until the channel is closed
    unfoldable pub writer_loop : StoragePaths → SourceKey → List (Str × J) → Disk → Disk
    unfolding write_lines
    writer_loop storage source lines d =
        let (w, d1) =
          write_lines storage source lines (record { current_date = none; file = none }) d in
        (flush_file w.file d1).1
