-- ===== src/Logs/Writers/Appending.antt =====
-- A writer appends its lines in their order.
use mathlib.Core.List.{append_assoc, append-nil}
use mathlib.Core.Path.{subst}
use rs_detritus.Common.{
  Str, Option, none, some, List, [], ◌∷◌, ◌++◌, nat_eq, list_eq, map, ok, ◌≡◌, refl, ap, sym, ◌∙◌,
  eq_self,
}
use rs_detritus.Common.Table.{lookup, lookup-insert}
use rs_detritus.FilePath.{FilePath, parent}
use rs_detritus.Storage.{SourceKey, StoragePaths, log_file}
use rs_detritus.Disk.{File, Disk, raise_io, touch, append_content, put_file, write_all}
use rs_detritus.Disk.Quiet.{
  IsQuiet, create_dir_all-IsQuiet, open_append-IsQuiet, write_all-IsQuiet, sync_file-IsQuiet,
}
use rs_detritus.Logs.Writers.{
  Writer, make_parent, open_log_file, flush_file, opened_at, rotate, append_line, is_current,
  write_line, write_lines, writer_loop,
}

-- The bytes at a path; a missing file has none.
abbrev content_of : Option File → Str
content_of none = []
content_of (some f) = f.content

abbrev pub content_at : FilePath → Disk → Str
content_at p d = content_of (lookup p d.files)

module _ (J : Type 0) (encode : J → Option Str) where
  abbrev line_text : Option Str → Str
  line_text none = []
  line_text (some s) = s ++ (b'\n' ∷ [])

  -- The encoded lines, each with a line feed; a line that has no encoding is left out.
  abbrev pub text_of : List J → Str
  text_of [] = []
  text_of (line ∷ lines) = line_text (encode line) ++ text_of lines

  module _ (storage : StoragePaths) (source : SourceKey) (today : Str) where
    abbrev path : FilePath
    path = log_file storage source today

    abbrev ready : Writer J encode
    ready = record { current_date = some today; file = some path }

    -- The file is open and has this content.
    record Holds (content : Str) (d : Disk) : Type 0 where
      quiet : IsQuiet d
      file : File
      there : lookup path d.files ≡ some file
      same : file.content ≡ content

    put_file-Holds :
        (content : Str) (d : Disk) → IsQuiet d → Holds content (put_file path content d)
    put_file-Holds content d q = record {
      quiet = q;
      file = record { content = content; modified = d.clock };
      there = lookup-insert path path _ d.files ∙ rw (eq_self path);
      same = refl;
    }

    Holds-again : (b c : Str) (d : Disk) → b ≡ c → Holds b d → Holds c d
    Holds-again b c d e h = record {
      quiet = h.quiet;
      file = h.file;
      there = h.there;
      same = h.same ∙ e;
    }

    write_all-Holds :
        (s content : Str) (d : Disk) → Holds content d → Holds (content ++ s) (write_all path s d).1
    unfolding append_content
    write_all-Holds s content d h =
        let wrote : write_all path s d ≡ (ok tt, put_file path (h.file.content ++ s) d) =
          write_all-IsQuiet path s d h.quiet ∙ rw h.there in
        subst (Holds (content ++ s)) (ap (λ r. r.1) (sym wrote)) (
          Holds-again (h.file.content ++ s) (content ++ s) _ (ap (λ c. c ++ s) h.same)
            (put_file-Holds (h.file.content ++ s) d h.quiet))

    append_line-Holds :
        (o : Option Str) (content : Str) (d : Disk)
        → Holds content d
        → Holds (content ++ line_text o) (append_line J encode (some path) o d)
    unfolding append_line
    append_line-Holds none content d h =
        Holds-again content (content ++ []) d (sym (append-nil content)) h
    append_line-Holds (some s) content d h = write_all-Holds (s ++ (b'\n' ∷ [])) content d h

    write_line-ready :
        (line : J) (d : Disk)
        → write_line J encode storage source today line ready d
          ≡ (ready, append_line J encode (some path) (encode line) d)
    unfolding write_line is_current
    write_line-ready line d = rw (eq_self today)

    -- What a run from `ready` ends with.
    abbrev run_ready : List J → Disk → Writer J encode × Disk
    run_ready lines d = write_lines J encode storage source (map (λ l. (today, l)) lines) ready d

    write_lines-cons :
        (line : J) (lines : List J) (d : Disk)
        → run_ready (line ∷ lines) d
          ≡ run_ready lines (append_line J encode (some path) (encode line) d)
    unfolding write_lines
    write_lines-cons line lines d =
        ap
          (λ (r : Writer J encode × Disk).
            write_lines J encode storage source (map (λ l. (today, l)) lines) r.0 r.1)
          (write_line-ready line d)

    write_lines-ready :
        (lines : List J) (content : Str) (d : Disk)
        → Holds content d
        → ((run_ready lines d).0 ≡ ready) × Holds (content ++ text_of lines) (run_ready lines d).1
    unfolding write_lines
    write_lines-ready [] content d h =
        (refl, Holds-again content (content ++ []) d (sym (append-nil content)) h)
    write_lines-ready (line ∷ lines) content d h =
        let (still, held) =
          write_lines-ready lines (content ++ line_text (encode line)) _
            (append_line-Holds (encode line) content d h) in
        let step = write_lines-cons line lines d in
        (
          ap (λ r. r.0) step ∙ still,
          subst (Holds (content ++ text_of (line ∷ lines))) (ap (λ r. r.1) (sym step)) (
              Holds-again _ _ _ (append_assoc content (line_text (encode line)) (text_of lines))
                held),
        )

    make_parent-IsQuiet :
        (o : Option FilePath) (d : Disk) → IsQuiet d → make_parent J encode o d ≡ (ok tt, d)
    unfolding make_parent raise_io
    make_parent-IsQuiet none d q = refl
    make_parent-IsQuiet (some dir) d q = rw (create_dir_all-IsQuiet dir d q)

    abbrev opened : Disk → Disk
    opened d = touch path (lookup path d.files) d

    open_log_file-IsQuiet :
        (d : Disk) → IsQuiet d → open_log_file J encode storage source today d ≡ (ok path, opened d)
    unfolding open_log_file raise_io
    open_log_file-IsQuiet d q =
        rw (make_parent-IsQuiet (parent path) d q, open_append-IsQuiet path d q)

    touch-Holds :
        (o : Option File) (d : Disk)
        → lookup path d.files ≡ o
        → IsQuiet d
        → Holds (content_of o) (touch path o d)
    unfolding touch
    touch-Holds none d e q = put_file-Holds [] d q
    touch-Holds (some f) d e q = record { quiet = q; file = f; there = e; same = refl }

    abbrev fresh : Writer J encode
    fresh = record { current_date = none; file = none }

    rotate-fresh :
        (d : Disk) → IsQuiet d → rotate J encode storage source today fresh d ≡ (ready, opened d)
    unfolding rotate flush_file opened_at
    rotate-fresh d q = rw (open_log_file-IsQuiet d q)

    write_line-fresh :
        (line : J) (d : Disk)
        → IsQuiet d
        → write_line J encode storage source today line fresh d
          ≡ write_line J encode storage source today line ready (opened d)
    unfolding write_line is_current
    write_line-fresh line d q = rw (rotate-fresh d q, eq_self today)

    flush-IsQuiet :
        (o : Option FilePath) (d : Disk) → IsQuiet d → flush_file J encode o d ≡ (ok tt, d)
    unfolding flush_file
    flush-IsQuiet none d q = refl
    flush-IsQuiet (some p) d q = rw (sync_file-IsQuiet p d q, sync_file-IsQuiet p d q)

    run_fresh : List J → Disk → Writer J encode × Disk
    run_fresh lines d = write_lines J encode storage source (map (λ l. (today, l)) lines) fresh d

    run_fresh-cons :
        (line : J) (lines : List J) (d : Disk)
        → IsQuiet d
        → run_fresh (line ∷ lines) d ≡ run_ready (line ∷ lines) (opened d)
    unfolding write_lines run_fresh
    run_fresh-cons line lines d q =
        ap
          (λ (r : Writer J encode × Disk).
            write_lines J encode storage source (map (λ l. (today, l)) lines) r.0 r.1)
          (write_line-fresh line d q)

    content_at-Holds : (content : Str) (d : Disk) → Holds content d → content_at path d ≡ content
    content_at-Holds content d h = ap content_of h.there ∙ h.same

    writer_loop-run :
        (lines : List J) (d : Disk)
        → writer_loop J encode storage source (map (λ l. (today, l)) lines) d
          ≡ (flush_file J encode (run_fresh lines d).0.file (run_fresh lines d).1).1
    unfolding writer_loop run_fresh
    writer_loop-run lines d = refl

    -- On a disk that nobody else touches and that does not fail, a writer that takes its lines on one
    -- day leaves in the file of the day what was there before, followed by the encoded lines in their
    -- order, each with a line feed.
    pub writer_loop-appends :
        (lines : List J) (d : Disk)
        → IsQuiet d
        → content_at path (writer_loop J encode storage source (map (λ l. (today, l)) lines) d)
          ≡ content_at path d ++ text_of lines
    unfolding writer_loop write_lines flush_file
    writer_loop-appends [] d q = sym (append-nil (content_at path d))
    writer_loop-appends (line ∷ lines) d q =
        let content = content_at path d ++ text_of (line ∷ lines) in
        let held : Holds content (run_ready (line ∷ lines) (opened d)).1 =
          (write_lines-ready (line ∷ lines) (content_at path d) (opened d)
            (touch-Holds (lookup path d.files) d refl q)).1 in
        let held' : Holds content (run_fresh (line ∷ lines) d).1 =
          subst (Holds content) (ap (λ r. r.1) (sym (run_fresh-cons line lines d q))) held in
        let flushed =
          flush-IsQuiet (run_fresh (line ∷ lines) d).0.file (run_fresh (line ∷ lines) d).1
            held'.quiet in
        ap (content_at path) (writer_loop-run (line ∷ lines) d ∙ ap (λ r. r.1) flushed)
        ∙ content_at-Holds content _ held'
