-- ===== src/Crashes/Handler/Safety.antt =====
-- The whole upload keeps the store of blobs addressed by content.
use rs_detritus.Common.{
  Str, Bool, true, false, Option, none, some, List, [], ◌∷◌, bytes, nat_eq, list_eq, if◌then◌else◌,
  Action, pure, sym,
}
use rs_detritus.Common.Ends.{Ends, Ends-ok, Ends-err, Ends-bind, Ends-weaken, lift-bind-Ends}
use rs_detritus.Storage.{SourceKey}
use rs_detritus.Storage.Sources.{IsSource, new_source_key-IsSource}
use rs_detritus.Storage.Layout.{IsDigest}
use rs_detritus.Disk.{Disk}
use rs_detritus.Auth.{TokenContext}
use rs_detritus.Metrics.{Metrics, observe_bytes, observe_dedup_hit}
use rs_detritus.Protocol.{CrashMetadata}
use rs_detritus.Crashes.{
  BlobPointer, AttachmentPointer, Field, Part, part, broken_part, CrashError, multipart, Libraries,
}
use mathlib.Core.Path.{subst}
use rs_detritus.Crashes.Laws.{LibraryLaws}
use rs_detritus.Crashes.Handler.Gate.{admit-Ends, open_upload-runs}
use rs_detritus.Crashes.Blobs.{write_part_to_blob, write_index}
use rs_detritus.Crashes.Blobs.Addressed.{IsAddressed}
use rs_detritus.Crashes.Blobs.Parts.{PointsTo, write_part_to_blob-Ends, write_index-Ends}
use rs_detritus.Crashes.Handler.{
  Upload, World, Config, on_disk, on_metrics, draw_uuid, admit, store_part, Collected,
  collect_parts, take_part, take_named, serve_purpose, finish, open_upload, crashes_inner, purpose,
  Purpose, metadata_again, dump_again, dump_part, attachment, unexpected,
}

module _ (L : Libraries) (laws : LibraryLaws L) (config : Config L) where
  abbrev pub IsSafe : World L → Type 0
  IsSafe w = IsAddressed L config.storage w.disk

  abbrev pub NoClaim : {A : Type 0} → A → World L → Type 0
  NoClaim a w = Unit

  on_disk-Ends :
      {A : Type 0} (Q : A → Disk → Type 0) (m : Action Disk CrashError A) (w : World L)
      → Ends (IsAddressed L config.storage) Q (m w.disk)
      → Ends IsSafe (λ a w'. Q a w'.disk) (on_disk L m w)
  unfolding on_disk
  on_disk-Ends Q m w h = record { kept = h.kept; returned = h.returned; runs = h.runs }

  on_metrics-Ends :
      (f : Metrics → Metrics) (w : World L) → IsSafe w → Ends IsSafe NoClaim (on_metrics L f w)
  unfolding on_metrics
  on_metrics-Ends f w h = Ends-ok tt _ h tt

  -- What the end of the handler needs to know of the dump.
  abbrev pub HasDigest : BlobPointer → Type 0
  HasDigest pointer = IsDigest pointer.sha256

  store_part-Ends :
      (field : Field) (w : World L)
      → IsSafe w
      → Ends IsSafe (λ pointer _. HasDigest pointer) (store_part L config field w)
  unfolding store_part draw_uuid
  store_part-Ends field w h =
      Ends-weaken _ _ _ (λ pointer w' q. rw (q.sha256) (laws.digest-IsDigest q.content))
        (on_disk-Ends (λ pointer _. PointsTo L config.max_dump_bytes field pointer)
          (write_part_to_blob L config.storage (L.uuid w.uuids) field config.max_dump_bytes) _
          (write_part_to_blob-Ends L laws config.storage (L.uuid w.uuids) field
            config.max_dump_bytes w.disk (laws.uuid-NoSlash w.uuids) h))

  abbrev DumpKnown : Option BlobPointer → Type 0
  DumpKnown none = Unit
  DumpKnown (some dump) = HasDigest dump

  abbrev Known : Collected L → World L → Type 0
  Known c w = DumpKnown c.0

  serve_purpose-Ends :
      (field : Field) (u : Purpose L) (dump : Option BlobPointer)
      (attachments : List AttachmentPointer) (w : World L)
      → DumpKnown dump
      → IsSafe w
      → Ends IsSafe Known (serve_purpose L config field u dump attachments w)
  unfolding serve_purpose
  serve_purpose-Ends field metadata_again dump attachments w known h = Ends-err _ w h
  serve_purpose-Ends field dump_again dump attachments w known h = Ends-err _ w h
  serve_purpose-Ends field (unexpected name) dump attachments w known h = Ends-err _ w h
  serve_purpose-Ends field dump_part dump attachments w known h =
      Ends-bind (λ pointer _. HasDigest pointer) Known (store_part L config field) _ w
        (store_part-Ends field w h) (λ pointer w' h' q. Ends-ok _ w' h' q)
  serve_purpose-Ends field (attachment key) dump attachments w known h =
      Ends-bind (λ pointer _. HasDigest pointer) Known (store_part L config field) _ w
        (store_part-Ends field w h) (λ pointer w' h' q. Ends-ok _ w' h' known)

  take_named-Ends :
      (field : Field) (name : Option Str) (dump : Option BlobPointer)
      (attachments : List AttachmentPointer) (w : World L)
      → DumpKnown dump
      → IsSafe w
      → Ends IsSafe Known (take_named L config field name dump attachments w)
  unfolding take_named
  take_named-Ends field none dump attachments w known h = Ends-err _ w h
  take_named-Ends field (some name) dump attachments w known h =
      serve_purpose-Ends field (purpose L name dump) dump attachments w known h

  take_part-Ends :
      (field : Field) (dump : Option BlobPointer) (attachments : List AttachmentPointer)
      (w : World L)
      → DumpKnown dump
      → IsSafe w
      → Ends IsSafe Known (take_part L config field dump attachments w)
  unfolding take_part
  take_part-Ends field dump attachments w known h =
      take_named-Ends field field.name dump attachments w known h

  collect_parts-Ends :
      (ps : List Part) (dump : Option BlobPointer) (attachments : List AttachmentPointer)
      (w : World L)
      → DumpKnown dump
      → IsSafe w
      → Ends IsSafe Known (collect_parts L config ps dump attachments w)
  unfolding collect_parts
  collect_parts-Ends [] dump attachments w known h = Ends-ok _ w h known
  collect_parts-Ends (broken_part ∷ ps) dump attachments w known h = Ends-err multipart w h
  collect_parts-Ends (part field ∷ ps) dump attachments w known h =
      Ends-bind Known Known (take_part L config field dump attachments) _ w
        (take_part-Ends field dump attachments w known h)
        (λ c w' h' q. collect_parts-Ends ps c.0 c.1 w' q h')

  dedup-Ends :
      (b : Bool) (w : World L)
      → IsSafe w
      → Ends {E = CrashError} IsSafe NoClaim
          ((if b then on_metrics L observe_dedup_hit else pure tt) w)
  dedup-Ends true w h = on_metrics-Ends observe_dedup_hit w h
  dedup-Ends false w h = Ends-ok tt w h tt

  finish-Ends :
      (source : SourceKey) (metadata : CrashMetadata L.Json) (c : Collected L) (w : World L)
      → IsSource source
      → DumpKnown c.0
      → IsSafe w
      → Ends IsSafe (λ r _. IsDigest r.1.id) (finish L config source metadata c w)
  unfolding finish
  finish-Ends source metadata (none, attachments) w hs known h = Ends-err _ w h
  finish-Ends source metadata (some dump, attachments) w hs known h =
      Ends-bind NoClaim _ (on_metrics L (observe_bytes (bytes "crashes") dump.len)) _ w
        (on_metrics-Ends (observe_bytes (bytes "crashes") dump.len) w h)
        λ _ w1 h1 _.
          Ends-bind NoClaim _ (if dump.dedup then on_metrics L observe_dedup_hit else pure tt) _ w1
            (dedup-Ends dump.dedup w1 h1)
            λ _ w2 h2 _.
              Ends-bind NoClaim _
                (on_disk L (write_index L config.storage source metadata dump attachments)) _ w2
                (on_disk-Ends (λ _ _. Unit)
                  (write_index L config.storage source metadata dump attachments) w2
                  (write_index-Ends L laws config.storage source metadata dump attachments w2.disk
                    hs known h2))
                (λ _ w3 h3 _. Ends-ok _ w3 h3 known)

  admit-IsSafe :
      (token : TokenContext) (metadata : CrashMetadata L.Json) (w : World L)
      → IsSafe w
      → Ends IsSafe (λ source _. IsSource source) (admit L config token metadata w)
  admit-IsSafe token metadata w h =
      let gate = admit-Ends L laws config token metadata w in
      record {
        kept = subst (IsAddressed L config.storage) (sym gate.kept.disk) h;
        returned = λ source e. new_source_key-IsSource _ _ (gate.returned source e).valid;
        runs = gate.runs;
      }

  -- From a disk on which every blob has the content that it is named after, with libraries that
  -- keep `LibraryLaws`, and where other tasks put blobs only where these belong and leave
  -- temporary files alone: however an upload ends, every blob still has the content that it is
  -- named after, and `crashes_inner` does not panic. The identifier that a successful upload
  -- returns is a digest.
  pub crashes_inner-IsSafe :
      (token : TokenContext) (u : Upload) (w : World L)
      → IsSafe w
      → Ends IsSafe (λ r _. IsDigest r.1.id) (crashes_inner L config token u w)
  unfolding crashes_inner
  crashes_inner-IsSafe token u w h =
      lift-bind-Ends _ (open_upload L u) _ w (open_upload-runs L laws config u) h λ opened _.
        Ends-bind (λ source _. IsSource source) _ (admit L config token opened.0) _ w
          (admit-IsSafe token opened.0 w h)
          λ source w1 h1 hs.
            Ends-bind Known _ (collect_parts L config opened.1 none []) _ w1
              (collect_parts-Ends opened.1 none [] w1 tt h1)
              (λ c w2 h2 known. finish-Ends source opened.0 c w2 hs known h2)
