-- ===== src/Client/PanicHook/Entries.antt =====
-- crates/detritus-client/src/panic_hook.rs: the entry that `write_pending_crash` makes.
use mathlib.Core.Path.{subst}
use rs_detritus.Common.{
  ℕ, Str, Option, none, some, List, [], ◌∷◌, bytes, Result, ok, lift, ok_or, ◌>>=◌, ◌≡◌, refl, sym,
  ap, ◌∙◌, nat_eq, list_eq, list_beq,
}
use rs_detritus.Common.Table.{Table, lookup, insert, lookup-insert}
use rs_detritus.FilePath.{FilePath}
use rs_detritus.Storage.{IoError, other_io}
use rs_detritus.Protocol.{CrashMetadata, CrashEnvelope, new_crash_metadata}
use rs_detritus.Client.{ClientLibraries}
use rs_detritus.Client.Spool.{Entry, Spool, SpoolIo, create_pending, write_pending}
use rs_detritus.Client.Spool.Working.{
  Returns, Returns-bind, HasFiles, create_pending-HasFiles, write_pending-HasFiles,
}
use rs_detritus.Client.Shipper.Delivery.{Holds, AreAttached}
use rs_detritus.Client.PanicHook.{
  PanicHookConfig, PanicInfo, panic_text, panic_crash_kind, from_config, config_manifest,
  write_artifacts, copy_context_files, write_pending_crash,
}
use rs_detritus.Client.PanicHook.Context.{
  context_manifests, context_attachments, with_context, paths_of, AreThere, IsFree, AreApart,
  AreCopied, copy_context_files-Returns, AreCopied-insert, AreCopied-with_context,
  AreCopied-AreAttached,
}

module _ (C : ClientLibraries) (show : ℕ → Str) (to_str : Str → Option Str) where
  -- The files of an entry, the artifacts over the context.
  abbrev with_artifacts : Str → Str → Str → Table Str Str → Table Str Str
  with_artifacts text dump stored files =
      insert (bytes "sdk-config.json") stored
        (insert (bytes "dump.bin") dump (insert (bytes "metadata.json") text files))

  lift-Returns :
      {A B : Type 0} (o : Option A) (a : A) (b : B) (Q : Spool → Type 0) (f : A → SpoolIo B)
      (s : Spool)
      → o ≡ some a
      → Returns b Q (f a s)
      → Returns b Q ((lift (ok_or other_io o) >>= f) s)
  lift-Returns o a b Q f s e h = rw e h

  write_artifacts-Returns :
      (config : PanicHookConfig C) (dir text stored : Str) (metadata : CrashMetadata C.Json)
      (dump : Str) (outside : Table FilePath Str) (files : Table Str Str) (s : Spool)
      → C.pretty_metadata metadata ≡ some text
      → C.pretty_stored_config (from_config C show to_str config) ≡ some stored
      → HasFiles dir outside files s
      → Returns tt
          (HasFiles dir outside (with_artifacts text dump stored files))
          (write_artifacts C show to_str config dir metadata dump s)
  unfolding write_artifacts
  write_artifacts-Returns config dir text stored metadata dump outside files s e e' h =
      let one = insert (bytes "metadata.json") text files in
      let two = insert (bytes "dump.bin") dump one in
      lift-Returns (C.pretty_metadata metadata) text tt _ _ s e (
        Returns-bind tt tt (HasFiles dir outside one) _
          (write_pending dir (bytes "metadata.json") text) _ s
          (write_pending-HasFiles dir outside files (bytes "metadata.json") text s h)
          λ t k.
            Returns-bind tt tt (HasFiles dir outside two) _
              (write_pending dir (bytes "dump.bin") dump) _ t
              (write_pending-HasFiles dir outside one (bytes "dump.bin") dump t k)
              λ u k'.
                lift-Returns (C.pretty_stored_config (from_config C show to_str config)) stored tt _
                  _ u e'
                  (write_pending-HasFiles dir outside two (bytes "sdk-config.json") stored u k'))

  -- The envelope of a panic: the text, the stored configuration and the context.
  abbrev pub panic_envelope :
      PanicHookConfig C → PanicInfo → ℕ → List (FilePath × Str) → Str → Str → CrashEnvelope C.Json
  panic_envelope config info now context dump stored = record {
    metadata =
        record (new_crash_metadata config.source now (panic_crash_kind config.kind) config.build
          config.context) {
            panic_text = some (panic_text C show to_str info);
            attachments =
                config_manifest C show to_str config ∷ context_manifests C show to_str 0 context;
          };
    dump = dump;
    attachments =
        record { key = bytes "sdk-config"; content_type = bytes "application/json"; bytes = stored }
        ∷ context_attachments C show to_str 0 context;
  }

  -- The context of a panic is there, and is copied to names of its own.
  pub record IsUsable (outside : Table FilePath Str) (context : List (FilePath × Str))
      : Type 0 where
    pub there : AreThere C show to_str outside context
    pub apart : AreApart C show to_str 0 context
    pub not_metadata : IsFree C show to_str (bytes "metadata.json") 0 context
    pub not_dump : IsFree C show to_str (bytes "dump.bin") 0 context
    pub not_config : IsFree C show to_str (bytes "sdk-config.json") 0 context

  module _ (config : PanicHookConfig C) (info : PanicInfo) (now : ℕ)
      (context : List (FilePath × Str)) (dump stored text : Str) where
    abbrev envelope : CrashEnvelope C.Json
    envelope = panic_envelope config info now context dump stored

    abbrev final_files : Table Str Str
    final_files = with_artifacts text dump stored (with_context C show to_str 0 context [])

    final_AreCopied :
        (outside : Table FilePath Str)
        → IsUsable outside context
        → AreCopied C show to_str 0 context final_files
    final_AreCopied outside usable =
        let files = with_context C show to_str 0 context [] in
        let one = insert (bytes "metadata.json") text files in
        let two = insert (bytes "dump.bin") dump one in
        AreCopied-insert C show to_str (bytes "sdk-config.json") stored 0 context two
          usable.not_config
          (AreCopied-insert C show to_str (bytes "dump.bin") dump 0 context one usable.not_dump (
            AreCopied-insert C show to_str (bytes "metadata.json") text 0 context files
              usable.not_metadata (AreCopied-with_context C show to_str 0 context [] usable.apart)))

    final-Holds :
        (dir : Str) (outside : Table FilePath Str) (s : Spool)
        → C.parse_metadata text ≡ some envelope.metadata
        → IsUsable outside context
        → (h : HasFiles dir outside final_files s) → Holds C h.entry envelope
    unfolding config_manifest bytes list_beq
    final-Holds dir outside s parsed usable h =
        let files = with_context C show to_str 0 context [] in
        let one = insert (bytes "metadata.json") text files in
        let two = insert (bytes "dump.bin") dump one in
        record {
          text = text;
          stored =
              ap (lookup (bytes "metadata.json")) h.content
              ∙ lookup-insert (bytes "sdk-config.json") (bytes "metadata.json") stored two
              ∙ lookup-insert (bytes "dump.bin") (bytes "metadata.json") dump one
              ∙ lookup-insert (bytes "metadata.json") (bytes "metadata.json") text files;
          metadata = parsed;
          dump =
              ap (lookup (bytes "dump.bin")) h.content
              ∙ lookup-insert (bytes "sdk-config.json") (bytes "dump.bin") stored two
              ∙ lookup-insert (bytes "dump.bin") (bytes "dump.bin") dump one;
          attachments =
              subst (λ fs. AreAttached fs envelope.metadata.attachments envelope.attachments)
                (sym h.content)
                (
                  _ ∷ [],
                  context_attachments C show to_str 0 context,
                  (
                    stored,
                    lookup-insert (bytes "sdk-config.json") (bytes "sdk-config.json") stored two,
                    refl,
                  ),
                  AreCopied-AreAttached C show to_str 0 context final_files
                      (final_AreCopied outside usable),
                  refl,
                );
        }

    -- On a disk that works, for a UUID that names no entry, where the bundle of the panic is made, serde
    -- writes and reads back the metadata and writes the stored configuration, and the context files are
    -- there and have names that differ from each other and from those of the artifacts: the hook
    -- succeeds, and the entry that it makes holds the envelope of the panic: its metadata, the bundle as
    -- the dump, and the stored configuration and every context file as the attachments, in the order of
    -- the metadata and under the file names, keys and content types that it gives. The lengths that the
    -- metadata declares are not compared with those of the files.
    pub write_pending_crash-Holds :
        (tarball : Str → Result IoError Str) (dir : Str) (s : Spool)
        → s.events ≡ []
        → lookup dir s.pending ≡ none
        → tarball (panic_text C show to_str info) ≡ ok dump
        → C.pretty_metadata envelope.metadata ≡ some text
        → C.parse_metadata text ≡ some envelope.metadata
        → C.pretty_stored_config (from_config C show to_str config) ≡ some stored
        → config.context_files ≡ paths_of C show to_str context
        → IsUsable s.outside context
        → Returns tt
            (λ t. (entry : Entry) × (lookup dir t.pending ≡ some entry) × Holds C entry envelope)
            (write_pending_crash C show to_str tarball config info dir now s)
    unfolding write_pending_crash
    write_pending_crash-Holds tarball dir s quiet fresh bundled pretty parsed kept paths usable =
        let files = with_context C show to_str 0 context [] in
        Returns-bind tt tt (HasFiles dir s.outside []) _ (create_pending dir) _ s
          (create_pending-HasFiles dir s.outside s quiet refl fresh)
          λ t h. rw bundled (
            Returns-bind (context_manifests C show to_str 0 context) tt
              (HasFiles dir s.outside files) _
              (copy_context_files C show to_str 0 config.context_files dir) _ t
              (subst
                (λ ps.
                  Returns (context_manifests C show to_str 0 context) (HasFiles dir s.outside files)
                    (copy_context_files C show to_str 0 ps dir t))
                (sym paths)
                (copy_context_files-Returns C show to_str dir s.outside 0 context [] t usable.there
                  h))
              λ u k. finished (
                write_artifacts-Returns config dir text stored envelope.metadata dump s.outside
                  files u pretty kept k))
      where
        finished :
            {r : Result IoError (Unit {0}) × Spool}
            → Returns tt (HasFiles dir s.outside final_files) r
            → Returns tt
                (λ t.
                  (entry : Entry) × (lookup dir t.pending ≡ some entry) × Holds C entry envelope)
                r
        finished {r} h = record {
          value = h.value;
          after =
              (h.after.entry, h.after.there, final-Holds dir s.outside r.1 parsed usable h.after);
        }
