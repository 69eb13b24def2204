-- ===== src/Client/PanicHook/Context.antt =====
-- The context files of a crash: where they are copied to, and that the manifests find them there.
use rs_detritus.Common.{
  ℕ, suc, Str, false, Option, some, List, [], ◌∷◌, ◌++◌, bytes, length, ◌≡◌, refl, ◌∙◌, nat_eq,
  list_eq, eq_self, differs_sym, ◌==◌,
}
use rs_detritus.Common.Table.{Table, lookup, insert, lookup-insert}
use rs_detritus.FilePath.{FilePath}
use rs_detritus.Protocol.{AttachmentManifest, CrashAttachment}
use rs_detritus.Client.{ClientLibraries}
use rs_detritus.Client.Spool.{Spool, read_outside, write_pending}
use rs_detritus.Client.Spool.Working.{
  Returns, Returns-bind, HasFiles, read_outside-HasFiles, write_pending-HasFiles,
}
use rs_detritus.Client.Shipper.Delivery.{AreAttached}
use rs_detritus.Client.PanicHook.{context_name, copy_context_file, copy_context_files}

module _ (C : ClientLibraries) (show : ℕ → Str) (to_str : Str → Option Str) where
  abbrev name_of : ℕ → FilePath → Str
  name_of = context_name C show to_str

  abbrev pub context_manifest : ℕ → FilePath → Str → AttachmentManifest
  context_manifest index path contents = record {
    key = bytes "context-" ++ show index;
    filename = some (name_of index path);
    content_type = bytes "application/json";
    len = length contents;
  }

  abbrev pub context_manifests : ℕ → List (FilePath × Str) → List AttachmentManifest
  context_manifests index [] = []
  context_manifests index ((path, contents) ∷ rest) =
      context_manifest index path contents ∷ context_manifests (suc index) rest

  abbrev pub context_attachments : ℕ → List (FilePath × Str) → List CrashAttachment
  context_attachments index [] = []
  context_attachments index ((path, contents) ∷ rest) =
      record {
        key = bytes "context-" ++ show index;
        content_type = bytes "application/json";
        bytes = contents;
      }
      ∷ context_attachments (suc index) rest

  -- The files of an entry once these are copied into it.
  abbrev pub with_context : ℕ → List (FilePath × Str) → Table Str Str → Table Str Str
  with_context index [] files = files
  with_context index ((path, contents) ∷ rest) files =
      with_context (suc index) rest (insert (name_of index path) contents files)

  abbrev pub paths_of : List (FilePath × Str) → List FilePath
  paths_of [] = []
  paths_of ((path, contents) ∷ rest) = path ∷ paths_of rest

  -- The files are there, with these contents.
  abbrev pub AreThere : Table FilePath Str → List (FilePath × Str) → Type 0
  AreThere outside [] = Unit
  AreThere outside ((path, contents) ∷ rest) =
      (lookup path outside ≡ some contents) × AreThere outside rest

  -- None of the files is copied to this name.
  abbrev pub IsFree : Str → ℕ → List (FilePath × Str) → Type 0
  IsFree name index [] = Unit
  IsFree name index ((path, contents) ∷ rest) =
      ((name_of index path == name) ≡ false) × IsFree name (suc index) rest

  -- No two are copied to one name.
  abbrev pub AreApart : ℕ → List (FilePath × Str) → Type 0
  AreApart index [] = Unit
  AreApart index ((path, contents) ∷ rest) =
      IsFree (name_of index path) (suc index) rest × AreApart (suc index) rest

  -- These files hold the copies.
  abbrev pub AreCopied : ℕ → List (FilePath × Str) → Table Str Str → Type 0
  AreCopied index [] files = Unit
  AreCopied index ((path, contents) ∷ rest) files =
      (lookup (name_of index path) files ≡ some contents) × AreCopied (suc index) rest files

  pub copy_context_files-Returns :
      (dir : Str) (outside : Table FilePath Str) (index : ℕ) (context : List (FilePath × Str))
      (files : Table Str Str) (s : Spool)
      → AreThere outside context
      → HasFiles dir outside files s
      → Returns
          (context_manifests index context)
          (HasFiles dir outside (with_context index context files))
          (copy_context_files C show to_str index (paths_of context) dir s)
  unfolding copy_context_files copy_context_file
  copy_context_files-Returns dir outside index [] files s there h = record {
    value = refl;
    after = h;
  }
  copy_context_files-Returns dir outside index ((path, contents) ∷ rest) files s there h =
      let files' = insert (name_of index path) contents files in
      Returns-bind (context_manifest index path contents) _ (HasFiles dir outside files') _
        (copy_context_file C show to_str index path dir) _ s
        (Returns-bind contents _ (HasFiles dir outside files) _ (read_outside path) _ s
          (read_outside-HasFiles dir outside files path contents s there.0 h)
          λ t h'.
            Returns-bind tt _ (HasFiles dir outside files') _
              (write_pending dir (name_of index path) contents) _ t
              (write_pending-HasFiles dir outside files (name_of index path) contents t h')
              (λ u h''. record { value = refl; after = h'' }))
        λ t h'.
          Returns-bind (context_manifests (suc index) rest) _
            (HasFiles dir outside (with_context (suc index) rest files')) _
            (copy_context_files C show to_str (suc index) (paths_of rest) dir) _ t
            (copy_context_files-Returns dir outside (suc index) rest files' t there.1 h')
            (λ u h''. record { value = refl; after = h'' })

  lookup-with_context :
      (name : Str) (index : ℕ) (context : List (FilePath × Str)) (files : Table Str Str)
      → IsFree name index context
      → lookup name (with_context index context files) ≡ lookup name files
  lookup-with_context name index [] files free = refl
  lookup-with_context name index ((path, contents) ∷ rest) files free =
      lookup-with_context name (suc index) rest (insert (name_of index path) contents files) free.1
      ∙ lookup-insert (name_of index path) name contents files
      ∙ (rw free.0 refl)

  pub AreCopied-insert :
      (name value : Str) (index : ℕ) (context : List (FilePath × Str)) (files : Table Str Str)
      → IsFree name index context
      → AreCopied index context files
      → AreCopied index context (insert name value files)
  AreCopied-insert name value index [] files free h = tt
  AreCopied-insert name value index ((path, contents) ∷ rest) files free h = (
    lookup-insert name (name_of index path) value files
        ∙ (rw (differs_sym (name_of index path) name free.0) h.0),
    AreCopied-insert name value (suc index) rest files free.1 h.1,
  )

  pub AreCopied-with_context :
      (index : ℕ) (context : List (FilePath × Str)) (files : Table Str Str)
      → AreApart index context
      → AreCopied index context (with_context index context files)
  AreCopied-with_context index [] files apart = tt
  AreCopied-with_context index ((path, contents) ∷ rest) files apart = (
    lookup-with_context (name_of index path) (suc index) rest
          (insert (name_of index path) contents files) apart.0
        ∙ lookup-insert (name_of index path) (name_of index path) contents files
        ∙ (rw (eq_self (name_of index path)) refl),
    AreCopied-with_context (suc index) rest (insert (name_of index path) contents files) apart.1,
  )

  pub AreCopied-AreAttached :
      (index : ℕ) (context : List (FilePath × Str)) (files : Table Str Str)
      → AreCopied index context files
      → AreAttached files (context_manifests index context) (context_attachments index context)
  AreCopied-AreAttached index [] files h = refl
  AreCopied-AreAttached index ((path, contents) ∷ rest) files h = (
    _ ∷ [],
    context_attachments (suc index) rest,
    (contents, h.0, refl),
    AreCopied-AreAttached (suc index) rest files h.1,
    refl,
  )
