-- ===== src/Client/Shipper/Delivery/Reading.antt =====
-- Reading an entry leaves all as it is, and gives what the entry holds.
use rs_detritus.Common.{
  Str, Option, none, some, List, [], ◌∷◌, bytes, Result, ok, err, panic, map_err, ok_or, ◌≡◌, refl,
  sym, ◌∙◌, ap, nat_eq, list_eq,
}
use rs_detritus.Common.Ends.{
  Ends, Ends-ok, Ends-err, Ends-bind, Ends-weaken, lift-bind-Ends, ok_or-runs, ok_or-some,
}
use rs_detritus.Common.Table.{Table, lookup}
use rs_detritus.Storage.{IoError}
use rs_detritus.Protocol.{AttachmentManifest}
use rs_detritus.Client.{ClientLibraries}
use rs_detritus.Client.Spool.{Entry, Spool, SpoolIo, read_pending, file_of}
use rs_detritus.Client.Spool.Kept.{Keeps, read_pending-Ends}
use rs_detritus.Client.Upload.{io, json, Reply, Request, World, on_spool}
use rs_detritus.Client.Shipper.{read_attachment, read_attachments, read_envelope}
use rs_detritus.Client.Shipper.Delivery.{IsAttached, AreAttached, Holds, Untouched}

module _ (C : ClientLibraries) (p : Table Str Entry) (xs : List (Request C × Reply)) where
  abbrev Still : World C → Type 0
  Still = Untouched C p xs

  pub on_spool-Ends :
      {A : Type 0} (Q : A → Spool → Type 0) (m : SpoolIo A) (w : World C)
      → Ends (Keeps p) Q (m w.spool)
      → Still w
      → Ends Still (λ a t. Q a t.spool) (on_spool C m w)
  unfolding on_spool
  on_spool-Ends Q m w h u = let (r, s) = m w.spool in settle r s h
    where
      settle :
          (r : Result IoError _) (s : Spool)
          → Ends (Keeps p) Q (r, s)
          → Ends Still (λ a t. Q a t.spool) (map_err io r, record w { spool = s })
      settle (ok a) s h' = Ends-ok a _ (h'.kept, u.1) (h'.returned a refl)
      settle (err e) s h' = Ends-err (io e) _ (h'.kept, u.1)
      settle panic s h' = absurd (h'.runs refl)

  module _ (name : Str) (entry : Entry) (is_there : lookup name p ≡ some entry) where
    read_file-Ends :
        (file : Str) (w : World C)
        → Still w
        → Ends Still
            (λ a _. lookup file entry.files ≡ some a)
            (on_spool C (read_pending name file) w)
    read_file-Ends file w u =
        Ends-weaken (λ a _. file_of (lookup name p) file ≡ some a) _ _
          (λ a t found. sym (ap (λ o. file_of o file) is_there) ∙ found)
          (on_spool-Ends _ (read_pending name file) w (read_pending-Ends p name file w.spool u.0) u)

    read_attachment-Ends :
        (manifest : AttachmentManifest) (filename : Option Str) (w : World C)
        → Still w
        → Ends Still
            (λ found _. IsAttached entry.files manifest filename found)
            (read_attachment C name manifest filename w)
    unfolding read_attachment
    read_attachment-Ends manifest none w u = Ends-ok [] w u refl
    read_attachment-Ends manifest (some filename) w u =
        Ends-bind (λ a _. lookup filename entry.files ≡ some a) _
          (on_spool C (read_pending name filename)) _ w (read_file-Ends filename w u)
          (λ contents t u' found. Ends-ok _ t u' (contents, found, refl))

    read_attachments-Ends :
        (manifests : List AttachmentManifest) (w : World C)
        → Still w
        → Ends Still
            (λ attachments _. AreAttached entry.files manifests attachments)
            (read_attachments C name manifests w)
    unfolding read_attachments
    read_attachments-Ends [] w u = Ends-ok [] w u refl
    read_attachments-Ends (manifest ∷ rest) w u =
        Ends-bind (λ found _. IsAttached entry.files manifest manifest.filename found) _
          (read_attachment C name manifest manifest.filename) _ w
          (read_attachment-Ends manifest manifest.filename w u)
          λ found t u' h.
            Ends-bind (λ others _. AreAttached entry.files rest others) _
              (read_attachments C name rest) _ t (read_attachments-Ends rest t u')
              λ others t' u'' h'. Ends-ok _ t' u'' (found, others, h, h', refl)

    pub read_envelope-Ends :
        (w : World C)
        → Still w
        → Ends Still (λ envelope _. Holds C entry envelope) (read_envelope C name w)
    unfolding read_envelope
    read_envelope-Ends w u =
        Ends-bind (λ a _. lookup (bytes "metadata.json") entry.files ≡ some a) _
          (on_spool C (read_pending name (bytes "metadata.json"))) _ w
          (read_file-Ends (bytes "metadata.json") w u)
          λ text t u' stored.
            lift-bind-Ends _ (ok_or json (C.parse_metadata text)) _ t
              (ok_or-runs json (C.parse_metadata text)) u'
              λ metadata parsed.
                Ends-bind (λ a _. lookup (bytes "dump.bin") entry.files ≡ some a) _
                  (on_spool C (read_pending name (bytes "dump.bin"))) _ t
                  (read_file-Ends (bytes "dump.bin") t u')
                  λ dump t' u'' dumped.
                    Ends-bind (λ others _. AreAttached entry.files metadata.attachments others) _
                      (read_attachments C name metadata.attachments) _ t'
                      (read_attachments-Ends metadata.attachments t' u'')
                      λ attachments t'' v h. Ends-ok _ t'' v (record {
                        text = text;
                        stored = stored;
                        metadata = ok_or-some json (C.parse_metadata text) parsed;
                        dump = dumped;
                        attachments = h;
                      })
