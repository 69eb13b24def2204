-- ===== src/Client/Shipper/Delivery/Served.antt =====
-- crates/detritus-client/src/shipper.rs: `ship_one` where the disk works and the server takes the crash.
use rs_detritus.Common.{
  ℕ, Str, true, Option, none, some, List, [], ◌∷◌, ◌++◌, bytes, ok, ok_or, pure, lift, ◌≡◌, refl,
  sym, ◌∙◌, ap, nat_eq, list_eq, eq_self, if◌then◌else◌, Option-cases, inl, inr, step_on,
}
use rs_detritus.Common.Table.{lookup, insert, remove, lookup-remove, remove-absent}
use rs_detritus.Multipart.{default_boundary}
use rs_detritus.Protocol.{AttachmentManifest, CrashAttachment, CrashEnvelope}
use rs_detritus.Client.{ClientLibraries}
use rs_detritus.Client.Spool.{
  Entry, Spool, SpoolIo, read_pending, exists_sent, remove_sent, rename_to_sent, is_some,
}
use rs_detritus.Client.Spool.Working.{
  read_pending-works, exists_sent-works, remove_sent-works, rename_to_sent-works,
}
use rs_detritus.Client.Upload.{
  crash_url, json, World, ShipConfig, on_spool, Reply, answered, Request, upload_body, is_success,
  judge_reply, next_reply, later_replies, send, bearer, post_envelope,
}
use rs_detritus.Client.Shipper.{read_attachment, read_attachments, read_envelope, ship_one}
use rs_detritus.Client.Shipper.Delivery.{IsAttached, AreAttached, Holds}

module _ (C : ClientLibraries) where
  -- The request that carries a body.
  abbrev pub request_for : C.Url → Str → Str → Request C
  request_for endpoint token body = record {
    url = crash_url C endpoint;
    authorization = bytes "Bearer " ++ token;
    content_type = bytes "multipart/form-data; boundary=" ++ default_boundary;
    body = body;
  }

  -- The world once a request is answered.
  abbrev pub posted : Request C → World C → World C
  posted request w = record w {
    replies = later_replies w.replies;
    exchanged = w.exchanged ++ ((request, next_reply w.replies) ∷ []);
  }

  -- The world once the entry is moved, too: it replaces an older one of its name.
  abbrev pub moved : Str → Entry → Request C → World C → World C
  moved name entry request w = record (posted request w) {
    spool = record w.spool {
      pending = remove name w.spool.pending;
      sent = insert name entry (remove name w.spool.sent);
    };
  }

  pub on_spool-ok :
      {A : Type 0} (m : SpoolIo A) (w : World C) (a : A) (s : Spool)
      → m w.spool ≡ (ok a, s)
      → on_spool C m w ≡ (ok a, record w { spool = s })
  unfolding on_spool
  on_spool-ok m w a s e = rw e refl

  module _ (name : Str) (entry : Entry) (w : World C) (quiet : w.spool.events ≡ [])
      (is_there : lookup name w.spool.pending ≡ some entry) where
    read_file-ok :
        (file contents : Str)
        → lookup file entry.files ≡ some contents
        → on_spool C (read_pending name file) w ≡ (ok contents, w)
    read_file-ok file contents found =
        on_spool-ok (read_pending name file) w contents w.spool
          (read_pending-works name w.spool quiet file contents entry is_there found)

    read_attachment-ok :
        (manifest : AttachmentManifest) (filename : Option Str) (found : List CrashAttachment)
        → IsAttached entry.files manifest filename found
        → read_attachment C name manifest filename w ≡ (ok found, w)
    unfolding read_attachment
    read_attachment-ok manifest none found h = rw h refl
    read_attachment-ok manifest (some filename) found (contents, stored, same) =
        step_on (on_spool C (read_pending name filename)) _ w w contents _
          (read_file-ok filename contents stored) (ap (λ x. (ok x, w)) (sym same))

    read_attachments-ok :
        (manifests : List AttachmentManifest) (attachments : List CrashAttachment)
        → AreAttached entry.files manifests attachments
        → read_attachments C name manifests w ≡ (ok attachments, w)
    unfolding read_attachments
    read_attachments-ok [] attachments h = rw h refl
    read_attachments-ok (manifest ∷ rest) attachments (found, others, h, hs, same) =
        step_on (read_attachment C name manifest manifest.filename) _ w w found _
          (read_attachment-ok manifest manifest.filename found h)
          (step_on (read_attachments C name rest) _ w w others _
            (read_attachments-ok rest others hs) (ap (λ x. (ok x, w)) (sym same)))

    read_envelope-ok :
        (envelope : CrashEnvelope C.Json)
        → Holds C entry envelope
        → read_envelope C name w ≡ (ok envelope, w)
    unfolding read_envelope
    read_envelope-ok envelope h =
        step_on (on_spool C (read_pending name (bytes "metadata.json"))) _ w w h.text _
          (read_file-ok (bytes "metadata.json") h.text h.stored)
          (step_on (lift (ok_or json (C.parse_metadata h.text))) _ w w envelope.metadata _
            (ap (λ o. (ok_or json o, w)) h.metadata)
            (step_on (on_spool C (read_pending name (bytes "dump.bin"))) _ w w envelope.dump _
              (read_file-ok (bytes "dump.bin") envelope.dump h.dump)
              (step_on (read_attachments C name envelope.metadata.attachments) _ w w
                envelope.attachments _
                (read_attachments-ok envelope.metadata.attachments envelope.attachments
                  h.attachments)
                refl)))

    module _ (endpoint : C.Url) (token : Str) (config : ShipConfig)
        (envelope : CrashEnvelope C.Json) (body : Str) (code : ℕ)
        (written : upload_body C config envelope ≡ ok body)
        (in_a_header : C.is_header_value (bytes "Bearer " ++ token) ≡ true)
        (taken : next_reply w.replies ≡ answered code true) (success : is_success code ≡ true) where
      abbrev request : Request C
      request = request_for endpoint token body

      post_envelope-ok :
          post_envelope C endpoint token envelope config w ≡ (ok tt, (posted request w))
      unfolding post_envelope bearer send judge_reply
      post_envelope-ok =
          step_on (lift (upload_body C config envelope)) _ w w body _ (ap (λ r. (r, w)) written) (
            step_on (lift (bearer C token)) _ w w (bytes "Bearer " ++ token) _ (rw in_a_header refl)
              (step_on (send C request) (λ reply. lift (judge_reply reply)) w (posted request w)
                (next_reply w.replies) _ refl (judged taken)))
        where
          judged :
              {reply : Reply}
              → reply ≡ answered code true
              → lift (judge_reply reply) (posted request w) ≡ (ok tt, (posted request w))
          judged e = rw (e, success) refl

      -- The spool without an older entry of the name among those that are sent.
      abbrev cleared : World C
      cleared = record (posted request w) {
        spool = record w.spool { sent = remove name w.spool.sent };
      }

      clear-ok :
          (if is_some (lookup name w.spool.sent) then on_spool C (remove_sent name) else pure tt)
            (posted request w)
          ≡ (ok tt, cleared)
      clear-ok = elim (Option-cases (lookup name w.spool.sent)) [
        | inl absent ↦ rw absent (
            ap (λ t. (ok tt, record (posted request w) { spool = record w.spool { sent = t } }))
              (sym (remove-absent name w.spool.sent absent)))
        | inr (older, found) ↦ rw found (
            on_spool-ok (remove_sent name) (posted request w) tt _
              (remove_sent-works name w.spool quiet))
      ]

      cleared-free : lookup name cleared.spool.sent ≡ none
      cleared-free = lookup-remove name name w.spool.sent ∙ (rw (eq_self name) refl)

      -- On a disk that works, for an entry that holds an envelope whose body can be made, with a token that
      -- a header can carry, where the server answers the next request with a success: `ship_one` posts
      -- one request, that of the body, and moves the entry as it is to those that are sent, in place of
      -- an older one of its name.
      pub ship_one-ok :
          Holds C entry envelope
          → ship_one C name endpoint token config w ≡ (ok tt, moved name entry request w)
      unfolding ship_one
      ship_one-ok h =
          step_on (read_envelope C name) _ w w envelope _ (read_envelope-ok envelope h) (
            step_on (post_envelope C endpoint token envelope config) _ w (posted request w) tt _
              post_envelope-ok
              (step_on (on_spool C (exists_sent name)) _ (posted request w) (posted request w)
                (is_some (lookup name w.spool.sent)) _
                (on_spool-ok (exists_sent name) (posted request w) _ _
                  (exists_sent-works name w.spool quiet))
                (step_on
                  (if is_some (lookup name w.spool.sent)
                    then on_spool C (remove_sent name)
                    else pure tt)
                  _ (posted request w) cleared tt _ clear-ok
                  (on_spool-ok (rename_to_sent name) cleared tt _
                    (rename_to_sent-works name cleared.spool quiet entry is_there cleared-free)))))
