-- ===== src/Client/Shipper/Delivery/Posting.antt =====
-- A post that succeeds was answered by the server.
use mathlib.Core.List.{append_assoc}
use rs_detritus.Common.{
  ℕ, Str, Bool, true, false, List, [], ◌∷◌, ◌++◌, bytes, ok, err, lift, ◌≡◌, refl, ◌∙◌, ap, IsIn,
  nat_eq, list_eq, if◌then◌else◌,
}
use rs_detritus.Common.Ends.{
  Ends, Ends-ok, Ends-err, Ends-bind, Ends-keep, lift-bind-Ends, choice-runs, choice-ok,
}
use rs_detritus.Common.Table.{Table}
use rs_detritus.Protocol.{CrashEnvelope}
use rs_detritus.Client.{ClientLibraries}
use rs_detritus.Client.Spool.{Entry}
use rs_detritus.Client.Upload.{
  ShipConfig, Reply, unreachable, answered, Request, World, upload_body, is_success, judge_reply,
  next_reply, later_replies, http, status, invalid_token, send, bearer, crash_url, post_envelope,
}
use rs_detritus.Client.Upload.Runs.{ClientLaws, upload_body-runs}
use rs_detritus.Client.Shipper.Delivery.{IsAccepted, Untouched}

module _ (C : ClientLibraries) (p : Table Str Entry) (xs : List (Request C × Reply)) where
  abbrev Still : World C → Type 0
  Still = Untouched C p xs

  module _ (token : Str) (config : ShipConfig) where
    -- The answer to a request is on record.
    send-Ends :
        (request : Request C) (w : World C)
        → Still w
        → Ends Still (λ reply t. Still t × IsIn (request, reply) t.exchanged) (send C request w)
    unfolding send
    send-Ends request w u =
        let (more, e) = u.1 in
        let exchange : Request C × Reply = (request, next_reply w.replies) in
        let longer : w.exchanged ++ (exchange ∷ []) ≡ xs ++ (more ++ (exchange ∷ [])) =
          ap (λ ys. ys ++ (exchange ∷ [])) e ∙ append_assoc xs more (exchange ∷ []) in
        let kept : Still (record w {
          replies = later_replies w.replies;
          exchanged = w.exchanged ++ (exchange ∷ []);
        }) =
          (u.0, (more ++ (exchange ∷ []), longer)) in
        Ends-ok _ _ kept (kept, (w.exchanged, [], refl))

    module _ (envelope : CrashEnvelope C.Json) (request : Request C) where
      answer-Ends :
          (code : ℕ) (success drained : Bool) (t : World C)
          → upload_body C config envelope ≡ ok request.body
          → request.authorization ≡ bytes "Bearer " ++ token
          → is_success code ≡ success
          → IsIn (request, answered code drained) t.exchanged
          → Still t
          → Ends Still
              (λ _ t'. IsAccepted C token config request.url envelope t'.exchanged)
              ((if success then (if drained then ok tt else err http) else err (status code)), t)
      answer-Ends code true true t made allowed s sent u = Ends-ok tt t u (record {
        request = request;
        code = code;
        addressed = refl;
        carries = made;
        authorized = allowed;
        success = s;
        answer = sent;
      })
      answer-Ends code true false t made allowed s sent u = Ends-err http t u
      answer-Ends code false drained t made allowed s sent u = Ends-err (status code) t u

      judge_reply-Ends :
          (reply : Reply) (t : World C)
          → upload_body C config envelope ≡ ok request.body
          → request.authorization ≡ bytes "Bearer " ++ token
          → IsIn (request, reply) t.exchanged
          → Still t
          → Ends Still
              (λ _ t'. IsAccepted C token config request.url envelope t'.exchanged)
              (lift (judge_reply reply) t)
      unfolding judge_reply
      judge_reply-Ends unreachable t made allowed sent u = Ends-err http t u
      judge_reply-Ends (answered code drained) t made allowed sent u =
          answer-Ends code (is_success code) drained t made allowed refl sent u

    module _ (laws : ClientLaws C) (endpoint : C.Url) where
      pub post_envelope-Ends :
          (envelope : CrashEnvelope C.Json) (w : World C)
          → Still w
          → Ends Still
              (λ _ t.
                Still t × IsAccepted C token config (crash_url C endpoint) envelope t.exchanged)
              (post_envelope C endpoint token envelope config w)
      unfolding post_envelope bearer
      post_envelope-Ends envelope w u =
          let value = bytes "Bearer " ++ token in
          let authorization = if C.is_header_value value then ok value else err invalid_token in
          lift-bind-Ends _ (upload_body C config envelope) _ w
            (upload_body-runs C laws config envelope) u
            λ body made.
              lift-bind-Ends _ authorization _ w (choice-runs _ value invalid_token) u
                λ header allowed.
                  Ends-bind (λ reply t. Still t × IsIn (_, reply) t.exchanged) _ (send C _) _ w
                    (send-Ends _ w u)
                    λ reply t u' sent. Ends-keep (
                      judge_reply-Ends envelope _ reply t made
                        (choice-ok _ value invalid_token allowed) sent.1 u')
