-- ===== src/Examples/Tokens.antt =====
-- The token store with hashes that are the secrets themselves, behind a `#`.
use rs_detritus.Common.{
  ℕ, Str, true, false, none, some, List, [], ◌∷◌, ◌++◌, bytes, ◌==◌, nat_eq, list_eq, map, Result,
  ok, err, ◌≡◌, ◌⊎◌, ◌↔◌, refl, All, IsIn,
}
use rs_detritus.Storage.{canonical}
use rs_detritus.Auth.{
  Argon2, TokenContext, TokenEntry, invalid_hash, to_context, verify, authenticate, from_entries,
  permits, Request, Response, endpoint_label, auth_middleware,
}
use rs_detritus.Auth.Permission.{permits_iff}
use rs_detritus.Auth.Store.{
  Readable, from_entries-Readable, from_entries-malformed, authenticate_first,
}
use rs_detritus.Auth.Middleware.{IsOpen, Carries, auth_middleware_lem}
use rs_detritus.Examples.Sources.{acme}

abbrev read_hash : Str → Result Str Str
read_hash [] = err (bytes "empty")
read_hash (c ∷ s) = ok s

abbrev pub plain : Argon2
plain = record {
  Hash = Str;
  parse_hash = read_hash;
  verify_password = λ presented h. presented == h;
}

abbrev pub writer : TokenEntry
writer = record {
  id = bytes "w";
  secret = bytes "#open";
  project = bytes "acme";
  source_prefix = bytes "acme/";
}

abbrev pub broken : TokenEntry
broken = record {
  id = bytes "b";
  secret = [];
  project = bytes "acme";
  source_prefix = bytes "acme/";
}

writer-Readable : Readable plain writer
unfolding bytes
writer-Readable = (bytes "open", refl)

abbrev count_refusal : Str → Str → ℕ → List Str → List Str
count_refusal endpoint status elapsed s = endpoint ∷ s

abbrev greet : Request → List Str → Response × List Str
greet r s = (record { status = 200; message = [] }, s)

abbrev upload_request : Request
upload_request = record {
  path = bytes "/v1/crashes";
  authorization = some (some (bytes "Bearer open"));
  token = none;
}

abbrev store : List TokenContext
store = map to_context (writer ∷ [])

permits_iff_example : (permits (to_context writer) acme ≡ true) ↔ (
    (acme.project ≡ (to_context writer).project)
    × ((rest : Str) × (canonical acme ≡ (to_context writer).source_prefix ++ rest)))
permits_iff_example = permits_iff (to_context writer) acme

from_entries-Readable_example : from_entries plain (writer ∷ []) ≡ ok (map to_context (writer ∷ []))
from_entries-Readable_example =
    from_entries-Readable plain (writer ∷ []) (writer-Readable, tt) (λ e. cc e)

from_entries-malformed_example :
    from_entries plain ((writer ∷ []) ++ (broken ∷ writer ∷ []))
    ≡ err (invalid_hash broken.id (bytes "empty"))
from_entries-malformed_example =
    from_entries-malformed plain (writer ∷ []) (writer ∷ []) broken (bytes "empty")
      (writer-Readable, tt) refl

authenticate_first_example :
    ((authenticate plain store (bytes "open") ≡ none)
      × All (λ t. verify plain t (bytes "open") ≡ false) store)
    ⊎ ((before : List TokenContext) × (t : TokenContext) × (after : List TokenContext)
        × (authenticate plain store (bytes "open") ≡ some t)
        × (store ≡ before ++ (t ∷ after))
        × (verify plain t (bytes "open") ≡ true)
        × All (λ u. verify plain u (bytes "open") ≡ false) before)
authenticate_first_example = authenticate_first plain store (bytes "open")

auth_middleware_lem_example :
    let served = auth_middleware plain count_refusal store 5 greet upload_request [] in
    (IsOpen (bytes "/v1/crashes") × (served ≡ greet upload_request []))
    ⊎ ((¬ IsOpen (bytes "/v1/crashes"))
        × ((t : TokenContext) × IsIn t store
            × Carries plain upload_request.authorization t
            × (served ≡ greet (record upload_request { token = some t }) [])))
    ⊎ ((¬ IsOpen (bytes "/v1/crashes"))
        × All (λ t. ¬ Carries plain upload_request.authorization t) store
        × ((message : Str) × (served ≡ (
          record { status = 401; message = message },
          count_refusal (endpoint_label (bytes "/v1/crashes")) (bytes "401") 5 [],
        ))))
auth_middleware_lem_example =
    auth_middleware_lem plain count_refusal store 5 greet upload_request []
