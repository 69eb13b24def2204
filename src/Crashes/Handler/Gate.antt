-- ===== src/Crashes/Handler/Gate.antt =====
-- Who may upload: what stands between a request and the first write to the disk.
use rs_detritus.Common.{
  ℕ, Str, true, Option, none, some, List, [], ◌∷◌, ◌++◌, bytes, nat_eq, nat_eqb, nat_eqb_iff,
  list_eq, Result, ok, err, panic, lift, map_err, ok_or, ◌>>=◌, ◌≡◌, refl, ap, sym, ◌∙◌, arith,
  Bool-cases, inl, inr,
}
use rs_detritus.Common.Ends.{
  Ends, Ends-ok, Ends-err, Ends-bind, Ends-weaken, lift-Ends, lift-bind-Ends, guard-bind-Ends,
  and_then-runs, and_then-ok, bind-ok, bind-err, ok_or-runs, map_err-ok, map_err-runs,
}
use rs_detritus.Storage.{SourceKey, new_source_key}
use rs_detritus.Auth.{TokenContext, permits}
use rs_detritus.RateLimit.{RateLimiter, check_crashes}
use rs_detritus.Protocol.{CrashMetadata, crash_metadata, protocol_version}
use rs_detritus.Schemas.{SchemaError, validate}
use rs_detritus.Schemas.Default.{validate-runs}
use rs_detritus.RateLimit.Buckets.{check-runs}
use rs_detritus.Crashes.{
  CrashError, CrashResponse, Chunk, data_chunk, broken_chunk, Field, part, broken_part,
  permission_denied, rate_limited, internal, storage, Libraries, Part, json,
}
use rs_detritus.Crashes.Laws.{LibraryLaws}
use rs_detritus.Crashes.Handler.{
  Upload, World, Config, Opened, check_version, open_first, is_named, Serving, on_metrics,
  limit_crashes, report_schema, admit, open_upload, read_chunks, read_metadata, header_text,
  first_part, crashes_inner, collect_parts, finish,
}

module _ (L : Libraries) (laws : LibraryLaws L) (config : Config L) where
  -- Everything that the gate asks for.
  pub record IsAdmitted (token : TokenContext) (metadata : CrashMetadata L.Json) (w : World L)
      (source : SourceKey) : Type 0 where
    pub valid : new_source_key metadata.source.project metadata.source.install_id ≡ ok source
    pub permitted : permits token source ≡ true
    pub in_limit : (check_crashes L.float token.id source w.now w.limiter).0 ≡ ok tt
    pub value : L.Json
    pub is_value : L.metadata_value metadata ≡ ok value
    pub accepted :
        validate L.Json config.schema_registry metadata.source.project crash_metadata value ≡ ok tt

  -- The disk is as it was, and the clock too.
  pub record Untouched (w w' : World L) : Type 0 where
    pub disk : w'.disk ≡ w.disk
    pub now : w'.now ≡ w.now

  new_source_key-runs : (a b : Str) → ¬ (new_source_key a b ≡ panic)
  unfolding new_source_key
  new_source_key-runs a b e = ground arith

  check_crashes-runs :
      (t : Str) (s : SourceKey) (now : ℕ) (l : RateLimiter L.float)
      → ¬ ((check_crashes L.float t s now l).0 ≡ panic)
  unfolding check_crashes
  check_crashes-runs t s now l = check-runs L.float (bytes "crashes") t s _ _ now l

  read_chunks-runs : (cs : List Chunk) (bs : Str) → ¬ (read_chunks L cs bs ≡ panic)
  unfolding read_chunks
  read_chunks-runs [] bs e = cc e
  read_chunks-runs (broken_chunk ∷ cs) bs e = cc e
  read_chunks-runs (data_chunk b ∷ cs) bs e = ground (arith, read_chunks-runs cs (bs ++ b))

  read_metadata-runs : (field : Field) → ¬ (read_metadata L field ≡ panic)
  unfolding read_metadata
  read_metadata-runs field =
      and_then-runs (read_chunks L field.chunks []) _ (read_chunks-runs field.chunks [])
        (λ bs. ok_or-runs json _)

  header_text-runs : (h : Option (Option Str)) → ¬ (header_text L h ≡ panic)
  unfolding header_text
  header_text-runs none e = cc e
  header_text-runs (some none) e = cc e
  header_text-runs (some (some s)) e = cc e

  first_part-runs : (ps : List Part) → ¬ (first_part L ps ≡ panic)
  unfolding first_part
  first_part-runs [] e = cc e
  first_part-runs (broken_part ∷ ps) e = cc e
  first_part-runs (part f ∷ ps) e = cc e

  check_version-runs :
      (ps : List Part) (m : CrashMetadata L.Json) → ¬ (check_version L ps m ≡ panic)
  unfolding check_version
  check_version-runs ps m e = ground arith

  open_first-runs : (first : Field × List Part) → ¬ (open_first L first ≡ panic)
  unfolding open_first
  open_first-runs (field, ps) e = ground (
    arith,
    and_then-runs (read_metadata L field) (check_version L ps) (read_metadata-runs field)
        (check_version-runs ps),
  )

  pub open_upload-runs : (u : Upload) → ¬ (open_upload L u ≡ panic)
  unfolding open_upload
  open_upload-runs u =
      and_then-runs (header_text L u.content_type) _ (header_text-runs u.content_type)
        λ content_type.
          and_then-runs (ok_or _ (L.parse_boundary content_type)) _ (ok_or-runs _ _) λ boundary.
            and_then-runs (first_part L (L.parts boundary u.body)) (open_first L)
              (first_part-runs (L.parts boundary u.body)) open_first-runs

  check_version-ok :
      (ps : List Part) (m : CrashMetadata L.Json) {o : Opened L}
      → check_version L ps m ≡ ok o
      → o.0.schema_version ≡ protocol_version
  unfolding check_version
  check_version-ok ps m {o} h = elim (Bool-cases (nat_eqb m.schema_version protocol_version)) [
    | inl same ↦
        let there : (m, ps) ≡ o = cc (rw same at h) in
        ap (λ (x : Opened L). x.0.schema_version) (sym there)
        ∙ (nat_eqb_iff m.schema_version protocol_version).0 same
    | inr other ↦ let refused = rw other at h in cc refused
  ]

  open_first-ok :
      (first : Field × List Part) {o : Opened L}
      → open_first L first ≡ ok o
      → o.0.schema_version ≡ protocol_version
  unfolding open_first
  open_first-ok (field, ps) {o} h = elim (Bool-cases (is_named L (bytes "metadata") field.name)) [
    | inl named ↦
        let (m, _, checked) =
          and_then-ok (read_metadata L field) (check_version L ps) (rw named at h) in
        check_version-ok ps m checked
    | inr unnamed ↦ let refused = rw unnamed at h in cc refused
  ]

  -- An upload that is opened has the protocol version of the server.
  pub open_upload-version :
      (u : Upload) {o : Opened L} → open_upload L u ≡ ok o → o.0.schema_version ≡ protocol_version
  unfolding open_upload
  open_upload-version u h =
      let (content_type, _, h1) = and_then-ok (header_text L u.content_type) _ h in
      let (boundary, _, h2) = and_then-ok (ok_or _ (L.parse_boundary content_type)) _ h1 in
      let (first, _, h3) = and_then-ok (first_part L (L.parts boundary u.body)) (open_first L) h2 in
      open_first-ok first h3

  limit_crashes-Ends :
      (token : TokenContext) (source : SourceKey) (w : World L)
      → Ends
          (Untouched w)
          (λ _ _. (check_crashes L.float token.id source w.now w.limiter).0 ≡ ok tt)
          (limit_crashes L token source w)
  unfolding limit_crashes
  limit_crashes-Ends token source w =
      let r = (check_crashes L.float token.id source w.now w.limiter).0 in
      Ends-weaken (λ a _. map_err (λ _. rate_limited) r ≡ ok a) _ _
        (λ a t e. map_err-ok (λ _. rate_limited) r e)
        (lift-Ends (map_err (λ _. rate_limited) r) _
          (map_err-runs (λ _. rate_limited) r (check_crashes-runs token.id source w.now w.limiter))
          (record { disk = refl; now = refl }))

  report_schema-Ends :
      (r : Result SchemaError (Unit {0})) (w v : World L)
      → ¬ (r ≡ panic)
      → Untouched w v
      → Ends (Untouched w) (λ _ _. r ≡ ok tt) (report_schema L r v)
  unfolding report_schema on_metrics
  report_schema-Ends (ok a) w v n h = Ends-ok tt v h refl
  report_schema-Ends (err e) w v n h = Ends-err _ _ (record { disk = h.disk; now = h.now })
  report_schema-Ends panic w v n h = absurd (n refl)

  -- The gate leaves the disk as it was, whatever it answers. It lets an upload through only if project
  -- and installation name a source, the token permits it, the rate limit has room for it and the schema
  -- of the project accepts the metadata.
  pub admit-Ends :
      (token : TokenContext) (metadata : CrashMetadata L.Json) (w : World L)
      → Ends
          (Untouched w)
          (λ source _. IsAdmitted token metadata w source)
          (admit L config token metadata w)
  unfolding admit
  admit-Ends token metadata w =
      let fresh : Untouched w w = record { disk = refl; now = refl } in
      let named = new_source_key metadata.source.project metadata.source.install_id in
      lift-bind-Ends _ (map_err storage named) _ w
        (map_err-runs storage named (new_source_key-runs _ _)) fresh
        λ source valid.
          guard-bind-Ends _ (permits token source) permission_denied _ w fresh λ permitted.
            Ends-bind (λ _ _. (check_crashes L.float token.id source w.now w.limiter).0 ≡ ok tt) _
              (limit_crashes L token source) _ w (limit_crashes-Ends token source w)
              λ _ w1 h1 in_limit.
                lift-bind-Ends _ (map_err internal (L.metadata_value metadata)) _ w1
                  (map_err-runs internal (L.metadata_value metadata)
                    (laws.metadata_value-runs metadata))
                  h1
                  λ value is_value.
                    let judged =
                      validate L.Json config.schema_registry metadata.source.project crash_metadata
                        value in
                    Ends-bind (λ _ _. judged ≡ ok tt) _ (report_schema L judged) _ w1
                      (report_schema-Ends judged w w1 (validate-runs L.Json _ _ _ _) h1)
                      λ _ w2 h2 accepted. Ends-ok source w2 h2 (record {
                        valid = map_err-ok storage named valid;
                        permitted = permitted;
                        in_limit = in_limit;
                        value = value;
                        is_value = map_err-ok internal (L.metadata_value metadata) is_value;
                        accepted = accepted;
                      })

  -- What `crashes_inner` does behind the gate, and behind the opening.
  abbrev parts_rest : Opened L → SourceKey → Serving L (ℕ × CrashResponse)
  parts_rest o source =
      collect_parts L config o.1 none [] >>= λ collected. finish L config source o.0 collected

  abbrev inner_rest : TokenContext → Opened L → Serving L (ℕ × CrashResponse)
  inner_rest token o = admit L config token o.0 >>= parts_rest o

  -- With libraries that keep `LibraryLaws`, an upload succeeds only if it opens, carries the
  -- protocol version of the server, and names a valid source which the token permits, for which
  -- the rate limit has room, and whose metadata the schema of the project accepts.
  pub crashes_inner-IsAdmitted :
      (token : TokenContext) (u : Upload) (w : World L) {r : ℕ × CrashResponse}
      → (crashes_inner L config token u w).0 ≡ ok r
      → (o : Opened L) × (source : SourceKey) × (open_upload L u ≡ ok o)
        × (o.0.schema_version ≡ protocol_version)
        × IsAdmitted token o.0 w source
  unfolding crashes_inner
  crashes_inner-IsAdmitted token u w h =
      let (o, opened, h1) = bind-ok (lift (open_upload L u)) (inner_rest token) w h in
      let (source, admitted, _) = bind-ok (admit L config token o.0) (parts_rest o) w h1 in
      (
        o,
        source,
        opened,
        open_upload-version u opened,
        (admit-Ends token o.0 w).returned source admitted,
      )

  -- With libraries that keep `LibraryLaws`, an upload that opens and that the gate refuses, for
  -- its source, its token, its rate or its metadata, ends with the error of the gate and changes
  -- nothing on the disk.
  pub crashes_inner-refused :
      (token : TokenContext) (u : Upload) (w : World L) (e : CrashError) (o : Opened L)
      → open_upload L u ≡ ok o
      → (admit L config token o.0 w).0 ≡ err e
      → ((crashes_inner L config token u w).0 ≡ err e)
        × ((crashes_inner L config token u w).1.disk ≡ w.disk)
  unfolding crashes_inner
  crashes_inner-refused token u w e o opened refused =
      let same : crashes_inner L config token u w ≡ (err e, (admit L config token o.0 w).1) =
        rw opened (bind-err (admit L config token o.0) (parts_rest o) w e refused) in
      (ap (λ x. x.0) same, ap (λ x. x.1.disk) same ∙ (admit-Ends token o.0 w).kept.disk)
