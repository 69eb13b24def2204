-- ===== src/Auth/Store.antt =====
-- What the token store holds, and whom it lets in.
use rs_detritus.Common.{
  Str, true, false, none, some, List, [], ◌∷◌, ◌++◌, map, ok, err, and_then, ◌≡◌, ◌≢◌, ◌⊎◌, inl,
  inr, refl, All, Bool-cases, ap, ◌∙◌,
}
use rs_detritus.Auth.{
  Argon2, TokenContext, TokenEntry, invalid_hash, to_context, verify, authenticate, check_hash,
  collect_tokens, require_tokens, from_entries,
}

module _ (A : Argon2) where
  -- Every entry has a hash that Argon2 can read.
  abbrev pub Readable : TokenEntry → Type 0
  Readable e = (h : A.Hash) × (A.parse_hash e.secret ≡ ok h)

  check_hash-Readable : (e : TokenEntry) → Readable e → check_hash A e ≡ ok (to_context e)
  unfolding check_hash
  check_hash-Readable e (h, readable) = rw (readable, check_hash)

  check_hash-malformed :
      (e : TokenEntry) (message : Str)
      → A.parse_hash e.secret ≡ err message
      → check_hash A e ≡ err (invalid_hash e.id message)
  unfolding check_hash
  check_hash-malformed e message malformed = rw (malformed, check_hash)

  collect_tokens-cons :
      (e : TokenEntry) (es : List TokenEntry)
      → collect_tokens A (e ∷ es)
        ≡ and_then (check_hash A e) (λ t. and_then (collect_tokens A es) (λ ts. ok (t ∷ ts)))
  unfolding collect_tokens
  collect_tokens-cons e es = refl

  collect_tokens-Readable :
      (es : List TokenEntry) → All Readable es → collect_tokens A es ≡ ok (map to_context es)
  unfolding collect_tokens
  collect_tokens-Readable [] h = refl
  collect_tokens-Readable (e ∷ es) h =
      collect_tokens-cons e es ∙ rw (check_hash-Readable e h.0, collect_tokens-Readable es h.1)

  collect_tokens-malformed :
      (es fs : List TokenEntry) (e : TokenEntry) (message : Str)
      → All Readable es
      → A.parse_hash e.secret ≡ err message
      → collect_tokens A (es ++ (e ∷ fs)) ≡ err (invalid_hash e.id message)
  collect_tokens-malformed [] fs e message h malformed =
      collect_tokens-cons e fs ∙ rw (check_hash-malformed e message malformed)
  collect_tokens-malformed (d ∷ es) fs e message h malformed =
      collect_tokens-cons d _
      ∙ rw (check_hash-Readable d h.0, collect_tokens-malformed es fs e message h.1 malformed)

  require_tokens-map :
      (es : List TokenEntry)
      → es ≢ []
      → require_tokens A (map to_context es) ≡ ok (map to_context es)
  unfolding require_tokens
  require_tokens-map [] h = absurd (h refl)
  require_tokens-map (e ∷ es) h = refl

  from_entries-bind :
      (es : List TokenEntry) → from_entries A es ≡ and_then (collect_tokens A es) (require_tokens A)
  unfolding from_entries
  from_entries-bind es = refl

  -- A configuration with a token, all of whose hashes are readable, gives the store of its tokens in
  -- their order.
  pub from_entries-Readable :
      (es : List TokenEntry)
      → All Readable es
      → es ≢ []
      → from_entries A es ≡ ok (map to_context es)
  from_entries-Readable es h some_entry =
      from_entries-bind es ∙ rw (collect_tokens-Readable es h) (require_tokens-map es some_entry)

  -- The first hash that cannot be read is the error, with the identifier of its token, whatever stands
  -- behind it.
  pub from_entries-malformed :
      (es fs : List TokenEntry) (e : TokenEntry) (message : Str)
      → All Readable es
      → A.parse_hash e.secret ≡ err message
      → from_entries A (es ++ (e ∷ fs)) ≡ err (invalid_hash e.id message)
  from_entries-malformed es fs e message h malformed =
      from_entries-bind _ ∙ rw (collect_tokens-malformed es fs e message h malformed)

  -- Whom the store lets in: the first of its tokens that verifies the secret, and nobody only if none
  -- of them does.
  pub authenticate_first :
      (ts : List TokenContext) (presented : Str)
      → ((authenticate A ts presented ≡ none) × All (λ t. verify A t presented ≡ false) ts)
        ⊎ ((before : List TokenContext) × (t : TokenContext) × (after : List TokenContext)
            × (authenticate A ts presented ≡ some t)
            × (ts ≡ before ++ (t ∷ after))
            × (verify A t presented ≡ true)
            × All (λ u. verify A u presented ≡ false) before)
  unfolding authenticate
  authenticate_first [] presented = inl (refl, tt)
  authenticate_first (t ∷ ts) presented = elim (Bool-cases (verify A t presented)) [
    | inl fits ↦ inr ([], t, ts, rw fits, refl, fits, tt)
    | inr other ↦ elim (authenticate_first ts presented) [
      | inl (e, all) ↦ inl (rw other e, (other, all))
      | inr (before, u, after, e, split, fits, all) ↦
          inr (t ∷ before, u, after, rw other e, ap (λ us. t ∷ us) split, fits, (other, all))
    ]
  ]
