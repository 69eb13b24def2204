-- ===== src/Client/Spool/Kept.antt =====
-- The operations that leave the pending entries as they are, and the one that takes an entry away.
use mathlib.Core.Path.{subst}
use mathlib.Core.List.{Sublist, nil-sublist}
use mathlib.Core.List.Sublist
use rs_detritus.Common.{
  Str, Bool, true, false, Option, none, some, List, [], ◌∷◌, Result, ok, err, panic, pure, ◌>>◌,
  ◌≡◌, refl, sym, ap, ◌∙◌, inl, inr, nat_eq, list_eq, ◌⊎◌, eq_self,
}
use rs_detritus.Common.Ends.{Ends, Ends-ok, Ends-err, Ends-bind, Ends-weaken}
use rs_detritus.Common.Table.{Table, lookup, insert, remove, lookup-insert}
use rs_detritus.Storage.{IoError, not_found, already_exists, other_io}
use rs_detritus.Client.Spool.{
  Entry, Event, works, fails, Spool, SpoolIo, operation, run_event, undamaged, io_step,
  read_pending, exists_pending, exists_sent, never_fails, remove_sent, rename_to_sent, rename_onto,
  file_of, found_or_missing, pending_entries, read_items, list_items, is_listed, keep_if,
  none_if_missing, names_of, sort, acquire_lock,
}

-- The pending entries are as they were.
abbrev pub Keeps : Table Str Entry → Spool → Type 0
Keeps p s = s.pending ≡ p

abbrev pub Nothing : {A : Type 0} → A → Spool → Type 0
Nothing a s = Unit

module _ (J I : Spool → Type 0) where
  -- What holds before an operation reads neither the events nor what a failure damages, and what is
  -- wanted behind it follows from it.
  pub record IsFramed (damage : Table Str Str → Spool → Spool) : Type 0 where
    pub events : (t : Spool) (es : List Event) → J t → J (record t { events = es })
    pub damaged : (left : Table Str Str) (t : Spool) → J t → J (damage left t)
    pub suffices : (t : Spool) → J t → I t

  pub operation-Ends :
      {A : Type 0} (Q : A → Spool → Type 0) (damage : Table Str Str → Spool → Spool) (m : SpoolIo A)
      (s : Spool)
      → IsFramed damage
      → ((t : Spool) → J t → Ends I Q (m t))
      → J s
      → Ends I Q (operation damage m s)
  unfolding operation
  operation-Ends {A} Q damage m s f works_out k = go s.events
    where
      go : (es : List Event) → Ends I Q (run_event damage m es s)
      go [] = works_out s k
      go (works ∷ es) = works_out _ (f.events s es k)
      go (fails e left ∷ es) = Ends-err e _ (f.suffices _ (f.damaged left _ (f.events s es k)))

keep_if-Sublist :
    (listed : Bool) (item : Str) (names items : List Str)
    → Sublist names items
    → Sublist (keep_if listed item names) (item ∷ items)
unfolding keep_if
keep_if-Sublist false item names items part = Sublist.cons item part
keep_if-Sublist true item names items part = Sublist.cons-cons item part

-- Some names of the folder, in the order of their text.
abbrev pub Lists : Table Str Entry → List Str → Spool → Type 0
Lists entries names s = (kept : List Str) × (names ≡ sort kept) × Sublist kept (names_of entries)

module _ (p : Table Str Entry) where
  Keeps-IsFramed : IsFramed (Keeps p) (Keeps p) undamaged
  Keeps-IsFramed = record { events = λ t es k. k; damaged = λ left t k. k; suffices = λ t k. k }

  found_or_missing-Ends :
      {A : Type 0} (o wanted : Option A) (t : Spool)
      → Keeps p t
      → o ≡ wanted
      → Ends (Keeps p) (λ a _. wanted ≡ some a) (found_or_missing o t)
  unfolding found_or_missing
  found_or_missing-Ends none wanted t k e = Ends-err not_found t k
  found_or_missing-Ends (some a) wanted t k e = Ends-ok a t k (sym e)

  pub read_pending-Ends :
      (name file : Str) (s : Spool)
      → Keeps p s
      → Ends (Keeps p) (λ a _. file_of (lookup name p) file ≡ some a) (read_pending name file s)
  unfolding read_pending
  read_pending-Ends name file s k =
      operation-Ends (Keeps p) (Keeps p) _ undamaged _ s Keeps-IsFramed
        (λ t k'.
          found_or_missing-Ends (file_of (lookup name t.pending) file) _ t k'
            (ap (λ q. file_of (lookup name q) file) k'))
        k

  never_fails-Ends :
      (r : Result IoError Bool × Spool)
      → Ends (Keeps p) Nothing r
      → Ends (Keeps p) Nothing (never_fails r)
  never_fails-Ends (ok b, s) h = h
  never_fails-Ends (err e, s) h = Ends-ok false s h.kept tt
  never_fails-Ends (panic, s) h = h

  pub exists_sent-Ends :
      (name : Str) (s : Spool) → Keeps p s → Ends (Keeps p) Nothing (exists_sent name s)
  unfolding exists_sent
  exists_sent-Ends name s k = never_fails-Ends _ (
      operation-Ends (Keeps p) (Keeps p) _ undamaged _ s Keeps-IsFramed (λ t k'. Ends-ok _ t k' tt)
        k)

  pub exists_pending-Ends :
      (name file : Str) (s : Spool)
      → Keeps p s
      → Ends (Keeps p) Nothing (exists_pending name file s)
  unfolding exists_pending
  exists_pending-Ends name file s k = never_fails-Ends _ (
      operation-Ends (Keeps p) (Keeps p) _ undamaged _ s Keeps-IsFramed (λ t k'. Ends-ok _ t k' tt)
        k)

  pub io_step-Ends : (s : Spool) → Keeps p s → Ends (Keeps p) Nothing (io_step s)
  unfolding io_step
  io_step-Ends s k =
      operation-Ends (Keeps p) (Keeps p) _ undamaged _ s Keeps-IsFramed (λ t k'. Ends-ok _ t k' tt)
        k

  pub remove_sent-Ends :
      (name : Str) (s : Spool) → Keeps p s → Ends (Keeps p) Nothing (remove_sent name s)
  unfolding remove_sent
  remove_sent-Ends name s k =
      operation-Ends (Keeps p) (Keeps p) _ _ _ s
        (record { events = λ t es k'. k'; damaged = λ left t k'. k'; suffices = λ t k'. k' })
        (λ t k'. Ends-ok tt _ k' tt) k

  none_if_missing-Ends :
      (Q : List Str → Type 0) (r : Result IoError (List Str)) (s : Spool)
      → Q []
      → Ends (Keeps p) (λ names _. Q names) (r, s)
      → Ends (Keeps p) (λ names _. Q names) (none_if_missing (r, s))
  none_if_missing-Ends Q (err not_found) s empty h = Ends-ok [] s h.kept empty
  none_if_missing-Ends Q (err already_exists) s empty h = h
  none_if_missing-Ends Q (err other_io) s empty h = h
  none_if_missing-Ends Q (ok xs) s empty h = h
  none_if_missing-Ends Q panic s empty h = h

  is_listed-Ends : (s : Spool) → Keeps p s → Ends (Keeps p) Nothing (is_listed s)
  unfolding is_listed
  is_listed-Ends s k = never_fails-Ends _ (
      Ends-bind Nothing Nothing (io_step >> io_step) (λ _. pure true) s
        (Ends-bind Nothing Nothing io_step (λ _. io_step) s (io_step-Ends s k)
          λ a t k' q. io_step-Ends t k')
        λ b t k' q. Ends-ok true t k' tt)

  list_items-Ends :
      (items : List Str) (s : Spool)
      → Keeps p s
      → Ends (Keeps p) (λ names _. Sublist names items) (list_items items s)
  unfolding list_items
  list_items-Ends [] s k = Ends-ok [] s k (nil-sublist [])
  list_items-Ends (item ∷ items) s k =
      Ends-bind Nothing _ is_listed _ s (is_listed-Ends s k) λ listed t k' q.
        Ends-bind (λ names _. Sublist names items) _ (list_items items) _ t
          (list_items-Ends items t k')
          λ names t' k'' part. Ends-ok _ t' k'' (keep_if-Sublist listed item names items part)

  -- What holds of no names and of those of the folder holds of the names that the listing is part of.
  listing-Ends :
      (folder : Spool → Table Str Entry) (Q : List Str → Type 0) (s : Spool)
      → Q []
      → ((t : Spool) → Keeps p t → Q (names_of (folder t)))
      → Keeps p s
      → Ends
          (Keeps p)
          (λ names _.
            (items : List Str) × Q items
            × (kept : List Str) × (names ≡ sort kept)
            × Sublist kept items)
          (pending_entries folder s)
  unfolding pending_entries read_items
  listing-Ends folder Q s empty all k =
      Ends-bind (λ items _. Q items) _ (read_items folder) _ s
        (none_if_missing-Ends Q _ _ empty (
          operation-Ends (Keeps p) (Keeps p) _ undamaged _ s Keeps-IsFramed
            (λ t k'. Ends-ok _ t k' (all t k')) k))
        λ items t k' q.
          Ends-bind (λ names _. Sublist names items) _ (list_items items) _ t
            (list_items-Ends items t k')
            λ names t' k'' part. Ends-ok _ t' k'' (items, q, names, refl, part)

  pub pending_entries-Ends :
      (s : Spool) → Keeps p s → Ends (Keeps p) (Lists p) (pending_entries (λ t. t.pending) s)
  pending_entries-Ends s k =
      Ends-weaken _ _ _
        (λ names t (items, q, kept, sorted, part). (kept, sorted, Sublist.trans part q))
        (listing-Ends (λ t. t.pending) (λ items. Sublist items (names_of p)) s
          (nil-sublist (names_of p))
          (λ t k'.
            subst (λ x. Sublist (names_of x) (names_of p)) (sym k') (Sublist.refl (names_of p)))
          k)

  pub sent_entries-Ends :
      (s : Spool) → Keeps p s → Ends (Keeps p) Nothing (pending_entries (λ t. t.sent) s)
  sent_entries-Ends s k =
      Ends-weaken _ Nothing _ (λ names t l. tt)
        (listing-Ends (λ t. t.sent) (λ items. Unit) s tt (λ t k'. tt) k)

  pub acquire_lock-Ends : (s : Spool) → Keeps p s → Ends (Keeps p) Nothing (acquire_lock s)
  unfolding acquire_lock
  acquire_lock-Ends s k =
      Ends-bind Nothing Nothing io_step (λ _. io_step >> io_step) s (io_step-Ends s k)
        λ a t k' q.
          Ends-bind Nothing Nothing io_step (λ _. io_step) t (io_step-Ends t k')
            λ b t' k'' q'. io_step-Ends t' k''

-- The pending entries lack one that was there, and that one is among the sent.
pub record IsMoved (p : Table Str Entry) (name : Str) (s : Spool) : Type 0 where
  pub entry : Entry
  pub was : lookup name p ≡ some entry
  pub gone : s.pending ≡ remove name p
  pub there : lookup name s.sent ≡ some entry

module _ (p : Table Str Entry) (name : Str) where
  abbrev pub Settles : Spool → Type 0
  Settles s = Keeps p s ⊎ IsMoved p name s

  rename_onto-Ends :
      (o : Option Entry) (occupied : Bool) (s : Spool)
      → Keeps p s
      → lookup name p ≡ o
      → Ends Settles (λ _. IsMoved p name) (rename_onto name o occupied s)
  unfolding rename_onto
  rename_onto-Ends none occupied s k e = Ends-err not_found s (inl k)
  rename_onto-Ends (some entry) true s k e = Ends-err other_io s (inl k)
  rename_onto-Ends (some entry) false s k e =
      let t = record s { pending = remove name s.pending; sent = insert name entry s.sent } in
      let moved : IsMoved p name t = record {
        entry = entry;
        was = e;
        gone = ap (remove name) k;
        there = lookup-insert name name entry s.sent ∙ rw (eq_self name) refl;
      } in
      Ends-ok tt t (inr moved) moved

  pub rename_to_sent-Ends :
      (s : Spool) → Keeps p s → Ends Settles (λ _. IsMoved p name) (rename_to_sent name s)
  unfolding rename_to_sent
  rename_to_sent-Ends s k =
      operation-Ends (Keeps p) Settles _ undamaged _ s
        (record { events = λ t es k'. k'; damaged = λ left t k'. k'; suffices = λ t k'. inl k' })
        (λ t k'. rename_onto-Ends (lookup name t.pending) _ t k' (sym (ap (lookup name) k'))) k
