-- ===== src/Client/Spool/Working.antt =====
-- The operations on an entry where the disk works.
use mathlib.Core.Path.{subst}
use rs_detritus.Common.{
  Str, none, some, [], Result, ok, err, panic, continue, ◌>>=◌, ◌≡◌, refl, ap, ◌∙◌, nat_eq, list_eq,
  eq_self, true, List, ◌∷◌, step_on,
}
use rs_detritus.Common.Table.{Table, lookup, insert, remove, lookup-insert}
use rs_detritus.FilePath.{FilePath}
use rs_detritus.Storage.{IoError}
use rs_detritus.Client.Spool.{
  Entry, Spool, SpoolIo, operation, undamaged, read_outside, create_pending, write_pending,
  found_or_missing, entry_or_new, written_at, read_pending, exists_sent, remove_sent,
  rename_to_sent, rename_onto, io_step, acquire_lock, pending_entries, none_if_missing, is_listed,
  list_items, read_items, keep_if, sort, names_of, holds_files, is_some, never_fails, file_of,
}

-- It returns this value, in a state with this property.
pub record Returns {A : Type 0} (a : A) (P : Spool → Type 0) (r : Result IoError A × Spool)
    : Type 0 where
  pub value : r.0 ≡ ok a
  pub after : P r.1

module _ {A B : Type 0} where
  continue-Returns :
      (a : A) (b : B) (P Q : Spool → Type 0) (f : A → SpoolIo B) (r : Result IoError A) (t : Spool)
      → Returns a P (r, t)
      → ((u : Spool) → P u → Returns b Q (f a u))
      → Returns b Q (continue r f t)
  continue-Returns a b P Q f (ok a') t h k =
      let same : a ≡ a' = cc h.value in subst (λ x. Returns b Q (f x t)) same (k t h.after)
  continue-Returns a b P Q f (err e) t h k = cc h.value
  continue-Returns a b P Q f panic t h k = cc h.value

  pub Returns-bind :
      (a : A) (b : B) (P Q : Spool → Type 0) (m : SpoolIo A) (f : A → SpoolIo B) (s : Spool)
      → Returns a P (m s)
      → ((t : Spool) → P t → Returns b Q (f a t))
      → Returns b Q ((m >>= f) s)
  Returns-bind a b P Q m f s h k = let (r, t) = m s in continue-Returns a b P Q f r t h k

operation-works :
    {A : Type 0} (damage : Table Str Str → Spool → Spool) (m : SpoolIo A) (s : Spool)
    → s.events ≡ []
    → operation damage m s ≡ m s
unfolding operation
operation-works damage m s quiet = rw quiet refl

-- The entry `dir` has these files, the disk works, and these are the files elsewhere.
pub record HasFiles (dir : Str) (outside : Table FilePath Str) (files : Table Str Str) (s : Spool)
    : Type 0 where
  pub entry : Entry
  pub there : lookup dir s.pending ≡ some entry
  pub content : entry.files ≡ files
  pub quiet : s.events ≡ []
  pub elsewhere : s.outside ≡ outside

module _ (dir : Str) (outside : Table FilePath Str) where
  pub create_pending-HasFiles :
      (s : Spool)
      → s.events ≡ []
      → s.outside ≡ outside
      → lookup dir s.pending ≡ none
      → Returns tt (HasFiles dir outside []) (create_pending dir s)
  unfolding create_pending
  create_pending-HasFiles s quiet elsewhere fresh =
      rw (operation-works undamaged _ s quiet) (record {
        value = refl;
        after = record {
          entry = entry_or_new s.now (lookup dir s.pending);
          there = lookup-insert dir dir _ s.pending ∙ (rw (eq_self dir) refl);
          content = ap (λ o. (entry_or_new s.now o).files) fresh;
          quiet = quiet;
          elsewhere = elsewhere;
        };
      })

  pub read_outside-HasFiles :
      (files : Table Str Str) (path : FilePath) (contents : Str) (s : Spool)
      → lookup path outside ≡ some contents
      → HasFiles dir outside files s
      → Returns contents (HasFiles dir outside files) (read_outside path s)
  unfolding read_outside found_or_missing
  read_outside-HasFiles files path contents s found h =
      let here : lookup path s.outside ≡ some contents = ap (lookup path) h.elsewhere ∙ found in
      rw (operation-works undamaged _ s h.quiet, here) (record { value = refl; after = h })

  pub write_pending-HasFiles :
      (files : Table Str Str) (file contents : Str) (s : Spool)
      → HasFiles dir outside files s
      → Returns tt
          (HasFiles dir outside (insert file contents files))
          (write_pending dir file contents s)
  unfolding write_pending
  write_pending-HasFiles files file contents s h =
      rw (operation-works _ _ s h.quiet, h.there)
        (record {
          value = refl;
          after = record {
            entry = record {
              files = insert file contents h.entry.files;
              modified = written_at file s.now h.entry;
            };
            there = lookup-insert dir dir _ s.pending ∙ (rw (eq_self dir) refl);
            content = ap (insert file contents) h.content;
            quiet = h.quiet;
            elsewhere = h.elsewhere;
          };
        })

module _ (name : Str) (s : Spool) (quiet : s.events ≡ []) where
  pub read_pending-works :
      (file contents : Str) (entry : Entry)
      → lookup name s.pending ≡ some entry
      → lookup file entry.files ≡ some contents
      → read_pending name file s ≡ (ok contents, s)
  unfolding read_pending found_or_missing
  read_pending-works file contents entry there found =
      operation-works undamaged _ s quiet
      ∙ ap (λ o. found_or_missing (file_of o file) s) there
      ∙ ap (λ o. found_or_missing o s) found

  pub exists_sent-works : exists_sent name s ≡ (ok (is_some (lookup name s.sent)), s)
  unfolding exists_sent
  exists_sent-works = ap never_fails (operation-works undamaged _ s quiet)

  pub remove_sent-works : remove_sent name s ≡ (ok tt, record s { sent = remove name s.sent })
  unfolding remove_sent
  remove_sent-works = operation-works _ _ s quiet

  pub rename_to_sent-works :
      (entry : Entry)
      → lookup name s.pending ≡ some entry
      → lookup name s.sent ≡ none
      → rename_to_sent name s
        ≡ (ok tt, record s { pending = remove name s.pending; sent = insert name entry s.sent })
  unfolding rename_to_sent rename_onto
  rename_to_sent-works entry there free =
      operation-works undamaged _ s quiet
      ∙ ap (λ o. rename_onto name o (holds_files (lookup name s.sent)) s) there
      ∙ ap (λ o. rename_onto name (some entry) (holds_files o) s) free

module _ (s : Spool) (quiet : s.events ≡ []) where
  pub io_step-works : io_step s ≡ (ok tt, s)
  unfolding io_step
  io_step-works = operation-works undamaged _ s quiet

  pub acquire_lock-works : acquire_lock s ≡ (ok tt, s)
  unfolding acquire_lock
  acquire_lock-works = rw (io_step-works, io_step-works, io_step-works) refl

  is_listed-works : is_listed s ≡ (ok true, s)
  unfolding is_listed
  is_listed-works = rw (io_step-works, io_step-works) refl

  list_items-works : (names : List Str) → list_items names s ≡ (ok names, s)
  unfolding list_items keep_if
  list_items-works [] = refl
  list_items-works (name ∷ names) =
      step_on is_listed _ s s true _ is_listed-works
        (step_on (list_items names) _ s s names _ (list_items-works names) refl)

  pub pending_entries-works :
      (folder : Spool → Table Str Entry)
      → pending_entries folder s ≡ (ok (sort (names_of (folder s))), s)
  unfolding pending_entries read_items
  pending_entries-works folder =
      step_on (read_items folder) _ s s (names_of (folder s)) _
        (ap none_if_missing (operation-works undamaged _ s quiet))
        (step_on (list_items (names_of (folder s))) _ s s _ _
          (list_items-works (names_of (folder s))) refl)
