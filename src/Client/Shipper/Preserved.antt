-- ===== src/Client/Shipper/Preserved.antt =====
-- What is pending stays, unless the server has it: that a state is no worse than an earlier one.
use mathlib.Core.Path.{subst}
use mathlib.Core.List.{append_assoc, append-nil}
use rs_detritus.Common.{
  Str, none, some, List, [], ◌++◌, ◌≡◌, refl, sym, ◌∙◌, ap, ◌⊎◌, inl, inr, nat_eq, list_eq, eq_iff,
  if◌then◌else◌, Bool-cases, ◌==◌,
}
use rs_detritus.Common.Table.{lookup, lookup-remove}
use rs_detritus.Client.{ClientLibraries}
use rs_detritus.Client.Spool.{Entry}
use rs_detritus.Client.Upload.{ShipConfig, Reply, Request, World}
use rs_detritus.Client.Shipper.Delivery.{IsDelivered, IsDelivered-extend, Untouched, IsShipped}

module _ (C : ClientLibraries) (to : Entry → C.Url → Type 0) (token : Str)
    (config : ShipConfig) where
  -- Every entry that was pending is pending as it was, or the server has it. None appeared, and the
  -- requests are those of before and later ones.
  pub record IsPreserved (w0 w : World C) : Type 0 where
    pub entries :
        (name : Str) (entry : Entry)
        → lookup name w0.spool.pending ≡ some entry
        → (lookup name w.spool.pending ≡ some entry)
          ⊎ IsDelivered C to token config entry w.exchanged
    pub none_new :
        (name : Str) → lookup name w0.spool.pending ≡ none → lookup name w.spool.pending ≡ none
    pub longer : (more : List (Request C × Reply)) × (w.exchanged ≡ w0.exchanged ++ more)

  pub IsPreserved-refl : (w : World C) → IsPreserved w w
  IsPreserved-refl w = record {
    entries = λ name entry e. inl e;
    none_new = λ name e. e;
    longer = ([], sym (append-nil w.exchanged));
  }

  pub IsPreserved-trans :
      (w0 w1 w2 : World C) → IsPreserved w0 w1 → IsPreserved w1 w2 → IsPreserved w0 w2
  IsPreserved-trans w0 w1 w2 a b = record {
    entries = λ name entry e. elim (a.entries name entry e) [
      | inl e' ↦ b.entries name entry e'
      | inr d ↦ inr (
          subst (IsDelivered C to token config entry) (sym b.longer.1)
            (IsDelivered-extend C to token config entry w1.exchanged b.longer.0 d))
    ];
    none_new = λ name e. b.none_new name (a.none_new name e);
    longer = (
      a.longer.0 ++ b.longer.0,
      b.longer.1
          ∙ ap (λ xs. xs ++ b.longer.0) a.longer.1
          ∙ append_assoc w0.exchanged a.longer.0 b.longer.0,
    );
  }

  abbrev pub Same : World C → World C → Type 0
  Same w = Untouched C w.spool.pending w.exchanged

  pub Same-refl : (w : World C) → Same w w
  Same-refl w = (refl, ([], sym (append-nil w.exchanged)))

  pub Same-IsPreserved : (w w' : World C) → Same w w' → IsPreserved w w'
  Same-IsPreserved w w' (k, longer) = record {
    entries = λ name entry e. inl (ap (lookup name) k ∙ e);
    none_new = λ name e. ap (lookup name) k ∙ e;
    longer = longer;
  }

  abbrev pub Moved : Str → World C → World C → Type 0
  Moved name w = IsShipped C w.spool.pending w.exchanged to token config name

  -- After a move the pending entries are those of before but the moved one.
  pub Moved-lookup :
      (name other : Str) (w w' : World C)
      → Moved name w w'
      → lookup other w'.spool.pending
        ≡ (if name == other then none else lookup other w.spool.pending)
  Moved-lookup name other w w' s =
      ap (lookup other) s.moved.gone ∙ lookup-remove name other w.spool.pending

  pub Moved-IsPreserved : (name : Str) (w w' : World C) → Moved name w w' → IsPreserved w w'
  Moved-IsPreserved name w w' s = record {
    entries = λ other entry e. elim (Bool-cases (name == other)) [
      | inl same ↦
          let there : lookup name w.spool.pending ≡ some entry =
            ap (λ n. lookup n w.spool.pending) ((eq_iff name other).0 same) ∙ e in
          let entries : s.moved.entry ≡ entry = cc (sym s.moved.was ∙ there) in
          inr (subst (λ x. IsDelivered C to token config x w'.exchanged) entries s.delivered)
      | inr differs ↦ inl (Moved-lookup name other w w' s ∙ (rw differs e))
    ];
    none_new = λ other e. elim (Bool-cases (name == other)) [
      | inl same ↦ Moved-lookup name other w w' s ∙ (rw same refl)
      | inr differs ↦ Moved-lookup name other w w' s ∙ (rw differs e)
    ];
    longer = s.longer;
  }
