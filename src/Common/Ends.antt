-- ===== src/Common/Ends.antt =====
-- What an action does to an invariant and what it returns: whatever the outcome the invariant holds
-- after it, a value that it returns has the property `Q`, and it does not panic.
use mathlib.Core.Path.{◌≡◌, refl, subst}
use mathlib.Core.Bool.{Bool, true, false}
use rs_detritus.Common.Tests.{if◌then◌else◌}
use rs_detritus.Common.Outcome.{
  Result, ok, err, panic, Action, continue, pure, throw, lift, map_err, and_then, ok_or, ◌>>=◌,
}
use mathlib.Core.Option.{Option, none, some}

pub record Ends {S E A : Type 0} (I : S → Type 0) (Q : A → S → Type 0) (r : Result E A × S)
    : Type 0 where
  pub kept : I r.1
  pub returned : (a : A) → r.0 ≡ ok a → Q a r.1
  pub runs : ¬ (r.0 ≡ panic)

module _ {S E A : Type 0} {I : S → Type 0} {Q : A → S → Type 0} where
  pub Ends-ok : (a : A) (s : S) → I s → Q a s → Ends {E = E} I Q (ok a, s)
  Ends-ok a s i q = record {
    kept = i;
    returned = λ b e. let same : a ≡ b = cc e in subst (λ c. Q c s) same q;
    runs = λ e. cc e;
  }

  pub Ends-err : (e : E) (s : S) → I s → Ends {A = A} I Q (err e, s)
  Ends-err e s i = record { kept = i; returned = λ b e. cc e; runs = λ e. cc e }

module _ {S E A B : Type 0} {I : S → Type 0} where
  continue-Ends :
      (Q : A → S → Type 0) (R : B → S → Type 0) (r : Result E A) (s : S) (f : A → Action S E B)
      → Ends I Q (r, s)
      → ((a : A) → Q a s → Ends I R (f a s))
      → Ends I R (continue r f s)
  continue-Ends Q R (ok a) s f h k = k a (h.returned a refl)
  continue-Ends Q R (err e) s f h k = Ends-err e s h.kept
  continue-Ends Q R panic s f h k = absurd (h.runs refl)

  -- The rule for `?` and a semicolon.
  pub Ends-bind :
      (Q : A → S → Type 0) (R : B → S → Type 0) (m : Action S E A) (f : A → Action S E B) (s : S)
      → Ends I Q (m s)
      → ((a : A) (t : S) → I t → Q a t → Ends I R (f a t))
      → Ends I R ((m >>= f) s)
  Ends-bind Q R m f s h k = let (r, t) = m s in continue-Ends Q R r t f h (λ a. k a t h.kept)

module _ {S E A : Type 0} {I : S → Type 0} where
  pub Ends-weaken :
      (Q R : A → S → Type 0) (r : Result E A × S)
      → ((a : A) (s : S) → Q a s → R a s)
      → Ends I Q r
      → Ends I R r
  Ends-weaken Q R r f h = record {
    kept = h.kept;
    returned = λ a e. f a r.1 (h.returned a e);
    runs = h.runs;
  }

module _ {S E A : Type 0} {I : S → Type 0} {Q : A → S → Type 0} {r : Result E A × S} where
  -- The invariant also holds where a value is returned.
  pub Ends-keep : Ends I Q r → Ends I (λ a s. I s × Q a s) r
  Ends-keep h = record { kept = h.kept; returned = λ a e. (h.kept, h.returned a e); runs = h.runs }

  -- What follows from the invariant holds too.
  pub Ends-imply : (J : S → Type 0) → ((s : S) → I s → J s) → Ends I Q r → Ends J Q r
  Ends-imply J f h = record { kept = f r.1 h.kept; returned = h.returned; runs = h.runs }

module _ {S E D A : Type 0} {I : S → Type 0} (Q : A → S → Type 0) (f : E → D) where
  pub map_err-Ends : (r : Result E A) (s : S) → Ends I Q (r, s) → Ends I Q (map_err f r, s)
  map_err-Ends (ok a) s h = Ends-ok a s h.kept (h.returned a refl)
  map_err-Ends (err e) s h = Ends-err (f e) s h.kept
  map_err-Ends panic s h = absurd (h.runs refl)

module _ {S E A : Type 0} {I : S → Type 0} where
  pub lift-Ends :
      (r : Result E A) (s : S) → ¬ (r ≡ panic) → I s → Ends I (λ a _. r ≡ ok a) (lift r s)
  lift-Ends (ok a) s n h = Ends-ok a s h refl
  lift-Ends (err e) s n h = Ends-err e s h
  lift-Ends panic s n h = absurd (n refl)

module _ {S E A B : Type 0} {I : S → Type 0} (Q : B → S → Type 0) where
  -- A step that only computes: the rest runs from the same state, and knows the value.
  pub lift-bind-Ends :
      (r : Result E A) (f : A → Action S E B) (s : S)
      → ¬ (r ≡ panic)
      → I s
      → ((a : A) → r ≡ ok a → Ends I Q (f a s))
      → Ends I Q ((lift r >>= f) s)
  lift-bind-Ends (ok a) f s n h k = k a refl
  lift-bind-Ends (err e) f s n h k = Ends-err e s h
  lift-bind-Ends panic f s n h k = absurd (n refl)

module _ {S E B : Type 0} {I : S → Type 0} (Q : B → S → Type 0) where
  -- An early return of an error.
  pub guard-bind-Ends :
      (b : Bool) (e : E) (m : Action S E B) (s : S)
      → I s
      → (b ≡ true → Ends I Q (m s))
      → Ends I Q (((if b then pure tt else throw e) >>= (λ _. m)) s)
  guard-bind-Ends true e m s h k = k refl
  guard-bind-Ends false e m s h k = Ends-err e s h

pub map_err-ok :
    {E D A : Type 0} (f : E → D) (r : Result E A) {a : A} → map_err f r ≡ ok a → r ≡ ok a
map_err-ok f (ok b) h = cc h
map_err-ok f (err e) h = cc h
map_err-ok f panic h = cc h

pub map_err-runs :
    {E D A : Type 0} (f : E → D) (r : Result E A) → ¬ (r ≡ panic) → ¬ (map_err f r ≡ panic)
map_err-runs f (ok b) n h = cc h
map_err-runs f (err e) n h = cc h
map_err-runs f panic n h = n refl

pub and_then-runs :
    {E A B : Type 0} (r : Result E A) (f : A → Result E B)
    → ¬ (r ≡ panic)
    → ((a : A) → ¬ (f a ≡ panic))
    → ¬ (and_then r f ≡ panic)
and_then-runs (ok a) f n m h = m a h
and_then-runs (err e) f n m h = cc h
and_then-runs panic f n m h = n refl

pub ok_or-runs : {E A : Type 0} (e : E) (o : Option A) → ¬ (ok_or e o ≡ panic)
ok_or-runs e none h = cc h
ok_or-runs e (some a) h = cc h

-- A test between a value and an error.
pub choice-runs :
    {E A : Type 0} (b : Bool) (a : A) (e : E) → ¬ ((if b then ok a else err e) ≡ panic)
choice-runs true a e h = cc h
choice-runs false a e h = cc h

pub choice-ok :
    {E A : Type 0} (b : Bool) (a : A) (e : E) {c : A} → (if b then ok a else err e) ≡ ok c → c ≡ a
choice-ok true a e h = cc h
choice-ok false a e h = cc h

pub ok_or-some : {E A : Type 0} (e : E) (o : Option A) {a : A} → ok_or e o ≡ ok a → o ≡ some a
ok_or-some e none h = cc h
ok_or-some e (some b) h = cc h

pub and_then-ok :
    {E A B : Type 0} (r : Result E A) (f : A → Result E B) {b : B}
    → and_then r f ≡ ok b
    → (a : A) × (r ≡ ok a) × (f a ≡ ok b)
and_then-ok (ok a) f h = (a, refl, h)
and_then-ok (err e) f h = cc h
and_then-ok panic f h = cc h

module _ {S E A B : Type 0} where
  continue-ok :
      (r : Result E A) (f : A → Action S E B) (s : S) {b : B}
      → (continue r f s).0 ≡ ok b
      → (a : A) × (r ≡ ok a) × ((f a s).0 ≡ ok b)
  continue-ok (ok a) f s h = (a, refl, h)
  continue-ok (err e) f s h = cc h
  continue-ok panic f s h = cc h

  pub bind-ok :
      (m : Action S E A) (f : A → Action S E B) (s : S) {b : B}
      → ((m >>= f) s).0 ≡ ok b
      → (a : A) × ((m s).0 ≡ ok a) × ((f a (m s).1).0 ≡ ok b)
  bind-ok m f s h = let (r, t) = m s in continue-ok r f t h

  continue-err :
      (r : Result E A) (f : A → Action S E B) (s : S) (e : E)
      → r ≡ err e
      → continue r f s ≡ (err e, s)
  continue-err r f s e h = rw h

  pub bind-err :
      (m : Action S E A) (f : A → Action S E B) (s : S) (e : E)
      → (m s).0 ≡ err e
      → (m >>= f) s ≡ (err e, (m s).1)
  bind-err m f s e h = let (r, t) = m s in continue-err r f t e h
